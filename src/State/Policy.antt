-- ===== src/State/Policy.antt =====
-- app/state/policy.py: the typed policy. Reading it from YAML is not modelled.
use discord_personality_bot.Base.{ℕ, String, Bool, false, Option, none, some, [], text_test}
use discord_personality_bot.Base.Dict.{Dict, lookup}
use discord_personality_bot.Number.{Float}

pub record DomainPolicy : Type 0 where
  pub value_min : Option Float
  pub value_max : Option Float
  pub max_delta_per_event : Option Float
  pub requires_consolidation : Bool
  pub min_evidence_count : ℕ

pub record ArbitrationPolicy : Type 0 where
  pub policy_version : ℕ
  pub defaults : DomainPolicy
  pub domains : Dict String DomainPolicy

unfoldable pub for_domain : ArbitrationPolicy → String → DomainPolicy
for_domain policy domain = elim (lookup domain policy.domains) [
  | none ↦ policy.defaults
  | some found ↦ found
]

-- The policy of unit tests, without bounds.
unfoldable pub permissive : ArbitrationPolicy
permissive = record {
  policy_version = 1;
  defaults = record {
    value_min = none;
    value_max = none;
    max_delta_per_event = none;
    requires_consolidation = false;
    min_evidence_count = 0;
  };
  domains = [];
}
