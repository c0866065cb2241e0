-- ===== src/State/Arbitrator/Screen.antt =====
-- app/state/arbitrator.py: the screening of one proposal, and of all.
use discord_personality_bot.Base.{
  Bool, not, ◌&&◌, ◌||◌, Option, none, some, List, [], ◌∷◌, ltb, if◌then◌else◌,
}
use discord_personality_bot.Base.Lists.{length}
use discord_personality_bot.Number.{is_finite}
use discord_personality_bot.State.Value.{number}
use discord_personality_bot.State.Ownership.{is_known_domain, may_write}
use discord_personality_bot.State.Layers.{is_deep, is_consolidation_writer}
use discord_personality_bot.State.Policy.{DomainPolicy, ArbitrationPolicy, for_domain}
use discord_personality_bot.State.Proposal.{set, adjust, invalidate, Proposal}
use discord_personality_bot.State.Arbitrator.Records.{
  Reason, unknown_domain, not_state_owner, undeclared_layer, deep_update_requires_consolidation,
  insufficient_evidence, invalid_magnitude, Rejection,
}

-- The two checks on finite numbers at the end of `_screen`.
unfoldable pub screen_numbers : Proposal → Option Reason
screen_numbers p = elim p.operation [
  | adjust ↦ elim p.magnitude [
    | none ↦ some invalid_magnitude
    | some m ↦ if is_finite m then none else some invalid_magnitude
  ]
  | set ↦ elim p.value [
    | number x ↦ if is_finite x then none else some invalid_magnitude
    | _ ↦ none
  ]
  | invalidate ↦ none
]

-- The checks that read the policy of the domain.
unfoldable pub screen_policy : DomainPolicy → Bool → Proposal → Option Reason
screen_policy policy deep p =
    if (deep || policy.requires_consolidation) && not (is_consolidation_writer p.source_module)
    then some deep_update_requires_consolidation
    else if ltb (length p.evidence_ids) policy.min_evidence_count
    then some insufficient_evidence
    else screen_numbers p

-- `_screen`: the reason for which a proposal alone is refused.
unfoldable pub screen_reason : ArbitrationPolicy → Proposal → Option Reason
screen_reason policy p =
    if not (is_known_domain p.target_domain)
    then some unknown_domain
    else if not (may_write p.target_domain p.source_module)
    then some not_state_owner
    else elim (is_deep p.target_domain) [
      | none ↦ some undeclared_layer
      | some deep ↦ screen_policy (for_domain policy p.target_domain) deep p
    ]

unfoldable pub reject_one : Proposal → Reason → Rejection
reject_one p reason = record {
  reason_code = reason;
  proposal_ids = p.proposal_id ∷ [];
  domain = p.target_domain;
  key = p.target_key;
  source_modules = p.source_module ∷ [];
}

-- The first loop of `arbitrate`: the admissible proposals and the rejections, both in order.
unfoldable pub screen_all : ArbitrationPolicy → List Proposal → List Proposal × List Rejection
screen_all policy [] = ([], [])
screen_all policy (p ∷ ps) =
    let (admissible, rejections) = screen_all policy ps in
    elim (screen_reason policy p) [
      | none ↦ (p ∷ admissible, rejections)
      | some reason ↦ (admissible, reject_one p reason ∷ rejections)
    ]
