-- ===== src/State/Proposal.antt =====
-- app/state/proposal.py: a request to change one key of one domain. The trimming check on the
-- identifiers is not modelled.
use discord_personality_bot.Base.{
  ℕ, String, Bool, true, false, not, Option, List, is_some, Key, Result, ok, raised, if◌then◌else◌,
}
use discord_personality_bot.Number.{Float}
use discord_personality_bot.State.Value.{Value, null}

pub data Operation : Type 0 where
  set adjust invalidate : Operation

pub data Priority : Type 0 where
  low normal high : Priority

pub record Proposal : Type 0 where
  pub proposal_id : ℕ
  pub source_event_id : ℕ
  pub source_module : String
  pub target_domain : String
  pub target_key : String
  pub operation : Operation
  pub value : Value
  pub magnitude : Option Float
  pub confidence : Option Float
  pub reason_codes : List String
  pub evidence_ids : List String
  pub priority : Priority
  pub created_at : ℕ

unfoldable pub target : Proposal → Key
target p = (p.target_domain, p.target_key)

pub data ShapeError : Type 0 where
  adjust_without_magnitude adjust_with_value set_with_magnitude : ShapeError

abbrev is_null : Value → Bool
is_null null = true
is_null _ = false

-- `_operation_shape`, the validator of the model
unfoldable pub operation_shape : Proposal → Result ShapeError Proposal
operation_shape p = elim p.operation [
  | adjust ↦
      if not (is_some p.magnitude)
      then raised adjust_without_magnitude
      else if not (is_null p.value)
      then raised adjust_with_value
      else ok p
  | set ↦ if is_some p.magnitude then raised set_with_magnitude else ok p
  | invalidate ↦ ok p
]
