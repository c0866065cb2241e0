-- ===== src/State/Arbitrator/Records.antt =====
-- app/state/arbitrator.py: the reasons for a rejection, and the records that arbitration returns.
use discord_personality_bot.Base.{ℕ, String, Option, List, Key}
use discord_personality_bot.Number.{Float}
use discord_personality_bot.State.Value.{Value}
use discord_personality_bot.State.Proposal.{Operation}

-- `RejectionReason`
pub data Reason : Type 0 where
  unknown_domain not_state_owner undeclared_layer : Reason
  deep_update_requires_consolidation insufficient_evidence invalid_magnitude : Reason
  uninitialized_target non_numeric_target conflicting_operations : Reason
  conflicting_set_values delta_exceeds_policy value_out_of_bounds : Reason

pub record AcceptedChange : Type 0 where
  pub domain : String
  pub key : String
  pub operation : Operation
  pub previous_value : Value
  pub new_value : Value
  pub delta : Option Float
  pub confidence : Option Float
  pub expected_version : Option ℕ
  pub source_module : String
  pub source_event_id : ℕ
  pub proposal_id : ℕ
  pub merged_proposal_ids : List ℕ
  pub reason_codes : List String
  pub evidence_ids : List String

unfoldable pub change_target : AcceptedChange → Key
change_target c = (c.domain, c.key)

pub record Rejection : Type 0 where
  pub reason_code : Reason
  pub proposal_ids : List ℕ
  pub domain : String
  pub key : String
  pub source_modules : List String

pub record ArbitrationResult : Type 0 where
  pub accepted : List AcceptedChange
  pub rejected : List Rejection
  pub received : ℕ

-- A change as the snapshot takes it (`post_commit_snapshot`).
abbrev pub change_of : AcceptedChange → Key × Value × Option Float
change_of c = ((c.domain, c.key), c.new_value, c.confidence)
