-- ===== src/Storage/Tables.antt =====
-- The tables that the modelled repositories read and write (app/storage/migrations.py), the rows
-- as records. Identifiers and instants are numbers.
use discord_personality_bot.Base.{ℕ, String, Option, List, [], Key}
use discord_personality_bot.Base.Dict.{Dict}
use discord_personality_bot.Number.{Float}
use discord_personality_bot.State.Value.{Value, ValueType, StateValue}
use discord_personality_bot.State.Proposal.{Operation}
use discord_personality_bot.State.Snapshot.{StateSnapshot}
use discord_personality_bot.State.Arbitrator.Records.{Reason}
use discord_personality_bot.Events.Model.{Event, Rank}

-- A row of `state_changes`.
pub record ChangeRow : Type 0 where
  pub change_id : ℕ
  pub run_id : ℕ
  pub source_event_id : ℕ
  pub proposal_id : ℕ
  pub source_module : String
  pub target : Key
  pub operation : Operation
  pub value_type : ValueType
  pub previous_value : Value
  pub new_value : Value
  pub delta : Option Float
  pub confidence : Option Float
  pub version_after : ℕ
  pub reason_codes : List String
  pub evidence_ids : List String
  pub committed_at : ℕ

-- `DeliveryState`
pub data DeliveryState : Type 0 where
  pending completed failed_retryable failed_permanent skipped : DeliveryState

-- A row of `event_deliveries`.
pub record Delivery : Type 0 where
  pub delivery_id : ℕ
  pub event_id : ℕ
  pub subscriber : String
  pub status : DeliveryState
  pub attempts : ℕ
  pub first_attempt_at : ℕ
  pub last_attempt_at : ℕ
  pub completed_at : Option ℕ
  pub error : Option String

-- `RunStatus`
pub data RunStatus : Type 0 where
  running committed rejected failed interrupted conflicted : RunStatus

-- `RuntimeMode` (app/config.py)
pub data RuntimeMode : Type 0 where
  normal degraded minimal offline test_mode simulation admin_mode replay : RuntimeMode

-- A row of `processing_runs`.
pub record Run : Type 0 where
  pub run_id : ℕ
  pub root_event_id : ℕ
  pub snapshot_id : ℕ
  pub mode : RuntimeMode
  pub priority : Rank
  pub status : RunStatus
  pub started_at : ℕ
  pub finished_at : Option ℕ
  pub proposals_received : ℕ
  pub proposals_accepted : ℕ
  pub proposals_rejected : ℕ
  pub error : Option String
  pub retry_of_run_id : Option ℕ
  pub commit_attempt : ℕ
  pub conflict_count : ℕ

pub data Severity : Type 0 where
  warning error : Severity

pub data FailureType : Type 0 where
  behavior state_failure : FailureType

-- A reason code of `failures`: that of a rejected proposal, or a word of the component.
pub data ReasonCode : Type 0 where
  rejection : Reason → ReasonCode
  subscriber_timeout subscriber_exception invalid_subscriber_result : ReasonCode
  interpretation_failed dispatch_failed commit_conflict commit_failed : ReasonCode

-- A row of `failures`, less the JSON detail.
pub record Failure : Type 0 where
  pub failure_id : ℕ
  pub failure_type : FailureType
  pub component : String
  pub reason_code : ReasonCode
  pub severity : Severity
  pub run_id : Option ℕ
  pub event_id : ℕ
  pub reference_id : Option ℕ
  pub occurred_at : ℕ

pub record Tables : Type 0 where
  pub events : Dict ℕ Event
  pub state_values : Dict Key StateValue
  pub state_changes : List ChangeRow
  pub deliveries : List Delivery
  pub runs : List Run
  pub failures : List Failure
  pub snapshots : List StateSnapshot

abbrev pub no_rows : Tables
no_rows = record {
  events = [];
  state_values = [];
  state_changes = [];
  deliveries = [];
  runs = [];
  failures = [];
  snapshots = [];
}
