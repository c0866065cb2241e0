-- ===== src/Orchestrator/Outcome.antt =====
-- app/orchestrator/processor.py: what the processing of an event reports, and what a run knows when
-- it dispatches.
use discord_personality_bot.Base.{ℕ, Bool, true, false, Option, none, some, List, [], ◌∷◌, map}
use discord_personality_bot.State.Snapshot.{StateSnapshot, with_committed}
use discord_personality_bot.State.Arbitrator.Records.{AcceptedChange, change_of, ArbitrationResult}
use discord_personality_bot.State.Committer.{CommitResult}
use discord_personality_bot.Events.Model.{Event}
use discord_personality_bot.Events.Dispatcher.{Interpretation, DeliveryOutcome, DispatchResult}
use discord_personality_bot.Storage.Tables.{RuntimeMode}

pub data ProcessingStatus : Type 0 where
  was_committed was_rejected no_subscribers has_failed conflict : ProcessingStatus

pub record ProcessingOutcome : Type 0 where
  pub run_id : ℕ
  pub status : ProcessingStatus
  pub newly_stored : Bool
  pub dispatched : Option DispatchResult
  pub arbitration : Option ArbitrationResult
  pub commit_result : Option CommitResult
  pub interpretation : Interpretation
  pub snapshot : StateSnapshot
  pub commit_attempt : ℕ
  pub retry_of_run_id : Option ℕ

-- `post_commit_snapshot`
unfoldable pub post_commit_snapshot : ProcessingOutcome → StateSnapshot
post_commit_snapshot o = elim o.status [
  | was_committed ↦ elim o.arbitration [
    | none ↦ o.snapshot
    | some a ↦ with_committed o.snapshot (map change_of a.accepted) none
  ]
  | _ ↦ o.snapshot
]

abbrev pub status_from : List DeliveryOutcome → List AcceptedChange → ProcessingStatus
status_from [] cs = no_subscribers
status_from (o ∷ os) [] = was_rejected
status_from (o ∷ os) (c ∷ cs) = was_committed

abbrev pub status_of : DispatchResult → ArbitrationResult → ProcessingStatus
status_of d a = status_from d.outcomes a.accepted

-- What the run knows when it dispatches.
pub record Opened : Type 0 where
  pub event : Event
  pub mode : RuntimeMode
  pub retry_of : Option ℕ
  pub attempt : ℕ
  pub newly_stored : Bool
  pub run : ℕ
  pub at : ℕ
  pub snapshot : StateSnapshot
  pub interpretation : Interpretation

-- A failed run reports the default attempt and no retry chain.
unfoldable pub failed_outcome :
    Opened → Option DispatchResult → Option ArbitrationResult → ProcessingOutcome
failed_outcome o d a = record {
  run_id = o.run;
  status = has_failed;
  newly_stored = o.newly_stored;
  dispatched = d;
  arbitration = a;
  commit_result = none;
  interpretation = o.interpretation;
  snapshot = o.snapshot;
  commit_attempt = 1;
  retry_of_run_id = none;
}

unfoldable pub outcome :
    Opened
    → ProcessingStatus
    → DispatchResult
    → ArbitrationResult
    → Option CommitResult
    → ProcessingOutcome
outcome o status d a c = record {
  run_id = o.run;
  status = status;
  newly_stored = o.newly_stored;
  dispatched = some d;
  arbitration = some a;
  commit_result = c;
  interpretation = o.interpretation;
  snapshot = o.snapshot;
  commit_attempt = o.attempt;
  retry_of_run_id = o.retry_of;
}

abbrev pub is_conflict : ProcessingOutcome → Bool
is_conflict o = elim o.status [ conflict ↦ true | _ ↦ false ]
