-- ===== src/Orchestrator/RunLog.antt =====
-- app/orchestrator/processor.py: the synchronous units of work: the start of a run, its commit, and
-- the ways in which it is closed without one.
use discord_personality_bot.Base.{ℕ, Option, none, some, [], ◌∷◌, ◌++◌}
use discord_personality_bot.State.Snapshot.{StateSnapshot}
use discord_personality_bot.State.Arbitrator.Records.{ArbitrationResult}
use discord_personality_bot.State.Committer.{CommitResult, commit}
use discord_personality_bot.Events.Model.{Event}
use discord_personality_bot.Events.Dispatcher.{DispatchResult}
use discord_personality_bot.Storage.Tables.{
  Run, running, failed, conflicted, RuntimeMode, simulation, replay, behavior, state_failure,
  warning, error, ReasonCode, interpretation_failed, commit_conflict, commit_failed, FailureType,
}
use discord_personality_bot.Storage.Database.{
  Exec, Action, pure, ◌>>=◌, ◌>>◌, read_tables, write_tables, new_id, now, transaction,
}
use discord_personality_bot.Storage.EventTable.{append_all}
use discord_personality_bot.Storage.Runs.{start, record_conflict, finish, no_counts, record_failure}

-- `SnapshotService.capture`, persisted
unfoldable pub capture : (ℕ → ℕ) → Event → Exec StateSnapshot
capture clock e = do
  at ← now clock
  t ← read_tables
  i ← new_id
  let s : StateSnapshot = record {
    snapshot_id = i;
    created_at = at;
    root_event_id = some e.root_event_id;
    values = t.state_values;
  }
  write_tables (λ t. record t { snapshots = t.snapshots ++ s ∷ [] })
  pure s

unfoldable pub opened : ℕ → Event → StateSnapshot → RuntimeMode → ℕ → Option ℕ → ℕ → Run
opened run e s mode at retry_of attempt = record {
  run_id = run;
  root_event_id = e.event_id;
  snapshot_id = s.snapshot_id;
  mode = mode;
  priority = e.priority;
  status = running;
  started_at = at;
  finished_at = none;
  proposals_received = 0;
  proposals_accepted = 0;
  proposals_rejected = 0;
  error = none;
  retry_of_run_id = retry_of;
  commit_attempt = attempt;
  conflict_count = 0;
}

unfoldable pub open_body : (ℕ → ℕ) → ℕ → Event → RuntimeMode → Option ℕ → ℕ → Exec StateSnapshot
unfolding capture opened
open_body clock run e mode retry_of attempt = do
  s ← capture clock e
  at ← now clock
  start (opened run e s mode at retry_of attempt)
  pure s

-- `_open_run`
unfoldable pub open_run : (ℕ → ℕ) → Event → RuntimeMode → Option ℕ → ℕ → Exec (ℕ × StateSnapshot)
unfolding open_body
open_run clock e mode retry_of attempt = do
  run ← new_id
  s ← transaction (open_body clock run e mode retry_of attempt)
  pure (run, s)

-- `_effective_now`
unfoldable pub effective_now : (ℕ → ℕ) → Event → RuntimeMode → Exec ℕ
effective_now clock e simulation = pure e.occurred_at
effective_now clock e replay = pure e.occurred_at
effective_now clock e _ = now clock

abbrev pub note : FailureType → ReasonCode → ℕ → Event → ℕ → Exec ℕ
note kind reason run e at =
    record_failure
      (record {
        failure_type = kind;
        component = "event_processor";
        reason_code = reason;
        severity = elim reason [
          | interpretation_failed ↦ warning
          | commit_conflict ↦ warning
          | _ ↦ error
        ];
        run_id = some run;
        event_id = e.event_id;
        reference_id = none;
      })
      at

-- `_fail_run`
unfoldable pub fail_run : (ℕ → ℕ) → ℕ → Event → ReasonCode → Action
fail_run clock run e reason = do
  at ← now clock
  transaction (
      note (elim reason [ commit_failed ↦ state_failure | _ ↦ behavior ]) reason run e at
      >> finish run failed at no_counts (some "error"))

-- `_conflict_run`
unfoldable pub conflict_run : (ℕ → ℕ) → ℕ → Event → Action
conflict_run clock run e = do
  at ← now clock
  transaction (
      record_conflict run
      >> note state_failure commit_conflict run e at
      >> finish run conflicted at no_counts (some "concurrent state write"))

-- `_commit`
unfoldable pub commit_run_body :
    (ℕ → ℕ) → ℕ → Event → DispatchResult → ArbitrationResult → ℕ → Exec CommitResult
commit_run_body clock run e d a at = do
  append_all d.derived_events
  finished_at ← now clock
  commit run e.event_id a d.delivery_ids at finished_at

unfoldable pub commit_run :
    (ℕ → ℕ) → ℕ → Event → DispatchResult → ArbitrationResult → ℕ → Exec CommitResult
unfolding commit_run_body
commit_run clock run e d a at = transaction (commit_run_body clock run e d a at)
