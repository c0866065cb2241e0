-- ===== src/Orchestrator/Processor.antt =====
-- app/orchestrator/processor.py: one event from its storage to the commit of what it changes, and
-- the one reprocessing after a lost version race.
use discord_personality_bot.Base.{
  ℕ, zero, suc, ◌+◌, ◌-◌, Bool, true, false, Option, none, some, List, map, Result, ok, raised,
  if◌then◌else◌,
}
use discord_personality_bot.State.Policy.{ArbitrationPolicy}
use discord_personality_bot.State.Snapshot.{StateSnapshot}
use discord_personality_bot.State.Arbitrator.Records.{ArbitrationResult}
use discord_personality_bot.State.Arbitrator.{ArbitrationError, no_layer, overflow, arbitrate}
use discord_personality_bot.State.Committer.{CommitResult}
use discord_personality_bot.Events.Model.{Event}
use discord_personality_bot.Events.Bus.{Subscription}
use discord_personality_bot.Events.Dispatcher.{
  Interpretation, no_interpretation, RunView, Handler, DispatchResult, dispatch,
}
use discord_personality_bot.Storage.Tables.{
  RuntimeMode, simulation, replay, behavior, interpretation_failed, dispatch_failed, commit_failed,
}
use discord_personality_bot.Storage.Database.{
  Exception, concurrent_state_write, layer_error, other_error, World, Exec, pure, raise, ◌>>=◌,
  ◌>>◌, now,
}
use discord_personality_bot.Storage.EventTable.{append}
use discord_personality_bot.Orchestrator.Outcome.{
  conflict, ProcessingOutcome, is_conflict, status_of, Opened, failed_outcome, outcome,
}
use discord_personality_bot.Orchestrator.RunLog.{
  open_run, effective_now, note, fail_run, conflict_run, commit_run,
}

-- What the processor was built with. Interpreter and subscribers are engines of their own; while
-- they are awaited other tasks may write, so their calls return a world too.
pub record Config : Type 0 where
  pub clock : ℕ → ℕ
  pub policy : ArbitrationPolicy
  pub bus : List Subscription
  pub handle : Handler
  pub interpreter : Option (Event → StateSnapshot → World → Result Exception Interpretation × World)
  pub max_commit_attempts : ℕ

abbrev pub is_retold : RuntimeMode → Bool
is_retold simulation = true
is_retold replay = true
is_retold _ = false

-- Derived events of a simulated or replayed run happened at the moment of the run.
unfoldable pub normalise : RuntimeMode → ℕ → DispatchResult → DispatchResult
normalise mode at d =
    if is_retold mode
    then record d {
      derived_events = map (λ (e : Event). record e { occurred_at = at }) d.derived_events;
    }
    else d

abbrev pub Interpreter : Type 0
Interpreter = Event → StateSnapshot → World → Result Exception Interpretation × World

-- An interpretation that fails is recorded, and the run goes on without.
unfoldable pub interpreted :
    Config → ℕ → Event → Result Exception Interpretation → Exec Interpretation
interpreted cfg run e (ok i) = pure i
interpreted cfg run e (raised x) = do
  at ← now cfg.clock
  note behavior interpretation_failed run e at
  pure no_interpretation

unfoldable pub interpret_with :
    Config → ℕ → Event → StateSnapshot → Option Interpreter → Exec Interpretation
unfolding interpreted
interpret_with cfg run e s none w = (ok no_interpretation, w)
interpret_with cfg run e s (some f) w = let (r, w') = f e s w in interpreted cfg run e r w'

unfoldable pub interpret : Config → ℕ → Event → StateSnapshot → Exec Interpretation
unfolding interpret_with
interpret cfg run e s = interpret_with cfg run e s cfg.interpreter

-- What the commit ended in decides the outcome.
unfoldable pub conclude :
    Config
    → Opened
    → DispatchResult
    → ArbitrationResult
    → Result Exception CommitResult
    → Exec ProcessingOutcome
unfolding outcome failed_outcome
conclude cfg o d a (ok c) = pure (outcome o (status_of d a) d a (some c))
conclude cfg o d a (raised concurrent_state_write) = do
  conflict_run cfg.clock o.run o.event
  pure (outcome o conflict d a none)
conclude cfg o d a (raised _) = do
  fail_run cfg.clock o.run o.event commit_failed
  pure (failed_outcome o (some d) (some a))

unfoldable pub settle_run :
    Config → Opened → DispatchResult → ArbitrationResult → Exec ProcessingOutcome
settle_run cfg o d a w =
    let (r, w') = commit_run cfg.clock o.run o.event d a o.at w in conclude cfg o d a r w'

abbrev exception_of : ArbitrationError → Exception
exception_of no_layer = layer_error
exception_of overflow = other_error "OverflowError"

-- An exception of the arbitration is not caught.
unfoldable pub arbitrated :
    Config
    → Opened
    → DispatchResult
    → Result ArbitrationError ArbitrationResult
    → Exec ProcessingOutcome
arbitrated cfg o d (ok a) = settle_run cfg o d a
arbitrated cfg o d (raised x) = raise (exception_of x)

unfoldable pub view_of : Opened → RunView
view_of o = record {
  snapshot = o.snapshot;
  interpretation = o.interpretation;
  run_id = o.run;
  mode = o.mode;
  effective_now = o.at;
}

-- What follows the dispatch; an exception of the dispatch ends the run as failed.
unfoldable pub after_dispatch :
    Config → Opened → Result Exception DispatchResult → Exec ProcessingOutcome
unfolding failed_outcome arbitrated
after_dispatch cfg o (raised x) = do
  fail_run cfg.clock o.run o.event dispatch_failed
  pure (failed_outcome o none none)
after_dispatch cfg o (ok d) =
    arbitrated cfg o (normalise o.mode o.at d) (arbitrate cfg.policy d.proposals o.snapshot)

unfoldable pub react : Config → Opened → Exec ProcessingOutcome
unfolding view_of
react cfg o w =
    let (r, w') = dispatch cfg.clock cfg.handle cfg.bus o.event (view_of o) w in
    after_dispatch cfg o r w'

-- `_process_once`
unfoldable pub process_once : Config → Event → RuntimeMode → Option ℕ → ℕ → Exec ProcessingOutcome
process_once cfg e mode retry_of attempt = do
  at ← effective_now cfg.clock e mode
  stored ← append e
  (run, s) ← open_run cfg.clock e mode retry_of attempt
  i ← interpret cfg run e s
  react cfg (record {
    event = e;
    mode = mode;
    retry_of = retry_of;
    attempt = attempt;
    newly_stored = stored;
    run = run;
    at = at;
    snapshot = s;
    interpretation = i;
  })

-- The loop of `process`: `left` more attempts may follow this one.
unfoldable pub attempts_from :
    Config → Event → RuntimeMode → ℕ → Option ℕ → ℕ → Exec ProcessingOutcome
attempts_from cfg e mode zero retry_of attempt = process_once cfg e mode retry_of attempt
attempts_from cfg e mode (suc left) retry_of attempt = do
  o ← process_once cfg e mode retry_of attempt
  elim (is_conflict o) [
    | true ↦ attempts_from cfg e mode left (some o.run_id) (attempt + 1)
    | false ↦ pure o
  ]

-- `process`; the constructor refuses a `max_commit_attempts` below 1.
unfoldable pub process : Config → Event → RuntimeMode → Exec ProcessingOutcome
process cfg e mode = attempts_from cfg e mode (cfg.max_commit_attempts - 1) none 1
