-- ===== src/Orchestrator/Processing/Undisturbed.antt =====
-- The calls of a run that return and leave the values of the state alone, if its engines do.
use discord_personality_bot.Base.{
  ℕ, ◌+◌, ◌≡◌, refl, ◌∙◌, String, Option, none, some, List, [], ◌∷◌, ok, raised, Result, Bool-cases,
  inl, inr,
}
use discord_personality_bot.Events.Model.{Event}
use discord_personality_bot.Events.Bus.{Subscription}
use discord_personality_bot.Events.Dispatcher.{
  Interpretation, no_interpretation, RunView, Reply, result, timed_out, threw, invalid, empty_turn,
  timeout, has_failed, was_skipped, nothing_dispatched, add_turn, DispatchResult, note_failure,
  await_handler, settle, deliver, turn, dispatch_each,
}
use discord_personality_bot.State.Snapshot.{StateSnapshot}
use discord_personality_bot.State.Committed.Quiet.{
  values_of, IsQuiet, IsQuiet-bind, begin_attempt-IsQuiet,
}
use discord_personality_bot.Storage.Tables.{
  ReasonCode, RuntimeMode, simulation, replay, subscriber_timeout, subscriber_exception,
  invalid_subscriber_result,
}
use discord_personality_bot.Storage.Database.{Exception, World, ◌>>=◌, transaction}
use discord_personality_bot.Storage.Deliveries.{DeliveryDecision, default_max_attempts, mark_failed}
use discord_personality_bot.Storage.Runs.{record_failure, start}
use discord_personality_bot.Storage.Effects.{Performs-pure, Performs-now}
use discord_personality_bot.Orchestrator.RunLog.{open_run, effective_now}
use discord_personality_bot.Orchestrator.Processor.{
  Config, Interpreter, interpreted, interpret_with, interpret,
}

-- The subscribers and the interpreter, and what runs while they are awaited, write no value of the
-- state.
pub record LeavesState (cfg : Config) : Type 0 where
  pub handlers :
      (name : String) (e : Event) (view : RunView) (w : World)
      → (cfg.handle name e view w).1.tables.state_values ≡ w.tables.state_values
  pub interpreters :
      (f : Event → StateSnapshot → World → Result Exception Interpretation × World)
      → cfg.interpreter ≡ some f
      → (e : Event) (s : StateSnapshot) (w : World)
      → (f e s w).1.tables.state_values ≡ w.tables.state_values

module _ (cfg : Config) where
  pub note_failure-IsQuiet :
      (e : Event) (i run : ℕ) (reason : ReasonCode) (m : String)
      → IsQuiet (note_failure cfg.clock cfg.handle e i run reason m)
  unfolding note_failure mark_failed record_failure
  note_failure-IsQuiet e i run reason m = record { at = λ w. (tt, refl, refl) }

  pub settle-IsQuiet :
      (e : Event) (view : RunView) (name : String) (i : ℕ) (r : Reply)
      → IsQuiet (settle cfg.clock cfg.handle e view name i r)
  unfolding settle
  settle-IsQuiet e view name i (result ps es) = Performs-pure values_of _
  settle-IsQuiet e view name i timed_out =
      IsQuiet-bind _ _ (note_failure-IsQuiet e i view.run_id subscriber_timeout _)
        λ _. Performs-pure values_of (empty_turn name timeout i)
  settle-IsQuiet e view name i (threw m) =
      IsQuiet-bind _ _ (note_failure-IsQuiet e i view.run_id subscriber_exception m)
        λ _. Performs-pure values_of (empty_turn name has_failed i)
  settle-IsQuiet e view name i (invalid m) =
      IsQuiet-bind _ _ (note_failure-IsQuiet e i view.run_id invalid_subscriber_result m)
        λ _. Performs-pure values_of (empty_turn name has_failed i)

  pub interpreted-IsQuiet :
      (run : ℕ) (e : Event) (r : Result Exception Interpretation)
      → IsQuiet (interpreted cfg run e r)
  unfolding interpreted record_failure
  interpreted-IsQuiet run e (ok i) = Performs-pure values_of i
  interpreted-IsQuiet run e (raised x) = record { at = λ w. (no_interpretation, refl, refl) }

module _ (cfg : Config) (leaves : LeavesState cfg) where
  await_handler-IsQuiet :
      (name : String) (e : Event) (view : RunView)
      → IsQuiet (await_handler cfg.clock cfg.handle name e view)
  await_handler-IsQuiet name e view = record {
    at = λ w. ((cfg.handle name e view w).0, refl, leaves.handlers name e view w);
  }

  deliver-IsQuiet :
      (e : Event) (view : RunView) (name : String) (d : DeliveryDecision)
      → IsQuiet (deliver cfg.clock cfg.handle e view name d)
  unfolding deliver
  deliver-IsQuiet e view name d = elim (Bool-cases d.should_process) [
    | inl go ↦ rw go (
        IsQuiet-bind (await_handler cfg.clock cfg.handle name e view)
          (settle cfg.clock cfg.handle e view name d.delivery_id)
          (await_handler-IsQuiet name e view) λ r. settle-IsQuiet cfg e view name d.delivery_id r)
    | inr stop ↦ rw stop (Performs-pure values_of (empty_turn name was_skipped d.delivery_id))
  ]

  turn-IsQuiet :
      (e : Event) (view : RunView) (name : String) → IsQuiet (turn cfg.clock cfg.handle e view name)
  unfolding turn
  turn-IsQuiet e view name = IsQuiet-bind _ _ (Performs-now values_of cfg.clock) λ at.
      IsQuiet-bind _ _ (begin_attempt-IsQuiet e.event_id name at default_max_attempts)
        λ d. deliver-IsQuiet e view name d

  -- The dispatch returns; with no outcome there is no proposal.
  pub dispatch_each-quiet :
      (e : Event) (view : RunView) (ss : List Subscription) (w : World)
      → (d : DispatchResult) × ((dispatch_each cfg.clock cfg.handle e view ss w).0 ≡ ok d)
        × ((dispatch_each cfg.clock cfg.handle e view ss w).1.tables.state_values
            ≡ w.tables.state_values)
        × (d.outcomes ≡ [] → d.proposals ≡ [])
  unfolding dispatch_each
  dispatch_each-quiet e view [] w = (nothing_dispatched e, refl, refl, λ h. refl)
  dispatch_each-quiet e view (s ∷ ss) w =
      let (t, x, y) = (turn-IsQuiet e view s.name).at w in
      let (d, x', y', z) =
        dispatch_each-quiet e view ss (turn cfg.clock cfg.handle e view s.name w).1 in
      (
        add_turn t d,
        rw (x, ◌>>=◌) (rw (x', ◌>>=◌) refl),
        rw (x, ◌>>=◌) (rw (x', ◌>>=◌) (y' ∙ y)),
        λ h. absurd (cc h),
      )

  interpret_with-IsQuiet :
      (run : ℕ) (e : Event) (s : StateSnapshot) (o : Option Interpreter)
      → cfg.interpreter ≡ o
      → IsQuiet (interpret_with cfg run e s o)
  unfolding interpret_with
  interpret_with-IsQuiet run e s none there = Performs-pure values_of no_interpretation
  interpret_with-IsQuiet run e s (some f) there = record {
    at = λ w.
        let (i, x, y) = (interpreted-IsQuiet cfg run e (f e s w).0).at (f e s w).1 in
        (i, x, y ∙ leaves.interpreters f there e s w);
  }

  pub interpret-IsQuiet :
      (run : ℕ) (e : Event) (s : StateSnapshot) → IsQuiet (interpret cfg run e s)
  unfolding interpret
  interpret-IsQuiet run e s = interpret_with-IsQuiet run e s cfg.interpreter refl

pub effective_now-IsQuiet :
    (clock : ℕ → ℕ) (e : Event) (mode : RuntimeMode) → IsQuiet (effective_now clock e mode)
unfolding effective_now
effective_now-IsQuiet clock e simulation = Performs-pure values_of e.occurred_at
effective_now-IsQuiet clock e replay = Performs-pure values_of e.occurred_at
effective_now-IsQuiet clock e _ = Performs-now values_of clock

-- The run reads the state as it is when the run opens.
pub open_run-captures :
    (clock : ℕ → ℕ) (e : Event) (mode : RuntimeMode) (retry_of : Option ℕ) (attempt : ℕ) (w : World)
    → (x : ℕ × StateSnapshot) × ((open_run clock e mode retry_of attempt w).0 ≡ ok x)
      × ((open_run clock e mode retry_of attempt w).1.tables.state_values ≡ w.tables.state_values)
      × (x.1.values ≡ w.tables.state_values)
unfolding open_run transaction start
open_run-captures clock e mode retry_of attempt w = (
  (
    w.next_id,
    record {
      snapshot_id = w.next_id + 1;
      created_at = clock w.ticks;
      root_event_id = some e.root_event_id;
      values = w.tables.state_values;
    },
  ),
  refl,
  refl,
  refl,
)
