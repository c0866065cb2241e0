-- ===== src/Events/Dispatcher.antt =====
-- app/events/dispatcher.py: delivery of one event to its subscribers, each attempt reserved before
-- the subscriber runs.
use discord_personality_bot.Base.{
  ℕ, String, false, Option, none, some, List, [], ◌∷◌, ◌++◌, ok, if◌then◌else◌,
}
use discord_personality_bot.Base.Lists.{length}
use discord_personality_bot.State.Proposal.{Proposal}
use discord_personality_bot.State.Snapshot.{StateSnapshot}
use discord_personality_bot.Events.Model.{Event}
use discord_personality_bot.Events.Bus.{Subscription, subscriptions_for}
use discord_personality_bot.Storage.Tables.{
  behavior, error, RuntimeMode, ReasonCode, subscriber_timeout, subscriber_exception,
  invalid_subscriber_result,
}
use discord_personality_bot.Storage.Database.{World, Exec, Action, pure, ◌>>=◌, ◌>>◌, now}
use discord_personality_bot.Storage.Deliveries.{
  DeliveryDecision, begin_attempt, mark_failed, default_max_attempts,
}
use discord_personality_bot.Storage.Runs.{record_failure}

-- `Interpretation`, as far as it is passed on: the appraisal, if there is one (orchestrator/run_view.py).
pub record Interpretation : Type 0 where
  pub appraisal : Option String
  pub extras : List (String × String)

abbrev pub no_interpretation : Interpretation
no_interpretation = record { appraisal = none; extras = [] }

-- `RunView`
pub record RunView : Type 0 where
  pub snapshot : StateSnapshot
  pub interpretation : Interpretation
  pub run_id : ℕ
  pub mode : RuntimeMode
  pub effective_now : ℕ

-- What awaiting a subscriber ends in: a `SubscriberResult`, a timeout, an exception, or an object
-- of another type.
pub data Reply : Type 0 where
  result : List Proposal → List Event → Reply
  timed_out : Reply
  threw : String → Reply
  invalid : String → Reply

-- The subscribers are engines of their own. While one is awaited other tasks may write, so a call
-- returns a world too.
abbrev pub Handler : Type 0
Handler = String → Event → RunView → World → Reply × World

pub data DeliveryStatus : Type 0 where
  handled was_skipped has_failed timeout : DeliveryStatus

pub record DeliveryOutcome : Type 0 where
  pub subscriber : String
  pub status : DeliveryStatus
  pub delivery_id : ℕ
  pub proposal_count : ℕ

pub record DispatchResult : Type 0 where
  pub event_id : ℕ
  pub proposals : List Proposal
  pub derived_events : List Event
  pub outcomes : List DeliveryOutcome
  pub delivery_ids : List ℕ

abbrev pub nothing_dispatched : Event → DispatchResult
nothing_dispatched e = record {
  event_id = e.event_id;
  proposals = [];
  derived_events = [];
  outcomes = [];
  delivery_ids = [];
}

-- What one turn of the loop appends to the four lists.
pub record Turn : Type 0 where
  pub proposals : List Proposal
  pub derived_events : List Event
  pub outcome : DeliveryOutcome
  pub delivery_ids : List ℕ

unfoldable pub outcome_of : String → DeliveryStatus → ℕ → ℕ → DeliveryOutcome
outcome_of name status i count = record {
  subscriber = name;
  status = status;
  delivery_id = i;
  proposal_count = count;
}

unfoldable pub empty_turn : String → DeliveryStatus → ℕ → Turn
unfolding outcome_of
empty_turn name status i = record {
  proposals = [];
  derived_events = [];
  outcome = outcome_of name status i 0;
  delivery_ids = [];
}

unfoldable pub add_turn : Turn → DispatchResult → DispatchResult
add_turn t d = record {
  event_id = d.event_id;
  proposals = t.proposals ++ d.proposals;
  derived_events = t.derived_events ++ d.derived_events;
  outcomes = t.outcome ∷ d.outcomes;
  delivery_ids = t.delivery_ids ++ d.delivery_ids;
}

module _ (clock : ℕ → ℕ) (handle : Handler) where
  -- `_record_failure`
  unfoldable pub note_failure : Event → ℕ → ℕ → ReasonCode → String → Action
  note_failure e i run reason message = do
    at ← now clock
    mark_failed i at message false
    record_failure
        (record {
          failure_type = behavior;
          component = "event_dispatcher";
          reason_code = reason;
          severity = error;
          run_id = some run;
          event_id = e.event_id;
          reference_id = some i;
        })
        at
    pure tt

  abbrev pub await_handler : String → Event → RunView → Exec Reply
  await_handler name e view w = let (r, w') = handle name e view w in (ok r, w')

  -- The rest of a turn, once the subscriber has replied.
  unfoldable pub settle : Event → RunView → String → ℕ → Reply → Exec Turn
  unfolding empty_turn outcome_of
  settle e view name i (result proposals events) = pure (record {
    proposals = proposals;
    derived_events = events;
    outcome = outcome_of name handled i (length proposals);
    delivery_ids = i ∷ [];
  })
  settle e view name i timed_out = do
    note_failure e i view.run_id subscriber_timeout "subscriber exceeded its time"
    pure (empty_turn name timeout i)
  settle e view name i (threw message) = do
    note_failure e i view.run_id subscriber_exception message
    pure (empty_turn name has_failed i)
  settle e view name i (invalid message) = do
    note_failure e i view.run_id invalid_subscriber_result message
    pure (empty_turn name has_failed i)

  unfoldable pub deliver : Event → RunView → String → DeliveryDecision → Exec Turn
  unfolding empty_turn
  deliver e view name decision =
      if decision.should_process
      then (do reply ← await_handler name e view; settle e view name decision.delivery_id reply)
      else pure (empty_turn name was_skipped decision.delivery_id)

  -- One turn of the loop over the subscriptions.
  unfoldable pub turn : Event → RunView → String → Exec Turn
  turn e view name = do
    at ← now clock
    decision ← begin_attempt e.event_id name at default_max_attempts
    deliver e view name decision

  unfoldable pub dispatch_each : Event → RunView → List Subscription → Exec DispatchResult
  unfolding add_turn
  dispatch_each e view [] = pure (nothing_dispatched e)
  dispatch_each e view (s ∷ ss) = do
    t ← turn e view s.name
    rest ← dispatch_each e view ss
    pure (add_turn t rest)

  -- `dispatch`
  unfoldable pub dispatch : List Subscription → Event → RunView → Exec DispatchResult
  dispatch bus e view = dispatch_each e view (subscriptions_for e bus)
