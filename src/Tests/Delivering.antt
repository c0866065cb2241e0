-- ===== src/Tests/Delivering.antt =====
-- Deliveries and subscriptions.
use discord_personality_bot.Base.{ℕ, ◌≡◌, ◌≢◌, refl, false, none, [], ◌∷◌, map, ok}
use discord_personality_bot.Base.Lists.{All, length, sum_over}
use discord_personality_bot.Base.Sort.{sort, insert_by}
use discord_personality_bot.Text.{str_lt}
use discord_personality_bot.Events.Bus.{is_registered, Subscription, register, subscriptions_for}
use discord_personality_bot.Events.Dispatcher.{
  no_interpretation, RunView, threw, Handler, was_skipped, empty_turn, DeliveryOutcome,
  DispatchResult, turn, dispatch, dispatch_each, deliver, settle,
}
use discord_personality_bot.Events.Model.{is_non_psychological}
use discord_personality_bot.Events.Failing.{after_turns, failing_stops}
use discord_personality_bot.Events.Dispatching.{handled_ids, dispatch_reports}
use discord_personality_bot.Storage.Tables.{normal, Run, running, Delivery, pending}
use discord_personality_bot.Storage.Database.{World, transaction, leave}
use discord_personality_bot.Storage.Deliveries.{
  decide, complete, begin_attempt, begin_body, begin_from, first_attempt, mark_completed, find,
}
use discord_personality_bot.Storage.Delivering.{completed_once}
use discord_personality_bot.Storage.Runs.{mark_interrupted}
use discord_personality_bot.Storage.Recovery.{recovered}
use discord_personality_bot.Tests.Cases.{snapshot, world, clock, praised}
use discord_personality_bot.Tests.Processing.{raises_joy, engine}

abbrev run_view : RunView
run_view = record {
  snapshot = snapshot;
  interpretation = no_interpretation;
  run_id = 9;
  mode = normal;
  effective_now = 40;
}

abbrev reserved : Delivery
reserved = record {
  delivery_id = 60;
  event_id = 7;
  subscriber = "emotion_engine";
  status = pending;
  attempts = 1;
  first_attempt_at = 45;
  last_attempt_at = 45;
  completed_at = none;
  error = none;
}

abbrev delivering : World
delivering = record world { tables = record world.tables { deliveries = reserved ∷ [] } }

completed_once_example :
    let w' = (mark_completed 60 50 delivering).1 in
    ((begin_attempt 7 "emotion_engine" 70 3 w').0 ≡ ok (decide false (complete 50 reserved)))
    × ((begin_attempt 7 "emotion_engine" 70 3 w').1.tables ≡ w'.tables)
unfolding find
completed_once_example = completed_once 7 "emotion_engine" 50 70 3 delivering reserved refl

abbrev always_throws : Handler
always_throws name e view w = (threw "boom", w)

failing_stops_example :
    (i : ℕ) × ((turn clock always_throws praised run_view "mood_engine" (
        after_turns clock always_throws praised run_view "mood_engine"
          (λ w. ("boom", refl))
          3
          world)).0
      ≡ ok (empty_turn "mood_engine" was_skipped i))
unfolding find
failing_stops_example =
    failing_stops clock always_throws praised run_view "mood_engine" (λ w. ("boom", refl)) 3 world
      refl

dispatched :
    (d : DispatchResult) × ((dispatch clock raises_joy (engine ∷ []) praised run_view world).0
      ≡ ok d)
unfolding dispatch dispatch_each subscriptions_for sort insert_by turn begin_attempt begin_body
    begin_from first_attempt find transaction leave deliver settle is_non_psychological
dispatched = (_, refl)

dispatch_reports_example :
    (map (λ (o : DeliveryOutcome). o.subscriber) dispatched.0.outcomes
      ≡ map (λ (s : Subscription). s.name) (subscriptions_for praised (engine ∷ [])))
    × (dispatched.0.delivery_ids ≡ handled_ids dispatched.0.outcomes)
    × (length dispatched.0.proposals
        ≡ sum_over (λ (o : DeliveryOutcome). o.proposal_count) dispatched.0.outcomes)
    × (dispatched.0.event_id ≡ 7)
dispatch_reports_example =
    dispatch_reports clock raises_joy (engine ∷ []) praised run_view world dispatched.0 dispatched.1

abbrev other : Subscription
other = record engine { name = "mood_engine" }

registers : register other (engine ∷ []) ≡ ok (engine ∷ other ∷ [])
unfolding register is_registered sort insert_by str_lt
registers = refl

recovered_example :
    let w' = (mark_interrupted 80 delivering).1 in
    All (λ (r : Run). r.status ≢ running) w'.tables.runs
    × ((mark_interrupted 90 w').1.tables ≡ w'.tables)
recovered_example = recovered 80 90 delivering
