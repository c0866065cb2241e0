-- ===== src/Events/Dispatching.antt =====
-- What a dispatch reports (app/events/dispatcher.py).
use discord_personality_bot.Base.{
  ℕ, ◌+◌, ◌≡◌, refl, sym, ap, ◌∙◌, inl, inr, arith, Bool-cases, String, List, [], ◌∷◌, ◌++◌, map,
  ok,
}
use discord_personality_bot.Base.Lists.{length, length-append, sum_over}
use discord_personality_bot.Events.Model.{Event}
use discord_personality_bot.Events.Bus.{Subscription, subscriptions_for}
use discord_personality_bot.Events.Dispatcher.{
  RunView, Reply, result, timed_out, threw, invalid, Handler, handled, timeout, has_failed,
  was_skipped, DeliveryOutcome, outcome_of, Turn, empty_turn, add_turn, DispatchResult,
  nothing_dispatched, note_failure, settle, deliver, turn, dispatch_each, dispatch,
}
use discord_personality_bot.Storage.Tables.{ReasonCode}
use discord_personality_bot.Storage.Database.{World, ◌>>=◌}
use discord_personality_bot.Storage.Deliveries.{
  DeliveryDecision, begin_attempt, default_max_attempts, mark_failed,
}
use discord_personality_bot.Storage.Runs.{record_failure}
use discord_personality_bot.Storage.Effects.{Performs-weaken}
use discord_personality_bot.State.Committed.Quiet.{values_of, begin_attempt-IsQuiet}

-- The deliveries whose subscriber handled the event.
unfoldable pub handled_ids : List DeliveryOutcome → List ℕ
handled_ids [] = []
handled_ids (o ∷ os) = elim o.status [
  | handled ↦ o.delivery_id ∷ handled_ids os
  | _ ↦ handled_ids os
]

-- A turn reports on its subscriber.
abbrev IsReport : String → Turn → Type 0
IsReport name t =
    (t.outcome.subscriber ≡ name)
    × ((os : List DeliveryOutcome)
        → handled_ids (t.outcome ∷ os) ≡ t.delivery_ids ++ handled_ids os)
    × (length t.proposals ≡ t.outcome.proposal_count)

module _ (clock : ℕ → ℕ) (handle : Handler) (e : Event) (view : RunView) where
  note_failure-tt :
      (i run : ℕ) (r : ReasonCode) (m : String) (w : World)
      → (note_failure clock handle e i run r m w).0 ≡ ok tt
  unfolding note_failure mark_failed record_failure
  note_failure-tt i run r m w = refl

  settle-reports :
      (name : String) (i : ℕ) (r : Reply) (w : World)
      → (t : Turn) × ((settle clock handle e view name i r w).0 ≡ ok t) × IsReport name t
  unfolding settle empty_turn outcome_of handled_ids
  settle-reports name i (result ps es) w = (_, refl, (refl, (λ os. refl), refl))
  settle-reports name i timed_out w =
      (empty_turn name timeout i, rw (note_failure-tt, ◌>>=◌) refl, (refl, (λ os. refl), refl))
  settle-reports name i (threw m) w =
      (empty_turn name has_failed i, rw (note_failure-tt, ◌>>=◌) refl, (refl, (λ os. refl), refl))
  settle-reports name i (invalid m) w =
      (empty_turn name has_failed i, rw (note_failure-tt, ◌>>=◌) refl, (refl, (λ os. refl), refl))

  deliver-reports :
      (name : String) (d : DeliveryDecision) (w : World)
      → (t : Turn) × ((deliver clock handle e view name d w).0 ≡ ok t) × IsReport name t
  unfolding deliver empty_turn outcome_of handled_ids
  deliver-reports name d w = elim (Bool-cases d.should_process) [
    | inl go ↦
        rw go (settle-reports name d.delivery_id (handle name e view w).0 (handle name e view w).1)
    | inr stop ↦
        rw stop (empty_turn name was_skipped d.delivery_id, refl, (refl, (λ os. refl), refl))
  ]

  turn-reports :
      (name : String) (w : World)
      → (t : Turn) × ((turn clock handle e view name w).0 ≡ ok t) × IsReport name t
  unfolding turn
  turn-reports name w =
      let w1 : World = record w { ticks = w.ticks + 1 } in
      let b = begin_attempt e.event_id name (clock w.ticks) default_max_attempts in
      let (d, x) =
        Performs-weaken values_of b
          (begin_attempt-IsQuiet e.event_id name (clock w.ticks) default_max_attempts) w1 in
      let (t, y, r) = deliver-reports name d (b w1).1 in (t, rw (x, ◌>>=◌) y, r)

  dispatch_each-reports :
      (ss : List Subscription) (w : World)
      → (d : DispatchResult) × ((dispatch_each clock handle e view ss w).0 ≡ ok d)
        × (map (λ (o : DeliveryOutcome). o.subscriber) d.outcomes
            ≡ map (λ (s : Subscription). s.name) ss)
        × (d.delivery_ids ≡ handled_ids d.outcomes)
        × (length d.proposals ≡ sum_over (λ (o : DeliveryOutcome). o.proposal_count) d.outcomes)
        × (d.event_id ≡ e.event_id)
  unfolding dispatch_each add_turn handled_ids
  dispatch_each-reports [] w = (nothing_dispatched e, refl, refl, refl, refl, refl)
  dispatch_each-reports (s ∷ ss) w =
      let (t, x, (named, ids, count)) = turn-reports s.name w in
      let (d, y, names, rest, total, same) =
        dispatch_each-reports ss (turn clock handle e view s.name w).1 in
      (
        add_turn t d,
        rw (x, ◌>>=◌) (rw (y, ◌>>=◌) refl),
        cc (named, names),
        ap (λ is. t.delivery_ids ++ is) rest ∙ sym (ids d.outcomes),
        omega (arith, length-append t.proposals d.proposals, count, total),
        same,
      )

-- If a dispatch returns, it has one outcome for each subscription that accepts the event, in their
-- order; the deliveries that it hands on for completion are those that were handled, it carries as
-- many proposals as the outcomes count, and it names the event.
pub dispatch_reports :
    (clock : ℕ → ℕ) (handle : Handler) (bus : List Subscription) (e : Event) (view : RunView)
    (w : World) (d : DispatchResult)
    → (dispatch clock handle bus e view w).0 ≡ ok d
    → (map (λ (o : DeliveryOutcome). o.subscriber) d.outcomes
        ≡ map (λ (s : Subscription). s.name) (subscriptions_for e bus))
      × (d.delivery_ids ≡ handled_ids d.outcomes)
      × (length d.proposals ≡ sum_over (λ (o : DeliveryOutcome). o.proposal_count) d.outcomes)
      × (d.event_id ≡ e.event_id)
unfolding dispatch
dispatch_reports clock handle bus e view w d h =
    let (d', x, names, ids, total, event) =
      dispatch_each-reports clock handle e view (subscriptions_for e bus) w in
    let same : d' ≡ d = cc (x, h) in rw (sym same) (names, ids, total, event)
