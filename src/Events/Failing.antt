-- ===== src/Events/Failing.antt =====
-- A subscriber that always fails (app/events/dispatcher.py with app/storage/repositories/deliveries.py).
use discord_personality_bot.Base.{
  ℕ, zero, suc, ◌+◌, ◌≡◌, refl, ap, ◌∙◌, inl, inr, arith, true, false, Bool-cases, String, Option,
  none, some, ltb, if◌then◌else◌, ok,
}
use discord_personality_bot.Events.Model.{Event}
use discord_personality_bot.Events.Dispatcher.{
  RunView, threw, Handler, has_failed, was_skipped, empty_turn, note_failure, settle, deliver, turn,
}
use discord_personality_bot.Storage.Tables.{
  Tables, Delivery, failed_retryable, subscriber_exception,
}
use discord_personality_bot.Storage.Database.{World, ◌>>=◌}
use discord_personality_bot.Storage.Deliveries.{
  find, is_closed, first_attempt, attempted, decide, DeliveryDecision, begin_attempt,
  default_max_attempts, mark_failed,
}
use discord_personality_bot.Storage.Runs.{record_failure}
use discord_personality_bot.Storage.Delivering.{
  found, find-update, begin_attempt-first, begin_attempt-again, begin_attempt-closed,
}

-- The row of a subscriber that failed `k` times.
HasTried : ℕ → Option Delivery → Type 0
HasTried zero o = o ≡ none
HasTried (suc j) o =
    (d : Delivery) × (o ≡ some d)
    × (if ltb j 3
        then (d.attempts ≡ suc j) × (d.status ≡ failed_retryable)
        else is_closed d.status ≡ true)

-- The row after a failure that may be tried again.
abbrev failed : ℕ → String → Delivery → Delivery
failed at message d = record d {
  status = failed_retryable;
  last_attempt_at = at;
  error = some message;
}

module _ (clock : ℕ → ℕ) (handle : Handler) (e : Event) (view : RunView) (name : String) where
  note_failure-found :
      (i : ℕ) (m : String) (w : World) (d : Delivery)
      → found e.event_id name w ≡ some d
      → d.delivery_id ≡ i
      → ((note_failure clock handle e i view.run_id subscriber_exception m w).0 ≡ ok tt)
        × (found e.event_id name
              (note_failure clock handle e i view.run_id subscriber_exception m w).1
            ≡ some (failed (clock w.ticks) m d))
  unfolding note_failure mark_failed record_failure
  note_failure-found i m w d h same = (
    refl,
    find-update e.event_id name i (failed (clock w.ticks) m) w.tables.deliveries d (λ x. refl) h
        same,
  )

  module _ (fails : (w : World) → (m : String) × (handle name e view w ≡ (threw m, w))) where
    deliver-fails :
        (d : DeliveryDecision) (w : World) (row : Delivery)
        → d.should_process ≡ true
        → found e.event_id name w ≡ some row
        → row.delivery_id ≡ d.delivery_id
        → ((deliver clock handle e view name d w).0 ≡ ok (empty_turn name has_failed d.delivery_id))
          × ((at : ℕ) × (m : String) × (found e.event_id name
                  (deliver clock handle e view name d w).1
                ≡ some (failed at m row)))
    unfolding deliver settle
    deliver-fails d w row go h same =
        let (m, r) = fails w in
        let (x, f) = note_failure-found d.delivery_id m w row h same in
        (rw go (rw r (rw (x, ◌>>=◌) refl)), (clock w.ticks, m, rw go (rw r (rw (x, ◌>>=◌) f))))

    deliver-skips :
        (d : DeliveryDecision) (w : World)
        → d.should_process ≡ false
        → ((deliver clock handle e view name d w).0
            ≡ ok (empty_turn name was_skipped d.delivery_id))
          × ((deliver clock handle e view name d w).1 ≡ w)
    unfolding deliver
    deliver-skips d w stop = (rw stop refl, rw stop refl)

    -- What the turn after `k` failures answers, and the row that it leaves.
    abbrev Steps : ℕ → World → Type 0
    Steps k w =
        ((i : ℕ) × ((turn clock handle e view name w).0
            ≡ ok (empty_turn name (if ltb k 3 then has_failed else was_skipped) i)))
        × HasTried (suc k) (found e.event_id name (turn clock handle e view name w).1)

    first_turn : (w : World) → found e.event_id name w ≡ none → Steps zero w
    unfolding turn HasTried decide first_attempt
    first_turn w h =
        let w1 : World = record w { ticks = w.ticks + 1 } in
        let (x, f) =
          begin_attempt-first e.event_id name (clock w.ticks) default_max_attempts w1 h in
        let d = decide true (first_attempt w.next_id e.event_id name (clock w.ticks)) in
        let (y, (at, m, z)) =
          deliver-fails d (begin_attempt e.event_id name (clock w.ticks) default_max_attempts w1).1
            _ refl f refl in
        (
          (w.next_id, rw (x, ◌>>=◌) y),
          (
            failed at m (first_attempt w.next_id e.event_id name (clock w.ticks)),
            rw (x, ◌>>=◌) z,
            (refl, refl),
          ),
        )

    turn_over :
        (j : ℕ) (w : World) (d : Delivery)
        → found e.event_id name w ≡ some d
        → ltb j 3 ≡ false
        → is_closed d.status ≡ true
        → Steps (suc j) w
    unfolding turn HasTried decide
    turn_over j w d h over closed =
        let w1 : World = record w { ticks = w.ticks + 1 } in
        let w2 : World =
          (begin_attempt e.event_id name (clock w.ticks) default_max_attempts w1).1 in
        let (x, f) =
          begin_attempt-closed e.event_id name (clock w.ticks) default_max_attempts w1 d h closed in
        let (y, z) = deliver-skips (decide false d) w2 refl in
        let far : ltb (suc j) 3 ≡ false = ground (arith, over) in
        let still = ap (λ (t : Tables). find e.event_id name t.deliveries) f ∙ h in
        ((d.delivery_id, rw (x, ◌>>=◌) (rw far y)), (d, rw (x, ◌>>=◌) (rw z still), rw far closed))

    turn_again :
        (j : ℕ) (w : World) (d : Delivery)
        → found e.event_id name w ≡ some d
        → ltb j 3 ≡ true
        → (d.attempts ≡ suc j) × (d.status ≡ failed_retryable)
        → Steps (suc j) w
    unfolding turn HasTried decide attempted is_closed
    turn_again j w d h under (tried, status) =
        let w1 : World = record w { ticks = w.ticks + 1 } in
        let w2 : World =
          (begin_attempt e.event_id name (clock w.ticks) default_max_attempts w1).1 in
        let later = attempted default_max_attempts (clock w.ticks) d in
        let decision =
          decide (if ltb default_max_attempts (d.attempts + 1) then false else true) later in
        let (x, f) =
          begin_attempt-again e.event_id name (clock w.ticks) default_max_attempts w1 d h
            (rw status refl) in
        elim (Bool-cases (ltb (suc j) 3)) [
          | inl go ↦
              let (y, (at, m, z)) =
                deliver-fails decision w2 later (ground (arith, tried, go)) f refl in
              (
                (d.delivery_id, rw (x, ◌>>=◌) (rw go y)),
                (failed at m later, rw (x, ◌>>=◌) z, rw go (omega (arith, tried), refl)),
              )
          | inr stop ↦
              let (y, z) = deliver-skips decision w2 (ground (arith, tried, stop)) in
              let last : ltb default_max_attempts (d.attempts + 1) ≡ true =
                ground (arith, tried, stop) in
              (
                (d.delivery_id, rw (x, ◌>>=◌) (rw stop y)),
                (later, rw (x, ◌>>=◌) (rw z f), rw stop (rw last refl)),
              )
        ]

    turn-step : (k : ℕ) (w : World) → HasTried k (found e.event_id name w) → Steps k w
    unfolding HasTried
    turn-step zero w h = first_turn w h
    turn-step (suc j) w (d, h, t) = elim (Bool-cases (ltb j 3)) [
      | inl under ↦ turn_again j w d h under (rw under at t)
      | inr over ↦ turn_over j w d h over (rw over at t)
    ]

    -- The world after `n` turns of the subscriber on the event.
    pub after_turns : ℕ → World → World
    after_turns zero w = w
    after_turns (suc n) w = (turn clock handle e view name (after_turns n w)).1

    after_turns-tried :
        (n : ℕ) (w : World)
        → HasTried zero (found e.event_id name w)
        → HasTried n (found e.event_id name (after_turns n w))
    unfolding after_turns
    after_turns-tried zero w h = h
    after_turns-tried (suc n) w h = (turn-step n (after_turns n w) (after_turns-tried n w h)).1

    -- A subscriber that has no delivery for an event yet, and that always throws and writes
    -- nothing, is called for the event three times, each with a failure as the outcome; every
    -- later turn skips it.
    pub failing_stops :
        (n : ℕ) (w : World)
        → found e.event_id name w ≡ none
        → (i : ℕ) × ((turn clock handle e view name (after_turns n w)).0
            ≡ ok (empty_turn name (if ltb n 3 then has_failed else was_skipped) i))
    unfolding HasTried
    failing_stops n w h = (turn-step n (after_turns n w) (after_turns-tried n w h)).0
