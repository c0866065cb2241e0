-- ===== src/Storage/Delivering.antt =====
-- What `begin_attempt` answers and leaves, by the row that it finds.
use discord_personality_bot.Base.{
  ℕ, ◌+◌, ◌≡◌, refl, ap, ◌∙◌, inl, inr, arith, true, false, Bool-cases, String, Option, none, some,
  List, [], ◌∷◌, ◌++◌, ltb, nat_beq, nat_beq_iff, text_test, if◌then◌else◌, ok,
}
use discord_personality_bot.Base.Dict.{beq_refl}
use discord_personality_bot.Storage.Tables.{Delivery}
use discord_personality_bot.Storage.Database.{World, transaction, leave}
use discord_personality_bot.Storage.Deliveries.{
  is_for, find, update, is_closed, first_attempt, attempted, decide, retry, begin_from, begin_body,
  begin_attempt, complete, mark_completed,
}

-- The row that a call finds.
abbrev pub found : ℕ → String → World → Option Delivery
found event subscriber w = find event subscriber w.tables.deliveries

module _ (event : ℕ) (subscriber : String) where
  -- An update that keeps the key of each row is seen in the row that is found.
  pub find-update :
      (i : ℕ) (f : Delivery → Delivery) (ds : List Delivery) (d : Delivery)
      → ((x : Delivery) → is_for event subscriber (f x) ≡ is_for event subscriber x)
      → find event subscriber ds ≡ some d
      → d.delivery_id ≡ i
      → find event subscriber (update i f ds) ≡ some (f d)
  unfolding find update
  find-update i f [] d keeps h same = absurd (cc h)
  find-update i f (x ∷ ds) d keeps h same = elim (Bool-cases (is_for event subscriber x)) [
    | inl here ↦
        let it : some x ≡ some d = rw here at h in
        let eq : x ≡ d = cc it in
        let hit : nat_beq x.delivery_id i ≡ true =
          (nat_beq_iff x.delivery_id i).1 (ap (λ (y : Delivery). y.delivery_id) eq ∙ same) in
        rw hit (rw (keeps x ∙ here) (ap (λ (y : Delivery). some (f y)) eq))
    | inr not_here ↦
        let later = find-update i f ds d keeps (rw not_here at h) same in
        elim (Bool-cases (nat_beq x.delivery_id i)) [
          | inl hit ↦ rw hit (rw (keeps x ∙ not_here) later)
          | inr miss ↦ rw miss (rw not_here later)
        ]
  ]

  pub find-append :
      (ds : List Delivery) (d : Delivery)
      → find event subscriber ds ≡ none
      → is_for event subscriber d ≡ true
      → find event subscriber (ds ++ d ∷ []) ≡ some d
  unfolding find
  find-append [] d h e = rw e refl
  find-append (x ∷ ds) d h e = elim (Bool-cases (is_for event subscriber x)) [
    | inl here ↦ absurd (cc (rw here at h))
    | inr not_here ↦ rw not_here (find-append ds d (rw not_here at h) e)
  ]

  -- No row yet: the first attempt is written.
  pub begin_attempt-first :
      (at limit : ℕ) (w : World)
      → found event subscriber w ≡ none
      → ((begin_attempt event subscriber at limit w).0
          ≡ ok (decide true (first_attempt w.next_id event subscriber at)))
        × (found event subscriber (begin_attempt event subscriber at limit w).1
            ≡ some (first_attempt w.next_id event subscriber at))
  unfolding begin_attempt transaction leave begin_body begin_from first_attempt
  begin_attempt-first at limit w h = (
    rw h refl,
    rw h (
        find-append w.tables.deliveries _ h
          (ground (arith, nat_beq_iff event event, beq_refl subscriber))),
  )

  pub begin_attempt-again :
      (at limit : ℕ) (w : World) (d : Delivery)
      → found event subscriber w ≡ some d
      → is_closed d.status ≡ false
      → ((begin_attempt event subscriber at limit w).0
          ≡ ok (decide (if ltb limit (d.attempts + 1) then false else true) (attempted limit at d)))
        × (found event subscriber (begin_attempt event subscriber at limit w).1
            ≡ some (attempted limit at d))
  unfolding begin_attempt transaction leave begin_body begin_from retry attempted
  begin_attempt-again at limit w d h still = (
    rw h (rw still refl),
    rw h (
        rw still (
          find-update d.delivery_id (attempted limit at) w.tables.deliveries d (λ x. refl) h refl)),
  )

  pub begin_attempt-closed :
      (at limit : ℕ) (w : World) (d : Delivery)
      → found event subscriber w ≡ some d
      → is_closed d.status ≡ true
      → ((begin_attempt event subscriber at limit w).0 ≡ ok (decide false d))
        × ((begin_attempt event subscriber at limit w).1.tables ≡ w.tables)
  unfolding begin_attempt transaction leave begin_body begin_from retry
  begin_attempt-closed at limit w d h closed = (rw h (rw closed refl), rw h (rw closed refl))

  -- Once the delivery of an event to a subscriber is completed, a later attempt is answered that
  -- there is nothing to process, at whatever time and with whatever limit, and changes no table.
  pub completed_once :
      (at later limit : ℕ) (w : World) (d : Delivery)
      → found event subscriber w ≡ some d
      → let w' = (mark_completed d.delivery_id at w).1 in
        ((begin_attempt event subscriber later limit w').0 ≡ ok (decide false (complete at d)))
        × ((begin_attempt event subscriber later limit w').1.tables ≡ w'.tables)
  unfolding mark_completed complete is_closed
  completed_once at later limit w d h =
      begin_attempt-closed later limit (mark_completed d.delivery_id at w).1 (complete at d)
        (find-update d.delivery_id (complete at) w.tables.deliveries d (λ x. refl) h refl) refl
