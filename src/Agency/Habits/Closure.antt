-- ===== src/Agency/Habits/Closure.antt =====
-- A relation of identifier and automaticity that every write keeps holds of all rows.
use mathlib.Core.Path.{subst}
use discord_personality_bot.Base.{
  ℕ, ◌≤◌, ◌≡◌, inl, inr, arith, String, Bool, true, ◌&&◌, Bool-cases, Option-cases, some, List, [],
  ◌∷◌, nat_beq, nat_beq_iff, text_test, ◌==◌,
}
use discord_personality_bot.Base.Lists.{All, All-mono, All-append, All-keep, All-map, keep}
use discord_personality_bot.Base.Sort.{sort-All}
use discord_personality_bot.Jobs.Scheduler.{first-All}
use discord_personality_bot.Consolidation.Dynamics.{round_parts}
use discord_personality_bot.Agency.Habits.{
  HabitPolicy, Habit, Habits, HabitCall, observe, cue_encountered, set_context_available,
  apply_disuse, decayed, practised, observed, encountered, with_context, disused, update,
  update_all, is_disused, find, get, ensure, by_cue, all, call,
}

-- The calls of a life, each at its instant.
unfoldable pub after : HabitPolicy → List (ℕ × HabitCall) → Habits → Habits
unfolding call
after policy [] s = s
after policy ((now, c) ∷ calls) s = after policy calls (call policy now c s).1

-- Every row satisfies a relation of its identifier and its automaticity.
abbrev pub Each : (ℕ → ℕ → Type 0) → List Habit → Type 0
Each P rows = All (λ (h : Habit). P h.habit_id h.automaticity) rows

-- An observation is one that a test allows.
abbrev pub IsAllowed : (Bool → Bool → Bool) → HabitCall → Type 0
IsAllowed test (observe name cue action c p) = test c p ≡ true
IsAllowed test _ = Unit

module _ (P : ℕ → ℕ → Type 0) where
  update-Each :
      (h : Habit) (rows : List Habit)
      → P h.habit_id h.automaticity
      → Each P rows
      → Each P (update h rows)
  unfolding update
  update-Each h [] p r = tt
  update-Each h (x ∷ rows) p r = elim (Bool-cases (nat_beq x.habit_id h.habit_id)) [
    | inl q ↦
        let e : x.habit_id ≡ h.habit_id = (nat_beq_iff x.habit_id h.habit_id).0 q in
        let here : P x.habit_id h.automaticity = rw e p in rw q (here, update-Each h rows p r.1)
    | inr q ↦ rw q (r.0, update-Each h rows p r.1)
  ]

  update_all-Each : (hs rows : List Habit) → Each P hs → Each P rows → Each P (update_all hs rows)
  unfolding update_all
  update_all-Each [] rows p r = r
  update_all-Each (h ∷ hs) rows p r =
      update_all-Each hs (update h rows) p.1 (update-Each h rows p.0 r)

  find-Each :
      (name cue : String) (rows : List Habit) (h : Habit)
      → Each P rows
      → find name cue rows ≡ some h
      → P h.habit_id h.automaticity
  unfolding find
  find-Each name cue [] h r e = cc e
  find-Each name cue (x ∷ rows) h r e = elim (Bool-cases (x.name == name && x.cue == cue)) [
    | inl q ↦
        let e' : some x ≡ some h = rw q at e in
        let same : x ≡ h = cc e' in subst (λ (k : Habit). P k.habit_id k.automaticity) same r.0
    | inr q ↦ find-Each name cue rows h r.1 (rw q at e)
  ]

  get-Each :
      (i : ℕ) (rows : List Habit) (h : Habit)
      → Each P rows
      → get i rows ≡ some h
      → P h.habit_id h.automaticity
  unfolding get
  get-Each i [] h r e = cc e
  get-Each i (x ∷ rows) h r e = elim (Bool-cases (nat_beq x.habit_id i)) [
    | inl q ↦
        let e' : some x ≡ some h = rw q at e in
        let same : x ≡ h = cc e' in subst (λ (k : Habit). P k.habit_id k.automaticity) same r.0
    | inr q ↦ get-Each i rows h r.1 (rw q at e)
  ]

  -- What the engine writes keeps the relation, and it holds of a fresh row.
  module _ (policy : HabitPolicy) (test : Bool → Bool → Bool) (bound : ℕ)
      (decayed-P : (now : ℕ) (h : Habit)
        → P h.habit_id h.automaticity
        → P h.habit_id (round_parts (decayed policy now h) 86400))
      (practised-P : (now : ℕ) (c p : Bool) (h : Habit)
        → test c p ≡ true
        → P h.habit_id h.automaticity
        → P h.habit_id (round_parts (practised policy c p (decayed policy now h)) 86400000000))
      (fresh-P : (i : ℕ) → bound ≤ i → P i 0) where
    ensure-Each :
        (name cue action : String) (now : ℕ) (s : Habits)
        → bound ≤ s.next_id
        → Each P s.rows
        → (bound ≤ (ensure name cue action now s).1.next_id)
          × P
              (ensure name cue action now s).0.habit_id
              (ensure name cue action now s).0.automaticity
          × Each P (ensure name cue action now s).1.rows
    unfolding ensure
    ensure-Each name cue action now s b r = elim (Option-cases (find name cue s.rows)) [
      | inl q ↦
          let p = fresh-P s.next_id b in
          rw (ensure, q)
            (
              omega (arith, b),
              p,
              All-append (λ (h : Habit). P h.habit_id h.automaticity) s.rows (_ ∷ []) r (p, tt),
            )
      | inr (h, q) ↦ rw (ensure, q) (omega (arith, b), find-Each name cue s.rows h r q, r)
    ]

    call-Each :
        (now : ℕ) (c : HabitCall) (s : Habits)
        → IsAllowed test c
        → bound ≤ s.next_id
        → Each P s.rows
        → (bound ≤ (call policy now c s).1.next_id) × Each P (call policy now c s).1.rows
    unfolding call observed encountered with_context disused by_cue all
    call-Each now (observe name cue action c p) s a b r =
        let (b', h, r') = ensure-Each name cue action now s b r in
        (
          b',
          update-Each (observed policy now c p (ensure name cue action now s).0)
              (ensure name cue action now s).1.rows
              (practised-P now c p (ensure name cue action now s).0 a h) r',
        )
    call-Each now (cue_encountered cue) s a b r =
        let Q = λ (h : Habit). P h.habit_id h.automaticity in
        (
          b,
          update_all-Each _ s.rows
              (All-map Q (encountered policy now) (by_cue cue s.rows) (
                All-mono Q (λ h. Q (encountered policy now h)) (by_cue cue s.rows) (decayed-P now)
                  (sort-All _ Q _ (All-keep Q _ s.rows r))))
              r,
        )
    call-Each now (set_context_available i available) s a b r = elim (Option-cases (get i s.rows)) [
      | inl q ↦ rw (call, q) (b, r)
      | inr (h, q) ↦
          rw (call, q)
            (b, update-Each (with_context now available h) s.rows (get-Each i s.rows h r q) r)
    ]
    call-Each now apply_disuse s a b r =
        let Q = λ (h : Habit). P h.habit_id h.automaticity in
        let due = keep (is_disused policy now) (all s.rows) in
        (
          b,
          update_all-Each _ s.rows
              (All-map Q (disused policy now) due (
                All-mono Q (λ h. Q (disused policy now h)) due (decayed-P now)
                  (All-keep Q _ (all s.rows) (first-All Q 500 _ (sort-All _ Q s.rows r)))))
              r,
        )

    pub after-Each :
        (calls : List (ℕ × HabitCall)) (s : Habits)
        → All (λ (c : ℕ × HabitCall). IsAllowed test c.1) calls
        → bound ≤ s.next_id
        → Each P s.rows
        → Each P (after policy calls s).rows
    unfolding after
    after-Each [] s a b r = r
    after-Each ((now, c) ∷ calls) s a b r =
        let (b', r') = call-Each now c s a.0 b r in
        after-Each calls (call policy now c s).1 a.1 b' r'
