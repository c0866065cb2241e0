-- ===== src/Agency/Habits/Histories.antt =====
-- How automaticity moves over any sequence of calls.
use native.Mathlib.Nat.{le_trans}
use mathlib.Core.List.{append-nil, append_assoc, map-append}
use discord_personality_bot.Base.{
  ℕ, ◌≤◌, ◌<◌, ◌≡◌, refl, sym, ap, ◌∙◌, inl, inr, arith, String, true, not, ◌&&◌, Option-cases,
  List, [], ◌∷◌, ◌++◌, map, text_test,
}
use discord_personality_bot.Base.Lists.{All, keep}
use discord_personality_bot.Agency.Habits.{
  HabitPolicy, Habit, Habits, HabitCall, observe, cue_encountered, set_context_available,
  apply_disuse, decayed, practised, observed, encountered, with_context, disused, update,
  update_all, is_disused, find, get, ensure, by_cue, all, call,
}
use discord_personality_bot.Agency.Habits.Closure.{after, IsAllowed, after-Each}
use discord_personality_bot.Agency.Habits.Rates.{
  decayed_low, decayed_high, practised_low, practised_high, round_day_up, round_day_down,
  round_gain_up, round_gain_down,
}

abbrev ids : List Habit → List ℕ
ids rows = map (λ (h : Habit). h.habit_id) rows

ids-update : (h : Habit) (rows : List Habit) → ids (update h rows) ≡ ids rows
unfolding update
ids-update h [] = refl
ids-update h (x ∷ rows) = ground (arith, ids-update h rows)

ids-update_all : (hs rows : List Habit) → ids (update_all hs rows) ≡ ids rows
unfolding update_all
ids-update_all [] rows = refl
ids-update_all (h ∷ hs) rows = ids-update_all hs (update h rows) ∙ ids-update h rows

-- The rows of one table stand in another, in the same order, before the rows that are new.
abbrev pub Extends : Habits → Habits → Type 0
Extends s s' = (new : List ℕ) × (ids s'.rows ≡ ids s.rows ++ new)

same :
    (s : Habits) (rows : List Habit) → ids rows ≡ ids s.rows → Extends s (record s { rows = rows })
same s rows e = ([], e ∙ sym (append-nil (ids s.rows)))

ensure-Extends :
    (name cue action : String) (now : ℕ) (s : Habits) → Extends s (ensure name cue action now s).1
unfolding ensure
ensure-Extends name cue action now s = elim (Option-cases (find name cue s.rows)) [
  | inl q ↦ rw (ensure, q) (s.next_id ∷ [], map-append (λ (h : Habit). h.habit_id) s.rows (_ ∷ []))
  | inr (h, q) ↦ rw (ensure, q) (same s s.rows refl)
]

call-Extends :
    (policy : HabitPolicy) (now : ℕ) (c : HabitCall) (s : Habits)
    → Extends s (call policy now c s).1
unfolding call
call-Extends policy now (observe name cue action c p) s =
    let s' = (ensure name cue action now s).1 in
    let (new, e) = ensure-Extends name cue action now s in
    (new, ids-update (observed policy now c p (ensure name cue action now s).0) s'.rows ∙ e)
call-Extends policy now (cue_encountered cue) s =
    same s (update_all (map (encountered policy now) (by_cue cue s.rows)) s.rows)
      (ids-update_all (map (encountered policy now) (by_cue cue s.rows)) s.rows)
call-Extends policy now (set_context_available i available) s = elim (Option-cases (get i s.rows)) [
  | inl q ↦ rw (call, q) (same s s.rows refl)
  | inr (h, q) ↦
      rw (call, q)
        (same s (update (with_context now available h) s.rows)
          (ids-update (with_context now available h) s.rows))
]
call-Extends policy now apply_disuse s =
    let due = map (disused policy now) (keep (is_disused policy now) (all s.rows)) in
    same s (update_all due s.rows) (ids-update_all due s.rows)

after-Extends :
    (policy : HabitPolicy) (calls : List (ℕ × HabitCall)) (s : Habits)
    → Extends s (after policy calls s)
unfolding after
after-Extends policy [] s = same s s.rows refl
after-Extends policy ((now, c) ∷ calls) s =
    let s' = (call policy now c s).1 in
    let (new, e) = call-Extends policy now c s in
    let (more, f) = after-Extends policy calls s' in
    (new ++ more, f ∙ ap (λ xs. xs ++ more) e ∙ append_assoc (ids s.rows) new more)

-- Every row of a habit has at least, or at most, some automaticity.
abbrev pub HasAtLeast : ℕ → ℕ → Habits → Type 0
HasAtLeast i t s = All (λ (h : Habit). h.habit_id ≡ i → t ≤ h.automaticity) s.rows

abbrev pub HasAtMost : ℕ → ℕ → Habits → Type 0
HasAtMost i u s = All (λ (h : Habit). h.habit_id ≡ i → h.automaticity ≤ u) s.rows

-- No cue was there when the action was performed.
abbrev pub IsUnpaired : List (ℕ × HabitCall) → Type 0
IsUnpaired calls = All (λ (c : ℕ × HabitCall). IsAllowed (λ x y. not (x && y)) c.1) calls

anything :
    (calls : List (ℕ × HabitCall)) → All (λ (c : ℕ × HabitCall). IsAllowed (λ x y. true) c.1) calls
anything [] = tt
anything ((now, observe name cue action c p) ∷ calls) = (refl, anything calls)
anything ((now, cue_encountered cue) ∷ calls) = (tt, anything calls)
anything ((now, set_context_available i a) ∷ calls) = (tt, anything calls)
anything ((now, apply_disuse) ∷ calls) = (tt, anything calls)

module _ (policy : HabitPolicy) (i : ℕ) (calls : List (ℕ × HabitCall)) (s : Habits)
    (known : i < s.next_id) where
  -- Over any sequence of calls of the engine at any instants, the rows of a habit whose identifier
  -- was given out keep any automaticity that they had and that is at most the floor of the trace
  -- and the ceiling, and no row is removed.
  pub trace_remains :
      (t : ℕ)
      → t ≤ policy.trace_floor
      → t ≤ policy.automaticity_ceiling
      → HasAtLeast i t s
      → HasAtLeast i t (after policy calls s) × Extends s (after policy calls s)
  trace_remains t low below h = (
    after-Each (λ j a. j ≡ i → t ≤ a) policy (λ x y. true) s.next_id
        (λ now r p e.
          round_day_down (decayed policy now r) t (decayed_low policy now t r low (p e)))
        (λ now c q r ok p e.
          let a = decayed policy now r in
          round_gain_down (practised policy c q a) t
            (practised_low policy c q t a below (decayed_low policy now t r low (p e))))
        (λ j b e. absurd (omega arith)) calls s (anything calls) (omega arith) h,
    after-Extends policy calls s,
  )

  -- Over any sequence of calls in which no habit is performed with its cue, the rows of a habit
  -- whose identifier was given out never pass the automaticity that bounded them before.
  pub unpaired_builds_nothing :
      (u : ℕ) → IsUnpaired calls → HasAtMost i u s → HasAtMost i u (after policy calls s)
  unpaired_builds_nothing u unpaired h =
      after-Each (λ j a. j ≡ i → a ≤ u) policy (λ x y. not (x && y)) s.next_id
        (λ now r p e. round_day_up (decayed policy now r) u (
          le_trans (decayed_high policy now r)
            (let l : r.automaticity ≤ u = p e in omega (arith, l))))
        (λ now c q r ok p e.
          let a = decayed policy now r in
          let l : r.automaticity ≤ u = p e in
          round_gain_up (practised policy c q a) u
            (practised_high policy c q u a ok (omega (arith, l, decayed_high policy now r))))
        (λ j b e. omega arith) calls s unpaired (omega arith) h
