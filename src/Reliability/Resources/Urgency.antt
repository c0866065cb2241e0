-- ===== src/Reliability/Resources/Urgency.antt =====
-- Whom a free slot goes to.
use discord_personality_bot.Base.{
  ◌-◌, ◌≡◌, sym, inl, inr, arith, true, false, Bool-cases, some, List, [], ◌∷◌, ltb,
}
use discord_personality_bot.Base.Lists.{All}
use discord_personality_bot.Base.Sort.{sort, Ascends, sort-Ascends}
use discord_personality_bot.Reliability.Resources.{
  Work, Waiter, more_urgent, goes_before, Manager, grant_from, admit_next, release,
}

goes_before-asym : (v w : Waiter) → goes_before v w ≡ true → goes_before w v ≡ false
unfolding goes_before more_urgent
goes_before-asym v w h = ground arith

goes_before_trans :
    (u v w : Waiter) → goes_before v u ≡ false → goes_before w v ≡ false → goes_before w u ≡ false
unfolding goes_before more_urgent
goes_before_trans u v w h k = ground arith

-- Of waiters in order, those that remain do not go before the one that is granted.
grant_from-first :
    (vs : List Waiter) (w : Work)
    → Ascends goes_before vs
    → (grant_from vs).0 ≡ some w
    → All (λ v. more_urgent v.work w ≡ false) (grant_from vs).1
unfolding grant_from goes_before
grant_from-first [] w h e = absurd (cc e)
grant_from-first (v ∷ vs) w h e = elim (Bool-cases v.cancelled) [
  | inl gone ↦ rw gone (grant_from-first vs w h.1 (rw gone at e))
  | inr live ↦
      let granted : some v.work ≡ some w = rw live at e in
      let same : v.work ≡ w = cc granted in rw live (rw (sym same) h.0)
]

-- The slot that a release frees goes to the most urgent waiter: no waiter that remains has a more
-- urgent priority, or the same priority and an earlier arrival.
pub release_urgent :
    (w v : Work) (m : Manager)
    → (release w m).0 ≡ some v
    → All (λ u. more_urgent u.work v ≡ false) (release w m).1.waiting
unfolding release admit_next
release_urgent w v m = elim (Bool-cases (ltb (m.in_flight - 1) m.capacity)) [
  | inl free ↦ rw free (λ e.
      grant_from-first (sort goes_before m.waiting) v
        (sort-Ascends goes_before goes_before-asym goes_before_trans m.waiting) e)
  | inr taken ↦ rw taken (λ e. absurd (cc e))
]
