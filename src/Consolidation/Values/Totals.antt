-- ===== src/Consolidation/Values/Totals.antt =====
-- The total of the priorities.
use discord_personality_bot.Base.{
  ℕ, ◌+◌, ◌*◌, ◌≡◌, ◌∙◌, refl, inl, inr, arith, String, Bool, true, false, Bool-cases, Option-cases,
  [], ◌∷◌, map, ltb, nat_beq, ◌==◌, text_test, if◌then◌else◌, ◌&&◌,
}
use discord_personality_bot.Base.Int.{ℤ, pos, ◌+ℤ◌, neg_ℤ, +ℤ_parts, neg_ℤ_parts, eq_of_parts}
use discord_personality_bot.Base.Dict.{Dict, lookup, beq_refl}
use discord_personality_bot.Consolidation.Dynamics.{Direction, distance}
use discord_personality_bot.Consolidation.Values.{
  Priorities, sum_of, other_count, Shares, share_all, shares, renormalise, round_all, sum_ℤ,
  largest_from, add_to, settle_residual, redistribute,
}

pos_add : (m n : ℕ) → pos m +ℤ pos n ≡ pos (m + n)
pos_add m n = eq_of_parts (pos m +ℤ pos n) (pos (m + n)) (omega (arith, +ℤ_parts (pos m) (pos n)))

add_left_comm : (x y z : ℤ) → x +ℤ (y +ℤ z) ≡ y +ℤ (x +ℤ z)
add_left_comm x y z =
    eq_of_parts (x +ℤ (y +ℤ z)) (y +ℤ (x +ℤ z))
      (omega (arith, +ℤ_parts y z, +ℤ_parts x z, +ℤ_parts x (y +ℤ z), +ℤ_parts y (x +ℤ z)))

add_assoc_comm : (x r z : ℤ) → (x +ℤ r) +ℤ z ≡ r +ℤ (x +ℤ z)
add_assoc_comm x r z =
    eq_of_parts ((x +ℤ r) +ℤ z) (r +ℤ (x +ℤ z))
      (omega (arith, +ℤ_parts x r, +ℤ_parts x z, +ℤ_parts (x +ℤ r) z, +ℤ_parts r (x +ℤ z)))

fill_up : (t x : ℤ) → (t +ℤ neg_ℤ x) +ℤ x ≡ t
fill_up t x =
    eq_of_parts ((t +ℤ neg_ℤ x) +ℤ x) t
      (omega (arith, neg_ℤ_parts x, +ℤ_parts t (neg_ℤ x), +ℤ_parts (t +ℤ neg_ℤ x) x))

sum-unchanged :
    (ps : Priorities) → sum_ℤ (map (λ (e : String × ℕ). (e.0, pos e.1)) ps) ≡ pos (sum_of ps)
unfolding sum_ℤ sum_of
sum-unchanged [] = refl
sum-unchanged ((name, p) ∷ ps) = rw (sum_ℤ, sum_of, sum-unchanged ps) (pos_add p (sum_of ps))

has : String → Dict String ℤ → Bool
has name [] = false
has name ((k, x) ∷ d) = if k == name then true else has name d

largest-has :
    (best : String) (x : ℤ) (d : Dict String ℤ) → has (largest_from best x d) ((best, x) ∷ d) ≡ true
unfolding largest_from has
largest-has best x [] = rw (beq_refl best) refl
largest-has best x ((name, y) ∷ d) = ground (arith, largest-has name y d, largest-has best x d)

sum-add_to :
    (name : String) (r : ℤ) (d : Dict String ℤ)
    → has name d ≡ true
    → sum_ℤ (add_to name r d) ≡ r +ℤ sum_ℤ d
unfolding sum_ℤ add_to has
sum-add_to name r [] h = cc h
sum-add_to name r ((k, x) ∷ d) h = elim (Bool-cases (k == name)) [
  | inl q ↦ rw (add_to, sum_ℤ, q) (add_assoc_comm x r (sum_ℤ d))
  | inr q ↦
      let h' : has name d ≡ true = rw q at h in
      rw (add_to, sum_ℤ, q, sum-add_to name r d h') (add_left_comm x r (sum_ℤ d))
]

sum-settle_residual :
    (total : ℕ) (e : String × ℤ) (d : Dict String ℤ)
    → sum_ℤ (settle_residual total (e ∷ d)) ≡ pos total
unfolding settle_residual
sum-settle_residual total (name, x) d =
    let rounded : Dict String ℤ = (name, x) ∷ d in
    sum-add_to (largest_from name x d) (pos total +ℤ neg_ℤ (sum_ℤ rounded)) rounded
      (largest-has name x d)
    ∙ fill_up (pos total) (sum_ℤ rounded)

is_filled : {A : Type 0} → Dict String A → Bool
is_filled [] = false
is_filled (e ∷ d) = true

settled :
    (total : ℕ) (d : Dict String ℤ)
    → is_filled d ≡ true
    → sum_ℤ (settle_residual total d) ≡ pos total
unfolding is_filled
settled total [] h = cc h
settled total (e ∷ d) h = sum-settle_residual total e d

map-is_filled :
    {A B : Type 0} (f : String × A → String × B) (d : Dict String A)
    → is_filled (map f d) ≡ is_filled d
unfolding is_filled
map-is_filled f [] = refl
map-is_filled f (e ∷ d) = refl

renormalise-is_filled :
    (total : ℕ) (u : Shares) → is_filled (renormalise total u).parts ≡ is_filled u.parts
unfolding renormalise
renormalise-is_filled total u =
    elim (Bool-cases (
      ltb 0 (sum_of u.parts)
      && ltb u.whole (distance (sum_of u.parts) (total * u.whole) * 1000000))) [
        | inl q ↦ rw (renormalise, q) (map-is_filled _ u.parts)
        | inr q ↦ rw (renormalise, q) refl
      ]

shares-is_filled :
    (raised : String) (direction : Direction) (step own : ℕ) (e : String × ℕ) (ps : Priorities)
    → is_filled (shares raised direction step (e ∷ ps) own).parts ≡ true
unfolding shares share_all is_filled
shares-is_filled raised direction step own (name, p) ps = ground arith

-- A redistribution keeps the total of the priorities exactly, whichever name is raised or lowered
-- by whatever step.
pub redistribute_total :
    (ps : Priorities) (raised : String) (direction : Direction) (step : ℕ)
    → sum_ℤ (redistribute ps raised direction step) ≡ pos (sum_of ps)
unfolding redistribute lookup round_all
redistribute_total [] raised direction step = sum-unchanged []
redistribute_total (e ∷ ps) raised direction step = elim (Option-cases (lookup raised (e ∷ ps))) [
  | inl q ↦ rw (redistribute, q) (sum-unchanged (e ∷ ps))
  | inr (own, q) ↦ elim (Bool-cases (nat_beq (other_count raised (e ∷ ps)) 0)) [
    | inl r ↦ rw (redistribute, q, r) (sum-unchanged (e ∷ ps))
    | inr r ↦
        let u : Shares = shares raised direction step (e ∷ ps) own in
        let total = sum_of (e ∷ ps) in
        rw (redistribute, q, r)
          (settled total (round_all (renormalise total u)) (
            map-is_filled _ (renormalise total u).parts
            ∙ (renormalise-is_filled total u ∙ shares-is_filled raised direction step own e ps)))
  ]
]
