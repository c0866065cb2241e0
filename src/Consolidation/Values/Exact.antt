-- ===== src/Consolidation/Values/Exact.antt =====
-- The renormalisation of `redistribute` has nothing to do where the products are exact.
use Prim.Native.Nat.{min}
use native.Mathlib.Nat.{mul-le-mul_right}
use discord_personality_bot.Base.{
  ℕ, ◌+◌, ◌-◌, ◌*◌, ◌≤◌, ◌≡◌, ◌≢◌, ◌∙◌, refl, sym, ap, inl, inr, arith, String, false, Bool-cases,
  none, some, Option-cases, [], ◌∷◌, nat_beq, ◌==◌, text_test, if◌then◌else◌,
}
use discord_personality_bot.Base.Int.{ℤ}
use discord_personality_bot.Base.Lists.{All, All-mono, DistinctBy}
use discord_personality_bot.Base.Dict.{Dict, lookup}
use discord_personality_bot.Consolidation.Dynamics.{Direction, up, down}
use discord_personality_bot.Consolidation.Values.{
  Priorities, sum_of, donor_pool, other_count, cut_step, Shares, share_all, shares, renormalise,
  round_all, settle_residual, unchanged, redistribute,
}

-- `redistribute` without the renormalisation.
unfoldable pub redistribute_plainly : Priorities → String → Direction → ℕ → Dict String ℤ
redistribute_plainly ps raised direction step = elim (lookup raised ps) [
  | none ↦ unchanged ps
  | some own ↦
      if nat_beq (other_count raised ps) 0
      then unchanged ps
      else settle_residual (sum_of ps) (round_all (shares raised direction step ps own))
]

module _ (raised : String) where
  -- The sum of the weights of the others.
  weight_sum : (ℕ → ℕ) → Priorities → ℕ
  weight_sum weight [] = 0
  weight_sum weight ((name, p) ∷ ps) =
      let rest = weight_sum weight ps in if name == raised then rest else weight p + rest

  weight_pool : (ps : Priorities) → weight_sum (λ p. p) ps ≡ donor_pool raised ps
  unfolding weight_sum donor_pool
  weight_pool [] = refl
  weight_pool ((name, p) ∷ ps) = ground (arith, weight_pool ps)

  weight_count : (ps : Priorities) → weight_sum (λ p. 1) ps ≡ other_count raised ps
  unfolding weight_sum other_count
  weight_count [] = refl
  weight_count ((name, p) ∷ ps) = ground (arith, weight_count ps)

  -- No value of these has the name.
  abbrev IsAbsent : Priorities → Type 0
  IsAbsent ps = All (λ (e : String × ℕ). (e.0 == raised) ≡ false) ps

  IsAbsent-of :
      (name : String) (ps : Priorities)
      → name ≡ raised
      → All (λ (e : String × ℕ). name ≢ e.0) ps
      → IsAbsent ps
  IsAbsent-of name ps same h =
      All-mono (λ (e : String × ℕ). name ≢ e.0) (λ (e : String × ℕ). (e.0 == raised) ≡ false) ps
        (λ e apart. elim (Bool-cases (e.0 == raised)) [
          | inl q ↦ absurd (apart (same ∙ sym ((text_test.test_iff e.0 raised).0 q)))
          | inr q ↦ q
        ])
        h

  module _ (own s whole : ℕ) (weight : ℕ → ℕ) where
    absent_down :
        (ps : Priorities)
        → IsAbsent ps
        → sum_of (share_all raised down own s weight whole ps)
          ≡ sum_of ps * whole + s * weight_sum weight ps
    unfolding sum_of share_all weight_sum
    absent_down [] h = omega arith
    absent_down ((name, p) ∷ ps) h =
        let rest = absent_down ps h.1 in rw (share_all, sum_of, weight_sum, h.0, rest) (omega arith)

    absent_up :
        ((p : ℕ) → s * weight p ≤ p * whole)
        → (ps : Priorities) → IsAbsent ps
        → sum_of (share_all raised up own s weight whole ps) + s * weight_sum weight ps
          ≡ sum_of ps * whole
    unfolding sum_of share_all weight_sum
    absent_up fit [] h = omega arith
    absent_up fit ((name, p) ∷ ps) h =
        let rest = absent_up fit ps h.1 in
        rw (share_all, sum_of, weight_sum, h.0) (omega (arith, rest, fit p))

    shared_down :
        (ps : Priorities)
        → lookup raised ps ≡ some own
        → DistinctBy (λ (e : String × ℕ). e.0) ps
        → sum_of (share_all raised down own s weight whole ps) + own * whole
          ≡ (own - s) * whole + sum_of ps * whole + s * weight_sum weight ps
    unfolding sum_of share_all weight_sum lookup
    shared_down [] e d = cc e
    shared_down ((name, p) ∷ ps) e d = elim (Bool-cases (name == raised)) [
      | inl q ↦
          let e' = rw (q, lookup) at e in
          let same : p ≡ own = cc e' in
          let rest =
            absent_down ps (IsAbsent-of name ps ((text_test.test_iff name raised).0 q) d.0) in
          rw (share_all, sum_of, weight_sum, q, rest, same) (omega arith)
      | inr q ↦
          let e' = rw (q, lookup) at e in
          let rest = shared_down ps e' d.1 in
          rw (share_all, sum_of, weight_sum, q) (omega (arith, rest))
    ]

    shared_up :
        ((p : ℕ) → s * weight p ≤ p * whole)
        → (ps : Priorities) → lookup raised ps ≡ some own
        → DistinctBy (λ (e : String × ℕ). e.0) ps
        → sum_of (share_all raised up own s weight whole ps)
            + s * weight_sum weight ps
            + own * whole
          ≡ (own + s) * whole + sum_of ps * whole
    unfolding sum_of share_all weight_sum lookup
    shared_up fit [] e d = cc e
    shared_up fit ((name, p) ∷ ps) e d = elim (Bool-cases (name == raised)) [
      | inl q ↦
          let e' = rw (q, lookup) at e in
          let same : p ≡ own = cc e' in
          let rest =
            absent_up fit ps (IsAbsent-of name ps ((text_test.test_iff name raised).0 q) d.0) in
          rw (share_all, sum_of, weight_sum, q, same) (omega (arith, rest))
      | inr q ↦
          let e' = rw (q, lookup) at e in
          let rest = shared_up fit ps e' d.1 in
          rw (share_all, sum_of, weight_sum, q) (omega (arith, rest, fit p))
    ]

    exact_down :
        (ps : Priorities)
        → lookup raised ps ≡ some own
        → DistinctBy (λ (e : String × ℕ). e.0) ps
        → s ≤ own
        → weight_sum weight ps ≡ whole
        → sum_of (share_all raised down own s weight whole ps) ≡ sum_of ps * whole
    exact_down ps e d l w =
        let shared = shared_down ps e d in
        let scaled : s * weight_sum weight ps ≡ s * whole = ap (λ x. s * x) w in
        let parted : own ≡ (own - s) + s = omega (arith, l) in
        let parts : own * whole ≡ ((own - s) + s) * whole = ap (λ x. x * whole) parted in
        omega (arith, shared, scaled, parts)

    exact_up :
        ((p : ℕ) → s * weight p ≤ p * whole)
        → (ps : Priorities) → lookup raised ps ≡ some own
        → DistinctBy (λ (e : String × ℕ). e.0) ps
        → weight_sum weight ps ≡ whole
        → sum_of (share_all raised up own s weight whole ps) ≡ sum_of ps * whole
    exact_up fit ps e d w =
        let shared = shared_up fit ps e d in
        let scaled : s * weight_sum weight ps ≡ s * whole = ap (λ x. s * x) w in
        omega (arith, shared, scaled)

renormalise_same :
    (total : ℕ) (u : Shares) → sum_of u.parts ≡ total * u.whole → renormalise total u ≡ u
unfolding renormalise
renormalise_same total u h = ground (arith, h)

shares_exact :
    (raised : String) (direction : Direction) (step own : ℕ) (ps : Priorities)
    → lookup raised ps ≡ some own
    → DistinctBy (λ (e : String × ℕ). e.0) ps
    → let u = shares raised direction step ps own in sum_of u.parts ≡ sum_of ps * u.whole
unfolding shares cut_step
shares_exact raised up step own ps e d = elim (Bool-cases (nat_beq (donor_pool raised ps) 0)) [
  | inl q ↦
      rw (shares, q)
        (exact_up raised own (min step (donor_pool raised ps)) (other_count raised ps) (λ p. 1)
          (λ p. ground (arith, q)) ps e d (weight_count raised ps))
  | inr q ↦
      rw (shares, q)
        (exact_up raised own (min step (donor_pool raised ps)) (donor_pool raised ps) (λ p. p)
          (λ p.
            let less : min step (donor_pool raised ps) ≤ donor_pool raised ps = omega arith in
            let scaled = mul-le-mul_right p less in omega (arith, scaled))
          ps e d (weight_pool raised ps))
]
shares_exact raised down step own ps e d = elim (Bool-cases (nat_beq (donor_pool raised ps) 0)) [
  | inl q ↦
      rw (shares, q)
        (exact_down raised own (min step own) (other_count raised ps) (λ p. 1) ps e d (omega arith)
          (weight_count raised ps))
  | inr q ↦
      rw (shares, q)
        (exact_down raised own (min step own) (donor_pool raised ps) (λ p. p) ps e d (omega arith)
          (weight_pool raised ps))
]

-- Where the names are distinct, a redistribution without the renormalisation gives the same, since
-- the shares add up to the total before they are rounded.
pub redistribute_exact :
    (ps : Priorities) (raised : String) (direction : Direction) (step : ℕ)
    → DistinctBy (λ (e : String × ℕ). e.0) ps
    → redistribute ps raised direction step ≡ redistribute_plainly ps raised direction step
unfolding redistribute redistribute_plainly
redistribute_exact ps raised direction step d = elim (Option-cases (lookup raised ps)) [
  | inl q ↦ rw (redistribute, redistribute_plainly, q) refl
  | inr (own, q) ↦
      let u : Shares = shares raised direction step ps own in
      let same : renormalise (sum_of ps) u ≡ u =
        renormalise_same (sum_of ps) u (shares_exact raised direction step own ps q d) in
      rw (redistribute, redistribute_plainly, q, same) refl
]
