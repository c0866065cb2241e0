-- ===== src/Agency/Decision/Choice.antt =====
-- What may be chosen.
use mathlib.Core.List.{Memᴰ}
use discord_personality_bot.Base.{
  ℕ, ◌+◌, ◌-◌, ◌≤◌, ◌≡◌, suc, refl, inl, inr, arith, true, false, Bool-cases, some, List, [], ◌∷◌,
  ltb, leb, if◌then◌else◌,
}
use discord_personality_bot.Base.Lists.{
  All, All-both, All-mem, All-mono, All-keep, members, keep, keep-All, length,
}
use discord_personality_bot.Base.Sort.{sort, sort-All, sort-Memᴰ, sort-Ascends, Ascends}
use discord_personality_bot.Agency.Decision.{
  ActionCandidate, DecisionPolicy, DecisionRecord, Engine, Call, by_value, contenders, noisy,
  largest, favourite, head_or, choose,
}

-- A noisy value is that of a candidate of the list, with a number of the stream.
abbrev IsNoisy : ℕ → List ActionCandidate → ActionCandidate × ℕ → Type 0
IsNoisy noise cs x = Memᴰ x.0 cs × (x.0.expected_value ≤ x.1) × (x.1 ≤ x.0.expected_value + noise)

noisy-All :
    (uniform : ℕ → ℕ) (noise n : ℕ) (cs : List ActionCandidate)
    → ((k : ℕ) → uniform k ≤ noise)
    → All (IsNoisy noise cs) (noisy uniform n cs)
unfolding noisy
noisy-All uniform noise n [] small = tt
noisy-All uniform noise n (c ∷ cs) small = (
  (Memᴰ.head refl, omega arith, omega (arith, small n)),
  All-mono (IsNoisy noise cs) (IsNoisy noise (c ∷ cs)) (noisy uniform (suc n) cs)
      (λ x h. (Memᴰ.tail h.0, h.1, h.2)) (noisy-All uniform noise (suc n) cs small),
)

largest-All :
    (P : ActionCandidate × ℕ → Type 0) (x : ActionCandidate × ℕ) (xs : List (ActionCandidate × ℕ))
    → P x
    → All P xs
    → P (largest x xs) × (x.1 ≤ (largest x xs).1)
unfolding largest
largest-All P x [] p h = (p, omega arith)
largest-All P x (y ∷ xs) p h = elim (Bool-cases (ltb x.1 y.1)) [
  | inl q ↦ let (p', l) = largest-All P y xs h.0 h.1 in rw (largest, q) (p', ground (arith, l, q))
  | inr q ↦ rw (largest, q) (largest-All P x xs p h.1)
]

-- A candidate of the list whose value is below that of `best` by no more than either bound.
abbrev IsNear :
    DecisionPolicy → ℕ → ActionCandidate → List ActionCandidate → ActionCandidate → Type 0
IsNear policy noise best cs d =
    Memᴰ d cs
    × (best.expected_value ≤ d.expected_value + policy.tie_threshold)
    × (best.expected_value ≤ d.expected_value + noise)

abbrev chosen_from :
    DecisionPolicy → (ℕ → ℕ) → ℕ → ActionCandidate → List ActionCandidate → ActionCandidate
chosen_from policy uniform n best ranked =
    let close = contenders policy best ranked in
    if ltb 1 (length close) then favourite best (noisy uniform n close) else best

contenders-All :
    (policy : DecisionPolicy) (best : ActionCandidate) (ranked : List ActionCandidate)
    → All
        (λ (c : ActionCandidate).
          Memᴰ c ranked × (best.expected_value ≤ c.expected_value + policy.tie_threshold))
        (contenders policy best ranked)
unfolding contenders
contenders-All policy best ranked =
    let test =
      λ (c : ActionCandidate). leb (best.expected_value - c.expected_value) policy.tie_threshold in
    All-both (λ c. Memᴰ c ranked)
      (λ (c : ActionCandidate). best.expected_value ≤ c.expected_value + policy.tie_threshold)
      (keep test ranked) (All-keep (λ c. Memᴰ c ranked) test ranked (members ranked))
      (All-mono (λ c. test c ≡ true)
        (λ (c : ActionCandidate). best.expected_value ≤ c.expected_value + policy.tie_threshold)
        (keep test ranked) (λ c e. ground (arith, e)) (keep-All test ranked))

contenders-head :
    (policy : DecisionPolicy) (best : ActionCandidate) (rest : List ActionCandidate)
    → (xs : List ActionCandidate) × (contenders policy best (best ∷ rest) ≡ best ∷ xs)
unfolding contenders
contenders-head policy best rest =
    let e : leb (best.expected_value - best.expected_value) policy.tie_threshold ≡ true =
      ground arith in
    (contenders policy best rest, rw e refl)

favourite_near :
    (uniform : ℕ → ℕ) (noise n : ℕ) (best : ActionCandidate) (xs : List ActionCandidate)
    → ((k : ℕ) → uniform k ≤ noise)
    → let d = favourite best (noisy uniform n (best ∷ xs)) in
      Memᴰ d (best ∷ xs) × (best.expected_value ≤ d.expected_value + noise)
unfolding favourite noisy
favourite_near uniform noise n best xs small =
    let (first, loud) = noisy-All uniform noise n (best ∷ xs) small in
    let (near, above) =
      largest-All (IsNoisy noise (best ∷ xs)) (best, best.expected_value + uniform n)
        (noisy uniform (suc n) xs) first loud in
    (near.0, omega (arith, above, near.2))

chosen_from-IsNear :
    (policy : DecisionPolicy) (uniform : ℕ → ℕ) (noise n : ℕ) (best : ActionCandidate)
    (rest : List ActionCandidate)
    → ((k : ℕ) → uniform k ≤ noise)
    → IsNear policy noise best (best ∷ rest) (chosen_from policy uniform n best (best ∷ rest))
chosen_from-IsNear policy uniform noise n best rest small =
    let close = contenders policy best (best ∷ rest) in
    elim (Bool-cases (ltb 1 (length close))) [
      | inr q ↦ rw q (Memᴰ.head refl, omega arith, omega arith)
      | inl q ↦
          let (xs, e) = contenders-head policy best rest in
          let (m, l) = favourite_near uniform noise n best xs small in
          let all = rw e at (contenders-All policy best (best ∷ rest)) in
          let (inside, near) =
            All-mem _ (favourite best (noisy uniform n (best ∷ xs))) (best ∷ xs) all m in
          rw (q, e) (inside, near, l)
    ]

-- The candidates, where there is one, and one of them that is within both bounds of each.
abbrev pub IsFairChoice : DecisionPolicy → ℕ → List ActionCandidate → ActionCandidate → Type 0
IsFairChoice policy noise cs d =
    Memᴰ d cs
    × All
        (λ (c : ActionCandidate).
          (c.expected_value ≤ d.expected_value + policy.tie_threshold)
          × (c.expected_value ≤ d.expected_value + noise))
        cs

from_ranked :
    (policy : DecisionPolicy) (uniform : ℕ → ℕ) (noise n : ℕ) (c : ActionCandidate)
    (ranked : List ActionCandidate)
    → ((k : ℕ) → uniform k ≤ noise)
    → Memᴰ c ranked
    → Ascends by_value ranked
    → IsFairChoice policy noise ranked (chosen_from policy uniform n (head_or c ranked) ranked)
from_ranked policy uniform noise n c [] small m a = elim m [ ]
from_ranked policy uniform noise n c (best ∷ rest) small m a =
    let (inside, tie, loss) = chosen_from-IsNear policy uniform noise n best rest small in
    let d = chosen_from policy uniform n best (best ∷ rest) in
    (
      inside,
      (
        (tie, loss),
        All-mono (λ x. by_value x best ≡ false)
            (λ (x : ActionCandidate).
              (x.expected_value ≤ d.expected_value + policy.tie_threshold)
              × (x.expected_value ≤ d.expected_value + noise))
            rest (λ x e. (ground (arith, e, tie), ground (arith, e, loss))) a.0,
      ),
    )

-- Where no number of the random stream exceeds the noise, a choice among at least one candidate
-- returns a decision, what is chosen is a candidate, and no candidate has an expected value above
-- that of the chosen one by more than the band of a tie or by more than the noise.
pub choose-IsFairChoice :
    (policy : DecisionPolicy) (uniform : ℕ → ℕ) (noise : ℕ) (call : Call) (c : ActionCandidate)
    (cs : List ActionCandidate) (s : Engine)
    → ((k : ℕ) → uniform k ≤ noise)
    → (d : DecisionRecord) × ((choose policy uniform call (c ∷ cs) s).0 ≡ some d)
      × IsFairChoice policy noise (c ∷ cs) d.chosen
unfolding choose
choose-IsFairChoice policy uniform noise call c cs s small =
    let ranked = sort by_value (c ∷ cs) in
    let (inside, all) =
      from_ranked policy uniform noise s.drawn c ranked small
        (sort-Memᴰ by_value c (c ∷ cs) (Memᴰ.head refl))
        (sort-Ascends by_value (λ x y h. ground (arith, h)) (λ x y z h k. ground (arith, h, k))
          (c ∷ cs)) in
    let from_list = sort-All by_value (λ x. Memᴰ x (c ∷ cs)) (c ∷ cs) (members (c ∷ cs)) in
    let d = chosen_from policy uniform s.drawn (head_or c ranked) ranked in
    (
      _,
      refl,
      (
        All-mem (λ x. Memᴰ x (c ∷ cs)) d ranked from_list inside,
        All-mono (λ x. Memᴰ x (c ∷ cs)) _ (c ∷ cs)
            (λ x m. All-mem _ x ranked all (sort-Memᴰ by_value x (c ∷ cs) m)) (members (c ∷ cs)),
      ),
    )
