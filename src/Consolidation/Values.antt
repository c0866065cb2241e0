-- ===== src/Consolidation/Values.antt =====
-- `redistribute` of app/consolidation/values.py: priority moves between the values, and the total
-- stays. Priorities and steps are numbers of millionths.
pub mod Totals
pub mod Exact
use Prim.Native.Nat.{min}
use discord_personality_bot.Base.{
  ℕ, suc, ◌+◌, ◌-◌, ◌*◌, String, Bool, true, false, not, ◌&&◌, ◌||◌, Option, none, some, List, [],
  ◌∷◌, map, ltb, leb, nat_beq, ◌==◌, text_test, if◌then◌else◌,
}
use discord_personality_bot.Base.Int.{ℤ, pos, ◌+ℤ◌, neg_ℤ, ltb_ℤ}
use discord_personality_bot.Base.Dict.{Dict, lookup}
use discord_personality_bot.Base.Lists.{sum_over}
use discord_personality_bot.Consolidation.Dynamics.{Direction, up, down, round_parts, distance}

abbrev pub Priorities : Type 0
Priorities = Dict String ℕ

unfoldable pub sum_of : Priorities → ℕ
sum_of [] = 0
sum_of ((name, p) ∷ ps) = p + sum_of ps

-- `sum(priorities[name] for name in others)`
unfoldable pub donor_pool : String → Priorities → ℕ
donor_pool raised [] = 0
donor_pool raised ((name, p) ∷ ps) =
    let rest = donor_pool raised ps in if name == raised then rest else p + rest

-- `len(others)`
unfoldable pub other_count : String → Priorities → ℕ
other_count raised [] = 0
other_count raised ((name, p) ∷ ps) =
    let rest = other_count raised ps in if name == raised then rest else suc rest

-- The step as it is cut to what the others have, or to what the value has.
unfoldable pub cut_step : Direction → ℕ → ℕ → ℕ → ℕ
cut_step up step pool own = min step pool
cut_step down step pool own = min step own

-- `updated`, each value as a number of parts, of which `whole` are a millionth.
pub record Shares : Type 0 where
  pub parts : Priorities
  pub whole : ℕ

abbrev step_own : Direction → ℕ → ℕ → ℕ
step_own up own s = own + s
step_own down own s = own - s

abbrev step_other : Direction → ℕ → ℕ → ℕ
step_other up p s = p - s
step_other down p s = p + s

-- The parts of the others: `weight p` parts of a step of `whole` parts.
unfoldable pub share_all : String → Direction → ℕ → ℕ → (ℕ → ℕ) → ℕ → Priorities → Priorities
share_all raised direction own s weight whole [] = []
share_all raised direction own s weight whole ((name, p) ∷ ps) =
    let rest = share_all raised direction own s weight whole ps in
    if name == raised
    then (name, step_own direction own s * whole) ∷ rest
    else (name, step_other direction (p * whole) (s * weight p)) ∷ rest

unfoldable pub shares : String → Direction → ℕ → Priorities → ℕ → Shares
unfolding donor_pool other_count cut_step share_all
shares raised direction step ps own =
    let pool = donor_pool raised ps in
    let count = other_count raised ps in
    let s = cut_step direction step pool own in
    if nat_beq pool 0
    then record { parts = share_all raised direction own s (λ p. 1) count ps; whole = count }
    else record { parts = share_all raised direction own s (λ p. p) pool ps; whole = pool }

-- The renormalisation, where the sum is off by more than 1e-12.
unfoldable pub renormalise : ℕ → Shares → Shares
unfolding sum_of
renormalise total u =
    let new_total = sum_of u.parts in
    if ltb 0 new_total && ltb u.whole (distance new_total (total * u.whole) * 1000000)
    then record { parts = map (λ (e : String × ℕ). (e.0, e.1 * total)) u.parts; whole = new_total }
    else u

-- `round(value, 6)` of each.
unfoldable pub round_all : Shares → Dict String ℤ
unfolding round_parts
round_all u = map (λ (e : String × ℕ). (e.0, pos (round_parts e.1 u.whole))) u.parts

unfoldable pub sum_ℤ : Dict String ℤ → ℤ
unfolding ◌+ℤ◌
sum_ℤ [] = pos 0
sum_ℤ ((name, x) ∷ d) = x +ℤ sum_ℤ d

-- `max(rounded, key=…)`: the first of the largest.
unfoldable pub largest_from : String → ℤ → Dict String ℤ → String
largest_from best x [] = best
largest_from best x ((name, y) ∷ d) =
    if ltb_ℤ x y then largest_from name y d else largest_from best x d

-- `rounded[largest] += residual`
unfoldable pub add_to : String → ℤ → Dict String ℤ → Dict String ℤ
unfolding ◌+ℤ◌
add_to name r [] = []
add_to name r ((k, x) ∷ d) = if k == name then (k, x +ℤ r) ∷ d else (k, x) ∷ add_to name r d

-- The rounding must not leak priority: what is left goes to the largest.
unfoldable pub settle_residual : ℕ → Dict String ℤ → Dict String ℤ
unfolding sum_ℤ largest_from add_to
settle_residual total [] = []
settle_residual total ((name, x) ∷ d) =
    let rounded = (name, x) ∷ d in
    add_to (largest_from name x d) (pos total +ℤ neg_ℤ (sum_ℤ rounded)) rounded

abbrev unchanged : Priorities → Dict String ℤ
unchanged ps = map (λ (e : String × ℕ). (e.0, pos e.1)) ps

-- `redistribute`
unfoldable pub redistribute : Priorities → String → Direction → ℕ → Dict String ℤ
unfolding lookup other_count shares renormalise round_all settle_residual sum_of
redistribute ps raised direction step = elim (lookup raised ps) [
  | none ↦ unchanged ps
  | some own ↦
      if nat_beq (other_count raised ps) 0
      then unchanged ps
      else settle_residual (sum_of ps)
          (round_all (renormalise (sum_of ps) (shares raised direction step ps own)))
]
