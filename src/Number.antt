-- ===== src/Number.antt =====
-- Python's floats, as the state domains use them: a finite value is an integer number of units of
-- 1e-9 (the arbitrator's EPSILON is one unit), and the infinities and NaN are values of their own.
-- Comparisons and sums follow IEEE 754 on the special values, and are exact: the rounding of a
-- sum is not modelled. An integer is a number of units too, and
-- `float_of` is its conversion.
use Prim.Native.Nat.{◌/◌, ◌%◌}
use discord_personality_bot.Base.{
  ℕ, zero, suc, ◌+◌, ◌*◌, ◌^◌, ltb, Bool, true, false, Option, none, some, List, [], ◌∷◌,
  if◌then◌else◌,
}
use discord_personality_bot.Base.Int.{ℤ, pos, negsuc, ◌+ℤ◌, neg_ℤ, ltb_ℤ}

pub data Float : Type 0 where
  fin : ℤ → Float
  inf neg_inf nan : Float

abbrev pub zero_float : Float
zero_float = fin (pos 0)

-- `EPSILON = 1e-9`
abbrev pub epsilon : Float
epsilon = fin (pos 1)

-- `math.isfinite`
abbrev pub is_finite : Float → Bool
is_finite (fin a) = true
is_finite _ = false

-- `n / d` to the nearest number, and to the even one of two that are as near.
unfoldable pub nearest : ℕ → ℕ → ℕ
nearest n d =
    let q = n / d in
    let r = n % d in if ltb (2 * r) d then q else if ltb d (2 * r) then q + 1 else q + q % 2

-- The distance of the floats around a number of units: one up to 2^53, and twice as much for each
-- doubling. Beyond 971 doublings there are no floats.
unfoldable pub spacing : ℕ → ℕ → ℕ → ℕ
spacing zero step n = step
spacing (suc k) step n = elim (ltb n (2 ^ 53 * step)) [
  | true ↦ step
  | false ↦ spacing k (2 * step) n
]

-- `float` of a number of units: an integer beyond 2^53 goes to the nearest float, and one that is as
-- large as 2^1024 to none.
unfoldable pub float_size : ℕ → Option ℕ
unfolding nearest spacing
float_size n = elim (ltb n (2 ^ 53 * 1000000000)) [
  | true ↦ some n
  | false ↦
      let step = spacing 971 1000000000 n in
      let m = nearest n step * step in
      elim (ltb m (2 ^ 1024 * 1000000000)) [ true ↦ some m | false ↦ none ]
]

-- `float`; none is the OverflowError.
unfoldable pub float_of : Float → Option Float
unfolding float_size
float_of (fin (pos n)) = elim (float_size n) [ none ↦ none | some m ↦ some (fin (pos m)) ]
float_of (fin (negsuc n)) = elim (float_size (suc n)) [
  | none ↦ none
  | some m ↦ some (fin (neg_ℤ (pos m)))
]
float_of inf = some inf
float_of neg_inf = some neg_inf
float_of nan = some nan

-- `x < y`
unfoldable pub float_lt : Float → Float → Bool
float_lt (fin a) (fin b) = ltb_ℤ a b
float_lt (fin a) inf = true
float_lt neg_inf (fin b) = true
float_lt neg_inf inf = true
float_lt _ _ = false

unfoldable pub float_add : Float → Float → Float
float_add (fin a) (fin b) = fin (a +ℤ b)
float_add (fin a) y = y
float_add inf (fin b) = inf
float_add inf inf = inf
float_add neg_inf (fin b) = neg_inf
float_add neg_inf neg_inf = neg_inf
float_add _ _ = nan

unfoldable pub float_neg : Float → Float
float_neg (fin a) = fin (neg_ℤ a)
float_neg inf = neg_inf
float_neg neg_inf = inf
float_neg nan = nan

unfoldable pub float_sub : Float → Float → Float
unfolding float_add float_neg
float_sub x y = float_add x (float_neg y)

-- `abs`
unfoldable pub float_abs : Float → Float
float_abs (fin a) = if ltb_ℤ a (pos 0) then fin (neg_ℤ a) else fin a
float_abs inf = inf
float_abs neg_inf = inf
float_abs nan = nan

-- `math.fsum`, which sums without intermediate rounding
unfoldable pub fsum : List Float → Float
unfolding float_add
fsum [] = zero_float
fsum (x ∷ xs) = float_add x (fsum xs)

-- `min` of a sequence: the first of the least values; `None` for an empty sequence.
unfoldable pub min_from : Float → List Float → Float
unfolding float_lt
min_from m [] = m
min_from m (x ∷ xs) = min_from (if float_lt x m then x else m) xs

unfoldable pub min_of : List Float → Option Float
unfolding min_from
min_of [] = none
min_of (x ∷ xs) = some (min_from x xs)
