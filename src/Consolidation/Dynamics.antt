-- ===== src/Consolidation/Dynamics.antt =====
-- app/consolidation/dynamics.py. A value, a step or a rate is a number of millionths, to which the
-- engines round every value that they keep; products are exact, where Python rounds to 53 bits.
use Prim.Native.Nat.{◌/◌, ◌%◌, min}
use discord_personality_bot.Base.{
  ℕ, ◌+◌, ◌-◌, ◌*◌, ◌≤◌, arith, Bool, true, false, ltb, nat_beq, if◌then◌else◌,
}

abbrev pub one : ℕ
one = 1000000

-- `MIDPOINT`
abbrev pub midpoint : ℕ
midpoint = 500000

-- The sign of a step: +1 or -1.
pub data Direction : Type 0 where
  up down : Direction

abbrev pub direction_beq : Direction → Direction → Bool
direction_beq up up = true
direction_beq down down = true
direction_beq _ _ = false

-- `outward`
unfoldable pub outward : ℕ → Direction → Bool
outward value up = ltb midpoint value
outward value down = ltb value midpoint

abbrev pub distance : ℕ → ℕ → ℕ
distance a b = (a - b) + (b - a)

-- `damping_factor`, in units of 1e-12
unfoldable pub damping_factor : ℕ → Direction → ℕ → ℕ
unfolding outward
damping_factor value direction damping =
    if outward value direction
    then 1000000000000 - damping * min 1000000 (distance value midpoint * 2)
    else 1000000000000

-- `damped_step`: the size of the step, in units of 1e-18
unfoldable pub damped_step : ℕ → Direction → ℕ → ℕ → ℕ → ℕ
unfolding damping_factor
damped_step value direction step damping limit =
    min (limit * 1000000000000) (step * damping_factor value direction damping)

-- `round(x, 6)` of `n` parts, `d` of which are a millionth: to the nearest, and to the even one of two.
unfoldable pub round_parts : ℕ → ℕ → ℕ
round_parts n d =
    let q = n / d in
    let r = n % d * 2 in
    if ltb r d then q else if ltb d r then q + 1 else if nat_beq (q % 2) 0 then q else q + 1

-- `round(max(0.0, min(1.0, value + delta)), 6)`
unfoldable pub moved : ℕ → Direction → ℕ → ℕ
unfolding round_parts
moved value up delta =
    round_parts (min 1000000000000000000 (value * 1000000000000 + delta)) 1000000000000
moved value down delta =
    round_parts (min 1000000000000000000 (value * 1000000000000 - delta)) 1000000000000

pub round_up_to : (n k : ℕ) → n ≤ k * 1000000000000 → round_parts n 1000000000000 ≤ k
unfolding round_parts
round_up_to n k h = ground arith

pub round_down_to : (n k : ℕ) → k * 1000000000000 ≤ n → k ≤ round_parts n 1000000000000
unfolding round_parts
round_down_to n k h = ground arith

-- A step from a value of at most one stays in the range, and is no longer than the limit.
pub moved_in_range :
    (value : ℕ) (direction : Direction) (delta : ℕ) → moved value direction delta ≤ one
unfolding moved
moved_in_range value up delta =
    round_up_to (min 1000000000000000000 (value * 1000000000000 + delta)) 1000000 (omega arith)
moved_in_range value down delta =
    round_up_to (min 1000000000000000000 (value * 1000000000000 - delta)) 1000000 (omega arith)

pub moved_near :
    (value : ℕ) (direction : Direction) (delta limit : ℕ)
    → value ≤ one
    → delta ≤ limit * 1000000000000
    → distance (moved value direction delta) value ≤ limit
unfolding moved
moved_near value up delta limit small short =
    let n = min 1000000000000000000 (value * 1000000000000 + delta) in
    let above = round_up_to n (value + limit) (omega (arith, short)) in
    let below = round_down_to n value (omega (arith, small)) in omega (arith, above, below)
moved_near value down delta limit small short =
    let n = min 1000000000000000000 (value * 1000000000000 - delta) in
    let above = round_up_to n value (omega arith) in
    let below = round_down_to n (value - limit) (omega (arith, small, short)) in
    omega (arith, above, below)

pub damped_step_short :
    (value : ℕ) (direction : Direction) (step damping limit : ℕ)
    → damped_step value direction step damping limit ≤ limit * 1000000000000
unfolding damped_step
damped_step_short value direction step damping limit = omega arith
