-- ===== src/State/Arbitrator/Overflow.antt =====
-- Where app/state/arbitrator.py raises OverflowError: `float` of an integer that is too large for
-- one, and `math.fsum` of magnitudes whose sum is, on the way.
use discord_personality_bot.Base.{
  Bool, false, not, ◌||◌, Option, none, some, List, [], ◌∷◌, map, is_some, if◌then◌else◌,
}
use discord_personality_bot.Number.{Float, zero_float, float_add, float_of}
use discord_personality_bot.State.Value.{StateValue, numeric, stored_form}
use discord_personality_bot.State.Proposal.{set, adjust, invalidate}
use discord_personality_bot.State.Snapshot.{StateSnapshot, get}
use discord_personality_bot.State.Arbitrator.Groups.{Group, members}
use discord_personality_bot.State.Arbitrator.Resolve.{
  operations_differ, values_differ, magnitude_or_zero,
}

-- The sums of `math.fsum` as it goes along, from a first one.
unfoldable pub sum_overflows : Float → List Float → Bool
unfolding float_add float_of
sum_overflows s [] = false
sum_overflows s (x ∷ xs) =
    not (is_some (float_of (float_add s x))) || sum_overflows (float_add s x) xs

-- The conversions of `_resolve_group` for a group of sets or of adjusts that comes to them.
unfoldable pub overflows : Option StateValue → Group → Bool
unfolding operations_differ values_differ stored_form numeric magnitude_or_zero members
overflows current g =
    if operations_differ g.first.operation g.rest then false else elim g.first.operation [
      | set ↦
          if values_differ g.first.value g.rest
          then false
          else not (is_some (stored_form g.first.value))
      | adjust ↦ elim current [
        | none ↦ false
        | some c ↦ elim (numeric c) [
          | none ↦ false
          | some base ↦ sum_overflows zero_float (map magnitude_or_zero (members g))
        ]
      ]
      | invalidate ↦ false
    ]

unfoldable pub any_overflows : StateSnapshot → List Group → Bool
unfolding overflows
any_overflows snapshot [] = false
any_overflows snapshot (g ∷ gs) = overflows (get snapshot g.key) g || any_overflows snapshot gs
