-- ===== src/Tests/Identifying.antt =====
-- Identifiers under a clock that goes back.
use discord_personality_bot.Base.{ℕ, arith, List, [], ◌∷◌, ◌≡◌, refl, true, false, ok, map}
use discord_personality_bot.Base.Lists.{All, contains}
use discord_personality_bot.Text.{codes}
use discord_personality_bot.Ids.{
  Generator, ulid, advance, same_moment, new_id, new_ids, is_prefix, prefix_of, has_prefix,
}
use discord_personality_bot.Ids.Monotonic.{Ascending}
use discord_personality_bot.Ids.Prefixes.{new_ids_answer}

-- The last draw of a millisecond is used up, then the clock goes back.
abbrev full : Generator
full = record { last_ms = 1700000000000; last_entropy = 1208925819614629174706175 }

abbrev calls : List (ℕ × ℕ)
calls = (1700000000000, 5) ∷ (1600000000000, 6) ∷ []

abbrev evt : List ℕ
evt = codes "evt"

abbrev ev : List ℕ
ev = codes "ev"

new_ids_answer_example :
    (is : List (List ℕ)) × ((new_ids evt calls full).0 ≡ map ok is)
    × Ascending is
    × All (λ i. (prefix_of i ≡ ok evt) × (has_prefix i evt ≡ true) × (has_prefix i ev ≡ false)) is
unfolding new_ids new_id is_prefix ulid advance same_moment contains
new_ids_answer_example =
    new_ids_answer evt ev calls full refl refl (λ e. cc e) (omega arith, (omega arith, tt))
      (omega arith)
