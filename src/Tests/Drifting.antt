-- ===== src/Tests/Drifting.antt =====
-- The drift of a window with a trait that moved too far.
use discord_personality_bot.Base.{ℕ, ◌+◌, ◌≡◌, refl, String, none, some, List, [], ◌∷◌, map}
use discord_personality_bot.Base.Lists.{All}
use discord_personality_bot.Text.{str_lt}
use discord_personality_bot.Consolidation.Dynamics.{up}
use discord_personality_bot.Consolidation.Scanning.{Row}
use discord_personality_bot.Consolidation.Drift.{
  ordinary, suspicious, invalid, Classification, DriftRules, DriftObservation, measure,
}
use discord_personality_bot.Consolidation.Drift.Judging.{IsJust, measure-IsJust}

abbrev rules : DriftRules
rules = record {
  window = 1000;
  expected_per_window =
      ("trait_velocity", 40000) ∷ ("value_velocity", 30000) ∷ ("adaptation_velocity", 90000) ∷ [];
  suspicious_multiplier = 2000000;
  invalid_multiplier = 4000000;
}

abbrev committed : ℕ → String → String → ℕ → Row
committed id domain key size = record {
  domain = domain;
  key = key;
  new_value = none;
  delta = some (up, size);
  source_module = "personality_engine";
  change_id = id;
  committed_at = 1000 + id;
}

abbrev rows : List Row
rows =
    committed 3 "personality" "warmth" 100000
    ∷ committed 1 "values" "honesty" 70000
    ∷ record (committed 4 "values" "honesty" 10000) { committed_at = 900 }
    ∷ committed 2 "personality" "warmth" 90000
    ∷ committed 5 "personality" "order" 50000
    ∷ []

verdicts :
    map {B = String × (ℕ × Classification)}
      (λ (o : DriftObservation). (o.metric, (o.value, o.classification)))
      (measure rules 2000 [] rows []).0
    ≡ ("adaptation_velocity", (0, ordinary))
      ∷ ("relationship_velocity", (0, ordinary))
      ∷ ("trait_velocity", (190000, invalid))
      ∷ ("value_velocity", (70000, suspicious))
      ∷ []
unfolding measure str_lt
verdicts = refl

measure-IsJust_example :
    (map (λ (o : DriftObservation). o.metric) (measure rules 2000 [] rows []).0
      ≡ "adaptation_velocity" ∷ "relationship_velocity" ∷ "trait_velocity" ∷ "value_velocity" ∷ [])
    × All (IsJust rules 1000 rows) (measure rules 2000 [] rows []).0
measure-IsJust_example = measure-IsJust rules 2000 rows []
