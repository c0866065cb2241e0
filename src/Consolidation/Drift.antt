-- ===== src/Consolidation/Drift.antt =====
-- app/consolidation/drift.py, with the rows of app/storage/repositories/growth.py and the read of
-- app/storage/repositories/state.py: how far the state moved in a window, and whether that is
-- expected, suspicious or invalid. Numbers, multipliers too, are numbers of millionths.
pub mod Judging
use Prim.Native.Nat.{max}
use discord_personality_bot.Base.{
  ℕ, suc, zero, ◌+◌, ◌-◌, ◌*◌, String, Bool, true, false, ◌&&◌, ◌||◌, Option, none, some, List, [],
  ◌∷◌, ◌++◌, map, ltb, leb, nat_beq, ◌==◌, text_test, key_test, Key, if◌then◌else◌,
}
use discord_personality_bot.Base.Dict.{Dict, lookup, insert}
use discord_personality_bot.Base.Lists.{contains, keep}
use discord_personality_bot.Base.Sort.{sort}
use discord_personality_bot.Text.{str_lt}
use discord_personality_bot.Consolidation.Dynamics.{Direction}
use discord_personality_bot.Consolidation.Scanning.{Row}

pub data Classification : Type 0 where
  ordinary : Classification
  suspicious : Classification
  invalid : Classification

-- `DriftRules`, the window as a length of time
pub record DriftRules : Type 0 where
  pub window : ℕ
  pub expected_per_window : Dict String ℕ
  pub suspicious_multiplier : ℕ
  pub invalid_multiplier : ℕ

-- A row of `drift_observations`, less its random id; no number is `-1.0`, where none is expected.
pub record DriftObservation : Type 0 where
  pub metric : String
  pub window_start : ℕ
  pub window_end : ℕ
  pub value : ℕ
  pub expected_max : Option ℕ
  pub classification : Classification
  pub detail : Dict Key ℕ
  pub recorded_at : ℕ

-- `METRIC_DOMAINS`
abbrev pub metric_domains : Dict String (List String)
metric_domains =
    ("trait_velocity", "personality" ∷ [])
    ∷ ("value_velocity", "values" ∷ [])
    ∷ ("relationship_velocity", "relationship" ∷ "attachment" ∷ [])
    ∷ ("adaptation_velocity", "characteristic_adaptations" ∷ [])
    ∷ []

-- `ORDER BY committed_at, change_id`
abbrev committed_before : Row → Row → Bool
committed_before r s =
    ltb r.committed_at s.committed_at
    || nat_beq r.committed_at s.committed_at && ltb r.change_id s.change_id

-- `LIMIT`
unfoldable pub take {ℓ} : {A : Type ℓ} → ℕ → List A → List A
take zero xs = []
take (suc n) [] = []
take (suc n) (x ∷ xs) = x ∷ take n xs

-- `changes_since`, the domains being a list with members
unfoldable pub changes_since : ℕ → ℕ → List String → List Row → List Row
unfolding keep contains sort take
changes_since since limit domains rows = take limit (
    sort committed_before
      (keep (λ (r : Row). ltb since r.committed_at && contains r.domain domains) rows))

abbrev pub or_zero : Option ℕ → ℕ
or_zero none = 0
or_zero (some x) = x

-- `per_key`, the absolute movement of each target
unfoldable pub per_key : List Row → Dict Key ℕ → Dict Key ℕ
unfolding lookup insert
per_key [] d = d
per_key (r ∷ rows) d = elim r.delta [
  | none ↦ per_key rows d
  | some (sign, size) ↦
      let target : Key = (r.domain, r.key) in
      per_key rows (insert target (or_zero (lookup target d) + size) d)
]

-- `max(per_key.values())`, and 0.0 where there is none
unfoldable pub worst : Dict Key ℕ → ℕ
worst [] = 0
worst ((target, x) ∷ d) = max x (worst d)

-- `_velocity`
unfoldable pub velocity : List String → ℕ → List Row → ℕ × Dict Key ℕ
unfolding changes_since per_key worst
velocity domains since rows =
    let moves = per_key (changes_since since 5000 domains rows) [] in (worst moves, moves)

-- `classify`; the second is the expectation, `inf` where there is none.
unfoldable pub classify : DriftRules → String → ℕ → Classification × Option ℕ
unfolding lookup
classify rules metric value = elim (lookup metric rules.expected_per_window) [
  | none ↦ (ordinary, none)
  | some e ↦
      if leb (value * 1000000) (e * rules.suspicious_multiplier)
      then (ordinary, some e)
      else if leb (value * 1000000) (e * rules.invalid_multiplier)
      then (suspicious, some e)
      else (invalid, some e)
]

-- `measurements.update(...)` with the metrics of a caller
unfoldable pub with_extra :
    Dict String ℕ → Dict String (ℕ × Dict Key ℕ) → Dict String (ℕ × Dict Key ℕ)
unfolding insert
with_extra [] ms = ms
with_extra ((metric, value) ∷ extra) ms = with_extra extra (insert metric (value, []) ms)

unfoldable pub observation : DriftRules → ℕ → ℕ → String × (ℕ × Dict Key ℕ) → DriftObservation
unfolding classify
observation rules start stop (metric, (value, detail)) =
    let (c, e) = classify rules metric value in
    record {
      metric = metric;
      window_start = start;
      window_end = stop;
      value = value;
      expected_max = e;
      classification = c;
      detail = detail;
      recorded_at = stop;
    }

abbrev by_metric : String × (ℕ × Dict Key ℕ) → String × (ℕ × Dict Key ℕ) → Bool
by_metric m n = str_lt m.0 n.0

-- `measure`: the observations of one window, and the ledger with them.
unfoldable pub measure :
    DriftRules
    → ℕ
    → Dict String ℕ
    → List Row
    → List DriftObservation
    → List DriftObservation × List DriftObservation
unfolding velocity with_extra observation sort
measure rules now extra rows drifts =
    let start = now - rules.window in
    let measured =
      map (λ (m : String × List String). (m.0, velocity m.1 start rows)) metric_domains in
    let found = map (observation rules start now) (sort by_metric (with_extra extra measured)) in
    (found, drifts ++ found)
