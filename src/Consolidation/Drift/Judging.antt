-- ===== src/Consolidation/Drift/Judging.antt =====
-- What a classification says of the single targets.
use Prim.Native.Nat.{max}
use discord_personality_bot.Base.{
  ℕ, ◌+◌, ◌≤◌, ◌<◌, ◌*◌, ◌-◌, ◌≡◌, ◌↔◌, refl, inl, inr, arith, String, Bool-cases, Option-cases,
  Option, none, some, List, [], ◌∷◌, map, ltb, ◌==◌, text_test, key_test, Key, if◌then◌else◌,
}
use discord_personality_bot.Base.Dict.{Dict, lookup, insert, lookup-insert}
use discord_personality_bot.Base.Lists.{All}
use discord_personality_bot.Base.Sort.{sort, insert_by}
use discord_personality_bot.Text.{str_lt}
use discord_personality_bot.Consolidation.Scanning.{Row}
use discord_personality_bot.Consolidation.Drift.{
  ordinary, invalid, DriftRules, DriftObservation, metric_domains, or_zero, per_key, worst,
  changes_since, velocity, classify, observation, with_extra, measure,
}

abbrev size_at : Key → Row → ℕ
size_at t r = elim r.delta [
  | none ↦ 0
  | some (sign, size) ↦ if (r.domain, r.key) == t then size else 0
]

-- How far one target moved, over all the rows.
unfoldable pub movement : Key → List Row → ℕ
movement t [] = 0
movement t (r ∷ rows) = size_at t r + movement t rows

at : Key → Dict Key ℕ → ℕ
at t d = or_zero (lookup t d)

at-insert :
    (k t : Key) (x : ℕ) (d : Dict Key ℕ) → at t (insert k x d) ≡ (if k == t then x else at t d)
unfolding at
at-insert k t x d = ground (arith, lookup-insert k t x d)

worst-insert :
    (t : Key) (x : ℕ) (d : Dict Key ℕ) → at t d ≤ x → worst (insert t x d) ≡ max x (worst d)
unfolding worst insert at lookup
worst-insert t x [] h = omega arith
worst-insert t x ((k, y) ∷ d) h = elim (Bool-cases (k == t)) [
  | inl q ↦ let h' : y ≤ x = rw q at h in rw q (omega (arith, h'))
  | inr q ↦ let h' : at t d ≤ x = rw q at h in rw q (omega (arith, worst-insert t x d h'))
]

at-per_key :
    (t : Key) (rows : List Row) (d : Dict Key ℕ) → at t (per_key rows d) ≡ at t d + movement t rows
unfolding per_key movement at
at-per_key t [] d = omega arith
at-per_key t (r ∷ rows) d = elim (Option-cases r.delta) [
  | inl q ↦ rw q (omega (arith, at-per_key t rows d))
  | inr ((sign, size), q) ↦
      let k : Key = (r.domain, r.key) in
      rw q (
        ground (
          arith,
          at-per_key t rows (insert k (at k d + size) d),
          at-insert k t (at k d + size) d,
          key_test.test_iff k t,
        ))
]

at_most-worst : (t : Key) (d : Dict Key ℕ) → at t d ≤ worst d
unfolding worst at lookup
at_most-worst t [] = omega arith
at_most-worst t ((k, y) ∷ d) = ground (arith, at_most-worst t d)

-- Some target is at the largest number, where there is one.
abbrev IsReached : Dict Key ℕ → Type 0
IsReached d = (x : ℕ) → x < worst d → (t : Key) × (x < at t d)

insert-IsReached :
    (k : Key) (x : ℕ) (d : Dict Key ℕ) → at k d ≤ x → IsReached d → IsReached (insert k x d)
insert-IsReached k x d h reached y l = elim (Bool-cases (ltb y x)) [
  | inl q ↦ (k, ground (arith, at-insert k k x d, key_test.test_iff k k))
  | inr q ↦
      let (t, m) = reached y (ground (arith, worst-insert k x d h)) in
      (t, ground (arith, at-insert k t x d, key_test.test_iff k t))
]

per_key-IsReached : (rows : List Row) (d : Dict Key ℕ) → IsReached d → IsReached (per_key rows d)
unfolding per_key at
per_key-IsReached [] d reached = reached
per_key-IsReached (r ∷ rows) d reached = elim (Option-cases r.delta) [
  | inl q ↦ rw q (per_key-IsReached rows d reached)
  | inr ((sign, size), q) ↦
      let k : Key = (r.domain, r.key) in
      rw q (
        per_key-IsReached rows (insert k (at k d + size) d)
          (insert-IsReached k (at k d + size) d (omega arith) reached))
]

-- The value passes both bounds of its metric.
abbrev Exceeds : DriftRules → String → ℕ → Type 0
Exceeds rules metric v =
    (e : ℕ) × (lookup metric rules.expected_per_window ≡ some e)
    × (e * rules.suspicious_multiplier < v * 1000000)
    × (e * rules.invalid_multiplier < v * 1000000)

invalid-Exceeds :
    (rules : DriftRules) (metric : String) (v : ℕ)
    → ((classify rules metric v).0 ≡ invalid) ↔ Exceeds rules metric v
unfolding classify
invalid-Exceeds rules metric v = elim (Option-cases (lookup metric rules.expected_per_window)) [
  | inl q ↦ (
    (λ h. let h' : ordinary ≡ invalid = rw (classify, q) at h in cc h'),
    (λ (e, p, s, i). cc (q, p)),
  )
  | inr (e, q) ↦ (
    (λ h. (e, q, ground (arith, q), ground (arith, q))),
    (λ (e', p, s, i). rw (classify, p) (ground arith)),
  )
]

nothing-IsReached : IsReached []
unfolding worst
nothing-IsReached x l = absurd (omega (arith, l))

worst-Exceeds :
    (rules : DriftRules) (metric : String) (rows : List Row)
    → Exceeds rules metric (worst (per_key rows []))
      ↔ ((t : Key) × Exceeds rules metric (movement t rows))
unfolding worst at lookup
worst-Exceeds rules metric rows = (
  (λ (e, q, s, i).
      let w = worst (per_key rows []) in
      let (t, m) = per_key-IsReached rows [] nothing-IsReached (w - 1) (omega (arith, s)) in
      let above = at-per_key t rows [] in
      let none_yet : at t [] ≡ 0 = refl in
      (t, (e, q, omega (arith, above, none_yet, m, s), omega (arith, above, none_yet, m, i)))),
  (λ (t, (e, q, s, i)).
      let below = at_most-worst t (per_key rows []) in
      let above = at-per_key t rows [] in
      (e, q, omega (arith, below, above, s), omega (arith, below, above, i))),
)

-- The domains that feed a metric.
unfoldable pub domains_of : String → Option (List String)
unfolding lookup
domains_of metric = lookup metric metric_domains

-- An observation is invalid exactly where one target alone moved past both bounds.
abbrev pub IsJust : DriftRules → ℕ → List Row → DriftObservation → Type 0
IsJust rules start rows o =
    (domains : List String) × (domains_of o.metric ≡ some domains)
    × ((o.classification ≡ invalid)
        ↔ ((t : Key) × Exceeds rules o.metric (movement t (changes_since start 5000 domains rows))))

observation-IsJust :
    (rules : DriftRules) (now : ℕ) (rows : List Row) (metric : String) (domains : List String)
    → domains_of metric ≡ some domains
    → IsJust rules (now - rules.window) rows (
        observation rules
          (now - rules.window)
          now
          (metric, velocity domains (now - rules.window) rows))
unfolding observation velocity
observation-IsJust rules now rows metric domains q =
    let window = changes_since (now - rules.window) 5000 domains rows in
    let v = worst (per_key window []) in
    (
      domains,
      q,
      (
        (λ h. (worst-Exceeds rules metric window).0 ((invalid-Exceeds rules metric v).0 h)),
        (λ h. (invalid-Exceeds rules metric v).1 ((worst-Exceeds rules metric window).1 h)),
      ),
    )

-- A measurement of a window with no metrics of its caller observes the four metrics in order of
-- their names, and classifies each as invalid exactly where some single target of its domains
-- moved in the window, over the sizes of all its changes that are read, by more than the
-- expectation times either multiplier; a metric with no expectation is never invalid.
pub measure-IsJust :
    (rules : DriftRules) (now : ℕ) (rows : List Row) (drifts : List DriftObservation)
    → (map (λ (o : DriftObservation). o.metric) (measure rules now [] rows drifts).0
        ≡ "adaptation_velocity" ∷ "relationship_velocity" ∷ "trait_velocity" ∷ "value_velocity"
          ∷ [])
      × All (IsJust rules (now - rules.window) rows) (measure rules now [] rows drifts).0
unfolding measure with_extra domains_of lookup sort insert_by str_lt
measure-IsJust rules now rows drifts =
    let just = observation-IsJust rules now rows in
    (
      refl,
      (
        just "adaptation_velocity" ("characteristic_adaptations" ∷ []) refl,
        (
          just "relationship_velocity" ("relationship" ∷ "attachment" ∷ []) refl,
          (
            just "trait_velocity" ("personality" ∷ []) refl,
            (just "value_velocity" ("values" ∷ []) refl, tt),
          ),
        ),
      ),
    )
