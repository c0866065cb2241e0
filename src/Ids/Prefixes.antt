-- ===== src/Ids/Prefixes.antt =====
-- Identifiers and their prefixes.
use discord_personality_bot.Base.{
  ℕ, ◌+◌, ◌^◌, ◌<◌, ◌≡◌, ◌≢◌, refl, ap, inl, inr, arith, true, false, Bool-cases, List, [], ◌∷◌,
  ◌++◌, map, nat_beq, number_test, ok, Result, ◌∙◌,
}
use discord_personality_bot.Base.Lists.{All, All-map, All-mono, contains, length}
use discord_personality_bot.Text.{codes_lt}
use discord_personality_bot.Ids.{
  Generator, underscore, is_empty, is_prefix, new_id, new_ids, ulid, ulids, text_of, advance,
  encode, low_first, reversed, partition, prefix_of, starts_with, has_prefix, IdError,
}
use discord_personality_bot.Ids.Encoding.{power_of_32, codes_lt-prefix}
use discord_personality_bot.Ids.Monotonic.{Ascending, ulids_ascend}

abbrev tagged : List ℕ → List ℕ → List ℕ
tagged prefix u = prefix ++ underscore ∷ u

partition-tagged :
    (head rest : List ℕ)
    → contains underscore head ≡ false
    → partition (tagged head rest) ≡ (head, rest)
unfolding partition contains
partition-tagged [] rest h = refl
partition-tagged (c ∷ cs) rest h = elim (Bool-cases (nat_beq c underscore)) [
  | inl e ↦ absurd (ground (arith, h, e))
  | inr e ↦ rw e (rw (partition-tagged cs rest (ground (arith, h))) refl)
]

starts_with-tagged : (prefix u : List ℕ) → starts_with (tagged prefix u) (tagged prefix []) ≡ true
unfolding starts_with
starts_with-tagged [] u = refl
starts_with-tagged (c ∷ cs) u = ground (arith, starts_with-tagged cs u)

length-tagged : (prefix u : List ℕ) → length (tagged prefix u) ≡ length prefix + 1 + length u
length-tagged [] u = omega arith
length-tagged (c ∷ cs) u = omega (arith, length-tagged cs u)

-- What starts with a prefix and an underscore is tagged with it.
starts_with_rest :
    (i prefix : List ℕ)
    → starts_with i (tagged prefix []) ≡ true
    → (u : List ℕ) × (i ≡ tagged prefix u)
unfolding starts_with
starts_with_rest [] [] h = absurd (cc h)
starts_with_rest [] (p ∷ ps) h = absurd (cc h)
starts_with_rest (c ∷ cs) [] h = (cs, ap (λ x. x ∷ cs) (ground (arith, h)))
starts_with_rest (c ∷ cs) (p ∷ ps) h =
    let (u, same) = starts_with_rest cs ps (ground (arith, h)) in
    let e : c ≡ p = ground (arith, h) in (u, cc (e, same))

prefix_of-tagged :
    (prefix u : List ℕ)
    → contains underscore prefix ≡ false
    → is_empty u ≡ false
    → prefix_of (tagged prefix u) ≡ ok prefix
unfolding prefix_of
prefix_of-tagged prefix u h some_u = rw (partition-tagged prefix u h) (rw some_u refl)

has_prefix-tagged :
    (prefix u : List ℕ) → is_empty u ≡ false → has_prefix (tagged prefix u) prefix ≡ true
unfolding has_prefix
has_prefix-tagged prefix [] h = absurd (cc h)
has_prefix-tagged prefix (c ∷ cs) h =
    ground (arith, starts_with-tagged prefix (c ∷ cs), length-tagged prefix (c ∷ cs))

members_some : (u : List ℕ) → 0 < length u → is_empty u ≡ false
members_some [] h = absurd (omega (arith, h))
members_some (c ∷ cs) h = refl

has_prefix-owns :
    (i q : List ℕ) → contains underscore q ≡ false → has_prefix i q ≡ true → prefix_of i ≡ ok q
unfolding has_prefix
has_prefix-owns i q plain h = elim (Bool-cases (starts_with i (tagged q []))) [
  | inr differs ↦ absurd (ground (arith, h, differs))
  | inl begins ↦
      let (u, same) = starts_with_rest i q begins in
      let long : length q + 1 < length i = ground (arith, h, begins) in
      let some_u = members_some u (omega (arith, long, ap length same, length-tagged q u)) in
      rw same (prefix_of-tagged q u plain some_u)
]

-- An identifier answers to no other prefix.
has_prefix-other :
    (prefix q u : List ℕ)
    → contains underscore prefix ≡ false
    → contains underscore q ≡ false
    → q ≢ prefix
    → is_empty u ≡ false
    → has_prefix (tagged prefix u) q ≡ false
has_prefix-other prefix q u plain plain_q other some_u =
    elim (Bool-cases (has_prefix (tagged prefix u) q)) [
      | inr differs ↦ differs
      | inl owns ↦
          let first = has_prefix-owns (tagged prefix u) q plain_q owns in
          absurd (other (cc (first, prefix_of-tagged prefix u plain some_u)))
    ]

ulids-some :
    (calls : List (ℕ × ℕ)) (g : Generator) → All (λ u. is_empty u ≡ false) (ulids calls g).0
unfolding ulids ulid text_of encode low_first reversed
ulids-some [] g = tt
ulids-some ((now_ms, drawn) ∷ calls) g = (refl, ulids-some calls (advance now_ms drawn g))

tagged-Ascending :
    (prefix : List ℕ) (us : List (List ℕ)) → Ascending us → Ascending (map (tagged prefix) us)
unfolding codes_lt
tagged-Ascending prefix [] h = tt
tagged-Ascending prefix (u ∷ us) h = (
  All-map (λ j. codes_lt (tagged prefix u) j ≡ true) (tagged prefix) us
      (All-mono (λ v. codes_lt u v ≡ true)
        (λ v. codes_lt (tagged prefix u) (tagged prefix v) ≡ true) us
        (λ v before. codes_lt-prefix prefix (underscore ∷ u) (underscore ∷ v) ∙ before) h.0),
  tagged-Ascending prefix us h.1,
)

new_ids-ulids :
    (prefix : List ℕ) (calls : List (ℕ × ℕ)) (g : Generator)
    → is_prefix prefix ≡ true
    → new_ids prefix calls g ≡ (map ok (map (tagged prefix) (ulids calls g).0), (ulids calls g).1)
unfolding new_ids new_id ulids
new_ids-ulids prefix [] g h = refl
new_ids-ulids prefix ((now_ms, drawn) ∷ calls) g h =
    rw h (rw (new_ids-ulids prefix calls (advance now_ms drawn g) h) refl)

is_prefix-plain : (prefix : List ℕ) → is_prefix prefix ≡ true → contains underscore prefix ≡ false
unfolding is_prefix
is_prefix-plain prefix h = ground (arith, h)

-- Whatever the clock reads and whatever is drawn (below 2^80), while the milliseconds stay below
-- 32^10, every call of new_id with a prefix that is not empty and has no underscore gives an
-- identifier; they come in the order of their texts; each gives the prefix back, has it, and has
-- no other prefix without an underscore.
pub new_ids_answer :
    (prefix q : List ℕ) (calls : List (ℕ × ℕ)) (g : Generator)
    → is_prefix prefix ≡ true
    → contains underscore q ≡ false
    → q ≢ prefix
    → All (λ c. c.1 < 2 ^ 80) calls
    → (new_ids prefix calls g).1.last_ms < power_of_32 10
    → (is : List (List ℕ)) × ((new_ids prefix calls g).0 ≡ map ok is)
      × Ascending is
      × All
          (λ i. (prefix_of i ≡ ok prefix) × (has_prefix i prefix ≡ true) × (has_prefix i q ≡ false))
          is
new_ids_answer prefix q calls g valid plain_q other drawn early =
    let plain = is_prefix-plain prefix valid in
    let us = (ulids calls g).0 in
    let issued = new_ids-ulids prefix calls g valid in
    let at_last = ap (λ (r : List (Result IdError (List ℕ)) × Generator). r.1.last_ms) issued in
    (
      map (tagged prefix) us,
      ap (λ (r : List (Result IdError (List ℕ)) × Generator). r.0) issued,
      tagged-Ascending prefix us (ulids_ascend calls g drawn (omega (arith, early, at_last))),
      All-map
          (λ i. (prefix_of i ≡ ok prefix) × (has_prefix i prefix ≡ true) × (has_prefix i q ≡ false))
          (tagged prefix) us
          (All-mono (λ u. is_empty u ≡ false)
            (λ u.
              (prefix_of (tagged prefix u) ≡ ok prefix)
              × (has_prefix (tagged prefix u) prefix ≡ true)
              × (has_prefix (tagged prefix u) q ≡ false))
            us
            (λ u some_u. (
              prefix_of-tagged prefix u plain some_u,
              has_prefix-tagged prefix u some_u,
              has_prefix-other prefix q u plain plain_q other some_u,
            ))
            (ulids-some calls g)),
    )
