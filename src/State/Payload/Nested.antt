-- ===== src/State/Payload/Nested.antt =====
-- Dictionaries with distinct keys, and dictionaries in dictionaries.
use discord_personality_bot.Base.{
  ◌≡◌, ◌≢◌, refl, sym, ◌∙◌, inl, inr, Bool-cases, none, [], ◌∷◌, key_test, text_test, EqTest, ◌==◌,
}
use discord_personality_bot.Base.Lists.{All, DistinctBy}
use discord_personality_bot.Base.Dict.{Dict, lookup, insert}

module _ {ℓ κ} {K : Type ℓ} {V : Type κ} ⦃e : EqTest K⦄ where
  abbrev pub key_of : K × V → K
  key_of p = p.0

  pub lookup_absent : (k : K) (d : Dict K V) → All (λ p. k ≢ key_of p) d → lookup k d ≡ none
  unfolding lookup
  lookup_absent k [] h = refl
  lookup_absent k ((j, v) ∷ d) h = elim (Bool-cases (j == k)) [
    | inl same ↦ absurd (h.0 (sym ((e.test_iff j k).0 same)))
    | inr other ↦ rw other (lookup_absent k d h.1)
  ]

  pub insert-All {μ} :
      (P : K × V → Type μ) (k : K) (v : V) (d : Dict K V)
      → ((j : K) → j ≡ k → P (j, v))
      → All P d
      → All P (insert k v d)
  unfolding insert
  insert-All P k v [] p h = (p k refl, tt)
  insert-All P k v ((j, w) ∷ d) p h = elim (Bool-cases (j == k)) [
    | inl same ↦ rw same (p j ((e.test_iff j k).0 same), h.1)
    | inr other ↦ rw other (h.0, insert-All P k v d p h.1)
  ]

  -- A stored key stays distinct.
  pub insert-DistinctBy :
      (k : K) (v : V) (d : Dict K V) → DistinctBy key_of d → DistinctBy key_of (insert k v d)
  unfolding insert
  insert-DistinctBy k v [] h = (tt, tt)
  insert-DistinctBy k v ((j, w) ∷ d) h = elim (Bool-cases (j == k)) [
    | inl same ↦ rw same h
    | inr other ↦ rw other (
      insert-All (λ p. j ≢ key_of p) k v d
          (λ i q r. absurd (cc ((e.test_iff j k).1 (r ∙ q), other))) h.0,
      insert-DistinctBy k v d h.1,
    )
  ]
