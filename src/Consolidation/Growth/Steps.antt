-- ===== src/Consolidation/Growth/Steps.antt =====
-- How far a proposal of the growth engine moves a value.
use Prim.Native.Nat.{min, max}
use mathlib.Core.Path.{subst}
use discord_personality_bot.Base.{
  ℕ, suc, ◌+◌, ◌≤◌, ◌≡◌, inl, inr, arith, false, Bool-cases, some, List, [], ◌∷◌, ltb, leb, nat_beq,
  ◌==◌, text_test, key_test, Key,
}
use discord_personality_bot.Base.Dict.{lookup}
use discord_personality_bot.Base.Lists.{All, All-append}
use discord_personality_bot.Consolidation.Dynamics.{
  one, distance, damped_step, moved_in_range, moved_near, damped_step_short,
}
use discord_personality_bot.Consolidation.Candidates.{Candidate, target, all_accumulating}
use discord_personality_bot.Consolidation.Gate.{evaluate}
use discord_personality_bot.Consolidation.Growth.{
  Trait, Theme, GrowthPolicy, StepRules, Ledger, View, GrowthProposal, is_owned, number_or,
  fallback, current_value, rules_for, next_value, proposals_for, theme_proposals,
  narrative_proposals, proposals_of, handle,
}

-- The largest step of the policy.
abbrev pub step_limit : GrowthPolicy → ℕ
step_limit policy =
    max policy.personality.max_step (max policy.disposition.max_step policy.narrative.strength_step)

-- The proposed value is at most one, and it is near the value that is committed, unless this is zero.
abbrev pub IsModest : GrowthPolicy → View → GrowthProposal → Type 0
IsModest policy view p =
    (p.value ≤ one)
    × ((x : ℕ) → lookup p.target view ≡ some (suc x) → distance p.value (suc x) ≤ step_limit policy)

abbrev pub IsSmall : View → Type 0
IsSmall view = All (λ (p : Key × ℕ). p.1 ≤ one) view

pub lookup_small :
    (key : Key) (view : View) (x : ℕ) → IsSmall view → lookup key view ≡ some x → x ≤ one
unfolding lookup
lookup_small key [] x h e = cc e
lookup_small key ((k, y) ∷ view) x h e = elim (Bool-cases (k == key)) [
  | inl q ↦ let e' = rw (q, lookup) at e in ground (arith, h.0, e')
  | inr q ↦ let e' = rw (q, lookup) at e in lookup_small key view x h.1 e'
]

number_or_at :
    (key : Key) (d : ℕ) (view : View) (x : ℕ)
    → lookup key view ≡ some (suc x)
    → number_or key d view ≡ suc x
unfolding number_or
number_or_at key d view x p = rw (number_or, p) (ground arith)

module _ (policy : GrowthPolicy) (traits : List Trait) (view : View) (small : IsSmall view) where
  rules_short : (c : Candidate) → (rules_for policy c).max_step ≤ step_limit policy
  unfolding rules_for
  rules_short c = ground arith

  next_value_near :
      (c : Candidate) (v : ℕ) → v ≤ one → distance (next_value policy c v) v ≤ step_limit policy
  unfolding next_value
  next_value_near c v h =
      let rules : StepRules = rules_for policy c in
      let step = damped_step v c.direction rules.max_step rules.extremity_damping rules.max_step in
      let near =
        moved_near v c.direction step rules.max_step h
          (damped_step_short v c.direction rules.max_step rules.extremity_damping rules.max_step) in
      let short = rules_short c in omega (arith, near, short)

  next_value_small : (c : Candidate) (v : ℕ) → next_value policy c v ≤ one
  unfolding next_value
  next_value_small c v = moved_in_range v c.direction _

  next_near :
      (c : Candidate) (x : ℕ)
      → lookup (target c) view ≡ some (suc x)
      → distance (next_value policy c (current_value c traits view)) (suc x) ≤ step_limit policy
  unfolding current_value
  next_near c x p =
      let at : number_or (target c) (fallback c traits) view ≡ suc x =
        number_or_at (target c) (fallback c traits) view x p in
      rw at (next_value_near c (suc x) (lookup_small (target c) view (suc x) small p))

  proposals_for-IsModest :
      (c : Candidate) → All (IsModest policy view) (proposals_for policy traits view c)
  unfolding proposals_for
  proposals_for-IsModest c =
      let current = current_value c traits view in
      let value = next_value policy c current in
      elim (Bool-cases (evaluate policy.gate c).passed) [
        | inr q ↦ rw (proposals_for, q) tt
        | inl q ↦ elim (Bool-cases (nat_beq value current)) [
          | inl r ↦ rw (proposals_for, q, r) tt
          | inr r ↦
              rw (proposals_for, q, r) ((next_value_small c current, λ x p. next_near c x p), tt)
        ]
      ]

  proposals_of-IsModest :
      (cs : List Candidate) → All (IsModest policy view) (proposals_of policy traits view cs)
  unfolding proposals_of
  proposals_of-IsModest [] = tt
  proposals_of-IsModest (c ∷ cs) = elim (Bool-cases (is_owned c.target_domain)) [
    | inl q ↦
        rw (proposals_of, q)
          (All-append (IsModest policy view) (proposals_for policy traits view c)
            (proposals_of policy traits view cs) (proposals_for-IsModest c)
            (proposals_of-IsModest cs))
    | inr q ↦ rw (proposals_of, q) (proposals_of-IsModest cs)
  ]

  module _ (capped : policy.narrative.max_strength ≤ one) where
    theme_near :
        (v strength : ℕ)
        → leb (min policy.narrative.max_strength strength) v ≡ false
        → distance
            (min (v + policy.narrative.strength_step) (min policy.narrative.max_strength strength))
            v
          ≤ step_limit policy
    theme_near v strength q = ground arith

    theme_proposals-IsModest :
        (ts : List Theme) → All (IsModest policy view) (theme_proposals policy.narrative view ts)
    unfolding theme_proposals
    theme_proposals-IsModest [] = tt
    theme_proposals-IsModest (t ∷ ts) =
        let current = number_or ("narrative_identity", t.theme) 0 view in
        let goal = min policy.narrative.max_strength t.strength in
        let rest = theme_proposals-IsModest ts in
        elim (Bool-cases (ltb t.supporting_memory_count policy.narrative.min_supporting_memories)) [
          | inl q ↦ rw (theme_proposals, q) rest
          | inr q ↦ elim (Bool-cases (leb goal current)) [
            | inl r ↦ rw (theme_proposals, q, r) rest
            | inr r ↦
                rw (theme_proposals, q, r)
                  (
                    (
                      omega (arith, capped),
                      λ x p.
                          let at = number_or_at ("narrative_identity", t.theme) 0 view x p in
                          let near = theme_near current t.strength r in
                          subst
                            (λ v.
                              distance (min (current + policy.narrative.strength_step) goal) v
                              ≤ step_limit policy)
                            at near,
                    ),
                    rest,
                  )
          ]
        ]

    narrative_proposals-IsModest :
        (themes : List Theme)
        → All (IsModest policy view) (narrative_proposals policy.narrative view themes)
    unfolding narrative_proposals
    narrative_proposals-IsModest themes = theme_proposals-IsModest _

-- Where the committed numbers and the largest strength of a theme are at most one, every value
-- that the growth engine proposes is at most one, and it differs by at most the largest step of
-- the policy from the committed value of its target, where there is one that is not zero.
pub handle-IsModest :
    (policy : GrowthPolicy) (themes : List Theme) (view : View) (ledger : Ledger)
    → policy.narrative.max_strength ≤ one
    → IsSmall view
    → All (IsModest policy view) (handle policy themes view ledger)
unfolding handle
handle-IsModest policy themes view ledger capped small =
    All-append (IsModest policy view)
      (proposals_of policy ledger.traits view (all_accumulating ledger.candidates))
      (narrative_proposals policy.narrative view themes)
      (proposals_of-IsModest policy ledger.traits view small (all_accumulating ledger.candidates))
      (narrative_proposals-IsModest policy ledger.traits view small capped themes)
