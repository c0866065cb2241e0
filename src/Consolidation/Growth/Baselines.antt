-- ===== src/Consolidation/Growth/Baselines.antt =====
-- The baselines of the traits follow what was committed, and only for what was promoted.
use mathlib.Core.Path.{subst}
use native.Mathlib.Nat.{mul-le-mul_right}
use discord_personality_bot.Base.{
  ℕ, ◌-◌, ◌*◌, ◌≤◌, ◌≡◌, ◌∙◌, refl, inl, inr, arith, String, true, false, ◌&&◌, Bool-cases, Option,
  none, some, Option-cases, List, [], ◌∷◌, leb, ◌==◌, text_test, key_test,
}
use discord_personality_bot.Base.Lists.{All}
use discord_personality_bot.Consolidation.Dynamics.{one, round_parts}
use discord_personality_bot.Consolidation.Candidates.{Candidate, target, all_accumulating}
use discord_personality_bot.Consolidation.Gate.{evaluate}
use discord_personality_bot.Consolidation.Growth.{
  Trait, GrowthPolicy, Ledger, View, DeepUpdate, is_owned, by_name, followed, set_baseline, follow,
  promote, promotable, apply_each, apply_committed,
}
use discord_personality_bot.Consolidation.Growth.Steps.{IsSmall, lookup_small}

abbrev pub HasSmallBaselines : List Trait → Type 0
HasSmallBaselines traits = All (λ (t : Trait). t.baseline ≤ one) traits

part : (rate d : ℕ) → rate ≤ one → rate * d ≤ 1000000 * d
part rate d h = mul-le-mul_right d h

-- The baseline after a change is between the old one and the committed value.
pub followed_between :
    (rate b c : ℕ)
    → rate ≤ one
    → ((b ≤ c → (b ≤ followed rate b c) × (followed rate b c ≤ c))
        × (c ≤ b → (c ≤ followed rate b c) × (followed rate b c ≤ b)))
unfolding followed round_parts
followed_between rate b c h =
    let up = part rate (c - b) h in
    let down = part rate (b - c) h in
    (
      (λ l. (ground (arith, up, l), ground (arith, up, l))),
      λ l. (ground (arith, down, l), ground (arith, down, l)),
    )

followed_small : (rate b c : ℕ) → rate ≤ one → b ≤ one → c ≤ one → followed rate b c ≤ one
followed_small rate b c h hb hc = elim (Bool-cases (leb b c)) [
  | inl q ↦
      let bound = ((followed_between rate b c h).0 (ground (arith, q))).1 in
      omega (arith, bound, hc)
  | inr q ↦
      let bound = ((followed_between rate b c h).1 (ground (arith, q))).1 in
      omega (arith, bound, hb)
]

set_baseline_small :
    (name : String) (b now : ℕ) (ts : List Trait)
    → b ≤ one
    → HasSmallBaselines ts
    → HasSmallBaselines (set_baseline name b now ts)
unfolding set_baseline
set_baseline_small name b now [] hb h = tt
set_baseline_small name b now (t ∷ ts) hb h =
    (ground (arith, hb, h.0), set_baseline_small name b now ts hb h.1)

by_name_small :
    (name : String) (ts : List Trait) (t : Trait)
    → HasSmallBaselines ts
    → by_name name ts ≡ some t
    → t.baseline ≤ one
unfolding by_name
by_name_small name [] t h e = cc e
by_name_small name (u ∷ ts) t h e = elim (Bool-cases (u.name == name)) [
  | inl q ↦
      let e' = rw (q, by_name) at e in
      subst (λ (o : Option Trait). elim o [ none ↦ t.baseline ≤ one | some v ↦ v.baseline ≤ one ])
        e' h.0
  | inr q ↦ let e' = rw (q, by_name) at e in by_name_small name ts t h.1 e'
]

by_name_name :
    (name : String) (ts : List Trait) (t : Trait)
    → by_name name ts ≡ some t
    → (t.name == name) ≡ true
unfolding by_name
by_name_name name [] t e = cc e
by_name_name name (u ∷ ts) t e = elim (Bool-cases (u.name == name)) [
  | inl q ↦
      let e' = rw (q, by_name) at e in
      subst
        (λ (o : Option Trait). elim o [
          | none ↦ (t.name == name) ≡ true
          | some v ↦ (v.name == name) ≡ true
        ])
        e' q
  | inr q ↦ let e' = rw (q, by_name) at e in by_name_name name ts t e'
]

by_name-set_baseline :
    (name other : String) (b now : ℕ) (ts : List Trait)
    → (other == name) ≡ false
    → by_name name (set_baseline other b now ts) ≡ by_name name ts
unfolding by_name set_baseline
by_name-set_baseline name other b now [] h = refl
by_name-set_baseline name other b now (t ∷ ts) h = elim (Bool-cases (t.name == other)) [
  | inl q ↦
      let same : t.name ≡ other = (text_test.test_iff t.name other).0 q in
      let apart : (t.name == name) ≡ false = rw same h in
      rw (by_name, set_baseline, q, apart) (by_name-set_baseline name other b now ts h)
  | inr q ↦ elim (Bool-cases (t.name == name)) [
    | inl r ↦ rw (by_name, set_baseline, q, r) refl
    | inr r ↦ rw (by_name, set_baseline, q, r) (by_name-set_baseline name other b now ts h)
  ]
]

module _ (policy : GrowthPolicy) (run_id : Option ℕ) (now : ℕ)
    (slow : policy.baseline_follow_rate ≤ one) where
  follow_small :
      (c : Candidate) (x : ℕ) (ledger : Ledger)
      → x ≤ one
      → HasSmallBaselines ledger.traits
      → HasSmallBaselines (follow policy c x run_id now ledger).traits
  unfolding follow
  follow_small c x ledger hx h = elim (Option-cases (by_name c.target_key ledger.traits)) [
    | inl p ↦ rw (follow, p) h
    | inr (t, p) ↦
        rw (follow, p)
          (set_baseline_small t.name (followed policy.baseline_follow_rate t.baseline x) now
            ledger.traits
            (followed_small policy.baseline_follow_rate t.baseline x slow
              (by_name_small c.target_key ledger.traits t h p) hx)
            h)
  ]

  promote_small :
      (c : Candidate) (x : ℕ) (ledger : Ledger)
      → x ≤ one
      → HasSmallBaselines ledger.traits
      → HasSmallBaselines (promote policy c x run_id now ledger).traits
  unfolding promote
  promote_small c x ledger hx h = elim (Bool-cases (c.target_domain == "personality")) [
    | inl q ↦ rw (promote, q) (follow_small c x ledger hx h)
    | inr q ↦ rw (promote, q) h
  ]

-- The update is of another trait, or of no trait.
abbrev pub IsElsewhere : String → DeepUpdate → Type 0
IsElsewhere name u =
    (u.candidate.target_domain == "personality") && (u.candidate.target_key == name) ≡ false

module _ (policy : GrowthPolicy) (run_id : Option ℕ) (now : ℕ) (name : String) where
  follow_elsewhere :
      (c : Candidate) (x : ℕ) (ledger : Ledger)
      → (c.target_key == name) ≡ false
      → by_name name (follow policy c x run_id now ledger).traits ≡ by_name name ledger.traits
  unfolding follow
  follow_elsewhere c x ledger h = elim (Option-cases (by_name c.target_key ledger.traits)) [
    | inl p ↦ rw (follow, p) refl
    | inr (t, p) ↦
        let same : t.name ≡ c.target_key =
          (text_test.test_iff t.name c.target_key).0
            (by_name_name c.target_key ledger.traits t p) in
        let apart : (t.name == name) ≡ false = rw same h in
        rw (follow, p)
          (by_name-set_baseline name t.name (followed policy.baseline_follow_rate t.baseline x) now
            ledger.traits apart)
  ]

  promote_elsewhere :
      (c : Candidate) (x : ℕ) (ledger : Ledger)
      → (c.target_domain == "personality") && (c.target_key == name) ≡ false
      → by_name name (promote policy c x run_id now ledger).traits ≡ by_name name ledger.traits
  unfolding promote
  promote_elsewhere c x ledger h = elim (Bool-cases (c.target_domain == "personality")) [
    | inl q ↦ rw (promote, q) (follow_elsewhere c x ledger (ground (arith, h, q)))
    | inr q ↦ rw (promote, q) refl
  ]

-- The baselines after a commit stay in the range, and one of which nothing was promoted stays as it was.
pub record HasFollowed (updates : List DeepUpdate) (before after : List Trait) : Type 0 where
  pub range : HasSmallBaselines after
  pub unmoved :
      (name : String) → All (IsElsewhere name) updates → by_name name after ≡ by_name name before

module _ (policy : GrowthPolicy) (committed : View) (run_id : Option ℕ) (now : ℕ)
    (slow : policy.baseline_follow_rate ≤ one) (small : IsSmall committed) where
  promotable_small : (c : Candidate) (x : ℕ) → promotable policy committed c ≡ some x → x ≤ one
  unfolding promotable
  promotable_small c x h =
      elim (Bool-cases (is_owned c.target_domain && (evaluate policy.gate c).passed)) [
        | inl q ↦ let h' = rw (promotable, q) at h in lookup_small (target c) committed x small h'
        | inr q ↦ let h' = rw (promotable, q) at h in cc h'
      ]

  apply_each-HasFollowed :
      (cs : List Candidate) (ledger : Ledger)
      → HasSmallBaselines ledger.traits
      → let (updates, after) = apply_each policy committed run_id now cs ledger in
        HasFollowed updates ledger.traits after.traits
  unfolding apply_each
  apply_each-HasFollowed [] ledger h = record { range = h; unmoved = λ name k. refl }
  apply_each-HasFollowed (c ∷ cs) ledger h = elim (Option-cases (promotable policy committed c)) [
    | inl p ↦ rw (apply_each, p) (apply_each-HasFollowed cs ledger h)
    | inr (x, p) ↦
        let next : Ledger = promote policy c x run_id now ledger in
        let rest =
          apply_each-HasFollowed cs next
            (promote_small policy run_id now slow c x ledger (promotable_small c x p) h) in
        rw (apply_each, p)
          (record {
            range = rest.range;
            unmoved = λ name k.
                rest.unmoved name k.1 ∙ promote_elsewhere policy run_id now name c x ledger k.0;
          })
  ]

-- With a follow rate, baselines and committed values of at most one, the baselines stay at most
-- one after a commit is applied, and the row of a trait for which no candidate of its own was
-- promoted stays as it was.
pub apply_committed-HasFollowed :
    (policy : GrowthPolicy) (committed : View) (run_id : Option ℕ) (now : ℕ) (ledger : Ledger)
    → policy.baseline_follow_rate ≤ one
    → IsSmall committed
    → HasSmallBaselines ledger.traits
    → let (updates, after) = apply_committed policy committed run_id now ledger in
      HasFollowed updates ledger.traits after.traits
unfolding apply_committed
apply_committed-HasFollowed policy committed run_id now ledger slow small h =
    apply_each-HasFollowed policy committed run_id now slow small
      (all_accumulating ledger.candidates) ledger h
