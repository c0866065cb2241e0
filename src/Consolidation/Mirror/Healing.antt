-- ===== src/Consolidation/Mirror/Healing.antt =====
-- What the state shows once the proposals are committed.
use discord_personality_bot.Base.{
  ℕ, ◌≡◌, ◌≢◌, ◌∙◌, refl, inl, inr, arith, String, Bool, true, false, Bool-cases, Option, some,
  List, [], ◌∷◌, map, ◌==◌, text_test, if◌then◌else◌,
}
use discord_personality_bot.Base.Dict.{beq_refl}
use discord_personality_bot.Base.Lists.{
  All, All-mono, All-both, DistinctBy, keep, keep-All, All-keep,
}
use discord_personality_bot.Base.Sort.{sort-DistinctBy}
use discord_personality_bot.Consolidation.Adaptations.{Adaptation}
use discord_personality_bot.Consolidation.Mirror.{
  MirrorProposal, is_due, mirror, all_adaptations, mirror_all, has_evidence, by_name,
}

-- The state once proposals are committed.
unfoldable pub after : (String → Option ℕ) → List MirrorProposal → String → Option ℕ
after view [] name = view name
after view (p ∷ ps) name = if p.target_key == name then some p.value else after view ps name

-- The proposals leave a name of none of the rows.
after_other :
    (view : String → Option ℕ) (name : String) (rows : List Adaptation)
    → All (λ (a : Adaptation). name ≢ a.name) rows
    → after view (map mirror (keep (is_due view) rows)) name ≡ view name
unfolding after mirror keep
after_other view name [] h = refl
after_other view name (a ∷ rows) h =
    ground (arith, h.0, text_test.test_iff a.name name, after_other view name rows h.1)

is_due-cong :
    (view view' : String → Option ℕ) (a : Adaptation)
    → view a.name ≡ view' a.name
    → is_due view a ≡ is_due view' a
unfolding is_due
is_due-cong view view' a h = rw h refl

due_shown :
    (view : String → Option ℕ) (a : Adaptation) → view a.name ≡ some a.value → is_due view a ≡ false
unfolding is_due
due_shown view a h = rw h (ground arith)

abbrev proposed : (String → Option ℕ) → List Adaptation → String → Option ℕ
proposed view rows = after view (map mirror (keep (is_due view) rows))

proposed_other :
    (view : String → Option ℕ) (a b : Adaptation) (rows : List Adaptation)
    → a.name ≢ b.name
    → proposed view (a ∷ rows) b.name ≡ proposed view rows b.name
unfolding after mirror keep
proposed_other view a b rows h = ground (arith, h, text_test.test_iff a.name b.name)

proposed_self :
    (view : String → Option ℕ) (a : Adaptation) (rows : List Adaptation)
    → All (λ (b : Adaptation). a.name ≢ b.name) rows
    → is_due (proposed view (a ∷ rows)) a ≡ false
unfolding after mirror keep
proposed_self view a rows h = elim (Bool-cases (is_due view a)) [
  | inl q ↦ due_shown (proposed view (a ∷ rows)) a (rw q (rw (beq_refl a.name) refl))
  | inr q ↦
      is_due-cong (proposed view (a ∷ rows)) view a (rw q (after_other view a.name rows h)) ∙ q
]

proposed-All :
    (view : String → Option ℕ) (rows : List Adaptation)
    → DistinctBy (λ (a : Adaptation). a.name) rows
    → All (λ a. is_due (proposed view rows) a ≡ false) rows
proposed-All view [] d = tt
proposed-All view (a ∷ rows) d = (
  proposed_self view a rows d.0,
  All-mono (λ b. (is_due (proposed view rows) b ≡ false) × (a.name ≢ b.name))
      (λ b. is_due (proposed view (a ∷ rows)) b ≡ false) rows
      (λ b h.
        is_due-cong (proposed view (a ∷ rows)) (proposed view rows) b
          (proposed_other view a b rows h.1)
        ∙ h.0)
      (All-both (λ b. is_due (proposed view rows) b ≡ false) (λ b. a.name ≢ b.name) rows
        (proposed-All view rows d.1) d.0),
)

keep_none :
    (test : Adaptation → Bool) (rows : List Adaptation)
    → All (λ a. test a ≡ false) rows
    → keep test rows ≡ []
unfolding keep
keep_none test [] h = refl
keep_none test (a ∷ rows) h = rw (h.0, keep_none test rows h.1) refl

settled_shown :
    (view : String → Option ℕ) (a : Adaptation)
    → is_due view a ≡ false
    → has_evidence a.evidence_ids ≡ true
    → view a.name ≡ some a.value
unfolding is_due
settled_shown view a h e = ground (arith, h, e)

-- The adaptations with evidence.
abbrev pub evidenced : List Adaptation → List Adaptation
evidenced rows = keep (λ (a : Adaptation). has_evidence a.evidence_ids) (all_adaptations rows)

-- Where the adaptations of the ledger have distinct names, then whatever the state showed before,
-- once all that the engine proposes is committed the state shows the ledger value of every
-- adaptation with evidence, and the engine proposes nothing more.
pub mirror_all_heals :
    (view : String → Option ℕ) (rows : List Adaptation)
    → DistinctBy (λ (a : Adaptation). a.name) rows
    → (mirror_all (after view (mirror_all view rows)) rows ≡ [])
      × All
          (λ (a : Adaptation). after view (mirror_all view rows) a.name ≡ some a.value)
          (evidenced rows)
unfolding mirror_all all_adaptations
mirror_all_heals view rows d =
    let table = all_adaptations rows in
    let shown = proposed view table in
    let quiet =
      proposed-All view table (sort-DistinctBy by_name (λ (a : Adaptation). a.name) rows d) in
    let has = λ (a : Adaptation). has_evidence a.evidence_ids in
    (
      rw (keep_none (is_due shown) table quiet) refl,
      All-mono (λ a. (is_due shown a ≡ false) × (has a ≡ true))
          (λ (a : Adaptation). shown a.name ≡ some a.value) (keep has table)
          (λ a h. settled_shown shown a h.0 h.1)
          (All-both (λ a. is_due shown a ≡ false) (λ a. has a ≡ true) (keep has table)
            (All-keep (λ a. is_due shown a ≡ false) has table quiet) (keep-All has table)),
    )
