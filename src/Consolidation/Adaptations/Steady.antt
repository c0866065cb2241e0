-- ===== src/Consolidation/Adaptations/Steady.antt =====
-- How fast evidence moves an adaptation.
use mathlib.Core.Path.{subst}
use discord_personality_bot.Base.{
  ℕ, ◌*◌, ◌≤◌, ◌≡◌, ◌∙◌, refl, sym, inl, inr, arith, String, false, Bool-cases, Option, none, some,
  Option-cases, List, [], ◌∷◌, leb, ◌==◌, text_test,
}
use discord_personality_bot.Base.Int.{◌+ℤ◌}
use discord_personality_bot.Base.Lists.{All, length}
use discord_personality_bot.Base.Dict.{beq_refl}
use discord_personality_bot.Consolidation.Dynamics.{
  one, distance, damped_step, moved_in_range, moved_near, damped_step_short,
}
use discord_personality_bot.Consolidation.Adaptations.{
  AdaptationRules, Adaptation, Evidence, adaptation_named, ensured, weighed, observed, put, observe,
  signed, size_of, sign_of,
}
use discord_personality_bot.Consolidation.Scanning.{observe_each}

abbrev pub HasSmallValues : List Adaptation → Type 0
HasSmallValues rows = All (λ (a : Adaptation). a.value ≤ one) rows

-- The value of an adaptation, or the one that it starts with.
abbrev pub value_at : ℕ → String → List Adaptation → ℕ
value_at initial name rows = (ensured initial 0 name rows).value

weighed_near :
    (rules : AdaptationRules) (a : Adaptation) (e : Evidence)
    → a.value ≤ one
    → ((weighed rules a e).0 ≤ one)
      × (distance (weighed rules a e).0 a.value ≤ rules.max_change_per_run)
unfolding weighed
weighed_near rules a e small =
    let pending = a.pending_evidence +ℤ signed e.direction e.weight in
    let step =
      damped_step a.value (sign_of pending) rules.step rules.extremity_damping
        rules.max_change_per_run in
    elim (Bool-cases (leb rules.evidence_before_change (size_of pending))) [
      | inl q ↦
          rw (weighed, q)
            (
              moved_in_range a.value (sign_of pending) step,
              moved_near a.value (sign_of pending) step rules.max_change_per_run small (
                  damped_step_short a.value (sign_of pending) rules.step rules.extremity_damping
                    rules.max_change_per_run),
            )
      | inr q ↦ rw (weighed, q) (small, omega arith)
    ]

named_small :
    (name : String) (rows : List Adaptation) (a : Adaptation)
    → HasSmallValues rows
    → adaptation_named name rows ≡ some a
    → a.value ≤ one
unfolding adaptation_named
named_small name [] a h e = cc e
named_small name (b ∷ rows) a h e = elim (Bool-cases (b.name == name)) [
  | inl q ↦
      let e' = rw (q, adaptation_named) at e in
      subst (λ (o : Option Adaptation). elim o [ none ↦ a.value ≤ one | some v ↦ v.value ≤ one ]) e'
        h.0
  | inr q ↦ let e' = rw (q, adaptation_named) at e in named_small name rows a h.1 e'
]

named_name :
    (name : String) (rows : List Adaptation) (a : Adaptation)
    → adaptation_named name rows ≡ some a
    → a.name ≡ name
unfolding adaptation_named
named_name name [] a e = cc e
named_name name (b ∷ rows) a e = elim (Bool-cases (b.name == name)) [
  | inl q ↦
      let e' = rw (q, adaptation_named) at e in
      subst (λ (o : Option Adaptation). elim o [ none ↦ a.name ≡ name | some v ↦ v.name ≡ name ]) e'
        ((text_test.test_iff b.name name).0 q)
  | inr q ↦ let e' = rw (q, adaptation_named) at e in named_name name rows a e'
]

ensured_lem :
    (initial now : ℕ) (name : String) (rows : List Adaptation)
    → initial ≤ one
    → HasSmallValues rows
    → ((ensured initial now name rows).name ≡ name)
      × ((ensured initial now name rows).value ≤ one)
      × ((ensured initial now name rows).value ≡ value_at initial name rows)
unfolding ensured
ensured_lem initial now name rows hi h = elim (Option-cases (adaptation_named name rows)) [
  | inl p ↦ (rw (ensured, p) refl, rw (ensured, p) hi, rw (value_at, ensured, p) refl)
  | inr (a, p) ↦ (
    rw (ensured, p) (named_name name rows a p),
    rw (ensured, p) (named_small name rows a h p),
    rw (value_at, ensured, p) refl,
  )
]

put_small :
    (a : Adaptation) (rows : List Adaptation)
    → a.value ≤ one
    → HasSmallValues rows
    → HasSmallValues (put a rows)
unfolding put
put_small a [] ha h = (ha, tt)
put_small a (b ∷ rows) ha h = elim (Bool-cases (b.name == a.name)) [
  | inl q ↦ rw (put, q) (ha, h.1)
  | inr q ↦ rw (put, q) (h.0, put_small a rows ha h.1)
]

named-put_self :
    (a : Adaptation) (rows : List Adaptation) → adaptation_named a.name (put a rows) ≡ some a
unfolding adaptation_named put
named-put_self a [] = rw (beq_refl a.name) refl
named-put_self a (b ∷ rows) = elim (Bool-cases (b.name == a.name)) [
  | inl q ↦ rw (put, adaptation_named, q, beq_refl a.name) refl
  | inr q ↦ rw (put, q, adaptation_named, q) (named-put_self a rows)
]

named-put_other :
    (name : String) (a : Adaptation) (rows : List Adaptation)
    → (a.name == name) ≡ false
    → adaptation_named name (put a rows) ≡ adaptation_named name rows
unfolding adaptation_named put
named-put_other name a [] h = rw (put, adaptation_named, h) refl
named-put_other name a (b ∷ rows) h = elim (Bool-cases (b.name == a.name)) [
  | inl q ↦
      let same : b.name ≡ a.name = (text_test.test_iff b.name a.name).0 q in
      let apart : (b.name == name) ≡ false = rw same h in
      rw (put, adaptation_named, q, h, apart) refl
  | inr q ↦ elim (Bool-cases (b.name == name)) [
    | inl r ↦ rw (put, adaptation_named, q, r) refl
    | inr r ↦ rw (put, adaptation_named, q, r) (named-put_other name a rows h)
  ]
]

value_at-put_self :
    (initial : ℕ) (a : Adaptation) (rows : List Adaptation)
    → value_at initial a.name (put a rows) ≡ a.value
unfolding ensured
value_at-put_self initial a rows = rw (value_at, ensured, named-put_self a rows) refl

value_at-put_other :
    (initial : ℕ) (name : String) (a : Adaptation) (rows : List Adaptation)
    → (a.name == name) ≡ false
    → value_at initial name (put a rows) ≡ value_at initial name rows
unfolding ensured
value_at-put_other initial name a rows h =
    rw (value_at, ensured, named-put_other name a rows h) refl

module _ (rules : AdaptationRules) (now : ℕ) (low : rules.initial_value ≤ one) where
  abbrev before_at : String → List Adaptation → ℕ
  before_at name rows = value_at rules.initial_value name rows

  observe_small :
      (e : Evidence) (rows : List Adaptation)
      → HasSmallValues rows
      → HasSmallValues (observe rules now e rows)
  unfolding observe observed
  observe_small e rows h =
      let current = ensured rules.initial_value now e.adaptation rows in
      let (name, small, same) = ensured_lem rules.initial_value now e.adaptation rows low h in
      put_small (observed rules now current e) rows (weighed_near rules current e small).0 h

  observe_near :
      (e : Evidence) (name : String) (rows : List Adaptation)
      → HasSmallValues rows
      → distance (before_at name (observe rules now e rows)) (before_at name rows)
        ≤ rules.max_change_per_run
  unfolding observe observed
  observe_near e name rows h =
      let current = ensured rules.initial_value now e.adaptation rows in
      let a : Adaptation = observed rules now current e in
      let (named, small, same) = ensured_lem rules.initial_value now e.adaptation rows low h in
      elim (Bool-cases (a.name == name)) [
        | inl q ↦
            let here : a.name ≡ name = (text_test.test_iff a.name name).0 q in
            let after : before_at name (put a rows) ≡ a.value =
              subst (λ n. before_at n (put a rows) ≡ a.value) here
                (value_at-put_self rules.initial_value a rows) in
            let before : before_at name rows ≡ current.value =
              subst (λ n. before_at n rows ≡ current.value) (sym named ∙ here) (sym same) in
            rw (after, before) (weighed_near rules current e small).1
        | inr q ↦
            let after = value_at-put_other rules.initial_value name a rows q in omega (arith, after)
      ]

  observe_each_small :
      (es : List Evidence) (rows : List Adaptation)
      → HasSmallValues rows
      → HasSmallValues (observe_each rules now es rows)
  unfolding observe_each
  observe_each_small [] rows h = h
  observe_each_small (e ∷ es) rows h =
      observe_each_small es (observe rules now e rows) (observe_small e rows h)

  observe_each_near :
      (es : List Evidence) (name : String) (rows : List Adaptation)
      → HasSmallValues rows
      → distance (before_at name (observe_each rules now es rows)) (before_at name rows)
        ≤ length es * rules.max_change_per_run
  unfolding observe_each
  observe_each_near [] name rows h = omega arith
  observe_each_near (e ∷ es) name rows h =
      let first = observe_near e name rows h in
      let rest = observe_each_near es name (observe rules now e rows) (observe_small e rows h) in
      omega (arith, first, rest)

-- With an initial value of at most one, and values of at most one, observing a list of evidence
-- keeps every value at most one, and moves each adaptation, from its value or from the initial
-- one, by at most the largest change times the number of pieces of evidence.
pub observe_each_steady :
    (rules : AdaptationRules) (now : ℕ) (es : List Evidence) (rows : List Adaptation)
    → rules.initial_value ≤ one
    → HasSmallValues rows
    → HasSmallValues (observe_each rules now es rows)
      × ((name : String)
          → distance
              (value_at rules.initial_value name (observe_each rules now es rows))
              (value_at rules.initial_value name rows)
            ≤ length es * rules.max_change_per_run)
observe_each_steady rules now es rows low h = (
  observe_each_small rules now low es rows h,
  λ name. observe_each_near rules now low es name rows h,
)
