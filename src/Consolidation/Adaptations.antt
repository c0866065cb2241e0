-- ===== src/Consolidation/Adaptations.antt =====
-- app/consolidation/adaptations.py, with the rows of app/storage/repositories/growth.py: evidence
-- adds up, and moves an adaptation by a damped step once there is enough of it.
pub mod Steady
use discord_personality_bot.Base.{
  ℕ, ◌+◌, ◌-◌, ◌*◌, String, Bool, true, false, ◌&&◌, ◌||◌, Option, none, some, List, [], ◌∷◌, ◌++◌,
  ltb, leb, nat_beq, ◌==◌, text_test, key_test, number_test, Key, if◌then◌else◌, zero, suc,
}
use Prim.Native.Nat.{min}
use discord_personality_bot.Base.Int.{ℤ, pos, pos_part, neg_part, ◌+ℤ◌, neg_ℤ, ltb_ℤ}
use discord_personality_bot.Base.Dict.{Dict, lookup}
use discord_personality_bot.Base.Lists.{fromkeys, length}
use discord_personality_bot.Consolidation.Dynamics.{
  Direction, up, down, direction_beq, damped_step, moved,
}

-- `AdaptationRules`; a source has the adaptation that it is evidence about, with a signed weight.
pub record AdaptationRules : Type 0 where
  pub initial_value : ℕ
  pub evidence_before_change : ℕ
  pub step : ℕ
  pub max_change_per_run : ℕ
  pub extremity_damping : ℕ
  pub min_source_delta : ℕ
  pub sources : Dict Key (String × Direction × ℕ)

-- A row of `characteristic_adaptations`.
pub record Adaptation : Type 0 where
  pub name : String
  pub value : ℕ
  pub baseline : ℕ
  pub pending_evidence : ℤ
  pub supporting_count : ℕ
  pub contradicting_count : ℕ
  pub contexts : List (String × String)
  pub evidence_ids : List ℕ
  pub first_evidence_at : Option ℕ
  pub last_evidence_at : Option ℕ
  pub updated_at : ℕ

pub record Evidence : Type 0 where
  pub adaptation : String
  pub direction : Direction
  pub weight : ℕ
  pub context : String × String
  pub evidence_id : ℕ
  pub observed_at : ℕ
  pub mood_independent : Bool
  pub outcome_weight : ℕ

-- A committed change of a number, with its signed size.
pub record StateChange : Type 0 where
  pub domain : String
  pub key : String
  pub sign : Direction
  pub size : ℕ
  pub source_module : String
  pub change_id : ℕ
  pub committed_at : ℕ

-- `AdaptationRules.source_for`
unfoldable pub source_for : AdaptationRules → String → String → Option (String × Direction × ℕ)
unfolding lookup
source_for rules domain key = elim (lookup (domain, key) rules.sources) [
  | some s ↦ some s
  | none ↦ lookup (domain, "*") rules.sources
]

-- `1 if delta * weight > 0 else -1`
abbrev reading : StateChange → Direction → ℕ → Direction
reading change sign weight =
    if ltb 0 (change.size * weight) && direction_beq change.sign sign then up else down

-- `evidence_from_change`
unfoldable pub evidence_from_change : AdaptationRules → StateChange → Bool → Option Evidence
unfolding source_for
evidence_from_change rules change mood_independent =
    if ltb change.size rules.min_source_delta
    then none
    else elim (source_for rules change.domain change.key) [
      | none ↦ none
      | some (name, sign, weight) ↦
          if nat_beq weight 0
          then none
          else some (record {
            adaptation = name;
            direction = reading change sign weight;
            weight = weight;
            context = (change.domain, change.source_module);
            evidence_id = change.change_id;
            observed_at = change.committed_at;
            mood_independent = mood_independent;
            outcome_weight = min 1000000 (change.size * 10);
          })
    ]

abbrev pub signed : Direction → ℕ → ℤ
signed up n = pos n
signed down n = neg_ℤ (pos n)

abbrev pub size_of : ℤ → ℕ
size_of x = pos_part x + neg_part x

abbrev pub sign_of : ℤ → Direction
sign_of x = if ltb_ℤ (pos 0) x then up else down

unfoldable pub adaptation_named : String → List Adaptation → Option Adaptation
adaptation_named name [] = none
adaptation_named name (a ∷ rows) = if a.name == name then some a else adaptation_named name rows

-- `ensure`: the row as it is, or a fresh one.
unfoldable pub ensured : ℕ → ℕ → String → List Adaptation → Adaptation
unfolding adaptation_named
ensured initial now name rows = elim (adaptation_named name rows) [
  | some a ↦ a
  | none ↦ record {
    name = name;
    value = initial;
    baseline = initial;
    pending_evidence = pos 0;
    supporting_count = 0;
    contradicting_count = 0;
    contexts = [];
    evidence_ids = [];
    first_evidence_at = none;
    last_evidence_at = none;
    updated_at = now;
  }
]

unfoldable pub drop_first {ℓ} : {A : Type ℓ} → ℕ → List A → List A
drop_first zero xs = xs
drop_first (suc n) [] = []
drop_first (suc n) (x ∷ xs) = drop_first n xs

-- `[-limit:]`
unfoldable pub last_of {ℓ} : {A : Type ℓ} → ℕ → List A → List A
unfolding drop_first
last_of limit xs = drop_first (length xs - limit) xs

-- The value and the pending evidence after a piece of evidence.
unfoldable pub weighed : AdaptationRules → Adaptation → Evidence → ℕ × ℤ
unfolding ◌+ℤ◌ damped_step moved
weighed rules current evidence =
    let pending = current.pending_evidence +ℤ signed evidence.direction evidence.weight in
    if leb rules.evidence_before_change (size_of pending)
    then (
      moved current.value (sign_of pending) (
          damped_step current.value (sign_of pending) rules.step rules.extremity_damping
            rules.max_change_per_run),
      pending +ℤ neg_ℤ (signed (sign_of pending) rules.evidence_before_change),
    )
    else (current.value, pending)

abbrev one_if : Bool → ℕ
one_if true = 1
one_if false = 0

-- The row that `observe` writes.
unfoldable pub observed : AdaptationRules → ℕ → Adaptation → Evidence → Adaptation
unfolding weighed fromkeys last_of
observed rules now current evidence =
    let (value, pending) = weighed rules current evidence in
    record current {
      value = value;
      pending_evidence = pending;
      supporting_count = current.supporting_count + one_if (direction_beq evidence.direction up);
      contradicting_count =
          current.contradicting_count + one_if (direction_beq evidence.direction down);
      contexts = fromkeys (current.contexts ++ evidence.context ∷ []);
      evidence_ids = last_of 20 (fromkeys (current.evidence_ids ++ evidence.evidence_id ∷ []));
      first_evidence_at = elim current.first_evidence_at [
        | none ↦ some evidence.observed_at
        | some t ↦ some t
      ];
      last_evidence_at = some now;
      updated_at = now;
    }

-- A row is replaced, or appended where there is none.
unfoldable pub put : Adaptation → List Adaptation → List Adaptation
put a [] = a ∷ []
put a (b ∷ rows) = if b.name == a.name then a ∷ rows else b ∷ put a rows

-- `observe`
unfoldable pub observe : AdaptationRules → ℕ → Evidence → List Adaptation → List Adaptation
unfolding ensured observed put
observe rules now evidence rows =
    put (observed rules now (ensured rules.initial_value now evidence.adaptation rows) evidence)
      rows
