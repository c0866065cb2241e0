-- ===== src/Consolidation/Scanning.antt =====
-- app/consolidation/job.py: how a run of the consolidation reads the committed changes, and what it
-- observes of them.
use discord_personality_bot.Base.{
  ℕ, String, ◌&&◌, Bool, Option, none, some, List, [], ◌∷◌, ◌++◌, ◌==◌, text_test, key_test,
  number_test, if◌then◌else◌,
}
use discord_personality_bot.Text.{str_lt}
use discord_personality_bot.Base.Dict.{Dict, lookup, insert}
use discord_personality_bot.Base.Sort.{sort}
use discord_personality_bot.Consolidation.Dynamics.{Direction}
use discord_personality_bot.Consolidation.Gate.{mood_is_ordinary}
use discord_personality_bot.Consolidation.Growth.{GrowthPolicy}
use discord_personality_bot.Consolidation.Adaptations.{
  AdaptationRules, Adaptation, Evidence, StateChange, evidence_from_change, observe,
}

-- What one run learned, by adaptation, in the order of first sight.
abbrev pub Tallies : Type 0
Tallies = Dict String (List Evidence)

-- A row of the committed changes, with what its texts hold as numbers.
pub record Row : Type 0 where
  pub domain : String
  pub key : String
  pub new_value : Option ℕ
  pub delta : Option (Direction × ℕ)
  pub source_module : String
  pub change_id : ℕ
  pub committed_at : ℕ

-- The policy, where a target of an adaptation has the sign of its weight.
pub record JobPolicy : Type 0 where
  pub growth : GrowthPolicy
  pub adaptation : AdaptationRules
  pub mood_baseline : ℕ
  pub adaptation_to_trait : Dict String (String × Direction)
  pub adaptation_to_value : Dict String (String × Direction)
  pub adaptation_to_disposition : Dict String (String × Direction)

-- `tallies.setdefault(evidence.adaptation, _Tally()).evidence.append(evidence)`
unfoldable pub tally : Evidence → Tallies → Tallies
unfolding lookup insert
tally e tallies = elim (lookup e.adaptation tallies) [
  | none ↦ insert e.adaptation (e ∷ []) tallies
  | some es ↦ insert e.adaptation (es ++ e ∷ []) tallies
]

-- `_numeric`, with the mood before as the fallback
abbrev mood_after : Option ℕ → Option ℕ → Option ℕ
mood_after (some x) mood = some x
mood_after none mood = mood

abbrev changed : Row → Direction → ℕ → StateChange
changed r sign size = record {
  domain = r.domain;
  key = r.key;
  sign = sign;
  size = size;
  source_module = r.source_module;
  change_id = r.change_id;
  committed_at = r.committed_at;
}

-- A change of a number is evidence, under the mood that was read before it.
unfoldable pub note_row : JobPolicy → Option ℕ → Row → Tallies → Tallies
unfolding tally evidence_from_change mood_is_ordinary
note_row policy mood r tallies = elim r.delta [
  | none ↦ tallies
  | some (sign, size) ↦
      let ordinary = mood_is_ordinary policy.growth.gate mood policy.mood_baseline in
      elim (evidence_from_change policy.adaptation (changed r sign size) ordinary) [
        | none ↦ tallies
        | some e ↦ tally e tallies
      ]
]

-- `_scan_changes`, of the rows that were read, from a mood and some tallies
unfoldable pub scan_rows : JobPolicy → Option ℕ → List Row → Tallies → Tallies
unfolding note_row
scan_rows policy mood [] tallies = tallies
scan_rows policy mood (r ∷ rows) tallies =
    let is_mood = (r.domain == "mood") && (r.key == "valence") in
    scan_rows policy (if is_mood then mood_after r.new_value mood else mood) rows
      (if is_mood then tallies else note_row policy mood r tallies)

abbrev by_name : (String × List Evidence) → (String × List Evidence) → Bool
by_name a b = str_lt a.0 b.0

-- `sorted(tallies.items())`
unfoldable pub in_order : Tallies → Tallies
unfolding sort
in_order tallies = sort by_name tallies

unfoldable pub observe_each :
    AdaptationRules → ℕ → List Evidence → List Adaptation → List Adaptation
unfolding observe
observe_each rules now [] rows = rows
observe_each rules now (e ∷ es) rows = observe_each rules now es (observe rules now e rows)

-- `_apply_adaptation_evidence`
unfoldable pub observe_all : AdaptationRules → ℕ → Tallies → List Adaptation → List Adaptation
unfolding observe_each
observe_all rules now [] rows = rows
observe_all rules now ((name, es) ∷ tallies) rows =
    observe_all rules now tallies (observe_each rules now es rows)
