-- ===== src/Consolidation/Gate.antt =====
-- app/consolidation/deep_gate.py: the five conditions of a deep update, or nothing moves.
use discord_personality_bot.Base.{
  ℕ, ◌-◌, ◌*◌, Bool, true, false, not, Option, none, some, List, [], ◌∷◌, ltb, leb,
}
use discord_personality_bot.Base.Lists.{keep, length}
use discord_personality_bot.Consolidation.Dynamics.{round_parts, distance}
use discord_personality_bot.Consolidation.Candidates.{Candidate}

-- `DeepGateRules`; the days and the weights in millionths.
pub record GateRules : Type 0 where
  pub min_pattern_count : ℕ
  pub min_persistence_days : ℕ
  pub min_contexts : ℕ
  pub min_outcome_weight : ℕ
  pub min_mood_independent : ℕ
  pub mood_neutral_band : ℕ
  pub candidate_expiry_days : ℕ

pub data Condition : Type 0 where
  repeated_pattern temporal_persistence cross_context meaningful_outcome : Condition
  mood_independence : Condition

-- `CONDITIONS`
abbrev pub conditions : List Condition
conditions =
    repeated_pattern ∷ temporal_persistence ∷ cross_context ∷ meaningful_outcome ∷ mood_independence
    ∷ []

-- `persistence_days`, in millionths of a day
unfoldable pub persistence_days : Candidate → ℕ
persistence_days c = round_parts ((c.last_seen_at - c.first_seen_at) * 1000000) 86400

-- `checks`
unfoldable pub holds_for : GateRules → Candidate → Condition → Bool
holds_for rules c repeated_pattern = leb rules.min_pattern_count c.pattern_count
holds_for rules c temporal_persistence = leb rules.min_persistence_days (persistence_days c)
holds_for rules c cross_context = leb rules.min_contexts (length c.contexts)
holds_for rules c meaningful_outcome = leb rules.min_outcome_weight c.outcome_weight
holds_for rules c mood_independence = leb rules.min_mood_independent c.mood_independent_count

pub record GateDecision : Type 0 where
  pub passed : Bool
  pub satisfied : List Condition
  pub missing : List Condition

abbrev is_empty : List Condition → Bool
is_empty [] = true
is_empty (c ∷ cs) = false

-- `evaluate`
unfoldable pub evaluate : GateRules → Candidate → GateDecision
unfolding keep holds_for
evaluate rules c =
    let missing = keep (λ name. not (holds_for rules c name)) conditions in
    record {
      passed = is_empty missing;
      satisfied = keep (holds_for rules c) conditions;
      missing = missing;
    }

-- `is_expired`, of an idle time in seconds, which is compared in days
unfoldable pub is_expired : GateRules → ℕ → Bool
is_expired rules idle_seconds = ltb (rules.candidate_expiry_days * 86400) (idle_seconds * 1000000)

-- `mood_is_ordinary`: a mood that is not known is not ordinary.
unfoldable pub mood_is_ordinary : GateRules → Option ℕ → ℕ → Bool
mood_is_ordinary rules none baseline = false
mood_is_ordinary rules (some valence) baseline =
    leb (distance valence baseline) rules.mood_neutral_band
