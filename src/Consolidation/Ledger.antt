-- ===== src/Consolidation/Ledger.antt =====
-- The rows and the rules of the growth engine: app/consolidation/models.py and policy.py, and the
-- tables of app/storage/repositories/growth.py.
use discord_personality_bot.Base.{ℕ, String, Option, List, text_test, key_test}
use discord_personality_bot.Consolidation.Candidates.{Candidate}
use discord_personality_bot.Consolidation.Gate.{GateRules}

-- A trait, of which the ledger keeps the slow baseline only.
pub record Trait : Type 0 where
  pub name : String
  pub baseline : ℕ
  pub initial_baseline : ℕ
  pub updated_at : ℕ

-- A row of `personality_history`.
pub record TraitChange : Type 0 where
  pub trait : String
  pub previous_value : ℕ
  pub new_value : ℕ
  pub baseline_after : ℕ
  pub candidate_id : ℕ
  pub run_id : Option ℕ
  pub recorded_at : ℕ

pub record Theme : Type 0 where
  pub theme : String
  pub strength : ℕ
  pub supporting_memory_count : ℕ
  pub supporting_memory_ids : List ℕ

pub record StepRules : Type 0 where
  pub max_step : ℕ
  pub extremity_damping : ℕ

pub record NarrativeRules : Type 0 where
  pub min_supporting_memories : ℕ
  pub strength_step : ℕ
  pub max_strength : ℕ
  pub max_themes : ℕ

pub record GrowthPolicy : Type 0 where
  pub gate : GateRules
  pub personality : StepRules
  pub baseline_follow_rate : ℕ
  pub disposition : StepRules
  pub narrative : NarrativeRules

-- A row of `value_priorities`.
pub record ValuePriority : Type 0 where
  pub name : String
  pub priority : ℕ
  pub updated_at : ℕ

-- A row of `value_history`.
pub record ValueChange : Type 0 where
  pub value_name : String
  pub previous_priority : Option ℕ
  pub new_priority : ℕ
  pub candidate_id : ℕ
  pub run_id : Option ℕ
  pub recorded_at : ℕ

pub record Ledger : Type 0 where
  pub candidates : List Candidate
  pub traits : List Trait
  pub history : List TraitChange
  pub values : List ValuePriority
  pub value_history : List ValueChange
