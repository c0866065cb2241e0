-- ===== src/Tests/Growing.antt =====
-- A trait for which evidence of three weeks has come together, and one for which it has not.
use discord_personality_bot.Base.{ℕ, ◌≡◌, refl, arith, String, none, [], ◌∷◌, map}
use discord_personality_bot.Base.Lists.{All}
use discord_personality_bot.Consolidation.Dynamics.{up, down}
use discord_personality_bot.Consolidation.Candidates.{Candidate, accumulating}
use discord_personality_bot.Consolidation.Gate.{persistence_days}
use discord_personality_bot.Consolidation.Growth.{
  Trait, GrowthPolicy, Ledger, View, GrowthProposal, handle, apply_committed,
}
use discord_personality_bot.Consolidation.Growth.Steps.{IsModest, handle-IsModest}

abbrev pub policy : GrowthPolicy
policy = record {
  gate = record {
    min_pattern_count = 4;
    min_persistence_days = 14000000;
    min_contexts = 2;
    min_outcome_weight = 1000000;
    min_mood_independent = 2;
    mood_neutral_band = 250000;
    candidate_expiry_days = 120000000;
  };
  personality = record { max_step = 10000; extremity_damping = 800000 };
  baseline_follow_rate = 200000;
  disposition = record { max_step = 10000; extremity_damping = 800000 };
  narrative = record {
    min_supporting_memories = 3;
    strength_step = 50000;
    max_strength = 950000;
    max_themes = 12;
  };
}

abbrev young : Candidate
young = record {
  candidate_id = 2;
  target_domain = "personality";
  target_key = "assertiveness";
  direction = down;
  pattern_count = 2;
  contexts = ("needs", "need_engine") ∷ [];
  evidence_ids = [];
  outcome_weight = 100000;
  mood_independent_count = 0;
  magnitude = 0;
  source_adaptation = none;
  first_seen_at = 1000;
  last_seen_at = 2000;
  status = accumulating;
  resolved_at = none;
}

abbrev pub ripe : Candidate
ripe = record young {
  candidate_id = 1;
  target_key = "openness";
  direction = up;
  pattern_count = 5;
  contexts = ("emotion", "emotion_engine") ∷ ("goals", "goal_engine") ∷ [];
  outcome_weight = 3000000;
  mood_independent_count = 3;
  last_seen_at = 2000000;
}

abbrev trait : String → ℕ → Trait
trait name baseline = record {
  name = name;
  baseline = baseline;
  initial_baseline = baseline;
  updated_at = 0;
}

abbrev pub ledger : Ledger
ledger = record {
  candidates = ripe ∷ young ∷ [];
  traits = trait "assertiveness" 350000 ∷ trait "openness" 750000 ∷ [];
  history = [];
  values = [];
  value_history = [];
}

abbrev view : View
view = (("personality", "openness"), 750000) ∷ []

abbrev pub committed : View
committed = (("personality", "openness"), 756000) ∷ []

handle-IsModest_example : All (IsModest policy view) (handle policy [] view ledger)
handle-IsModest_example = handle-IsModest policy [] view ledger (ground arith) (ground arith, tt)

ripe_proposed : map (λ (p : GrowthProposal). p.value) (handle policy [] view ledger) ≡ 756000 ∷ []
unfolding handle persistence_days
ripe_proposed = refl

baselines_after :
    map (λ (t : Trait). t.baseline) (apply_committed policy committed none 2000000 ledger).1.traits
    ≡ 350000 ∷ 751200 ∷ []
unfolding apply_committed persistence_days
baselines_after = refl
