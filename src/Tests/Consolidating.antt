-- ===== src/Tests/Consolidating.antt =====
-- A run of the consolidation over two changes, with a trait that is ready and one that is new.
use discord_personality_bot.Base.{ℕ, ◌≡◌, refl, arith, true, some, List, [], ◌∷◌, map}
use discord_personality_bot.Base.Int.{ℤ, pos, neg_ℤ}
use discord_personality_bot.Base.Lists.{All}
use discord_personality_bot.Consolidation.Dynamics.{up, down}
use discord_personality_bot.Consolidation.Candidates.{Candidate}
use discord_personality_bot.Text.{str_lt}
use discord_personality_bot.Consolidation.Gate.{persistence_days, mood_is_ordinary}
use discord_personality_bot.Consolidation.Growth.{DeepUpdate, View}
use discord_personality_bot.Consolidation.Adaptations.{AdaptationRules, Adaptation, Evidence}
use discord_personality_bot.Consolidation.Scanning.{JobPolicy, Row, observe_each}
use discord_personality_bot.Consolidation.Ledger.{ValuePriority}
use discord_personality_bot.Consolidation.Shifts.{ValueShift}
use discord_personality_bot.Consolidation.Job.{Life, run}
use discord_personality_bot.Consolidation.Job.Patience.{WasOpen, run_promotes_known}
use discord_personality_bot.Tests.Growing.{ripe, policy, ledger, committed}

abbrev rules : AdaptationRules
rules = record {
  initial_value = 500000;
  evidence_before_change = 3000000;
  step = 40000;
  max_change_per_run = 50000;
  extremity_damping = 800000;
  min_source_delta = 5000;
  sources =
      (("emotion", "interest"), ("curiosity", up, 1000000))
      ∷ (("goals", "*"), ("curiosity", up, 500000))
      ∷ (("attachment", "reassurance_need"), ("independence", down, 500000))
      ∷ [];
}

abbrev job_policy : JobPolicy
job_policy = record {
  growth = policy;
  adaptation = rules;
  mood_baseline = 550000;
  adaptation_to_trait =
      ("curiosity", ("openness", up)) ∷ ("independence", ("assertiveness", up)) ∷ [];
  adaptation_to_value = ("curiosity", ("self_direction", up)) ∷ [];
  adaptation_to_disposition = [];
}

abbrev interest : Row
interest = record {
  domain = "emotion";
  key = "interest";
  new_value = some 700000;
  delta = some (up, 200000);
  source_module = "emotion_engine";
  change_id = 5;
  committed_at = 2000100;
}

abbrev rows : List Row
rows =
    record interest { domain = "mood"; key = "valence"; new_value = some 600000 }
    ∷ interest
    ∷ record interest { domain = "attachment"; key = "reassurance_need"; change_id = 6 }
    ∷ []

-- A value that is ready too, and what the review commits for it.
abbrev ready_value : Candidate
ready_value = record ripe {
  candidate_id = 4;
  target_domain = "values";
  target_key = "self_direction";
}

abbrev values_committed : View
values_committed = (("values", "self_direction"), 320000) ∷ committed

abbrev life : Life
life = record {
  ledger = record ledger {
    candidates = ready_value ∷ ledger.candidates;
    values = record { name = "self_direction"; priority = 300000; updated_at = 0 } ∷ [];
  };
  adaptations = [];
  next_id = 5;
}

run_promotes_known_example :
    let (updates, shifts, life') =
      run job_policy 9000000 2000200 (some 550000) rows (λ l. (values_committed, 9)) life in
    All (λ (u : DeepUpdate). WasOpen life.ledger.candidates u.candidate) updates
    × All (λ (s : ValueShift). WasOpen life.ledger.candidates s.candidate) shifts
run_promotes_known_example =
    run_promotes_known job_policy 9000000 2000200 (some 550000) rows (λ l. (values_committed, 9))
      life (ground arith)

abbrev praise : Evidence
praise = record {
  adaptation = "curiosity";
  direction = up;
  weight = 2000000;
  context = ("emotion", "emotion_engine");
  evidence_id = 5;
  observed_at = 2000100;
  mood_independent = true;
  outcome_weight = 1000000;
}

moved_once :
    map {B = ℕ × ℤ}
      (λ (a : Adaptation). (a.value, a.pending_evidence))
      (observe_each rules 70 (praise ∷ praise ∷ []) [])
    ≡ (540000, pos 1000000) ∷ []
unfolding observe_each neg_ℤ
moved_once = refl

-- A run promotes the trait and the value, and the ledger takes the committed priority.
promoted_both :
    let (updates, shifts, life') =
      run job_policy 9000000 2000200 (some 550000) rows (λ l. (values_committed, 9)) life in
    (map (λ (u : DeepUpdate). u.candidate.candidate_id) updates ≡ 1 ∷ [])
    × (map (λ (s : ValueShift). s.candidate.candidate_id) shifts ≡ 4 ∷ [])
    × (map (λ (v : ValuePriority). v.priority) life'.ledger.values ≡ 320000 ∷ [])
unfolding run str_lt neg_ℤ persistence_days mood_is_ordinary
promoted_both = (refl, refl, refl)
