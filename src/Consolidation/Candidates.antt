-- ===== src/Consolidation/Candidates.antt =====
-- The candidates for a deep update: DeepUpdateCandidate of app/consolidation/models.py, and their
-- table in app/storage/repositories/growth.py. Identifiers and instants (in seconds) are numbers.
use discord_personality_bot.Base.{
  ℕ, String, Bool, true, false, ◌&&◌, Option, none, some, List, [], ◌∷◌, ltb, nat_beq, ◌==◌,
  text_test, if◌then◌else◌, Key,
}
use discord_personality_bot.Base.Lists.{keep}
use discord_personality_bot.Base.Sort.{sort}
use discord_personality_bot.Jobs.Scheduler.{first}
use discord_personality_bot.Consolidation.Dynamics.{Direction, direction_beq}

pub data CandidateStatus : Type 0 where
  accumulating promoted expired rejected : CandidateStatus

pub record Candidate : Type 0 where
  pub candidate_id : ℕ
  pub target_domain : String
  pub target_key : String
  pub direction : Direction
  pub pattern_count : ℕ
  pub contexts : List Key
  pub evidence_ids : List ℕ
  pub outcome_weight : ℕ
  pub mood_independent_count : ℕ
  pub magnitude : ℕ
  pub source_adaptation : Option String
  pub first_seen_at : ℕ
  pub last_seen_at : ℕ
  pub status : CandidateStatus
  pub resolved_at : Option ℕ

-- `DeepUpdateCandidate.target`
abbrev pub target : Candidate → Key
target c = (c.target_domain, c.target_key)

abbrev pub is_accumulating : CandidateStatus → Bool
is_accumulating accumulating = true
is_accumulating _ = false

-- The candidates that a query of the target and the direction finds.
abbrev pub is_about : String → String → Direction → Candidate → Bool
is_about domain key direction c =
    (c.target_domain == domain)
    && (c.target_key == key)
    && direction_beq c.direction direction
    && is_accumulating c.status

abbrev head_of : List Candidate → Option Candidate
head_of [] = none
head_of (c ∷ cs) = some c

-- `open_candidate`
unfoldable pub open_candidate : String → String → Direction → List Candidate → Option Candidate
unfolding keep
open_candidate domain key direction rows = head_of (keep (is_about domain key direction) rows)

-- `create`
unfoldable pub create : ℕ → String → String → Direction → Option String → ℕ → Candidate
create candidate_id domain key direction source now = record {
  candidate_id = candidate_id;
  target_domain = domain;
  target_key = key;
  direction = direction;
  pattern_count = 0;
  contexts = [];
  evidence_ids = [];
  outcome_weight = 0;
  mood_independent_count = 0;
  magnitude = 0;
  source_adaptation = source;
  first_seen_at = now;
  last_seen_at = now;
  status = accumulating;
  resolved_at = none;
}

-- `UPDATE deep_update_candidates SET … WHERE candidate_id = ?`
unfoldable pub change : ℕ → (Candidate → Candidate) → List Candidate → List Candidate
change candidate_id f [] = []
change candidate_id f (c ∷ cs) =
    (if nat_beq c.candidate_id candidate_id then f c else c) ∷ change candidate_id f cs

-- `resolve`
unfoldable pub resolve : ℕ → CandidateStatus → ℕ → List Candidate → List Candidate
unfolding change
resolve candidate_id status now rows =
    change candidate_id (λ c. record c { status = status; resolved_at = some now }) rows

-- `accumulating`: at most 100, the oldest first.
abbrev pub seen_before : Candidate → Candidate → Bool
seen_before a b = ltb a.first_seen_at b.first_seen_at

unfoldable pub all_accumulating : List Candidate → List Candidate
unfolding keep first sort
all_accumulating rows =
    first 100 (sort seen_before (keep (λ (c : Candidate). is_accumulating c.status) rows))
