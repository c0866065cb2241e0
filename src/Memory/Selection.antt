-- ===== src/Memory/Selection.antt =====
-- app/memory/selection.py, and the three stages of app/memory/retrieval.py: which of the relevant
-- memories come to mind. What the first stage finds is an argument.
use Prim.Native.Nat.{min}
use discord_personality_bot.Base.{
  ℕ, ◌+◌, ◌*◌, ◌-◌, String, Bool, true, false, ◌&&◌, ◌||◌, Option, none, some, List, [], ◌∷◌, ◌++◌,
  map, ltb, number_test, if◌then◌else◌,
}
use discord_personality_bot.Base.Dict.{Dict, lookup, insert}
use discord_personality_bot.Base.Sort.{sort}
use discord_personality_bot.Jobs.Scheduler.{first}
use discord_personality_bot.Consolidation.Adaptations.{drop_first}
use discord_personality_bot.Consolidation.Dynamics.{round_parts}
use discord_personality_bot.Memory.Relevance.{
  RelevanceLabel, weak, strong, EpisodicMemory, Candidate, RelevanceJudgement, passed, Reply, judge,
}

-- `ModeRelevanceRules` of the mode of the recall
pub record ModeRules : Type 0 where
  pub accept_weak : Bool
  pub max_recalled : ℕ
  pub min_availability : ℕ

-- `RetrievalPolicy`, with the weights of the selection; `recency` is the power of a half that belongs
-- to an age, in units of 1e-12.
pub record RetrievalPolicy : Type 0 where
  pub rules : ModeRules
  pub rerank_batch : ℕ
  pub accessibility_weight : ℕ
  pub salience_weight : ℕ
  pub importance_weight : ℕ
  pub recency_weight : ℕ
  pub strong_relevance_bonus : ℕ
  pub recency : ℕ → ℕ

pub record RecalledMemory : Type 0 where
  pub memory : EpisodicMemory
  pub relevance : RelevanceLabel
  pub availability : ℕ

pub data Stage : Type 0 where
  at_relevance at_availability : Stage

pub record RejectedCandidate : Type 0 where
  pub memory_id : ℕ
  pub stage : Stage
  pub relevance : Option RelevanceLabel
  pub availability : Option ℕ

abbrev is_strong : RelevanceLabel → Bool
is_strong strong = true
is_strong _ = false

abbrev is_weak : RelevanceLabel → Bool
is_weak weak = true
is_weak _ = false

-- `availability`, in millionths
unfoldable pub availability : RetrievalPolicy → ℕ → Candidate → RelevanceLabel → ℕ
unfolding round_parts
availability policy now c label =
    let score =
      policy.accessibility_weight * c.accessibility
      + policy.salience_weight * c.emotional_intensity
      + policy.importance_weight * c.importance
      + policy.recency_weight * policy.recency (now - c.occurred_at) in
    round_parts
      (min 1000000000000000000
        (if is_strong label then score + policy.strong_relevance_bonus * 1000000000000 else score))
      1000000000000

-- `_passes`
unfoldable pub passes : RelevanceLabel → Bool → Bool
passes label accept_weak = passed label || accept_weak && is_weak label

-- `by_id`: of two judgements of one memory the later stands.
unfoldable pub by_id : List RelevanceJudgement → Dict ℕ RelevanceLabel → Dict ℕ RelevanceLabel
unfolding insert
by_id [] d = d
by_id (j ∷ js) d = by_id js (insert j.memory_id j.relevance d)

-- What the loop of `select` does with a candidate
pub data Verdict : Type 0 where
  rejected : RejectedCandidate → Verdict
  kept : RecalledMemory → Verdict

unfoldable pub verdict : RetrievalPolicy → ℕ → Dict ℕ RelevanceLabel → Candidate → Verdict
unfolding lookup passes availability
verdict policy now judged c = elim (lookup c.memory_id judged) [
  | none ↦ rejected (record {
    memory_id = c.memory_id;
    stage = at_relevance;
    relevance = none;
    availability = none;
  })
  | some label ↦
      let a = availability policy now c label in
      if passes label policy.rules.accept_weak
      then if ltb a policy.rules.min_availability
        then rejected (record {
          memory_id = c.memory_id;
          stage = at_availability;
          relevance = some label;
          availability = some a;
        })
        else kept (record { memory = c; relevance = label; availability = a })
      else rejected (record {
        memory_id = c.memory_id;
        stage = at_relevance;
        relevance = some label;
        availability = none;
      })
]

abbrev pub rejections : List Verdict → List RejectedCandidate
rejections [] = []
rejections (rejected r ∷ vs) = r ∷ rejections vs
rejections (kept m ∷ vs) = rejections vs

abbrev pub survivors : List Verdict → List RecalledMemory
survivors [] = []
survivors (rejected r ∷ vs) = survivors vs
survivors (kept m ∷ vs) = m ∷ survivors vs

abbrev pub by_availability : RecalledMemory → RecalledMemory → Bool
by_availability a b = ltb b.availability a.availability

-- One that passed, and did not come in among the first.
unfoldable pub left_out : RecalledMemory → RejectedCandidate
left_out m = record {
  memory_id = m.memory.memory_id;
  stage = at_availability;
  relevance = some m.relevance;
  availability = some m.availability;
}

-- `select`
unfoldable pub select :
    RetrievalPolicy
    → ℕ
    → List RelevanceJudgement
    → List Candidate
    → List RecalledMemory × List RejectedCandidate
unfolding by_id verdict sort first drop_first left_out
select policy now judgements cs =
    let verdicts = map (verdict policy now (by_id judgements [])) cs in
    let ranked = sort by_availability (survivors verdicts) in
    (
      first policy.rules.max_recalled ranked,
      rejections verdicts ++ map left_out (drop_first policy.rules.max_recalled ranked),
    )

pub record RetrievalReport : Type 0 where
  pub candidates : List Candidate
  pub judgements : List RelevanceJudgement
  pub selected : List RecalledMemory
  pub rejected_candidates : List RejectedCandidate
  pub group_id : ℕ
  pub retrieved_at : ℕ
  pub practised : List ℕ

-- `retrieve` of a retriever with a reranker, which the engine always gives it.
unfoldable pub retrieve :
    RetrievalPolicy → Reply → String → ℕ → ℕ → List Candidate → RetrievalReport
unfolding judge select
retrieve policy reply query now group_id cs =
    let judgements = judge reply policy.rerank_batch query cs in
    let (selected, refused_candidates) = select policy now judgements cs in
    record {
      candidates = cs;
      judgements = judgements;
      selected = selected;
      rejected_candidates = refused_candidates;
      group_id = group_id;
      retrieved_at = now;
      practised = [];
    }
