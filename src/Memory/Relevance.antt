-- ===== src/Memory/Relevance.antt =====
-- app/memory/relevance.py, with the types of app/memory/recall_models.py: which candidates are about
-- the query. The model's reply is an argument.
use discord_personality_bot.Base.{
  ℕ, ◌*◌, String, Bool, true, false, ◌&&◌, Option, none, some, List, [], ◌∷◌, ◌++◌, map, leb,
  number_test, if◌then◌else◌,
}
use discord_personality_bot.Base.Dict.{Dict, lookup, insert}
use discord_personality_bot.Base.Lists.{contains, length}
use discord_personality_bot.Jobs.Scheduler.{first}
use discord_personality_bot.Text.{codes}
use discord_personality_bot.Memory.Tokens.{Token, query_tokens, haystack_tokens, shared}

pub data RelevanceLabel : Type 0 where
  irrelevant weak relevant strong : RelevanceLabel

-- A row of `episodic_memories`, with the columns that recall reads or writes; a number that is not
-- rounded is one of 1e-12.
pub record EpisodicMemory : Type 0 where
  pub memory_id : ℕ
  pub summary : String
  pub topics : List String
  pub importance : ℕ
  pub emotional_intensity : ℕ
  pub accessibility : ℕ
  pub occurred_at : ℕ
  pub recall_count : ℕ
  pub last_recalled_at : Option ℕ
  pub updated_at : ℕ

-- A candidate, less the reasons why it was found
abbrev pub Candidate : Type 0
Candidate = EpisodicMemory

pub data Source : Type 0 where
  llm fallback : Source

pub record RelevanceJudgement : Type 0 where
  pub memory_id : ℕ
  pub relevance : RelevanceLabel
  pub source : Source

-- `passed`
abbrev pub passed : RelevanceLabel → Bool
passed relevant = true
passed strong = true
passed _ = false

-- `" ".join(…)`, in code points
abbrev pub joined : List String → List ℕ
joined [] = []
joined (t ∷ []) = codes t
joined (t ∷ ts) = codes t ++ 32 ∷ joined ts

-- The overlap that the fallback asks for: 0.34 of the tokens of the query
unfoldable pub overlaps : List Token → Candidate → Bool
unfolding haystack_tokens shared
overlaps tokens c =
    leb (length tokens * 34)
      (length (shared tokens (haystack_tokens (codes c.summary ++ 32 ∷ joined c.topics))) * 100)

abbrev pub has_tokens : List Token → Bool
has_tokens [] = false
has_tokens (t ∷ ts) = true

-- `fallback_judgements`
unfoldable pub fallback_judgements : String → List Candidate → List RelevanceJudgement
unfolding query_tokens overlaps
fallback_judgements query cs =
    let tokens = query_tokens query in
    map
      (λ (c : Candidate). record {
        memory_id = c.memory_id;
        relevance = if has_tokens tokens && overlaps tokens c then relevant else irrelevant;
        source = fallback;
      })
      cs

-- What the structured generator came back with: it raised, its value was not accepted, or it is a
-- list of labels.
pub data Reply : Type 0 where
  broken : Reply
  refused : Reply
  answered : List (ℕ × RelevanceLabel) → Reply

-- `judged[item.memory_id] = …`, an invented identifier being dropped
unfoldable pub judged_items :
    List ℕ → List (ℕ × RelevanceLabel) → Dict ℕ RelevanceLabel → Dict ℕ RelevanceLabel
unfolding contains insert
judged_items known [] d = d
judged_items known ((i, label) ∷ items) d =
    judged_items known items (if contains i known then insert i label d else d)

abbrev pub or_irrelevant : Option RelevanceLabel → RelevanceLabel
or_irrelevant none = irrelevant
or_irrelevant (some label) = label

-- `judge`
unfoldable pub judge : Reply → ℕ → String → List Candidate → List RelevanceJudgement
unfolding first fallback_judgements judged_items lookup
judge broken batch_size query cs = fallback_judgements query (first batch_size cs)
judge refused batch_size query cs = fallback_judgements query (first batch_size cs)
judge (answered items) batch_size query cs =
    let batch = first batch_size cs in
    let judged = judged_items (map (λ (c : Candidate). c.memory_id) batch) items [] in
    map
      (λ (c : Candidate). record {
        memory_id = c.memory_id;
        relevance = or_irrelevant (lookup c.memory_id judged);
        source = llm;
      })
      batch
