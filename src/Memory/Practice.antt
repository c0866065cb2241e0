-- ===== src/Memory/Practice.antt =====
-- The fourth stage of recall, of app/memory/engine.py, with the rows of
-- app/storage/repositories/memory.py: only a memory that was recalled on purpose, or that a reply
-- rests on, is practised. What a query's candidates and the model's reply are is an argument.
pub mod Repetition
use Prim.Native.Nat.{min}
use discord_personality_bot.Base.{
  ℕ, ◌+◌, ◌*◌, ◌-◌, suc, String, Bool, true, false, not, ◌&&◌, ◌||◌, Option, none, some, List, [],
  ◌∷◌, ◌++◌, map, ltb, leb, nat_beq, number_test, ◌==◌, if◌then◌else◌,
}
use discord_personality_bot.Base.Dict.{lookup}
use discord_personality_bot.Base.Lists.{contains, keep, length}
use discord_personality_bot.Text.{codes}
use discord_personality_bot.Memory.Tokens.{content_tokens, shared}
use discord_personality_bot.Memory.Relevance.{
  EpisodicMemory, Candidate, RelevanceJudgement, RelevanceLabel, passed, has_tokens, Reply,
}
use discord_personality_bot.Memory.Selection.{
  RetrievalPolicy, RecalledMemory, RetrievalReport, retrieve,
}

pub data RetrievalState : Type 0 where
  candidate relevance_passed selected consciously_recalled used_in_reply : RetrievalState

-- A row of `memory_retrievals`, with the columns that a later recall reads; `was_used` is the column
-- used_in_reply.
pub record RetrievalRow : Type 0 where
  pub group_id : ℕ
  pub memory_id : ℕ
  pub state : RetrievalState
  pub was_used : Bool
  pub practice_applied : Bool
  pub retrieved_at : ℕ

pub record Shelf : Type 0 where
  pub memories : List EpisodicMemory
  pub retrievals : List RetrievalRow

-- `RecallMode`
pub data RecallMode : Type 0 where
  conversational autobiographical_fact associative reflective diary_reading correction_check :
      RecallMode

-- `is_deliberate`
unfoldable pub is_deliberate : RecallMode → Bool
is_deliberate autobiographical_fact = true
is_deliberate reflective = true
is_deliberate diary_reading = true
is_deliberate _ = false

-- `PracticePolicy`; `power` gives `diminishing_factor ** k` in millionths, and the ceiling is in units
-- of 1e-12.
pub record PracticePolicy : Type 0 where
  pub boost : ℕ
  pub power : ℕ → ℕ
  pub window : ℕ
  pub max_accessibility : ℕ

-- `practised_accessibility`
unfoldable pub practised_accessibility : PracticePolicy → ℕ → ℕ → ℕ
practised_accessibility policy accessibility recent =
    min policy.max_accessibility (accessibility + policy.boost * policy.power recent)

-- `practices_since`
unfoldable pub practices_since : ℕ → ℕ → List RetrievalRow → ℕ
unfolding keep
practices_since i moment rows = length (
    keep
      (λ (r : RetrievalRow).
        nat_beq r.memory_id i && (r.practice_applied && leb moment r.retrieved_at))
      rows)

-- `update_accessibility(…, recalled=True)`
unfoldable pub write_recall : ℕ → ℕ → ℕ → List EpisodicMemory → List EpisodicMemory
write_recall i accessibility now [] = []
write_recall i accessibility now (m ∷ ms) =
    let rest = write_recall i accessibility now ms in
    if nat_beq m.memory_id i
    then record m {
      accessibility = accessibility;
      recall_count = suc m.recall_count;
      last_recalled_at = some now;
      updated_at = now;
    }
      ∷ rest
    else m ∷ rest

-- `_practise`
unfoldable pub practise : PracticePolicy → ℕ → EpisodicMemory → Shelf → Shelf
unfolding practised_accessibility practices_since write_recall
practise policy now m s =
    let recent = practices_since m.memory_id (now - policy.window) s.retrievals in
    let a = practised_accessibility policy m.accessibility (recent - 1) in
    record s { memories = write_recall m.memory_id a now s.memories }

-- `promote_retrieval(…, practice_applied=True)`
unfoldable pub promote : ℕ → ℕ → RetrievalState → Bool → List RetrievalRow → List RetrievalRow
promote group i state used rows =
    map
      (λ (r : RetrievalRow).
        if nat_beq r.group_id group && nat_beq r.memory_id i
        then record r { state = state; was_used = r.was_used || used; practice_applied = true }
        else r)
      rows

-- `judgement_for`
unfoldable pub judgement_for : ℕ → List RelevanceJudgement → Option RelevanceLabel
judgement_for i [] = none
judgement_for i (j ∷ js) =
    let rest = judgement_for i js in if nat_beq j.memory_id i then some j.relevance else rest

abbrev has_passed : Option RelevanceLabel → Bool
has_passed none = false
has_passed (some label) = passed label

-- The row of `_record`
unfoldable pub retrieval_row : RetrievalReport → Candidate → RetrievalRow
unfolding contains judgement_for
retrieval_row report c = record {
  group_id = report.group_id;
  memory_id = c.memory_id;
  state =
      if contains c.memory_id (map (λ (m : RecalledMemory). m.memory.memory_id) report.selected)
      then selected
      else if has_passed (judgement_for c.memory_id report.judgements)
      then relevance_passed
      else candidate;
  was_used = false;
  practice_applied = false;
  retrieved_at = report.retrieved_at;
}

-- `_record`
unfoldable pub record_report : RetrievalReport → Shelf → Shelf
unfolding retrieval_row
record_report report s = record s {
  retrievals = s.retrievals ++ map (retrieval_row report) report.candidates;
}

-- The loop of `recall` over what was selected
unfoldable pub recall_all : PracticePolicy → ℕ → ℕ → List RecalledMemory → Shelf → Shelf
unfolding promote practise
recall_all policy group now [] s = s
recall_all policy group now (m ∷ ms) s = recall_all policy group now ms (
    practise policy now m.memory (record s {
      retrievals = promote group m.memory.memory_id consciously_recalled false s.retrievals;
    }))

-- `recall`
unfoldable pub recall :
    RetrievalPolicy
    → PracticePolicy
    → RecallMode
    → Reply
    → String
    → ℕ
    → ℕ
    → List Candidate
    → Shelf
    → RetrievalReport × Shelf
unfolding retrieve is_deliberate record_report recall_all
recall policy practice mode reply query now group cs s =
    let report = retrieve policy reply query now group cs in
    let s' = record_report report s in
    if is_deliberate mode
    then (
      record report {
        practised = map (λ (m : RecalledMemory). m.memory.memory_id) report.selected;
      },
      recall_all practice group now report.selected s',
    )
    else (report, s')

-- `not reply_text.strip()`: every character is a space.
abbrev is_space : ℕ → Bool
is_space c =
    contains c (
      9 ∷ 10 ∷ 11 ∷ 12 ∷ 13 ∷ 28 ∷ 29 ∷ 30 ∷ 31 ∷ 32 ∷ 133 ∷ 160 ∷ 5760 ∷ 8232 ∷ 8233 ∷ 8239 ∷ 8287
      ∷ 12288 ∷ [])
    || leb 8192 c && leb c 8202

abbrev has_members : List ℕ → Bool
has_members [] = false
has_members (c ∷ cs) = true

unfoldable pub is_blank : String → Bool
unfolding contains keep
is_blank text = not (has_members (keep (λ c. not (is_space c)) (codes text)))

-- The reply and the memory have a token in common.
unfoldable pub rests_on : String → EpisodicMemory → Bool
unfolding content_tokens shared
rests_on text m = has_tokens (shared (content_tokens text) (content_tokens m.summary))

-- The loop of `mark_used_in_reply`
unfoldable pub use_all :
    PracticePolicy → ℕ → ℕ → List ℕ → String → List RecalledMemory → Shelf → List ℕ × Shelf
unfolding rests_on promote contains practise
use_all policy group now already text [] s = ([], s)
use_all policy group now already text (m ∷ ms) s =
    let i = m.memory.memory_id in
    let promoted : Shelf = record s {
      retrievals = promote group i used_in_reply true s.retrievals;
    } in
    let is_used = rests_on text m.memory in
    let s' =
      if is_used
      then if contains i already then promoted else practise policy now m.memory promoted
      else s in
    let (used, after) = use_all policy group now already text ms s' in
    (if is_used then i ∷ used else used, after)

-- `mark_used_in_reply`
unfoldable pub mark_used_in_reply :
    PracticePolicy → RetrievalReport → String → ℕ → Shelf → List ℕ × Shelf
unfolding is_blank use_all
mark_used_in_reply policy report text now s =
    if is_blank text
    then ([], s)
    else use_all policy report.group_id now report.practised text report.selected s
