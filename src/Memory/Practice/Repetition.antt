-- ===== src/Memory/Practice/Repetition.antt =====
-- How often one recall practises a memory.
use mathlib.Core.List.{Memᴰ}
use discord_personality_bot.Base.{
  ℕ, ◌+◌, ◌≤◌, ◌≡◌, refl, ap, inl, inr, arith, String, true, false, Bool-cases, List, [], ◌∷◌, map,
  nat_beq, nat_beq_iff, number_test, if◌then◌else◌,
}
use discord_personality_bot.Base.Lists.{All, All-mono, members, contains}
use discord_personality_bot.Memory.Relevance.{EpisodicMemory, Candidate, Reply}
use discord_personality_bot.Memory.Selection.{RetrievalPolicy, RecalledMemory, retrieve}
use discord_personality_bot.Memory.Conservation.{recalled_as, one_if}
use discord_personality_bot.Memory.Practice.{
  Shelf, RecallMode, PracticePolicy, write_recall, practise, recall_all, recall, use_all, rests_on,
  mark_used_in_reply, is_deliberate, is_blank, record_report, promote, consciously_recalled,
  used_in_reply,
}

-- The number of recalls that the shelf counts for a memory: none, where it has no such row.
unfoldable pub recalls_in : ℕ → List EpisodicMemory → ℕ
recalls_in i [] = 0
recalls_in i (m ∷ ms) =
    let rest = recalls_in i ms in if nat_beq m.memory_id i then m.recall_count else rest

abbrev pub recalls : ℕ → Shelf → ℕ
recalls i s = recalls_in i s.memories

recalls-write_recall :
    (i j a now : ℕ) (ms : List EpisodicMemory)
    → recalls_in i (write_recall j a now ms) ≤ recalls_in i ms + one_if (nat_beq j i)
unfolding recalls_in write_recall
recalls-write_recall i j a now [] = omega arith
recalls-write_recall i j a now (m ∷ ms) = ground (arith, recalls-write_recall i j a now ms)

recalls-practise :
    (policy : PracticePolicy) (now i : ℕ) (m : EpisodicMemory) (s : Shelf)
    → recalls i (practise policy now m s) ≤ recalls i s + one_if (nat_beq m.memory_id i)
unfolding practise
recalls-practise policy now i m s = recalls-write_recall i m.memory_id _ now s.memories

recalls-recall_all :
    (policy : PracticePolicy) (group now i : ℕ) (ms : List RecalledMemory) (s : Shelf)
    → recalls i (recall_all policy group now ms s) ≤ recalls i s + recalled_as i ms
unfolding recall_all
recalls-recall_all policy group now i [] s = omega arith
recalls-recall_all policy group now i (m ∷ ms) s =
    let j = m.memory.memory_id in
    let promoted : Shelf = record s {
      retrievals = promote group j consciously_recalled false s.retrievals;
    } in
    omega (
      arith,
      recalls-practise policy now i m.memory promoted,
      recalls-recall_all policy group now i ms (practise policy now m.memory promoted),
    )

recalls-use_all :
    (policy : PracticePolicy) (group now i : ℕ) (already : List ℕ) (text : String)
    (ms : List RecalledMemory) (s : Shelf)
    → recalls i (use_all policy group now already text ms s).1 ≤ recalls i s + recalled_as i ms
unfolding use_all
recalls-use_all policy group now i already text [] s = omega arith
recalls-use_all policy group now i already text (m ∷ ms) s =
    let j = m.memory.memory_id in
    let promoted : Shelf = record s {
      retrievals = promote group j used_in_reply true s.retrievals;
    } in
    let done = practise policy now m.memory promoted in
    let rest = λ (t : Shelf). recalls-use_all policy group now i already text ms t in
    elim (Bool-cases (rests_on text m.memory)) [
      | inr q ↦ rw (use_all, q) (omega (arith, rest s))
      | inl q ↦ elim (Bool-cases (contains j already)) [
        | inl e ↦ rw (use_all, q, e) (omega (arith, rest promoted))
        | inr e ↦
            rw (use_all, q, e)
              (omega (arith, rest done, recalls-practise policy now i m.memory promoted))
      ]
    ]

recalls-use_none :
    (policy : PracticePolicy) (group now i : ℕ) (already : List ℕ) (text : String)
    (ms : List RecalledMemory) (s : Shelf)
    → All (λ (m : RecalledMemory). contains m.memory.memory_id already ≡ true) ms
    → recalls i (use_all policy group now already text ms s).1 ≡ recalls i s
unfolding use_all
recalls-use_none policy group now i already text [] s h = refl
recalls-use_none policy group now i already text (m ∷ ms) s h =
    let j = m.memory.memory_id in
    let promoted : Shelf = record s {
      retrievals = promote group j used_in_reply true s.retrievals;
    } in
    elim (Bool-cases (rests_on text m.memory)) [
      | inr q ↦ rw (use_all, q) (recalls-use_none policy group now i already text ms s h.1)
      | inl q ↦
          rw (use_all, q, h.0) (recalls-use_none policy group now i already text ms promoted h.1)
    ]

abbrev ids : List RecalledMemory → List ℕ
ids ms = map (λ (m : RecalledMemory). m.memory.memory_id) ms

contains-ids :
    (m : RecalledMemory) (ms : List RecalledMemory)
    → Memᴰ m ms
    → contains m.memory.memory_id (ids ms) ≡ true
unfolding contains
contains-ids m [] h = elim h [ ]
contains-ids m (x ∷ ms) (Memᴰ.head e) =
    let q : nat_beq m.memory.memory_id x.memory.memory_id ≡ true =
      (nat_beq_iff m.memory.memory_id x.memory.memory_id).1
        (ap (λ (r : RecalledMemory). r.memory.memory_id) e) in
    rw q refl
contains-ids m (x ∷ ms) (Memᴰ.tail h) = ground (arith, contains-ids m ms h)

-- The shelf once a reply is delivered.
unfoldable pub delivered :
    RetrievalPolicy
    → PracticePolicy
    → RecallMode
    → Reply
    → String
    → ℕ
    → ℕ
    → String
    → ℕ
    → List Candidate
    → Shelf
    → Shelf
unfolding recall mark_used_in_reply
delivered policy practice mode reply query now group text later cs s =
    let (report, s') = recall policy practice mode reply query now group cs s in
    (mark_used_in_reply practice report text later s').1

-- A recall in any mode, and then the delivery of any reply, add to the recalls that the store
-- counts for a memory at most the number of times that it was selected, which is none for a memory
-- that was only a candidate: one that was recalled on purpose is not practised again for the
-- reply.
pub delivered_practises_once :
    (policy : RetrievalPolicy) (practice : PracticePolicy) (mode : RecallMode) (reply : Reply)
    (query : String) (now group : ℕ) (text : String) (later i : ℕ) (cs : List Candidate) (s : Shelf)
    → recalls i (delivered policy practice mode reply query now group text later cs s)
      ≤ recalls i s + recalled_as i (retrieve policy reply query now group cs).selected
unfolding delivered
delivered_practises_once policy practice mode reply query now group text later i cs s =
    let report = retrieve policy reply query now group cs in
    let ms = report.selected in
    let s' = record_report report s in
    let known =
      All-mono (λ m. Memᴰ m ms)
        (λ (m : RecalledMemory). contains m.memory.memory_id (ids ms) ≡ true) ms
        (λ m h. contains-ids m ms h) (members ms) in
    let recalled = recall_all practice group now ms s' in
    elim (Bool-cases (is_deliberate mode)) [
      | inl d ↦ elim (Bool-cases (is_blank text)) [
        | inl b ↦
            rw (delivered, recall, mark_used_in_reply, d, b)
              (recalls-recall_all practice group now i ms s')
        | inr b ↦
            rw (delivered, recall, mark_used_in_reply, d, b)
              (omega (
                arith,
                recalls-use_none practice group later i (ids ms) text ms recalled known,
                recalls-recall_all practice group now i ms s',
              ))
      ]
      | inr d ↦ elim (Bool-cases (is_blank text)) [
        | inl b ↦ rw (delivered, recall, mark_used_in_reply, d, b) (omega arith)
        | inr b ↦
            rw (delivered, recall, mark_used_in_reply, d, b)
              (recalls-use_all practice group later i [] text ms s')
      ]
    ]
