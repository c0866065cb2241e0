-- ===== src/Memory/Gate.antt =====
-- What a selected memory has behind it.
use mathlib.Core.Path.{subst}
use mathlib.Core.List.{Memᴰ}
use discord_personality_bot.Base.{
  ℕ, ◌≤◌, ◌≡◌, ◌⊎◌, refl, inl, inr, arith, String, Bool, true, false, ◌&&◌, Bool-cases,
  Option-cases, some, List, [], ◌∷◌, map, ltb, number_test, if◌then◌else◌, nat_beq, nat_beq_iff,
}
use discord_personality_bot.Base.Dict.{Dict, lookup, insert, lookup-insert}
use discord_personality_bot.Base.Lists.{All, All-mono, All-map, members, contains}
use discord_personality_bot.Base.Sort.{sort, sort-All}
use discord_personality_bot.Jobs.Scheduler.{first, first-All}
use discord_personality_bot.Memory.Tokens.{query_tokens}
use discord_personality_bot.Memory.Relevance.{
  RelevanceLabel, irrelevant, relevant, Candidate, RelevanceJudgement, Reply, broken, refused,
  answered, has_tokens, overlaps, fallback_judgements, judged_items, judge,
}
use discord_personality_bot.Memory.Selection.{
  RetrievalPolicy, RecalledMemory, Verdict, rejected, kept, verdict, survivors, by_availability,
  by_id, passes, availability, select, retrieve,
}

-- Every entry of the dictionary satisfies a relation.
abbrev Every : (ℕ → RelevanceLabel → Type 0) → Dict ℕ RelevanceLabel → Type 0
Every P d = (i : ℕ) (l : RelevanceLabel) → lookup i d ≡ some l → P i l

module _ (P : ℕ → RelevanceLabel → Type 0) where
  insert-Every :
      (k : ℕ) (v : RelevanceLabel) (d : Dict ℕ RelevanceLabel)
      → P k v
      → Every P d
      → Every P (insert k v d)
  insert-Every k v d p h i l e = elim (Bool-cases (nat_beq k i)) [
    | inl q ↦
        let e' : some v ≡ some l = rw (lookup-insert k i v d, q) at e in
        let same : v ≡ l = cc e' in
        let here : k ≡ i = (nat_beq_iff k i).0 q in subst (λ j. P j l) here (subst (P k) same p)
    | inr q ↦ let e' : lookup i d ≡ some l = rw (lookup-insert k i v d, q) at e in h i l e'
  ]

  by_id-Every :
      (js : List RelevanceJudgement) (d : Dict ℕ RelevanceLabel)
      → All (λ (j : RelevanceJudgement). P j.memory_id j.relevance) js
      → Every P d
      → Every P (by_id js d)
  unfolding by_id
  by_id-Every [] d p h = h
  by_id-Every (j ∷ js) d p h =
      by_id-Every js (insert j.memory_id j.relevance d) p.1
        (insert-Every j.memory_id j.relevance d p.0 h)

  judged_items-Every :
      (known : List ℕ) (items : List (ℕ × RelevanceLabel)) (d : Dict ℕ RelevanceLabel)
      → All (λ (e : ℕ × RelevanceLabel). P e.0 e.1) items
      → Every P d
      → Every P (judged_items known items d)
  unfolding judged_items
  judged_items-Every known [] d p h = h
  judged_items-Every known ((i, label) ∷ items) d p h =
      judged_items-Every known items (if contains i known then insert i label d else d) p.1
        (elim (contains i known) as (λ b. Every P (if b then insert i label d else d)) [
          | true ↦ insert-Every i label d p.0 h
          | false ↦ h
        ])

-- The model gave the label to the identifier; or, without a model, a candidate has the words.
abbrev pub Evidence : Reply → String → List Candidate → ℕ → RelevanceLabel → Type 0
Evidence (answered items) query batch i label =
    Memᴰ (i, label) items × (c : Candidate) × Memᴰ c batch × (c.memory_id ≡ i)
Evidence _ query batch i label =
    (label ≡ relevant)
    × (c : Candidate) × Memᴰ c batch
    × (c.memory_id ≡ i)
    × (has_tokens (query_tokens query) ≡ true)
    × (overlaps (query_tokens query) c ≡ true)

abbrev Vouched : Reply → String → List Candidate → ℕ → RelevanceLabel → Type 0
Vouched reply query batch i label = (label ≡ irrelevant) ⊎ Evidence reply query batch i label

both : (a b : Bool) → a && b ≡ true → (a ≡ true) × (b ≡ true)
both true true h = (refl, refl)
both true false h = cc h
both false b h = cc h

fallback-All :
    (query : String) (cs : List Candidate)
    → All
        (λ (j : RelevanceJudgement). Vouched refused query cs j.memory_id j.relevance)
        (fallback_judgements query cs)
unfolding fallback_judgements
fallback-All query cs =
    let tokens = query_tokens query in
    All-map (λ (j : RelevanceJudgement). Vouched refused query cs j.memory_id j.relevance) _ cs
      (All-mono (λ c. Memᴰ c cs) _ cs
        (λ c m. elim (Bool-cases (has_tokens tokens && overlaps tokens c)) [
          | inl q ↦ rw q (inr (refl, c, m, refl, (both _ _ q).0, (both _ _ q).1))
          | inr q ↦ rw q (inl refl)
        ])
        (members cs))

judge-All :
    (reply : Reply) (n : ℕ) (query : String) (cs : List Candidate)
    → All
        (λ (j : RelevanceJudgement). Vouched reply query (first n cs) j.memory_id j.relevance)
        (judge reply n query cs)
unfolding judge
judge-All broken n query cs = fallback-All query (first n cs)
judge-All refused n query cs = fallback-All query (first n cs)
judge-All (answered items) n query cs =
    let batch = first n cs in
    let judged = judged_items (map (λ (c : Candidate). c.memory_id) batch) items [] in
    let given =
      judged_items-Every (λ i l. Memᴰ (i, l) items) (map (λ (c : Candidate). c.memory_id) batch)
        items [] (members items) (λ i l e. cc e) in
    All-map
      (λ (j : RelevanceJudgement). Vouched (answered items) query batch j.memory_id j.relevance) _
      batch
      (All-mono (λ c. Memᴰ c batch) _ batch
        (λ c m. elim (Option-cases (lookup c.memory_id judged)) [
          | inl q ↦ inl (rw q refl)
          | inr (label, q) ↦ rw q (inr (given c.memory_id label q, c, m, refl))
        ])
        (members batch))

-- What a recalled memory has behind it: it is a candidate, its label passes, someone vouched for the
-- label, and it is within reach.
abbrev pub IsEarned : RetrievalPolicy → Reply → String → List Candidate → RecalledMemory → Type 0
IsEarned policy reply query cs m =
    Memᴰ m.memory cs
    × (passes m.relevance policy.rules.accept_weak ≡ true)
    × Evidence reply query (first policy.rerank_batch cs) m.memory.memory_id m.relevance
    × (policy.rules.min_availability ≤ m.availability)

vouch :
    (reply : Reply) (query : String) (batch : List Candidate) (i : ℕ) (label : RelevanceLabel)
    (accept_weak : Bool)
    → passes label accept_weak ≡ true
    → Vouched reply query batch i label
    → Evidence reply query batch i label
unfolding passes
vouch reply query batch i label w p (inl e) =
    let p' : passes irrelevant w ≡ true = rw e at p in absurd (cc ((both w false p').1))
vouch reply query batch i label w p (inr e) = e

abbrev Survives : (RecalledMemory → Type 0) → Verdict → Type 0
Survives P (rejected r) = Unit
Survives P (kept m) = P m

survivors-All :
    (P : RecalledMemory → Type 0) (vs : List Verdict) → All (Survives P) vs → All P (survivors vs)
survivors-All P [] h = tt
survivors-All P (rejected r ∷ vs) h = survivors-All P vs h.1
survivors-All P (kept m ∷ vs) h = (h.0, survivors-All P vs h.1)

verdict-Survives :
    (policy : RetrievalPolicy) (reply : Reply) (query : String) (now : ℕ) (cs : List Candidate)
    (judged : Dict ℕ RelevanceLabel)
    → Every (Vouched reply query (first policy.rerank_batch cs)) judged
    → (c : Candidate) → Memᴰ c cs
    → Survives (IsEarned policy reply query cs) (verdict policy now judged c)
unfolding verdict
verdict-Survives policy reply query now cs judged vouched c m =
    elim (Option-cases (lookup c.memory_id judged)) [
      | inl q ↦ rw (verdict, q) tt
      | inr (label, q) ↦
          let a = availability policy now c label in
          let w = policy.rules.accept_weak in
          elim (Bool-cases (passes label w)) [
            | inr no_pass ↦ rw (verdict, q, no_pass) tt
            | inl pass ↦ elim (Bool-cases (ltb a policy.rules.min_availability)) [
              | inl low ↦ rw (verdict, q, pass, low) tt
              | inr high ↦
                  let evidence =
                    vouch reply query (first policy.rerank_batch cs) c.memory_id label w pass
                      (vouched c.memory_id label q) in
                  let reach : policy.rules.min_availability ≤ a = ground (arith, high) in
                  rw (verdict, q, pass, high) (m, pass, evidence, reach)
            ]
          ]
    ]

-- Whatever the model replies, and also where it fails, every memory that a recall selects is one
-- of the candidates, has a label that passes the gate of its mode and an availability of at least
-- the minimum, and its label has evidence: the model gave this label to the identifier of a
-- candidate of the batch, or, without an accepted reply, a candidate of the batch with this
-- identifier has enough words of the query, which has words, and the label is relevant.
pub retrieve-IsEarned :
    (policy : RetrievalPolicy) (reply : Reply) (query : String) (now group_id : ℕ)
    (cs : List Candidate)
    → All (IsEarned policy reply query cs) (retrieve policy reply query now group_id cs).selected
unfolding retrieve select
retrieve-IsEarned policy reply query now group_id cs =
    let P = IsEarned policy reply query cs in
    let batch = first policy.rerank_batch cs in
    let js = judge reply policy.rerank_batch query cs in
    let judged = by_id js [] in
    let vouched =
      by_id-Every (Vouched reply query batch) js [] (judge-All reply policy.rerank_batch query cs)
        (λ i l e. absurd (cc e)) in
    let verdicts = map (verdict policy now judged) cs in
    let survived = survivors-All P verdicts (
      All-map (Survives P) (verdict policy now judged) cs (
        All-mono (λ c. Memᴰ c cs) (λ c. Survives P (verdict policy now judged c)) cs
          (verdict-Survives policy reply query now cs judged vouched) (members cs))) in
    first-All P policy.rules.max_recalled (sort by_availability (survivors verdicts))
      (sort-All by_availability P (survivors verdicts) survived)
