-- ===== src/Memory/Conservation.antt =====
-- Where every candidate ends.
use discord_personality_bot.Base.{
  ℕ, suc, zero, ◌+◌, ◌≤◌, ◌<◌, ◌≡◌, ◌⊎◌, refl, inl, inr, arith, String, Bool, true, false,
  Bool-cases, Option-cases, none, some, List, [], ◌∷◌, ◌++◌, map, ltb, number_test, nat_beq,
}
use discord_personality_bot.Base.Dict.{Dict, lookup}
use discord_personality_bot.Base.Lists.{
  All, All-mono, All-map, All-append, All-both, length, sum_over,
}
use discord_personality_bot.Base.Sort.{sort, sum_over-sort, Ascends, sort-Ascends}
use discord_personality_bot.Jobs.Scheduler.{first}
use discord_personality_bot.Consolidation.Adaptations.{drop_first}
use discord_personality_bot.Memory.Relevance.{RelevanceLabel, Candidate, Reply, judge}
use discord_personality_bot.Memory.Selection.{
  RetrievalPolicy, RecalledMemory, RejectedCandidate, Verdict, rejected, kept, verdict, survivors,
  rejections, by_availability, by_id, passes, availability, left_out, select, retrieve,
}

abbrev pub one_if : Bool → ℕ
one_if true = 1
one_if false = 0

-- How often the identifier stands among the candidates, the recalled and the rejected.
abbrev pub found_as : ℕ → List Candidate → ℕ
found_as i cs = sum_over (λ (c : Candidate). one_if (nat_beq c.memory_id i)) cs

abbrev pub recalled_as : ℕ → List RecalledMemory → ℕ
recalled_as i ms = sum_over (λ (m : RecalledMemory). one_if (nat_beq m.memory.memory_id i)) ms

abbrev pub rejected_as : ℕ → List RejectedCandidate → ℕ
rejected_as i rs = sum_over (λ (r : RejectedCandidate). one_if (nat_beq r.memory_id i)) rs

-- A rejected candidate whose availability was found is out of reach, or comes to mind no more easily
-- than any that was selected.
abbrev pub IsPassedOver : ℕ → List RecalledMemory → RejectedCandidate → Type 0
IsPassedOver bar selected r = elim r.availability [
  | none ↦ Unit
  | some a ↦ (a < bar) ⊎ All (λ (m : RecalledMemory). a ≤ m.availability) selected
]

-- A verdict is about its candidate.
abbrev verdict_as : ℕ → Verdict → ℕ
verdict_as i (rejected r) = one_if (nat_beq r.memory_id i)
verdict_as i (kept m) = one_if (nat_beq m.memory.memory_id i)

verdict_about :
    (policy : RetrievalPolicy) (now : ℕ) (judged : Dict ℕ RelevanceLabel) (i : ℕ) (c : Candidate)
    → verdict_as i (verdict policy now judged c) ≡ one_if (nat_beq c.memory_id i)
unfolding verdict
verdict_about policy now judged i c = elim (Option-cases (lookup c.memory_id judged)) [
  | inl q ↦ rw (verdict, q) refl
  | inr (label, q) ↦ elim (Bool-cases (passes label policy.rules.accept_weak)) [
    | inr no_pass ↦ rw (verdict, q, no_pass) refl
    | inl pass ↦
        elim (Bool-cases (ltb (availability policy now c label) policy.rules.min_availability)) [
          | inl low ↦ rw (verdict, q, pass, low) refl
          | inr high ↦ rw (verdict, q, pass, high) refl
        ]
  ]
]

split_as :
    (i : ℕ) (vs : List Verdict)
    → sum_over (verdict_as i) vs ≡ recalled_as i (survivors vs) + rejected_as i (rejections vs)
split_as i [] = omega arith
split_as i (rejected r ∷ vs) = omega (arith, split_as i vs)
split_as i (kept m ∷ vs) = omega (arith, split_as i vs)

found_as_verdicts :
    (f : Candidate → Verdict) (i : ℕ) (cs : List Candidate)
    → ((c : Candidate) → verdict_as i (f c) ≡ one_if (nat_beq c.memory_id i))
    → sum_over (verdict_as i) (map f cs) ≡ found_as i cs
found_as_verdicts f i [] about = refl
found_as_verdicts f i (c ∷ cs) about = omega (arith, about c, found_as_verdicts f i cs about)

recalled_as_split :
    (i n : ℕ) (ms : List RecalledMemory)
    → recalled_as i ms ≡ recalled_as i (first n ms) + rejected_as i (map left_out (drop_first n ms))
unfolding first drop_first left_out
recalled_as_split i zero [] = omega arith
recalled_as_split i zero (m ∷ ms) = omega (arith, recalled_as_split i zero ms)
recalled_as_split i (suc n) [] = omega arith
recalled_as_split i (suc n) (m ∷ ms) = omega (arith, recalled_as_split i n ms)

rejected_as-append :
    (i : ℕ) (rs ss : List RejectedCandidate)
    → rejected_as i (rs ++ ss) ≡ rejected_as i rs + rejected_as i ss
rejected_as-append i [] ss = omega arith
rejected_as-append i (r ∷ rs) ss = omega (arith, rejected_as-append i rs ss)

first_short : (n : ℕ) (ms : List RecalledMemory) → length (first n ms) ≤ n
unfolding first
first_short zero ms = omega arith
first_short (suc n) [] = omega arith
first_short (suc n) (m ∷ ms) = omega (arith, first_short n ms)

drop_first-All :
    (P : RecalledMemory → Type 0) (n : ℕ) (ms : List RecalledMemory)
    → All P ms
    → All P (drop_first n ms)
unfolding drop_first
drop_first-All P zero ms h = h
drop_first-All P (suc n) [] h = tt
drop_first-All P (suc n) (m ∷ ms) h = drop_first-All P n ms h.1

All-always :
    (P : RecalledMemory → Type 0) (ms : List RecalledMemory)
    → ((m : RecalledMemory) → P m)
    → All P ms
All-always P [] h = tt
All-always P (m ∷ ms) h = (h m, All-always P ms h)

abbrev Refuses : (RejectedCandidate → Type 0) → Verdict → Type 0
Refuses P (rejected r) = P r
Refuses P (kept m) = Unit

refuse :
    (P : RejectedCandidate → Type 0) (v : Verdict) (vs : List Verdict)
    → Refuses P v
    → All P (rejections vs)
    → All P (rejections (v ∷ vs))
refuse P (rejected r) vs p h = (p, h)
refuse P (kept m) vs p h = h

-- Those past the first ones come to mind no more easily than these.
later_lower :
    (n : ℕ) (ms : List RecalledMemory)
    → Ascends by_availability ms
    → All
        (λ (o : RecalledMemory).
          All (λ (m : RecalledMemory). o.availability ≤ m.availability) (first n ms))
        (drop_first n ms)
unfolding first drop_first
later_lower zero ms a = All-always (λ (o : RecalledMemory). Unit) ms (λ o. tt)
later_lower (suc n) [] a = tt
later_lower (suc n) (m ∷ ms) a =
    let Low = λ (o : RecalledMemory). o.availability ≤ m.availability in
    let low =
      drop_first-All Low n ms
        (All-mono (λ o. by_availability o m ≡ false) Low ms (λ o e. ground (arith, e)) a.0) in
    All-both Low
      (λ (o : RecalledMemory).
        All (λ (x : RecalledMemory). o.availability ≤ x.availability) (first n ms))
      (drop_first n ms) low (later_lower n ms a.1)

rejections-All :
    (P : RejectedCandidate → Type 0) (f : Candidate → Verdict) (cs : List Candidate)
    → ((c : Candidate) → Refuses P (f c))
    → All P (rejections (map f cs))
rejections-All P f [] h = tt
rejections-All P f (c ∷ cs) h = refuse P (f c) (map f cs) (h c) (rejections-All P f cs h)

verdict-Refuses :
    (policy : RetrievalPolicy) (now : ℕ) (judged : Dict ℕ RelevanceLabel)
    (selected : List RecalledMemory) (c : Candidate)
    → Refuses (IsPassedOver policy.rules.min_availability selected) (verdict policy now judged c)
unfolding verdict
verdict-Refuses policy now judged selected c = elim (Option-cases (lookup c.memory_id judged)) [
  | inl q ↦ rw (verdict, q) tt
  | inr (label, q) ↦ elim (Bool-cases (passes label policy.rules.accept_weak)) [
    | inr no_pass ↦ rw (verdict, q, no_pass) tt
    | inl pass ↦
        let a = availability policy now c label in
        elim (Bool-cases (ltb a policy.rules.min_availability)) [
          | inl low ↦
              let below : a < policy.rules.min_availability = ground (arith, low) in
              rw (verdict, q, pass, low) (inl below)
          | inr high ↦ rw (verdict, q, pass, high) tt
        ]
  ]
]

-- An identifier stands as often among the selected and the rejected of a recall as among its
-- candidates; at most the maximum of the mode is selected; and a rejected candidate whose
-- availability was computed is below the minimum, or no more available than any that was selected.
pub retrieve_conserves :
    (policy : RetrievalPolicy) (reply : Reply) (query : String) (now group_id i : ℕ)
    (cs : List Candidate)
    → let report = retrieve policy reply query now group_id cs in
      (found_as i cs ≡ recalled_as i report.selected + rejected_as i report.rejected_candidates)
      × (length report.selected ≤ policy.rules.max_recalled)
      × All (IsPassedOver policy.rules.min_availability report.selected) report.rejected_candidates
unfolding retrieve select left_out
retrieve_conserves policy reply query now group_id i cs =
    let judged = by_id (judge reply policy.rerank_batch query cs) [] in
    let f = verdict policy now judged in
    let bar = policy.rules.min_availability in
    let n = policy.rules.max_recalled in
    let ms = survivors (map f cs) in
    let ranked = sort by_availability ms in
    let selected = first n ranked in
    let ordered =
      sort-Ascends by_availability (λ x y h. ground (arith, h)) (λ x y z h k. ground (arith, h, k))
        ms in
    (
      omega (
        arith,
        found_as_verdicts f i cs (verdict_about policy now judged i),
        split_as i (map f cs),
        recalled_as_split i n ranked,
        sum_over-sort by_availability
            (λ (m : RecalledMemory). one_if (nat_beq m.memory.memory_id i)) ms,
        rejected_as-append i (rejections (map f cs)) (map left_out (drop_first n ranked)),
      ),
      first_short n ranked,
      All-append (IsPassedOver bar selected) (rejections (map f cs))
          (map left_out (drop_first n ranked))
          (rejections-All (IsPassedOver bar selected) f cs
            (verdict-Refuses policy now judged selected))
          (All-map (IsPassedOver bar selected) left_out (drop_first n ranked) (
            All-mono
              (λ (o : RecalledMemory).
                All (λ (m : RecalledMemory). o.availability ≤ m.availability) selected)
              (λ o. IsPassedOver bar selected (left_out o)) (drop_first n ranked) (λ o h. inr h)
              (later_lower n ranked ordered))),
    )
