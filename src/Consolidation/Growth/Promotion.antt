-- ===== src/Consolidation/Growth/Promotion.antt =====
-- What is promoted after a commit, and what becomes of the baselines.
use mathlib.Core.List.{Memᴰ}
use discord_personality_bot.Base.{
  ℕ, ◌≡◌, inl, inr, arith, Bool, true, ◌&&◌, Bool-cases, Option, some, Option-cases, List, [], ◌∷◌,
  text_test, key_test,
}
use discord_personality_bot.Base.Dict.{lookup}
use discord_personality_bot.Base.Lists.{All, All-both, All-keep, keep, keep-All, members}
use discord_personality_bot.Base.Sort.{sort, sort-All}
use discord_personality_bot.Jobs.Scheduler.{first-All}
use discord_personality_bot.Consolidation.Candidates.{
  Candidate, target, is_accumulating, all_accumulating, seen_before,
}
use discord_personality_bot.Consolidation.Gate.{
  GateRules, Condition, repeated_pattern, temporal_persistence, cross_context, meaningful_outcome,
  mood_independence, evaluate, holds_for,
}
use discord_personality_bot.Consolidation.Growth.{
  GrowthPolicy, Ledger, View, DeepUpdate, is_owned, promote, promotable, apply_each,
  apply_committed,
}

-- A candidate passes the gate only if each of the five conditions holds of it.
pub gate_lem :
    (rules : GateRules) (c : Candidate)
    → (evaluate rules c).passed ≡ true
    → (name : Condition) → holds_for rules c name ≡ true
unfolding evaluate keep
gate_lem rules c h repeated_pattern = ground (arith, h)
gate_lem rules c h temporal_persistence = ground (arith, h)
gate_lem rules c h cross_context = ground (arith, h)
gate_lem rules c h meaningful_outcome = ground (arith, h)
gate_lem rules c h mood_independence = ground (arith, h)

-- What a promotion rests on: a candidate of the ledger that was open, of a domain of the engine,
-- whose value was committed, and of which all five conditions hold.
pub record IsDeserved (policy : GrowthPolicy) (committed : View) (rows : List Candidate)
    (u : DeepUpdate) : Type 0 where
  pub stored : Memᴰ u.candidate rows
  pub open_still : is_accumulating u.candidate.status ≡ true
  pub owned : is_owned u.candidate.target_domain ≡ true
  pub accepted : lookup (target u.candidate) committed ≡ some u.new_value
  pub gated : (name : Condition) → holds_for policy.gate u.candidate name ≡ true

abbrev pub IsOpen : List Candidate → Candidate → Type 0
IsOpen rows c = (is_accumulating c.status ≡ true) × Memᴰ c rows

pub all_accumulating-IsOpen : (rows : List Candidate) → All (IsOpen rows) (all_accumulating rows)
unfolding all_accumulating
all_accumulating-IsOpen rows =
    let test : Candidate → Bool = λ c. is_accumulating c.status in
    first-All (IsOpen rows) 100 (sort seen_before (keep test rows)) (
      sort-All seen_before (IsOpen rows) (keep test rows) (
        All-both (λ c. test c ≡ true) (λ c. Memᴰ c rows) (keep test rows) (keep-All test rows)
          (All-keep (λ c. Memᴰ c rows) test rows (members rows))))

module _ (policy : GrowthPolicy) (committed : View) (run_id : Option ℕ) (now : ℕ) where
  promotable_lem :
      (c : Candidate) (x : ℕ)
      → promotable policy committed c ≡ some x
      → (is_owned c.target_domain ≡ true)
        × ((evaluate policy.gate c).passed ≡ true)
        × (lookup (target c) committed ≡ some x)
  unfolding promotable
  promotable_lem c x h =
      elim (Bool-cases (is_owned c.target_domain && (evaluate policy.gate c).passed)) [
        | inl q ↦ let h' = rw (promotable, q) at h in (ground (arith, q), ground (arith, q), h')
        | inr q ↦ let h' = rw (promotable, q) at h in cc h'
      ]

  apply_each-IsDeserved :
      (rows cs : List Candidate) (ledger : Ledger)
      → All (IsOpen rows) cs
      → All (IsDeserved policy committed rows) (apply_each policy committed run_id now cs ledger).0
  unfolding apply_each
  apply_each-IsDeserved rows [] ledger h = tt
  apply_each-IsDeserved rows (c ∷ cs) ledger h =
      elim (Option-cases (promotable policy committed c)) [
        | inl p ↦ rw (apply_each, p) (apply_each-IsDeserved rows cs ledger h.1)
        | inr (x, p) ↦
            let (owned, passed, accepted) = promotable_lem c x p in
            rw (apply_each, p)
              (
                record {
                  stored = h.0.1;
                  open_still = h.0.0;
                  owned = owned;
                  accepted = accepted;
                  gated = gate_lem policy.gate c passed;
                },
                apply_each-IsDeserved rows cs (promote policy c x run_id now ledger) h.1,
              )
      ]

  -- Every deep update that is promoted after a commit is of a stored candidate that was still
  -- accumulating, in a domain of the growth engine, whose value the commit wrote, and of which all
  -- five conditions of the gate hold.
  pub updates-IsDeserved :
      (ledger : Ledger)
      → All
          (IsDeserved policy committed ledger.candidates)
          (apply_committed policy committed run_id now ledger).0
  unfolding apply_committed
  updates-IsDeserved ledger =
      apply_each-IsDeserved ledger.candidates (all_accumulating ledger.candidates) ledger
        (all_accumulating-IsOpen ledger.candidates)
