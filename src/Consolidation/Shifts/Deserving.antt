-- ===== src/Consolidation/Shifts/Deserving.antt =====
-- What the promotion of a candidate for a value rests on.
use mathlib.Core.List.{Memᴰ}
use discord_personality_bot.Base.{
  ℕ, ◌≡◌, inl, inr, arith, true, ◌&&◌, ◌==◌, Bool-cases, Option, some, Option-cases, List, [], ◌∷◌,
  text_test,
}
use discord_personality_bot.Base.Lists.{All}
use discord_personality_bot.Consolidation.Candidates.{Candidate, is_accumulating, all_accumulating}
use discord_personality_bot.Consolidation.Gate.{Condition, evaluate, holds_for}
use discord_personality_bot.Consolidation.Growth.{GrowthPolicy, View}
use discord_personality_bot.Consolidation.Growth.Promotion.{
  IsOpen, gate_lem, all_accumulating-IsOpen,
}
use discord_personality_bot.Consolidation.Ledger.{Ledger}
use discord_personality_bot.Consolidation.Shifts.{
  ValueShift, shiftable, shift, shift_each, apply_shifts,
}

-- A candidate of the ledger that was open, and of which all five conditions hold.
pub record IsGrounded (policy : GrowthPolicy) (rows : List Candidate) (s : ValueShift)
    : Type 0 where
  pub stored : Memᴰ s.candidate rows
  pub open_still : is_accumulating s.candidate.status ≡ true
  pub gated : (name : Condition) → holds_for policy.gate s.candidate name ≡ true

module _ (policy : GrowthPolicy) (committed : View) (run_id : Option ℕ) (now : ℕ) where
  shiftable_lem :
      (c : Candidate) (x : ℕ)
      → shiftable policy committed c ≡ some x
      → (evaluate policy.gate c).passed ≡ true
  unfolding shiftable
  shiftable_lem c x h =
      elim (Bool-cases (c.target_domain == "values" && (evaluate policy.gate c).passed)) [
        | inl q ↦ ground (arith, q)
        | inr q ↦ let h' = rw (shiftable, q) at h in cc h'
      ]

  shift_each-IsGrounded :
      (rows cs : List Candidate) (ledger : Ledger)
      → All (IsOpen rows) cs
      → All (IsGrounded policy rows) (shift_each policy committed run_id now cs ledger).0
  unfolding shift_each shift
  shift_each-IsGrounded rows [] ledger h = tt
  shift_each-IsGrounded rows (c ∷ cs) ledger h =
      elim (Option-cases (shiftable policy committed c)) [
        | inl p ↦ rw (shift_each, p) (shift_each-IsGrounded rows cs ledger h.1)
        | inr (x, p) ↦
            rw (shift_each, p)
              (
                record {
                  stored = h.0.1;
                  open_still = h.0.0;
                  gated = gate_lem policy.gate c (shiftable_lem c x p);
                },
                shift_each-IsGrounded rows cs (shift policy committed run_id now c ledger).1 h.1,
              )
      ]

  pub shifts-IsGrounded :
      (ledger : Ledger)
      → All
          (IsGrounded policy ledger.candidates)
          (apply_shifts policy committed run_id now ledger).0
  unfolding apply_shifts
  shifts-IsGrounded ledger =
      shift_each-IsGrounded ledger.candidates (all_accumulating ledger.candidates) ledger
        (all_accumulating-IsOpen ledger.candidates)
