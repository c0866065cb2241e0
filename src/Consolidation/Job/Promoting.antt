-- ===== src/Consolidation/Job/Promoting.antt =====
-- The promotions of the growth engine leave the rows of the candidates traced.
use discord_personality_bot.Base.{
  ℕ, ◌≡◌, ◌≢◌, refl, inl, inr, true, Bool-cases, Option, Option-cases, List, [], ◌∷◌, ◌==◌,
  text_test,
}
use discord_personality_bot.Base.Lists.{All}
use discord_personality_bot.Consolidation.Candidates.{
  Candidate, promoted, is_accumulating, all_accumulating,
}
use discord_personality_bot.Consolidation.Growth.{
  GrowthPolicy, Ledger, View, by_name, follow, promote, promotable, apply_each, apply_committed,
}
use discord_personality_bot.Consolidation.Job.Tracing.{IsTraced, resolved-IsTraced}

module _ (before : List Candidate) (now : ℕ) (policy : GrowthPolicy) (committed : View)
    (run_id : Option ℕ) where
  follow_candidates :
      (c : Candidate) (x : ℕ) (ledger : Ledger)
      → (follow policy c x run_id now ledger).candidates ≡ ledger.candidates
  unfolding follow
  follow_candidates c x ledger = elim (Option-cases (by_name c.target_key ledger.traits)) [
    | inl p ↦ rw (follow, p) refl
    | inr (t, p) ↦ rw (follow, p) refl
  ]

  promote-IsTraced :
      (c : Candidate) (x : ℕ) (ledger : Ledger)
      → All (IsTraced before now) ledger.candidates
      → All (IsTraced before now) (promote policy c x run_id now ledger).candidates
  unfolding promote
  promote-IsTraced c x ledger h =
      let closed : is_accumulating promoted ≢ true = λ h. cc h in
      elim (Bool-cases (c.target_domain == "personality")) [
        | inl q ↦
            rw (promote, q, follow_candidates c x ledger)
              (resolved-IsTraced before now c.candidate_id promoted ledger.candidates closed h)
        | inr q ↦
            rw (promote, q)
              (resolved-IsTraced before now c.candidate_id promoted ledger.candidates closed h)
      ]

  apply_each-IsTraced :
      (cs : List Candidate) (ledger : Ledger)
      → All (IsTraced before now) ledger.candidates
      → All (IsTraced before now) (apply_each policy committed run_id now cs ledger).1.candidates
  unfolding apply_each
  apply_each-IsTraced [] ledger h = h
  apply_each-IsTraced (c ∷ cs) ledger h = elim (Option-cases (promotable policy committed c)) [
    | inl p ↦ rw (apply_each, p) (apply_each-IsTraced cs ledger h)
    | inr (x, p) ↦
        rw (apply_each, p)
          (apply_each-IsTraced cs (promote policy c x run_id now ledger)
            (promote-IsTraced c x ledger h))
  ]

  pub apply_committed-IsTraced :
      (ledger : Ledger)
      → All (IsTraced before now) ledger.candidates
      → All (IsTraced before now) (apply_committed policy committed run_id now ledger).1.candidates
  unfolding apply_committed
  apply_committed-IsTraced ledger h =
      apply_each-IsTraced (all_accumulating ledger.candidates) ledger h
