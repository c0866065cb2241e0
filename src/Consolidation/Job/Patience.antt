-- ===== src/Consolidation/Job/Patience.antt =====
-- What is promoted by a run was open before it: the evidence of one run alone moves nothing deep.
use mathlib.Core.List.{Memᴰ}
use discord_personality_bot.Base.{ℕ, ◌<◌, ◌≡◌, inl, inr, arith, true, Option, some, List}
use discord_personality_bot.Base.Lists.{All, All-mono, All-mem}
use discord_personality_bot.Consolidation.Dynamics.{round_parts}
use discord_personality_bot.Consolidation.Candidates.{Candidate, is_accumulating}
use discord_personality_bot.Consolidation.Gate.{persistence_days, holds_for, temporal_persistence}
use discord_personality_bot.Consolidation.Growth.{View, DeepUpdate, apply_committed}
use discord_personality_bot.Consolidation.Growth.Promotion.{IsDeserved, updates-IsDeserved}
use discord_personality_bot.Consolidation.Shifts.{ValueShift}
use discord_personality_bot.Consolidation.Shifts.Deserving.{IsGrounded, shifts-IsGrounded}
use discord_personality_bot.Consolidation.Scanning.{JobPolicy, Row}
use discord_personality_bot.Consolidation.Job.{Life, prepare, run}
use discord_personality_bot.Consolidation.Job.Promoting.{apply_committed-IsTraced}
use discord_personality_bot.Consolidation.Job.Tracing.{
  IsSame, IsTraced, prepare-IsTraced, all_known,
}

-- A candidate that is new has not persisted.
no_persistence :
    (now : ℕ) (c : Candidate)
    → c.first_seen_at ≡ now
    → c.last_seen_at ≡ now
    → persistence_days c ≡ 0
unfolding persistence_days round_parts
no_persistence now c first last = rw (persistence_days, first, last) (ground arith)

impatient :
    (policy : JobPolicy) (c : Candidate)
    → persistence_days c ≡ 0
    → holds_for policy.growth.gate c temporal_persistence ≡ true
    → 0 < policy.growth.gate.min_persistence_days
    → ⊥
unfolding holds_for
impatient policy c none_yet enough slow = ground (arith, none_yet, enough, slow)

-- The candidate is one of those before, with the same target, direction and first sighting, and was
-- open there.
abbrev pub WasOpen : List Candidate → Candidate → Type 0
WasOpen before c = (b : Candidate) × Memᴰ b before × IsSame b c × (is_accumulating b.status ≡ true)

-- A candidate that is stored and open, and of which the gate holds, is not of this moment.
stored-WasOpen :
    (policy : JobPolicy) (before rows : List Candidate) (now : ℕ) (c : Candidate)
    → 0 < policy.growth.gate.min_persistence_days
    → All (IsTraced before now) rows
    → Memᴰ c rows
    → is_accumulating c.status ≡ true
    → holds_for policy.growth.gate c temporal_persistence ≡ true
    → WasOpen before c
stored-WasOpen policy before rows now c slow traced stored open_still enough =
    elim (All-mem (IsTraced before now) c rows traced stored) [
      | inl (b, m, same) ↦ (b, m, same, same.open_before open_still)
      | inr (first, last) ↦
          absurd (impatient policy c (no_persistence now c first last) enough slow)
    ]

-- Where the gate asks for some persistence at all, a run of the consolidation promotes only
-- candidates that were open before it, with the same target, direction and first sighting, by the
-- growth engine and by the value engine alike: whatever the changes of one run are and whatever
-- the review commits, they promote no candidate that they raise.
pub run_promotes_known :
    (policy : JobPolicy) (clock now : ℕ) (mood : Option ℕ) (rows : List Row)
    (review : Life → View × ℕ) (life : Life)
    → 0 < policy.growth.gate.min_persistence_days
    → let (updates, shifts, life') = run policy clock now mood rows review life in
      All (λ (u : DeepUpdate). WasOpen life.ledger.candidates u.candidate) updates
      × All (λ (s : ValueShift). WasOpen life.ledger.candidates s.candidate) shifts
unfolding run
run_promotes_known policy clock now mood rows review life slow =
    let before = life.ledger.candidates in
    let ready = prepare policy clock now mood rows life in
    let (committed, run_id) = review ready in
    let (updates, ledger) =
      apply_committed policy.growth committed (some run_id) now ready.ledger in
    let traced = prepare-IsTraced before now policy clock mood rows life (all_known now before) in
    let traced' =
      apply_committed-IsTraced before now policy.growth committed (some run_id) ready.ledger
        traced in
    (
      All-mono (IsDeserved policy.growth committed ready.ledger.candidates) _ _
          (λ u d.
            stored-WasOpen policy before ready.ledger.candidates now u.candidate slow traced
              d.stored d.open_still (d.gated temporal_persistence))
          (updates-IsDeserved policy.growth committed (some run_id) now ready.ledger),
      All-mono (IsGrounded policy.growth ledger.candidates) _ _
          (λ s d.
            stored-WasOpen policy before ledger.candidates now s.candidate slow traced' d.stored
              d.open_still (d.gated temporal_persistence))
          (shifts-IsGrounded policy.growth committed (some run_id) now ledger),
    )
