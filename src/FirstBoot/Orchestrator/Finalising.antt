-- ===== src/FirstBoot/Orchestrator/Finalising.antt =====
-- app/firstboot/orchestrator.py: the status, a block, and what follows a generation (_drive,
-- _finalise).
use discord_personality_bot.Base.{
  ℕ, String, Bool, true, false, not, ◌&&◌, Option, none, some, List, [], ◌∷◌, leb, text_test,
  number_test, if◌then◌else◌,
}
use discord_personality_bot.Base.Lists.{keep}
use discord_personality_bot.FirstBoot.Status.{
  Status, pending, running, blocked_retryable, auditing, complete, BlockKind, model_unavailable,
  critic_unavailable, incomplete, landing_failed, contradiction, audit_failed, retry_exhausted,
  is_retryable, max_attempts, block_status, is_at_work, is_blockable, is_auditing, is_running,
}
use discord_personality_bot.FirstBoot.Store.{
  LifeAnchors, BootState, boot_blocked, boot_completed, Exec, pure, ◌>>=◌, ◌>>◌, on_option, on_list,
  on_result, now, get, current, transition, touch, save_report, lease_is_live, finish_run, emit,
}
use discord_personality_bot.FirstBoot.Landing.{land, final_consistency}
use discord_personality_bot.FirstBoot.Orchestrator.Setting.{
  Progress, AuditResult, Environment, Outcome, refused, done, escapes, is_nil, is_whole,
}

-- `status`, which reads the lease of a running epoch, and answers the same with and without one.
unfoldable pub status : (ℕ → ℕ) → Exec Status
status clock = do
  row ← current
  on_option row (pure pending) λ r. if not (is_running r.status) then pure r.status else do
    moment ← now clock
    alive ← lease_is_live moment
    if alive then pure r.status else pure running

-- `recovery_required`
unfoldable pub recovery_required : (ℕ → ℕ) → Exec Bool
recovery_required clock = do
  row ← current
  on_option row (pure false) λ r.
      if not (is_running r.status)
      then pure false
      else do moment ← now clock; alive ← lease_is_live moment; pure (not alive)

abbrev attempts_of : Option BootState → ℕ
attempts_of none = 0
attempts_of (some row) = row.attempt_count

-- The kind under which a block is stored: a retryable one that keeps happening is exhausted.
unfoldable pub kind_of : BlockKind → ℕ → BlockKind
kind_of kind attempts =
    if is_retryable kind && leb max_attempts attempts then retry_exhausted else kind

abbrev is_retryable_status : Status → Bool
is_retryable_status blocked_retryable = true
is_retryable_status _ = false

-- `_block`; the reason keeps the first kind, which the text of a reason does not show here.
unfoldable pub block : Environment → ℕ → ℕ → BlockKind → String → Exec Outcome
block env epoch_id run_id kind reason = do
  row ← get epoch_id
  let kind' = kind_of kind (attempts_of row)
  moment ← now env.clock
  transition epoch_id is_blockable (block_status kind')
      (λ r. record r { blocked_at = some moment; block_kind = some kind'; block_reason = reason })
  emit (boot_blocked epoch_id run_id kind' (is_retryable_status (block_status kind')))
  refused (block_status kind') reason

-- What follows the compare-and-set to COMPLETE.
unfoldable pub conclude : Environment → ℕ → ℕ → Bool → Exec Outcome
conclude env epoch_id run_id moved =
    if moved
    then (do
      t ← now env.clock
      finish_run run_id t
      emit (boot_completed epoch_id run_id)
      done complete)
    else do s ← status env.clock; refused s "the state moved underneath finalisation"

-- The end of `_finalise`: the report, and the compare-and-set to COMPLETE.
unfoldable pub commit : Environment → ℕ → ℕ → Exec Outcome
commit env epoch_id run_id = do
  save_report epoch_id "report"
  t ← now env.clock
  touch epoch_id t "report_written" ""
  moment ← now env.clock
  moved ← transition epoch_id is_auditing complete λ r. record r {
    completed_at = some moment;
    last_progress_at = some moment;
    block_kind = none;
    block_reason = "";
  }
  conclude env epoch_id run_id moved

unfoldable pub check_in : Environment → ℕ → ℕ → Exec Outcome
check_in env epoch_id run_id = do
  t ← now env.clock
  touch epoch_id t "final_consistency" ""
  commit env epoch_id run_id

-- The landing, and the last checks.
unfoldable pub bring_home : Environment → ℕ → ℕ → LifeAnchors → Exec Outcome
bring_home env epoch_id run_id anchors = do
  t ← now env.clock
  touch epoch_id t "survivors_promoted" ""
  landed ← land env.landing_fault anchors
  on_result landed (block env epoch_id run_id landing_failed) λ n. do
    t ← now env.clock
    touch epoch_id t "landed" ""
    problems ← final_consistency env.facts anchors
    on_list problems (check_in env epoch_id run_id) (block env epoch_id run_id contradiction)

-- `_finalise` after the audits have passed: the promotion, which stands outside of any `try`.
unfoldable pub settle : Environment → ℕ → ℕ → LifeAnchors → Exec Outcome
unfolding bring_home
settle env epoch_id run_id anchors = do
  promoted ← env.promote_survivors run_id anchors
  on_result promoted escapes λ u. bring_home env epoch_id run_id anchors

unfoldable pub failed_audits : List AuditResult → List AuditResult
failed_audits audits = keep (λ (a : AuditResult). not a.passed) audits

-- `_finalise`
unfoldable pub finalise : Environment → ℕ → ℕ → LifeAnchors → Exec Outcome
finalise env epoch_id run_id anchors = do
  moment ← now env.clock
  transition epoch_id is_at_work auditing (λ r. record r { last_progress_at = some moment })
  audits ← env.first_boot_audits run_id anchors
  on_list (failed_audits audits) (settle env epoch_id run_id anchors)
      λ a. block env epoch_id run_id audit_failed a.name

abbrev pub head_or : String → List String → String
head_or d [] = d
head_or d (x ∷ xs) = x

-- `_drive` after the generation has replied.
unfoldable pub judge : Environment → ℕ → ℕ → LifeAnchors → Progress → Exec Outcome
judge env epoch_id run_id anchors progress =
    if not (is_nil progress.blocked_by)
    then block env epoch_id run_id contradiction (head_or "" progress.blocked_by)
    else if not (is_nil progress.unavailable_critics)
    then block env epoch_id run_id critic_unavailable (head_or "" progress.unavailable_critics)
    else if not (is_whole progress)
    then block env epoch_id run_id incomplete (head_or "" progress.incomplete)
    else finalise env epoch_id run_id anchors

-- `_drive`
unfoldable pub drive : Environment → ℕ → ℕ → LifeAnchors → Exec Outcome
drive env epoch_id run_id anchors = do
  reply ← env.generate anchors run_id
  on_result reply (block env epoch_id run_id model_unavailable) λ progress. do
    t ← now env.clock
    touch epoch_id t "genesis" env.last_checkpoint
    judge env epoch_id run_id anchors progress
