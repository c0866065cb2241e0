-- ===== src/FirstBoot/Orchestrator.antt =====
-- app/firstboot/orchestrator.py: the commands start, resume, pause and audit.
mod Setting
mod Finalising
use discord_personality_bot.Base.{
  ℕ, ◌+◌, String, Bool, true, false, not, ◌&&◌, Option, none, some, List, [], ◌∷◌, leb, text_test,
  number_test, ◌==◌, is_some, Result, if◌then◌else◌,
}
use discord_personality_bot.Base.Lists.{keep}
use discord_personality_bot.Base.Dict.{lookup}
use discord_personality_bot.Jobs.Scheduler.{Job}
use discord_personality_bot.FirstBoot.Status.{
  Status, pending, running, paused, blocked_fatal, blocked_retryable, auditing, complete, BlockKind,
  model_unavailable, critic_unavailable, incomplete, landing_failed, contradiction, audit_failed,
  retry_exhausted, is_retryable, max_attempts, is_startable, is_resumable, block_status, is_at_work,
  is_blockable, is_auditing, is_running, is_complete, is_blocked_fatal,
}
use discord_personality_bot.FirstBoot.Store.{
  LifeAnchors, BootState, GenesisRun, boot_started, boot_resumed, boot_blocked, boot_completed,
  Exec, pure, ◌>>=◌, ◌>>◌, on_option, on_list, on_result, now, get, status_or, run_or, ensure,
  current, transition, touch, attach_run, save_report, bump_attempt, set_fingerprint, acquire,
  release, lease_is_live, start_run, finish_run, emit,
}
use discord_personality_bot.FirstBoot.Preflight.{Surroundings, all_passed, run_preflight}
use discord_personality_bot.FirstBoot.Landing.{Facts, land, final_consistency}
unfoldable pub use Setting.*
unfoldable pub use Finalising.*

abbrev has_run : Option BootState → Bool
has_run row = is_some (run_or row)

abbrev is_unusable : Option Bool → Bool
is_unusable (some false) = true
is_unusable _ = false

unfoldable pub known_runs : Exec (List GenesisRun)
known_runs s = (s.runs, s)

-- `_stored_anchors`: the database is the source, not the configuration.
unfoldable pub stored_anchors : ℕ → Exec (Option LifeAnchors)
stored_anchors run_id s = (lookup run_id s.life_anchors, s)

-- `start` once the run is the epoch's own.
unfoldable pub begin : Environment → ℕ → ℕ → LifeAnchors → Exec Outcome
begin env epoch_id run_id anchors = do
  set_fingerprint epoch_id (env.fingerprint anchors)
  t1 ← now env.clock
  t2 ← now env.clock
  transition epoch_id is_startable running
      (λ r. record r { started_at = some t1; last_progress_at = some t2 })
  bump_attempt epoch_id
  emit (boot_started epoch_id run_id)
  drive env epoch_id run_id anchors

-- `start` after the refusals: the lease is held.
unfoldable pub launch : Environment → ℕ → Status → LifeAnchors → Exec Outcome
launch env epoch_id old anchors =
    if is_unusable env.backup_is_usable
    then refused old "the pre-first-boot backup is not usable"
    else do
      t ← now env.clock
      run_id ← start_run
      attach_run epoch_id run_id
      begin env epoch_id run_id anchors

-- `try: … finally: self._repository.release()`, once the lease is taken.
unfoldable pub with_lease : Environment → ℕ → Status → Exec Outcome → Exec Outcome
with_lease env epoch_id old body = do
  moment ← now env.clock
  taken ← acquire epoch_id moment env.process
  if not taken
      then refused old "another process is already running first boot"
      else do outcome ← body; release env.process; pure outcome

-- `start` of an epoch with its row.
unfoldable pub start_epoch : Environment → ℕ → LifeAnchors → BootState → Exec Outcome
start_epoch env epoch_id anchors state = do
  runs ← known_runs
  if is_complete state.status
      then refused complete "this epoch has already booted; rebuild-reset first"
      else if is_some state.genesis_run_id
      then refused state.status "a run already exists; use resume"
      else if not (is_startable state.status)
      then refused state.status "cannot start"
      else if not (all_passed (run_preflight env.around anchors state runs))
      then refused state.status "preflight"
      else with_lease env epoch_id state.status (launch env epoch_id state.status anchors)

-- `start`
unfoldable pub start : Environment → LifeAnchors → Exec Outcome
start env anchors = on_option env.epoch (refused pending "no rebuild epoch exists") λ epoch_id. do
  state ← ensure epoch_id env.around.schema_version
  start_epoch env epoch_id anchors state

-- `resume` after the refusals: the lease is held.
unfoldable pub carry_on : Environment → ℕ → ℕ → LifeAnchors → BootState → Exec Outcome
carry_on env epoch_id run_id anchors state = do
  moment ← now env.clock
  transition epoch_id is_resumable running
      λ r. record r { last_progress_at = some moment; block_kind = none; block_reason = "" }
  bump_attempt epoch_id
  emit (boot_resumed epoch_id run_id (state.attempt_count + 1) state.last_checkpoint)
  drive env epoch_id run_id anchors

-- `resume` of a row that has a run: the lease, the stored anchors and their hash are looked at.
unfoldable pub resume_run : Environment → ℕ → ℕ → BootState → Exec Outcome
resume_run env epoch_id run_id state = do
  moment ← now env.clock
  alive ← lease_is_live moment
  anchors ← stored_anchors run_id
  if alive
      then refused state.status "another process holds first boot"
      else on_option anchors (refused state.status "the stored anchors could not be read") λ a.
        if not (state.anchors_fingerprint == "")
          && not (state.anchors_fingerprint == env.fingerprint a)
        then refused blocked_fatal
            "the stored anchors no longer match the fingerprint taken at start"
        else with_lease env epoch_id state.status (carry_on env epoch_id run_id a state)

-- `resume`
unfoldable pub resume : Environment → Exec Outcome
resume env = on_option env.epoch (refused pending "no rebuild epoch exists") λ epoch_id. do
  row ← get epoch_id
  on_option row (refused pending "first boot has not been started") λ state.
      if is_complete state.status
      then refused complete "this epoch has already booted"
      else if is_blocked_fatal state.status
      then refused blocked_fatal "fatal; repair or rebuild-reset"
      else if not (is_resumable state.status)
      then refused state.status "cannot resume"
      else on_option state.genesis_run_id
          (refused state.status "there is no run to resume; use start")
          λ run_id. resume_run env epoch_id run_id state

unfoldable pub refused_as_is : Environment → String → Exec Outcome
refused_as_is env reason = do s ← status env.clock; refused s reason

-- `pause`
unfoldable pub pause : Environment → Exec Outcome
pause env = on_option env.epoch (refused pending "no rebuild epoch exists") λ epoch_id. do
  row ← get epoch_id
  if not (has_run row)
      then refused_as_is env "there is nothing running"
      else if is_complete (status_or row)
      then refused complete "she has already been born"
      else if not (is_at_work (status_or row))
      then refused (status_or row) "cannot pause"
      else do
        moment ← now env.clock
        moved ←
            transition epoch_id is_at_work paused (λ r. record r { last_progress_at = some moment })
        if moved then done paused else refused_as_is env "the state moved underneath"

abbrev names_of : List AuditResult → List String
names_of [] = []
names_of (a ∷ audits) = a.name ∷ names_of audits

-- `audit` of a run, which changes nothing of the first boot; of the reasons it keeps the first.
unfoldable pub audit_run : Environment → ℕ → Exec Outcome
audit_run env run_id = do
  anchors ← stored_anchors run_id
  on_option anchors (refused_as_is env "the stored anchors could not be read") λ a. do
    audits ← env.first_boot_audits run_id a
    problems ← final_consistency env.facts a
    s ← status env.clock
    pure (record {
      ok = is_nil (failed_audits audits) && is_nil problems;
      status = s;
      reason = head_or (head_or "" problems) (names_of (failed_audits audits));
      has_escaped = false;
    })

-- `audit`
unfoldable pub audit : Environment → Exec Outcome
audit env = on_option env.epoch (refused_as_is env "there is no run to audit") λ epoch_id. do
  row ← get epoch_id
  on_option (run_or row) (refused_as_is env "there is no run to audit") (audit_run env)
