-- ===== src/FirstBoot/Legal.antt =====
-- Every command of the first boot keeps to the machine.
use discord_personality_bot.Base.{
  ℕ, ◌+◌, ◌≡◌, refl, arith, String, Bool, true, false, Option, none, some, List, number_test,
}
use discord_personality_bot.Jobs.Scheduler.{Job}
use discord_personality_bot.FirstBoot.Status.{
  Status, running, paused, blocked_retryable, blocked_fatal, auditing, complete, BlockKind,
  is_fatal, is_resumable, block_status, is_at_work, is_blockable, is_auditing,
}
use discord_personality_bot.FirstBoot.Store.{
  LifeAnchors, BootState, Lifecycle, Store, Exec, now, get, current, touch, save_report,
  bump_attempt, set_fingerprint, acquire, release, lease_is_live, start_run, finish_run, emit,
}
use discord_personality_bot.FirstBoot.Landing.{Facts, land, final_consistency}
use discord_personality_bot.FirstBoot.Machine.{
  Arrow, pending_running, ready_running, running_again, paused_running, blocked_running,
  auditing_running, running_paused, auditing_paused, running_auditing, auditing_again,
  auditing_complete, running_blocked, auditing_blocked, paused_blocked, running_fatal,
  auditing_fatal, paused_fatal, IsLegal, IsLegal-refl, IsLegal-trans, IsLegal-same, IsLegal-insert,
  status_at, run_at, Keeps, Keeps-pure, Keeps-if, Keeps-option, Keeps-list, Keeps-result,
  Keeps-bind, update-Keeps, transition-Keeps,
}
use discord_personality_bot.FirstBoot.Orchestrator.{
  Progress, Environment, Outcome, status, block, conclude, commit, check_in, refused_as_is,
  audit_run, bring_home, settle, finalise, judge, drive, stored_anchors, with_lease, carry_on,
  resume_run, resume, pause, audit,
}

pub now-Keeps : (clock : ℕ → ℕ) → Keeps (now clock)
unfolding now
now-Keeps clock = record { at = λ s. IsLegal-same s (record s { ticks = s.ticks + 1 }) refl refl }

pub get-Keeps : (e : ℕ) → Keeps (get e)
unfolding get
get-Keeps e = record { at = λ s. IsLegal-refl s }

pub current-Keeps : Keeps current
unfolding current
current-Keeps = record { at = λ s. IsLegal-refl s }

pub lease_is_live-Keeps : (t : ℕ) → Keeps (lease_is_live t)
unfolding lease_is_live
lease_is_live-Keeps t = record { at = λ s. IsLegal-refl s }

pub stored_anchors-Keeps : (r : ℕ) → Keeps (stored_anchors r)
unfolding stored_anchors
stored_anchors-Keeps r = record { at = λ s. IsLegal-refl s }

pub emit-Keeps : (e : Lifecycle) → Keeps (emit e)
unfolding emit
emit-Keeps e = record { at = λ s. IsLegal-same s (emit e s).1 refl refl }

pub finish_run-Keeps : (r t : ℕ) → Keeps (finish_run r t)
unfolding finish_run
finish_run-Keeps r t = record { at = λ s. IsLegal-same s (finish_run r t s).1 refl refl }

pub start_run-Keeps : Keeps start_run
unfolding start_run
start_run-Keeps = record { at = λ s. IsLegal-same s (start_run s).1 refl refl }

pub acquire_same : (e t h : ℕ) (s : Store) → (acquire e t h s).1.states ≡ s.states
unfolding acquire
acquire_same e t h s = ground arith

pub release_same : (h : ℕ) (s : Store) → (release h s).1.states ≡ s.states
unfolding release
release_same h s = ground arith

pub acquire_moves : (e t h : ℕ) (s : Store) → (acquire e t h s).1.moves ≡ s.moves
unfolding acquire
acquire_moves e t h s = ground arith

release_moves : (h : ℕ) (s : Store) → (release h s).1.moves ≡ s.moves
unfolding release
release_moves h s = ground arith

land_moves :
    (f : Option (String × List Job)) (a : LifeAnchors) (s : Store) → (land f a s).1.moves ≡ s.moves
unfolding land
land_moves none a s = refl
land_moves (some (e, jobs)) a s = refl

land_same :
    (f : Option (String × List Job)) (a : LifeAnchors) (s : Store)
    → (land f a s).1.states ≡ s.states
unfolding land
land_same none a s = refl
land_same (some (e, jobs)) a s = refl

pub acquire-Keeps : (e t h : ℕ) → Keeps (acquire e t h)
acquire-Keeps e t h = record {
  at = λ s. IsLegal-same s (acquire e t h s).1 (acquire_same e t h s) (acquire_moves e t h s);
}

pub release-Keeps : (h : ℕ) → Keeps (release h)
release-Keeps h = record {
  at = λ s. IsLegal-same s (release h s).1 (release_same h s) (release_moves h s);
}

pub land-Keeps : (f : Option (String × List Job)) (a : LifeAnchors) → Keeps (land f a)
land-Keeps f a = record {
  at = λ s. IsLegal-same s (land f a s).1 (land_same f a s) (land_moves f a s);
}

pub final_consistency-Keeps : (f : Facts) (a : LifeAnchors) → Keeps (final_consistency f a)
unfolding final_consistency
final_consistency-Keeps f a = record { at = λ s. IsLegal-refl s }

pub touch-Keeps : (e t : ℕ) (stage checkpoint : String) → Keeps (touch e t stage checkpoint)
unfolding touch
touch-Keeps e t stage checkpoint = update-Keeps e _ (λ row. refl) (λ row. refl)

pub save_report-Keeps : (e : ℕ) (r : String) → Keeps (save_report e r)
unfolding save_report
save_report-Keeps e r = update-Keeps e _ (λ row. refl) (λ row. refl)

pub bump_attempt-Keeps : (e : ℕ) → Keeps (bump_attempt e)
unfolding bump_attempt
bump_attempt-Keeps e = update-Keeps e _ (λ row. refl) (λ row. refl)

pub set_fingerprint-Keeps : (e : ℕ) (f : String) → Keeps (set_fingerprint e f)
unfolding set_fingerprint
set_fingerprint-Keeps e f = update-Keeps e _ (λ row. refl) (λ row. refl)

pub ruleset keeps_rules = (
  Keeps-pure, Keeps-if, Keeps-option, Keeps-list, Keeps-result, Keeps-bind, now-Keeps, get-Keeps,
  current-Keeps, lease_is_live-Keeps, stored_anchors-Keeps, emit-Keeps, finish_run-Keeps,
  start_run-Keeps, acquire-Keeps, release-Keeps, land-Keeps, final_consistency-Keeps, touch-Keeps,
  save_report-Keeps, bump_attempt-Keeps, set_fingerprint-Keeps,
)

-- The arrows of the tests that the compare-and-set makes.
to_blocked :
    (fatal : Bool) (a : Status)
    → is_blockable a ≡ true
    → Arrow a (elim fatal [ true ↦ blocked_fatal | false ↦ blocked_retryable ])
unfolding is_blockable
to_blocked true running h = running_fatal
to_blocked true auditing h = auditing_fatal
to_blocked true paused h = paused_fatal
to_blocked false running h = running_blocked
to_blocked false auditing h = auditing_blocked
to_blocked false paused h = paused_blocked
to_blocked _ _ h = cc h

to_block : (k : BlockKind) (a : Status) → is_blockable a ≡ true → Arrow a (block_status k)
unfolding block_status
to_block k a h = to_blocked (is_fatal k) a h

to_complete : (a : Status) → is_auditing a ≡ true → Arrow a complete
to_complete auditing h = auditing_complete
to_complete _ h = cc h

to_auditing : (a : Status) → is_at_work a ≡ true → Arrow a auditing
unfolding is_at_work
to_auditing running h = running_auditing
to_auditing auditing h = auditing_again
to_auditing _ h = cc h

to_paused : (a : Status) → is_at_work a ≡ true → Arrow a paused
unfolding is_at_work
to_paused running h = running_paused
to_paused auditing h = auditing_paused
to_paused _ h = cc h

to_running : (a : Status) → is_resumable a ≡ true → Arrow a running
unfolding is_resumable
to_running running h = running_again
to_running paused h = paused_running
to_running blocked_retryable h = blocked_running
to_running auditing h = auditing_running
to_running _ h = cc h

status-Keeps : (clock : ℕ → ℕ) → Keeps (status clock)
unfolding status
status-Keeps clock = search (keeps_rules) depth 10

block-Keeps :
    (env : Environment) (e r : ℕ) (kind : BlockKind) (reason : String)
    → Keeps (block env e r kind reason)
unfolding block
block-Keeps env e r kind reason = search (keeps_rules, transition-Keeps, to_block)

conclude-Keeps : (env : Environment) (e r : ℕ) (moved : Bool) → Keeps (conclude env e r moved)
unfolding conclude
conclude-Keeps env e r moved = search (keeps_rules, status-Keeps) depth 12

commit-Keeps : (env : Environment) (e r : ℕ) → Keeps (commit env e r)
unfolding commit
commit-Keeps env e r = search (keeps_rules, transition-Keeps, to_complete, conclude-Keeps) depth 14

check_in-Keeps : (env : Environment) (e r : ℕ) → Keeps (check_in env e r)
unfolding check_in
check_in-Keeps env e r = search (keeps_rules, commit-Keeps) depth 8

bring_home-Keeps : (env : Environment) (e r : ℕ) (a : LifeAnchors) → Keeps (bring_home env e r a)
unfolding bring_home
bring_home-Keeps env e r a = search (keeps_rules, block-Keeps, check_in-Keeps) depth 14

-- What is awaited keeps to the machine, whatever other processes do in the meantime.
pub record IsPolite (env : Environment) : Type 0 where
  pub generate : (a : LifeAnchors) (r : ℕ) → Keeps (env.generate a r)
  pub audits : (r : ℕ) (a : LifeAnchors) → Keeps (env.first_boot_audits r a)
  pub promotes : (r : ℕ) (a : LifeAnchors) → Keeps (env.promote_survivors r a)

module _ (env : Environment) (polite : IsPolite env) where
  open polite use {generate, audits, promotes}

  settle-Keeps : (e r : ℕ) (a : LifeAnchors) → Keeps (settle env e r a)
  unfolding settle
  settle-Keeps e r a = search (keeps_rules, promotes, bring_home-Keeps) depth 10

  finalise-Keeps : (e r : ℕ) (a : LifeAnchors) → Keeps (finalise env e r a)
  unfolding finalise
  finalise-Keeps e r a =
      search (keeps_rules, transition-Keeps, to_auditing, audits, settle-Keeps, block-Keeps) depth
        10

  judge-Keeps : (e r : ℕ) (a : LifeAnchors) (p : Progress) → Keeps (judge env e r a p)
  unfolding judge
  judge-Keeps e r a p = search (keeps_rules, block-Keeps, finalise-Keeps)

  pub drive-Keeps : (e r : ℕ) (a : LifeAnchors) → Keeps (drive env e r a)
  unfolding drive
  drive-Keeps e r a = search (keeps_rules, generate, block-Keeps, judge-Keeps) depth 10

  with_lease-Keeps :
      (e : ℕ) (old : Status) (body : Exec Outcome) → Keeps body → Keeps (with_lease env e old body)
  unfolding with_lease
  with_lease-Keeps e old body k = search keeps_rules depth 10

  carry_on-Keeps : (e r : ℕ) (a : LifeAnchors) (b : BootState) → Keeps (carry_on env e r a b)
  unfolding carry_on
  carry_on-Keeps e r a b = search (keeps_rules, transition-Keeps, to_running, drive-Keeps) depth 12

  resume_run-Keeps : (e r : ℕ) (b : BootState) → Keeps (resume_run env e r b)
  unfolding resume_run
  resume_run-Keeps e r b = search (keeps_rules, with_lease-Keeps, carry_on-Keeps) depth 12

  pub resume-Keeps : Keeps (resume env)
  unfolding resume
  resume-Keeps = search (keeps_rules, resume_run-Keeps) depth 12

  refused_as_is-Keeps : (reason : String) → Keeps (refused_as_is env reason)
  unfolding refused_as_is
  refused_as_is-Keeps reason = search (keeps_rules, status-Keeps)

  pub pause-Keeps : Keeps (pause env)
  unfolding pause
  pause-Keeps = search (keeps_rules, transition-Keeps, to_paused, refused_as_is-Keeps) depth 12

  audit_run-Keeps : (r : ℕ) → Keeps (audit_run env r)
  unfolding audit_run
  audit_run-Keeps r = search (keeps_rules, audits, status-Keeps, refused_as_is-Keeps) depth 12

  pub audit-Keeps : Keeps (audit env)
  unfolding audit
  audit-Keeps = search (keeps_rules, audit_run-Keeps, refused_as_is-Keeps) depth 12
