-- ===== src/Tests/Booting.antt =====
-- A first boot that crashed while it generated, and is resumed by another process.
use discord_personality_bot.Base.{
  ℕ, ◌+◌, ◌≤◌, ◌≡◌, refl, arith, true, false, none, some, List, [], ◌∷◌, number_test, ok,
}
use discord_personality_bot.Base.Lists.{length, keep}
use discord_personality_bot.Base.Dict.{lookup}
use discord_personality_bot.Jobs.Scheduler.{Job, run_once, schedule_fixed, is_pending, schedule}
use discord_personality_bot.FirstBoot.Status.{running, complete, is_resumable}
use discord_personality_bot.FirstBoot.Store.{
  LifeAnchors, BootState, Store, pure, new_state, is_live, acquire,
}
use discord_personality_bot.FirstBoot.Preflight.{Surroundings}
use discord_personality_bot.FirstBoot.Landing.{total, stale_emotions}
use discord_personality_bot.FirstBoot.Orchestrator.{
  Progress, Environment, drive, resume, is_whole, failed_audits,
}
use discord_personality_bot.FirstBoot.Machine.{status_at, IsLegal, Keeps-pure}
use discord_personality_bot.FirstBoot.Legal.{IsPolite}
use discord_personality_bot.FirstBoot.History.{
  Command, to_start, to_resume, to_pause, to_audit, history, history-IsLegal,
}
use discord_personality_bot.FirstBoot.Earning.{IsEarned, completion-IsEarned}
use discord_personality_bot.FirstBoot.Driving.{IsSmooth, drive-Completes}
use discord_personality_bot.FirstBoot.Completing.{resume_completes}
use discord_personality_bot.FirstBoot.Holding.{
  LeaseCall, to_acquire, to_beat, to_release, answers, lease_excludes,
}

abbrev anchors : LifeAnchors
anchors = record {
  birth_datetime = 1000;
  present_datetime = 100000;
  life_years = 20;
  covers_to_present = true;
  details = "a life";
}

abbrev whole_life : Progress
whole_life = record {
  blocked_by = [];
  unavailable_critics = [];
  incomplete = [];
  stopped_at = none;
}

abbrev around : Surroundings
around = record {
  real_user_events = 0;
  schema_version = 40;
  latest_schema = 40;
  integrity = "ok";
  known_prompts = [];
  critics_available = true;
  data_dir_writable = true;
  has_backups = true;
}

-- The generation replies at once with a whole life, and every audit passes.
abbrev env : Environment
env = record {
  epoch = some 3;
  process = 12;
  clock = λ n. 200000 + n;
  around = around;
  fingerprint = λ a. a.details;
  backup_is_usable = some true;
  generate = λ a r. pure (ok whole_life);
  last_checkpoint = "year 20";
  first_boot_audits = λ r a. pure (record { name = "identity"; passed = true } ∷ []);
  promote_survivors = λ r a. pure (ok tt);
  landing_fault = none;
  facts = record {
    months = 12 ∷ 12 ∷ [];
    experiences = 30;
    memories = 20;
    has_activity = false;
    is_asleep = false;
    emotions = [];
  };
}

abbrev crashed : BootState
crashed = record (new_state 40) {
  status = running;
  genesis_run_id = some 7;
  attempt_count = 1;
  anchors_fingerprint = "a life";
}

-- A job of the simulated past and one of the future.
abbrev jobs : List Job
jobs =
    schedule_fixed 1 "diary" 90 "P4" run_once none 0
    ∷ schedule_fixed 2 "walk" 300000 "P4" run_once none 0
    ∷ []

abbrev crashed_store : Store
crashed_store = record {
  moves = [];
  states = (3, crashed) ∷ [];
  lease = some (record { epoch_id = 3; holder = 11; acquired_at = 1000; heartbeat_at = 1000 });
  runs = [];
  life_anchors = (7, anchors) ∷ [];
  jobs = jobs;
  life_day = none;
  journal = [];
  next_id = 8;
  ticks = 0;
}

env-IsPolite : IsPolite env
env-IsPolite = record {
  generate = λ a r. Keeps-pure _;
  audits = λ r a. Keeps-pure _;
  promotes = λ r a. Keeps-pure _;
}

abbrev commands : List Command
commands = to_start env anchors ∷ to_pause env ∷ to_resume env ∷ to_audit env ∷ []

history-IsLegal_example : IsLegal crashed_store (history commands crashed_store)
history-IsLegal_example =
    history-IsLegal commands crashed_store
      (env-IsPolite, (env-IsPolite, (env-IsPolite, (env-IsPolite, tt))))

few_jobs : length (keep is_pending jobs) ≤ 1000
unfolding length keep is_pending schedule_fixed schedule
few_jobs = ground arith

crashed-IsSmooth : IsSmooth env 3 7 anchors
unfolding pure is_whole failed_audits keep total stale_emotions
crashed-IsSmooth = record {
  generates = λ s p. (whole_life, refl, (refl, refl, refl), p);
  audits = λ s p. (refl, p);
  promotes = λ s p. (refl, p);
  no_fault = refl;
  sound = record {
    years = refl;
    months = ground arith;
    experiences = ground arith;
    memories = ground arith;
    idle = refl;
    awake = refl;
    calm = refl;
  };
}

expired :
    (t : ℕ)
    → is_live
        (200000 + t)
        (record { epoch_id = 3; holder = 11; acquired_at = 1000; heartbeat_at = 1000 })
      ≡ false
unfolding is_live
expired t = ground arith

resume_completes_example :
    ((resume env crashed_store).0.ok ≡ true) × (status_at 3 (resume env crashed_store).1 ≡ complete)
unfolding lookup is_resumable
resume_completes_example =
    resume_completes env 3 7 anchors crashed crashed_store crashed-IsSmooth refl refl refl refl refl
      refl expired (few_jobs, tt)

completion-IsEarned_example : IsEarned env 3 7 anchors (drive env 3 7 anchors crashed_store).1
unfolding lookup
completion-IsEarned_example =
    completion-IsEarned env 3 7 anchors crashed_store
      ((drive-Completes 3 7 anchors env crashed-IsSmooth).at crashed_store
        (record { status = refl; rest = (few_jobs, tt) })).0

abbrev calls : List LeaseCall
calls = to_acquire 3 200500 12 ∷ to_beat 200600 12 ∷ to_release 13 ∷ []

lease_excludes_example :
    acquire 3 200800 13 (answers calls (acquire 3 200000 11 crashed_store).1)
    ≡ (false, answers calls (acquire 3 200000 11 crashed_store).1)
unfolding acquire is_live
lease_excludes_example =
    lease_excludes 3 200000 11 calls crashed_store refl
      ((ground arith, ground arith), (ground arith, (ground arith, tt))) 3 200800 13 (ground arith)
      (ground arith)
