-- ===== src/Jobs/Scheduler.antt =====
-- app/jobs/scheduler.py, with the jobs of app/world/models.py and their table
-- (app/storage/repositories/world.py). A tick makes opportunities and executes nothing. The detail
-- and the urgency, which the payload gives, are left out; the predicates of condition jobs are
-- parameters.
pub mod Timely
pub mod Once
pub mod Restart
pub mod Windows
use discord_personality_bot.Base.{
  ℕ, zero, suc, ◌+◌, String, Bool, true, false, not, ◌&&◌, ◌||◌, Option, none, some, List, [], ◌∷◌,
  ◌++◌, ltb, leb, nat_beq, text_test, if◌then◌else◌,
}
use discord_personality_bot.Base.Lists.{All, keep}
use discord_personality_bot.Base.Dict.{Dict, lookup}
use discord_personality_bot.Base.Sort.{sort}

pub data JobClass : Type 0 where
  fixed window condition background : JobClass

pub data JobStatus : Type 0 where
  pending fired expired misfired cancelled : JobStatus

pub data MisfirePolicy : Type 0 where
  skip run_once reschedule : MisfirePolicy

-- `ScheduledJob`
pub record Job : Type 0 where
  pub job_id : ℕ
  pub job_type : String
  pub job_class : JobClass
  pub due_at : Option ℕ
  pub window_end : Option ℕ
  pub priority : String
  pub status : JobStatus
  pub misfire_policy : MisfirePolicy
  pub expires_at : Option ℕ
  pub created_at : ℕ
  pub updated_at : ℕ
  pub last_fired_at : Option ℕ
  pub attempts : ℕ

unfoldable pub is_expired : ℕ → Job → Bool
is_expired now job = elim job.expires_at [ none ↦ false | some end ↦ leb end now ]

unfoldable pub missed_window : ℕ → Job → Bool
missed_window now job = elim job.window_end [ none ↦ false | some end ↦ ltb end now ]

pub record Opportunity : Type 0 where
  pub kind : String
  pub job_id : ℕ
  pub created_at : ℕ

-- `JobRepository.mark`
unfoldable pub mark : ℕ → JobStatus → ℕ → List Job → List Job
mark i status now [] = []
mark i status now (j ∷ jobs) =
    (if nat_beq j.job_id i
      then record j {
        status = status;
        updated_at = now;
        last_fired_at = some now;
        attempts = j.attempts + 1;
      }
      else j)
    ∷ mark i status now jobs

unfoldable pub is_pending : Job → Bool
is_pending j = elim j.status [ pending ↦ true | _ ↦ false ]

-- `ORDER BY due_at`, where a missing instant comes first.
abbrev pub due_before : Job → Job → Bool
due_before i j = elim i.due_at [
  | none ↦ elim j.due_at [ none ↦ false | some e ↦ true ]
  | some d ↦ elim j.due_at [ none ↦ false | some e ↦ ltb d e ]
]

unfoldable pub first {ℓ} : {A : Type ℓ} → ℕ → List A → List A
first zero jobs = []
first (suc n) [] = []
first (suc n) (j ∷ jobs) = j ∷ first n jobs

pub first-All {ℓ κ} :
    {A : Type ℓ} (P : A → Type κ) (n : ℕ) (xs : List A) → All P xs → All P (first n xs)
unfolding first
first-All P zero xs h = tt
first-All P (suc n) [] h = tt
first-All P (suc n) (x ∷ xs) h = (h.0, first-All P n xs h.1)

-- `JobRepository.pending`
unfoldable pub pending_jobs : ℕ → List Job → List Job
unfolding keep first is_pending
pending_jobs limit jobs = first limit (sort due_before (keep is_pending jobs))

-- `JobRepository.schedule`, with the arguments that the callers choose.
unfoldable pub schedule :
    ℕ → String → JobClass → Option ℕ → Option ℕ → String → MisfirePolicy → Option ℕ → ℕ → Job
schedule i job_type job_class due_at window_end priority misfire_policy expires_at now = record {
  job_id = i;
  job_type = job_type;
  job_class = job_class;
  due_at = due_at;
  window_end = window_end;
  priority = priority;
  status = pending;
  misfire_policy = misfire_policy;
  expires_at = expires_at;
  created_at = now;
  updated_at = now;
  last_fired_at = none;
  attempts = 0;
}

unfoldable pub schedule_fixed : ℕ → String → ℕ → String → MisfirePolicy → Option ℕ → ℕ → Job
unfolding schedule
schedule_fixed i job_type due_at priority misfire_policy expires_at now =
    schedule i job_type fixed (some due_at) none priority misfire_policy expires_at now

unfoldable pub schedule_window : ℕ → String → ℕ → ℕ → String → ℕ → Job
unfolding schedule
schedule_window i job_type opens_at closes_at priority now =
    schedule i job_type window (some opens_at) (some closes_at) priority skip (some closes_at) now

unfoldable pub schedule_background : ℕ → String → ℕ → ℕ → Job
unfolding schedule
schedule_background i job_type due_at now =
    schedule i job_type background (some due_at) none "P6" run_once none now

unfoldable pub schedule_condition : ℕ → String → String → ℕ → Job
unfolding schedule
schedule_condition i job_type priority now =
    schedule i job_type condition none none priority skip none now

-- What a tick does with one job: the statuses that it marks, in order, and whether it is fired.
pub record Verdict : Type 0 where
  pub marks : List JobStatus
  pub fires : Bool

abbrev verdict_of : List JobStatus → Bool → Verdict
verdict_of marks fires = record { marks = marks; fires = fires }

abbrev pub Conditions : Type 0
Conditions = Dict String (ℕ → Bool)

unfoldable pub holds : Conditions → String → ℕ → Bool
holds conditions job_type now = elim (lookup job_type conditions) [
  | none ↦ false
  | some test ↦ test now
]

unfoldable pub is_due : ℕ → Job → Bool
is_due now job = elim job.due_at [ none ↦ false | some due ↦ not (ltb now due) ]

abbrev pub runs_once : MisfirePolicy → Bool
runs_once run_once = true
runs_once _ = false

abbrev pub is_condition : JobClass → Bool
is_condition condition = true
is_condition _ = false

unfoldable pub timed_verdict : ℕ → Job → Verdict
unfolding is_due missed_window
timed_verdict now job =
    if not (is_due now job)
    then verdict_of [] false
    else if not (missed_window now job)
    then verdict_of (fired ∷ []) true
    else if runs_once job.misfire_policy
    then verdict_of (misfired ∷ fired ∷ []) true
    else verdict_of (expired ∷ []) false

unfoldable pub verdict : Conditions → ℕ → Job → Verdict
unfolding is_expired timed_verdict
verdict conditions now job =
    if is_expired now job
    then verdict_of (expired ∷ []) false
    else if not (is_condition job.job_class)
    then timed_verdict now job
    else if holds conditions job.job_type now
    then verdict_of (fired ∷ []) true
    else verdict_of [] false

unfoldable pub mark_each : ℕ → List JobStatus → ℕ → List Job → List Job
unfolding mark
mark_each i [] now jobs = jobs
mark_each i (s ∷ marks) now jobs = mark_each i marks now (mark i s now jobs)

unfoldable pub opportunity : ℕ → Job → Opportunity
opportunity now job = record { kind = job.job_type; job_id = job.job_id; created_at = now }

-- The loop of `tick`, with as many opportunities left as the policy allows.
unfoldable pub visit : Conditions → ℕ → ℕ → List Job → List Job → List Opportunity × List Job
unfolding mark_each opportunity
visit conditions now left [] jobs = ([], jobs)
visit conditions now zero (job ∷ rest) jobs = ([], jobs)
visit conditions now (suc left) (job ∷ rest) jobs =
    let v = verdict conditions now job in
    let jobs' = mark_each job.job_id v.marks now jobs in
    let (later, jobs'') = visit conditions now (if v.fires then left else suc left) rest jobs' in
    (if v.fires then opportunity now job ∷ later else later, jobs'')

-- `tick`
unfoldable pub tick : Conditions → ℕ → ℕ → List Job → List Opportunity × List Job
unfolding pending_jobs
tick conditions max_opportunities now jobs =
    visit conditions now max_opportunities (pending_jobs 200 jobs) jobs

-- `restore`
unfoldable pub is_past : ℕ → ℕ → Job → Bool
is_past grace now job =
    is_expired now job || elim job.window_end [ none ↦ false | some end ↦ ltb (end + grace) now ]

-- A loop over jobs, which are marked as expired where a test says so, and counted.
unfoldable pub retire : (Job → Bool) → ℕ → List Job → List Job → ℕ × List Job
retire test now [] jobs = (0, jobs)
retire test now (job ∷ rest) jobs =
    let past = test job in
    let (retired, jobs') =
      retire test now rest (if past then mark job.job_id expired now jobs else jobs) in
    (if past then suc retired else retired, jobs')

unfoldable pub restore : ℕ → ℕ → List Job → ℕ × List Job
restore grace now jobs = retire (is_past grace now) now (pending_jobs 500 jobs) jobs
