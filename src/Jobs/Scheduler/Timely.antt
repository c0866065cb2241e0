-- ===== src/Jobs/Scheduler/Timely.antt =====
-- Which jobs a tick fires, and how many.
use mathlib.Core.List.{Memᴰ}
use discord_personality_bot.Base.{
  ℕ, zero, suc, ◌≤◌, ◌≡◌, refl, inl, inr, arith, true, false, Bool-cases, List, [], ◌∷◌,
  if◌then◌else◌,
}
use discord_personality_bot.Base.Lists.{length, All, keep, keep-All, All-keep, All-both, members}
use discord_personality_bot.Base.Sort.{sort, sort-All}
use discord_personality_bot.Jobs.Scheduler.{
  Job, is_expired, is_pending, due_before, first-All, pending_jobs, Opportunity, opportunity,
  Conditions, holds, is_condition, is_due, timed_verdict, verdict, mark_each, visit, tick,
}

visit-length :
    (conditions : Conditions) (now left : ℕ) (todo jobs : List Job)
    → length (visit conditions now left todo jobs).0 ≤ left
unfolding visit
visit-length conditions now left [] jobs = omega arith
visit-length conditions now zero (job ∷ todo) jobs = omega arith
visit-length conditions now (suc left) (job ∷ todo) jobs =
    let jobs' = mark_each job.job_id (verdict conditions now job).marks now jobs in
    elim (Bool-cases (verdict conditions now job).fires) [
      | inl e ↦ rw e (omega (arith, visit-length conditions now left todo jobs'))
      | inr e ↦ rw e (visit-length conditions now (suc left) todo jobs')
    ]

-- The job may be fired: it is pending, it has not expired, and its moment or its condition has come.
pub record IsReady (conditions : Conditions) (now : ℕ) (o : Opportunity) (job : Job) : Type 0 where
  pub same : o.job_id ≡ job.job_id
  pub waiting : is_pending job ≡ true
  pub current : is_expired now job ≡ false
  pub moment :
      (if is_condition job.job_class then holds conditions job.job_type now else is_due now job)
      ≡ true

-- A job of the table that is pending.
abbrev pub IsWaiting : List Job → Job → Type 0
IsWaiting jobs j = (is_pending j ≡ true) × Memᴰ j jobs

pub pending_jobs-IsWaiting :
    (limit : ℕ) (jobs : List Job) → All (IsWaiting jobs) (pending_jobs limit jobs)
unfolding pending_jobs
pending_jobs-IsWaiting limit jobs =
    first-All (IsWaiting jobs) limit (sort due_before (keep is_pending jobs)) (
      sort-All due_before (IsWaiting jobs) (keep is_pending jobs) (
        All-both (λ j. is_pending j ≡ true) (λ j. Memᴰ j jobs) (keep is_pending jobs)
          (keep-All is_pending jobs) (All-keep (λ j. Memᴰ j jobs) is_pending jobs (members jobs))))

verdict-fires :
    (conditions : Conditions) (now : ℕ) (job : Job)
    → is_pending job ≡ true
    → (verdict conditions now job).fires ≡ true
    → IsReady conditions now (opportunity now job) job
unfolding verdict timed_verdict opportunity
verdict-fires conditions now job w h = record {
  same = refl;
  waiting = w;
  current = ground arith;
  moment = ground arith;
}

visit-IsReady :
    (conditions : Conditions) (now left : ℕ) (table todo jobs : List Job)
    → All (IsWaiting table) todo
    → All
        (λ o. (j : Job) × Memᴰ j table × IsReady conditions now o j)
        (visit conditions now left todo jobs).0
unfolding visit
visit-IsReady conditions now left table [] jobs h = tt
visit-IsReady conditions now zero table (job ∷ todo) jobs h = tt
visit-IsReady conditions now (suc left) table (job ∷ todo) jobs h =
    let jobs' = mark_each job.job_id (verdict conditions now job).marks now jobs in
    elim (Bool-cases (verdict conditions now job).fires) [
      | inl e ↦ rw e (
        (job, h.0.1, verdict-fires conditions now job h.0.0 e),
        visit-IsReady conditions now left table todo jobs' h.1,
      )
      | inr e ↦ rw e (visit-IsReady conditions now (suc left) table todo jobs' h.1)
    ]

-- A tick makes at most as many opportunities as the policy allows, and each is for a job of the
-- table that is pending, that has not expired, and whose moment has come, or whose condition
-- holds.
pub tick_timely :
    (conditions : Conditions) (max_opportunities now : ℕ) (jobs : List Job)
    → (length (tick conditions max_opportunities now jobs).0 ≤ max_opportunities)
      × All
          (λ o. (j : Job) × Memᴰ j jobs × IsReady conditions now o j)
          (tick conditions max_opportunities now jobs).0
unfolding tick
tick_timely conditions max_opportunities now jobs = (
  visit-length conditions now max_opportunities (pending_jobs 200 jobs) jobs,
  visit-IsReady conditions now max_opportunities jobs (pending_jobs 200 jobs) jobs
      (pending_jobs-IsWaiting 200 jobs),
)
