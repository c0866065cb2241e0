-- ===== src/Jobs/Scheduler/Restart.antt =====
-- What the recovery at a restart retires, and what it leaves.
use mathlib.Core.List.{Memᴰ}
use discord_personality_bot.Base.{
  ◌∙◌, ℕ, ◌≡◌, ◌≢◌, refl, inl, inr, arith, Bool, true, false, Bool-cases, List, [], ◌∷◌, nat_beq,
}
use discord_personality_bot.Base.Lists.{All, All-mem, All-mono, keep}
use discord_personality_bot.Jobs.Scheduler.Timely.{IsWaiting, pending_jobs-IsWaiting}
use discord_personality_bot.Jobs.Scheduler.Once.{
  IsSettled, mark-IsSettled, mark-settles, expired_final,
}
use discord_personality_bot.Jobs.Scheduler.{
  Job, JobStatus, pending, expired, is_pending, mark, pending_jobs, is_past, retire, restore,
}

retire-IsSettled :
    (test : Job → Bool) (now i : ℕ) (todo jobs : List Job)
    → IsSettled i jobs
    → IsSettled i (retire test now todo jobs).1
unfolding retire
retire-IsSettled test now i [] jobs h = h
retire-IsSettled test now i (j ∷ todo) jobs h = elim (Bool-cases (test j)) [
  | inl e ↦ rw e (
      retire-IsSettled test now i todo (mark j.job_id expired now jobs)
        (mark-IsSettled i j.job_id expired now jobs expired_final h))
  | inr e ↦ rw e (retire-IsSettled test now i todo jobs h)
]

-- Each job of the list that is past is settled in the table.
abbrev pub AreRetired : (Job → Bool) → List Job → List Job → Type 0
AreRetired test todo jobs = All (λ j. test j ≡ true → IsSettled j.job_id jobs) todo

retire_past :
    (test : Job → Bool) (now : ℕ) (j : Job) (todo jobs : List Job)
    → test j ≡ true
    → (retire test now (j ∷ todo) jobs).1
      ≡ (retire test now todo (mark j.job_id expired now jobs)).1
unfolding retire
retire_past test now j todo jobs e = rw e refl

retire_current :
    (test : Job → Bool) (now : ℕ) (j : Job) (todo jobs : List Job)
    → test j ≡ false
    → (retire test now (j ∷ todo) jobs).1 ≡ (retire test now todo jobs).1
unfolding retire
retire_current test now j todo jobs e = rw e refl

pub retire-AreRetired :
    (test : Job → Bool) (now : ℕ) (todo jobs table : List Job)
    → table ≡ (retire test now todo jobs).1
    → AreRetired test todo table
retire-AreRetired test now [] jobs table t = tt
retire-AreRetired test now (j ∷ todo) jobs table t = elim (Bool-cases (test j)) [
  | inl e ↦
      let jobs' = mark j.job_id expired now jobs in
      let t' = t ∙ retire_past test now j todo jobs e in
      (
        (λ p. rw t' (
            retire-IsSettled test now j.job_id todo jobs'
              (mark-settles j.job_id expired now jobs expired_final))),
        retire-AreRetired test now todo jobs' table t',
      )
  | inr e ↦ (
    (λ p. cc (e, p)),
    retire-AreRetired test now todo jobs table (t ∙ retire_current test now j todo jobs e),
  )
]

-- The rows of a job.
abbrev pub rows_of : ℕ → List Job → List Job
rows_of i jobs = keep (λ (j : Job). nat_beq j.job_id i) jobs

not_both : (a k i : ℕ) → nat_beq a k ≡ true → k ≢ i → nat_beq a i ≡ false
not_both a k i e n = ground arith

mark-rows_of :
    (i k : ℕ) (s : JobStatus) (now : ℕ) (jobs : List Job)
    → k ≢ i
    → rows_of i (mark k s now jobs) ≡ rows_of i jobs
unfolding mark keep
mark-rows_of i k s now [] n = refl
mark-rows_of i k s now (j ∷ jobs) n = elim (Bool-cases (nat_beq j.job_id k)) [
  | inl e ↦
      let other = not_both j.job_id k i e n in rw (e, other, mark-rows_of i k s now jobs n) refl
  | inr e ↦ rw (e, mark-rows_of i k s now jobs n) refl
]

retire-rows_of :
    (test : Job → Bool) (now i : ℕ) (todo jobs : List Job)
    → All (λ j. test j ≡ true → j.job_id ≢ i) todo
    → rows_of i (retire test now todo jobs).1 ≡ rows_of i jobs
unfolding retire
retire-rows_of test now i [] jobs h = refl
retire-rows_of test now i (j ∷ todo) jobs h = elim (Bool-cases (test j)) [
  | inl e ↦
      rw
        (
          e,
          retire-rows_of test now i todo (mark j.job_id expired now jobs) h.1,
          mark-rows_of i j.job_id expired now jobs (h.0 e),
        )
        refl
  | inr e ↦ rw e (retire-rows_of test now i todo jobs h.1)
]

not_pending : (j : Job) → j.status ≢ pending → is_pending j ≡ false
unfolding is_pending
not_pending j n = ground arith

settled_rows : (i : ℕ) (jobs : List Job) → IsSettled i jobs → keep is_pending (rows_of i jobs) ≡ []
unfolding keep is_pending
settled_rows i [] h = refl
settled_rows i (j ∷ jobs) h = elim (Bool-cases (nat_beq j.job_id i)) [
  | inl e ↦ rw (e, not_pending j (h.0 (ground (arith, e)))) (settled_rows i jobs h.1)
  | inr e ↦ rw e (settled_rows i jobs h.1)
]

-- After the recovery of a restart, no row is pending for a job that has expired or whose window,
-- with the grace, is over, if it was among the first 500 pending jobs.
pub restore_retires :
    (grace now : ℕ) (jobs : List Job) (j : Job)
    → Memᴰ j (pending_jobs 500 jobs)
    → is_past grace now j ≡ true
    → keep is_pending (rows_of j.job_id (restore grace now jobs).1) ≡ []
unfolding restore
restore_retires grace now jobs j m p =
    let table = (restore grace now jobs).1 in
    settled_rows j.job_id table (
      All-mem (λ (k : Job). is_past grace now k ≡ true → IsSettled k.job_id table) j
        (pending_jobs 500 jobs)
        (retire-AreRetired (is_past grace now) now (pending_jobs 500 jobs) jobs table refl) m p)

-- The recovery of a restart leaves the rows of an identifier as they were, if no pending job of
-- the table that has expired or whose window, with the grace, is over has this identifier.
pub restore_leaves :
    (grace now i : ℕ) (jobs : List Job)
    → ((j : Job) → Memᴰ j jobs → is_pending j ≡ true → is_past grace now j ≡ true → j.job_id ≢ i)
    → rows_of i (restore grace now jobs).1 ≡ rows_of i jobs
unfolding restore
restore_leaves grace now i jobs h =
    retire-rows_of (is_past grace now) now i (pending_jobs 500 jobs) jobs (
      All-mono (IsWaiting jobs) (λ j. is_past grace now j ≡ true → j.job_id ≢ i)
        (pending_jobs 500 jobs) (λ j w p. h j w.1 w.0 p) (pending_jobs-IsWaiting 500 jobs))
