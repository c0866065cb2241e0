-- ===== src/Jobs/Scheduler/Once.antt =====
-- A job is fired once.
use mathlib.Core.List.{Memᴰ}
use discord_personality_bot.Base.{
  sym, ◌∙◌, ℕ, zero, suc, ◌≡◌, ◌≢◌, refl, inl, inr, arith, true, Bool-cases, List, [], ◌∷◌, nat_beq,
  if◌then◌else◌,
}
use discord_personality_bot.Base.Lists.{All, All-mem, All-mono}
use discord_personality_bot.Jobs.Scheduler.Timely.{IsReady, tick_timely}
use discord_personality_bot.Jobs.Scheduler.{
  cancelled, is_pending, Job, JobStatus, pending, fired, expired, misfired, mark, mark_each,
  Opportunity, opportunity, Conditions, Verdict, is_due, missed_window, is_expired, runs_once,
  is_condition, holds, timed_verdict, verdict, visit, pending_jobs, tick,
}

-- No row of this job is pending.
abbrev pub IsSettled : ℕ → List Job → Type 0
IsSettled i jobs = All (λ j. j.job_id ≡ i → j.status ≢ pending) jobs

pub mark-IsSettled :
    (i k : ℕ) (s : JobStatus) (now : ℕ) (jobs : List Job)
    → s ≢ pending
    → IsSettled i jobs
    → IsSettled i (mark k s now jobs)
unfolding mark
mark-IsSettled i k s now [] n h = tt
mark-IsSettled i k s now (j ∷ jobs) n h = elim (Bool-cases (nat_beq j.job_id k)) [
  | inl e ↦ rw e ((λ q. n), mark-IsSettled i k s now jobs n h.1)
  | inr e ↦ rw e (h.0, mark-IsSettled i k s now jobs n h.1)
]

pub mark-settles :
    (i : ℕ) (s : JobStatus) (now : ℕ) (jobs : List Job)
    → s ≢ pending
    → IsSettled i (mark i s now jobs)
unfolding mark
mark-settles i s now [] n = tt
mark-settles i s now (j ∷ jobs) n = elim (Bool-cases (nat_beq j.job_id i)) [
  | inl e ↦ rw e ((λ q. n), mark-settles i s now jobs n)
  | inr e ↦ rw e ((λ q. absurd (ground (arith, e, q))), mark-settles i s now jobs n)
]

-- No mark of a tick is `pending`.
abbrev AreFinal : List JobStatus → Type 0
AreFinal marks = All (λ s. s ≢ pending) marks

mark_each-IsSettled :
    (i k : ℕ) (marks : List JobStatus) (now : ℕ) (jobs : List Job)
    → AreFinal marks
    → IsSettled i jobs
    → IsSettled i (mark_each k marks now jobs)
unfolding mark_each
mark_each-IsSettled i k [] now jobs f h = h
mark_each-IsSettled i k (s ∷ marks) now jobs f h =
    mark_each-IsSettled i k marks now (mark k s now jobs) f.1 (mark-IsSettled i k s now jobs f.0 h)

fired_final : fired ≢ pending
fired_final h = cc h

pub expired_final : expired ≢ pending
expired_final h = cc h

misfired_final : misfired ≢ pending
misfired_final h = cc h

-- The marks are final, and there is one if the job fires.
abbrev IsSound : Verdict → Type 0
IsSound v = AreFinal v.marks × (v.fires ≡ true → v.marks ≢ [])

timed_verdict-IsSound : (now : ℕ) (job : Job) → IsSound (timed_verdict now job)
unfolding timed_verdict
timed_verdict-IsSound now job = elim (Bool-cases (is_due now job)) [
  | inr later ↦ rw later (tt, λ h. absurd (cc h))
  | inl due ↦ elim (Bool-cases (missed_window now job)) [
    | inr open_still ↦ rw (due, open_still) ((fired_final, tt), λ h q. cc q)
    | inl missed ↦ elim (Bool-cases (runs_once job.misfire_policy)) [
      | inl once ↦ rw (due, missed, once) ((misfired_final, (fired_final, tt)), λ h q. cc q)
      | inr never ↦ rw (due, missed, never) ((expired_final, tt), λ h. absurd (cc h))
    ]
  ]
]

verdict-IsSound :
    (conditions : Conditions) (now : ℕ) (job : Job) → IsSound (verdict conditions now job)
unfolding verdict
verdict-IsSound conditions now job = elim (Bool-cases (is_expired now job)) [
  | inl gone ↦ rw gone ((expired_final, tt), λ h. absurd (cc h))
  | inr current ↦ elim (Bool-cases (is_condition job.job_class)) [
    | inr timed ↦ rw (current, timed) (timed_verdict-IsSound now job)
    | inl asked ↦ elim (Bool-cases (holds conditions job.job_type now)) [
      | inl come ↦ rw (current, asked, come) ((fired_final, tt), λ h q. cc q)
      | inr wait ↦ rw (current, asked, wait) (tt, λ h. absurd (cc h))
    ]
  ]
]

mark_each-settles :
    (i : ℕ) (marks : List JobStatus) (now : ℕ) (jobs : List Job)
    → AreFinal marks
    → marks ≢ []
    → IsSettled i (mark_each i marks now jobs)
unfolding mark_each
mark_each-settles i [] now jobs f n = absurd (n refl)
mark_each-settles i (s ∷ marks) now jobs f n =
    mark_each-IsSettled i i marks now (mark i s now jobs) f.1 (mark-settles i s now jobs f.0)

visit-IsSettled :
    (conditions : Conditions) (now left i : ℕ) (todo jobs : List Job)
    → IsSettled i jobs
    → IsSettled i (visit conditions now left todo jobs).1
unfolding visit
visit-IsSettled conditions now left i [] jobs h = h
visit-IsSettled conditions now zero i (job ∷ todo) jobs h = h
visit-IsSettled conditions now (suc left) i (job ∷ todo) jobs h =
    let v = verdict conditions now job in
    visit-IsSettled conditions now (if v.fires then left else suc left) i todo
      (mark_each job.job_id v.marks now jobs)
      (mark_each-IsSettled i job.job_id v.marks now jobs (verdict-IsSound conditions now job).0 h)

visit-settles :
    (conditions : Conditions) (now left : ℕ) (todo jobs : List Job)
    → All
        (λ (o : Opportunity). IsSettled o.job_id (visit conditions now left todo jobs).1)
        (visit conditions now left todo jobs).0
unfolding visit
visit-settles conditions now left [] jobs = tt
visit-settles conditions now zero (job ∷ todo) jobs = tt
visit-settles conditions now (suc left) (job ∷ todo) jobs =
    let v = verdict conditions now job in
    let jobs' = mark_each job.job_id v.marks now jobs in
    let sound = verdict-IsSound conditions now job in
    elim (Bool-cases v.fires) [
      | inl e ↦ rw e (
        visit-IsSettled conditions now left job.job_id todo jobs'
            (mark_each-settles job.job_id v.marks now jobs sound.0 (sound.1 e)),
        visit-settles conditions now left todo jobs',
      )
      | inr e ↦ rw e (visit-settles conditions now (suc left) todo jobs')
    ]

-- After a tick no row of a job for which it made an opportunity is pending.
tick-settles :
    (conditions : Conditions) (max_opportunities now : ℕ) (jobs : List Job)
    → All
        (λ (o : Opportunity). IsSettled o.job_id (tick conditions max_opportunities now jobs).1)
        (tick conditions max_opportunities now jobs).0
unfolding tick opportunity
tick-settles conditions max_opportunities now jobs =
    visit-settles conditions now max_opportunities (pending_jobs 200 jobs) jobs

pending_status : (j : Job) (s : JobStatus) → j.status ≡ s → is_pending j ≡ true → s ≡ pending
unfolding is_pending
pending_status j pending e h = refl
pending_status j fired e h = cc (rw e at h)
pending_status j expired e h = cc (rw e at h)
pending_status j misfired e h = cc (rw e at h)
pending_status j cancelled e h = cc (rw e at h)

-- An opportunity for a settled job is not made again.
settled-apart :
    (conditions : Conditions) (now i : ℕ) (jobs : List Job) (o : Opportunity)
    → IsSettled i jobs
    → ((j : Job) × Memᴰ j jobs × IsReady conditions now o j)
    → o.job_id ≢ i
settled-apart conditions now i jobs o settled (j, m, r) same =
    All-mem (λ (k : Job). k.job_id ≡ i → k.status ≢ pending) j jobs settled m (sym r.same ∙ same)
      (pending_status j j.status refl r.waiting)

-- A tick at any later moment makes no opportunity for a job for which a tick made one.
pub tick_once :
    (conditions : Conditions) (max_opportunities now later : ℕ) (jobs : List Job)
    → let made = tick conditions max_opportunities now jobs in
      All
        (λ (o : Opportunity).
          All
            (λ (p : Opportunity). p.job_id ≢ o.job_id)
            (tick conditions max_opportunities later made.1).0)
        made.0
tick_once conditions max_opportunities now later jobs =
    let made = tick conditions max_opportunities now jobs in
    All-mono (λ (o : Opportunity). IsSettled o.job_id made.1) _ made.0
      (λ o settled.
        All-mono _ (λ (p : Opportunity). p.job_id ≢ o.job_id)
          (tick conditions max_opportunities later made.1).0
          (λ p r. settled-apart conditions later o.job_id made.1 p settled r)
          (tick_timely conditions max_opportunities later made.1).1)
      (tick-settles conditions max_opportunities now jobs)
