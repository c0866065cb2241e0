-- ===== src/FirstBoot/Landed.antt =====
-- After a landing nothing is due in the simulated past.
use mathlib.Core.List.{Memᴰ}
use discord_personality_bot.Base.{
  ℕ, zero, suc, ◌≤◌, ◌≡◌, ◌≢◌, refl, ap, inl, inr, arith, Bool, true, false, Bool-cases, List, [],
  ◌∷◌, nat_beq,
}
use discord_personality_bot.Base.Lists.{All, All-mem, All-mono, keep, length, members}
use discord_personality_bot.Base.Sort.{sort, sort-Memᴰ, length-sort}
use discord_personality_bot.Jobs.Scheduler.{
  Job, pending, expired, is_pending, mark, due_before, first, pending_jobs, retire,
}
use discord_personality_bot.Jobs.Scheduler.Once.{IsSettled}
use discord_personality_bot.Jobs.Scheduler.Restart.{retire-AreRetired}
use discord_personality_bot.Jobs.Scheduler.Timely.{IsWaiting, pending_jobs-IsWaiting}
use discord_personality_bot.FirstBoot.Landing.{is_overdue, overdue_jobs}

-- A pending row of a table is a row of another.
abbrev IsOld : List Job → Job → Type 0
IsOld jobs k = is_pending k ≡ true → Memᴰ k jobs

mark-IsOld :
    (i now : ℕ) (table jobs : List Job)
    → All (IsOld table) jobs
    → All (IsOld table) (mark i expired now jobs)
unfolding mark is_pending
mark-IsOld i now table [] h = tt
mark-IsOld i now table (j ∷ jobs) h = elim (Bool-cases (nat_beq j.job_id i)) [
  | inl e ↦ rw e ((λ q. cc q), mark-IsOld i now table jobs h.1)
  | inr e ↦ rw e (h.0, mark-IsOld i now table jobs h.1)
]

retire-IsOld :
    (test : Job → Bool) (now : ℕ) (table todo jobs : List Job)
    → All (IsOld table) jobs
    → All (IsOld table) (retire test now todo jobs).1
unfolding retire
retire-IsOld test now table [] jobs h = h
retire-IsOld test now table (j ∷ todo) jobs h = elim (Bool-cases (test j)) [
  | inl e ↦ rw e (
      retire-IsOld test now table todo (mark j.job_id expired now jobs)
        (mark-IsOld j.job_id now table jobs h))
  | inr e ↦ rw e (retire-IsOld test now table todo jobs h)
]

-- Nothing is cut off.
first_all : (n : ℕ) (jobs : List Job) → length jobs ≤ n → first n jobs ≡ jobs
unfolding first
first_all zero [] h = refl
first_all zero (j ∷ jobs) h = absurd (omega arith)
first_all (suc n) [] h = refl
first_all (suc n) (j ∷ jobs) h = ap (λ js. j ∷ js) (first_all n jobs (omega arith))

keep-Memᴰ :
    (test : Job → Bool) (k : Job) (jobs : List Job)
    → Memᴰ k jobs
    → test k ≡ true
    → Memᴰ k (keep test jobs)
unfolding keep
keep-Memᴰ test k [] m h = elim m [ ]
keep-Memᴰ test k (j ∷ jobs) (Memᴰ.head e) h = rw (← e, h) (Memᴰ.head refl)
keep-Memᴰ test k (j ∷ jobs) (Memᴰ.tail m) h = elim (Bool-cases (test j)) [
  | inl p ↦ rw p (Memᴰ.tail (keep-Memᴰ test k jobs m h))
  | inr p ↦ rw p (keep-Memᴰ test k jobs m h)
]

pending_jobs-Memᴰ :
    (n : ℕ) (k : Job) (jobs : List Job)
    → length (keep is_pending jobs) ≤ n
    → Memᴰ k jobs
    → is_pending k ≡ true
    → Memᴰ k (pending_jobs n jobs)
unfolding pending_jobs
pending_jobs-Memᴰ n k jobs short m h =
    let few = keep is_pending jobs in
    rw (first_all n (sort due_before few) (omega (arith, length-sort due_before few, short)))
      (sort-Memᴰ due_before k few (keep-Memᴰ is_pending k jobs m h))

-- What the test finds is pending no longer.
abbrev IsSpared : (Job → Bool) → Job → Type 0
IsSpared test k = is_pending k ≡ true → test k ≡ false

settled_pending :
    (table : List Job) (k : Job) → Memᴰ k table → IsSettled k.job_id table → is_pending k ≡ false
unfolding is_pending
settled_pending table k m h =
    let n = All-mem (λ (j : Job). j.job_id ≡ k.job_id → j.status ≢ pending) k table h m refl in
    ground (arith, n)

retire-IsSpared :
    (test : Job → Bool) (now n : ℕ) (jobs : List Job)
    → length (keep is_pending jobs) ≤ n
    → (k : Job) → Memᴰ k (retire test now (pending_jobs n jobs) jobs).1
    → IsSpared test k
retire-IsSpared test now n jobs short k m h = elim (Bool-cases (test k)) [
  | inr p ↦ p
  | inl p ↦
      let todo = pending_jobs n jobs in
      let table = (retire test now todo jobs).1 in
      let old =
        All-mem (IsOld jobs) k table
          (retire-IsOld test now jobs todo jobs
            (All-mono (λ j. Memᴰ j jobs) (IsOld jobs) jobs (λ j m q. m) (members jobs)))
          m h in
      let gone =
        All-mem (λ (j : Job). test j ≡ true → IsSettled j.job_id table) k todo
          (retire-AreRetired test now todo jobs table refl) (pending_jobs-Memᴰ n k jobs short old h)
          p in
      cc (settled_pending table k m gone, h)
]

keep_none :
    (test : Job → Bool) (jobs : List Job) → All (λ k. test k ≡ false) jobs → keep test jobs ≡ []
unfolding keep
keep_none test [] h = refl
keep_none test (j ∷ jobs) h = rw h.0 (keep_none test jobs h.1)

-- Where at most 1000 jobs are pending, the loop of the landing leaves no job pending that is due
-- at the present, among those that the final check looks at.
pub landing_clears :
    (present : ℕ) (jobs : List Job)
    → length (keep is_pending jobs) ≤ 1000
    → overdue_jobs present (retire (is_overdue present) present (pending_jobs 1000 jobs) jobs).1
      ≡ []
unfolding overdue_jobs
landing_clears present jobs short =
    let table = (retire (is_overdue present) present (pending_jobs 1000 jobs) jobs).1 in
    keep_none (is_overdue present) (pending_jobs 1000 table) (
      All-mono (IsWaiting table) (λ k. is_overdue present k ≡ false) (pending_jobs 1000 table)
        (λ k w. retire-IsSpared (is_overdue present) present 1000 jobs short k w.1 w.0)
        (pending_jobs-IsWaiting 1000 table))
