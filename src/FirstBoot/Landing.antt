-- ===== src/FirstBoot/Landing.antt =====
-- `_land` and `_final_consistency` of app/firstboot/orchestrator.py: the world is brought from the
-- simulated past to the present, and then it is checked that it has arrived.
use discord_personality_bot.Base.{
  ℕ, zero, suc, ◌+◌, ◌-◌, ◌*◌, String, Bool, true, false, not, ◌&&◌, Option, none, some, List, [],
  ◌∷◌, ◌++◌, ltb, leb, Result, ok, raised, if◌then◌else◌,
}
use discord_personality_bot.Base.Int.{pos}
use discord_personality_bot.Base.Lists.{keep}
use discord_personality_bot.Number.{Float, fin, float_lt}
use discord_personality_bot.Jobs.Scheduler.{Job, retire, pending_jobs}
use discord_personality_bot.FirstBoot.Store.{LifeAnchors, Exec}

-- A value of the domain `emotion`.
pub record Emotion : Type 0 where
  pub numeric : Option Float
  pub updated_at : ℕ

-- What the other tables hold: the months of each year of the life record, the experiences, the
-- memories, what she is doing, and her emotions.
pub record Facts : Type 0 where
  pub months : List ℕ
  pub experiences : ℕ
  pub memories : ℕ
  pub has_activity : Bool
  pub is_asleep : Bool
  pub emotions : List Emotion

-- `job.due_at is not None and job.due_at <= present`
unfoldable pub is_overdue : ℕ → Job → Bool
is_overdue present job = elim job.due_at [ none ↦ false | some due ↦ leb due present ]

-- `_land`, which may raise with the jobs partly retired.
unfoldable pub land : Option (String × List Job) → LifeAnchors → Exec (Result String ℕ)
land fault anchors s = elim fault [
  | some (e, jobs) ↦ (raised e, record s { jobs = jobs })
  | none ↦
      let (retired, jobs') =
        retire (is_overdue anchors.present_datetime) anchors.present_datetime
          (pending_jobs 1000 s.jobs) s.jobs in
      (
        ok retired,
        record s {
          jobs = jobs';
          life_day = elim s.life_day [ none ↦ some anchors.present_datetime | some day ↦ some day ];
        },
      )
]

unfoldable pub total : List ℕ → ℕ
total [] = 0
total (m ∷ ms) = m + total ms

abbrev when : Bool → String → List String
when true problem = problem ∷ []
when false problem = []

abbrev is_nil {ℓ} : {A : Type ℓ} → List A → Bool
is_nil [] = true
is_nil (x ∷ xs) = false

abbrev is_zero : ℕ → Bool
is_zero zero = true
is_zero (suc n) = false

-- More than 0.85, and older than 365 whole days.
unfoldable pub is_stale : ℕ → Emotion → Bool
is_stale present emotion = elim emotion.numeric [
  | none ↦ false
  | some x ↦ float_lt (fin (pos 850000000)) x && leb (366 * 86400) (present - emotion.updated_at)
]

unfoldable pub stale_emotions : ℕ → List Emotion → List String
unfolding is_stale
stale_emotions present [] = []
stale_emotions present (e ∷ es) =
    let rest = stale_emotions present es in
    if is_stale present e then "an emotion of the simulated past" ∷ rest else rest

unfoldable pub overdue_jobs : ℕ → List Job → List Job
unfolding keep is_overdue
overdue_jobs present jobs = keep (is_overdue present) (pending_jobs 1000 jobs)

unfoldable pub day_problems : ℕ → Option ℕ → List String
day_problems present none = "no life day is open" ∷ []
day_problems present (some started_at) =
    when (ltb started_at present) "the open life day starts before first boot"

-- `_final_consistency`
unfoldable pub final_consistency : Facts → LifeAnchors → Exec (List String)
unfolding total stale_emotions overdue_jobs day_problems
final_consistency facts anchors s = (
  when (is_nil facts.months) "the life record has no years"
      ++ (when (is_zero (total facts.months)) "the life record has no months"
          ++ (when (is_zero facts.experiences) "no experience was extracted from the whole life"
              ++ (when (is_zero facts.memories) "she remembers nothing of it"
                  ++ (when facts.has_activity "an activity from the simulated past is still ongoing"
                      ++ (when facts.is_asleep "she is still asleep in the simulated past"
                          ++ (stale_emotions anchors.present_datetime facts.emotions
                              ++ (when (not (is_nil (overdue_jobs anchors.present_datetime s.jobs)))
                                    "scheduled jobs are still due in the simulated past"
                                  ++ day_problems anchors.present_datetime s.life_day))))))),
  s,
)
