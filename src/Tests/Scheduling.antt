-- ===== src/Tests/Scheduling.antt =====
-- A tick over a late, an open and a closed job.
use discord_personality_bot.Base.{◌≢◌, ltb, none, List, [], ◌∷◌}
use discord_personality_bot.Base.Lists.{All}
use discord_personality_bot.Jobs.Scheduler.{
  Job, run_once, schedule_fixed, schedule_window, schedule_condition, Opportunity, Conditions, tick,
}
use discord_personality_bot.Jobs.Scheduler.Once.{tick_once}

abbrev conditions : Conditions
conditions = ("idle", λ now. ltb 50 now) ∷ []

abbrev jobs : List Job
jobs =
    schedule_fixed 1 "diary" 90 "P4" run_once none 0
    ∷ schedule_window 2 "walk" 10 20 "P5" 0
    ∷ schedule_condition 3 "idle" "P5" 0
    ∷ []

tick_once_example :
    let made = tick conditions 5 100 jobs in
    All
      (λ (o : Opportunity).
        All (λ (p : Opportunity). p.job_id ≢ o.job_id) (tick conditions 5 101 made.1).0)
      made.0
tick_once_example = tick_once conditions 5 100 101 jobs
