-- ===== src/Jobs/Scheduler/Windows.antt =====
-- A job that is valid across a span.
use discord_personality_bot.Base.{ℕ, ◌≡◌, arith, String, ◌&&◌, [], ◌∷◌, leb, ltb, if◌then◌else◌}
use discord_personality_bot.Jobs.Scheduler.{
  fired, expired, schedule, schedule_window, is_due, missed_window, is_expired, Conditions,
  timed_verdict, verdict,
}

-- A tick fires a window job from the instant at which the window opens until just before the one
-- at which it closes; from then on it marks the job as expired, and never as misfired.
pub window_verdict :
    (conditions : Conditions) (i : ℕ) (job_type : String) (opens_at closes_at : ℕ)
    (priority : String) (created now : ℕ)
    → let job = schedule_window i job_type opens_at closes_at priority created in
      let v = verdict conditions now job in
      (v.fires ≡ leb opens_at now && ltb now closes_at)
      × (v.marks ≡ (
          if leb closes_at now then expired ∷ [] else if leb opens_at now then fired ∷ [] else []))
unfolding schedule_window schedule verdict timed_verdict is_expired is_due missed_window
window_verdict conditions i job_type opens_at closes_at priority created now =
    (ground arith, ground arith)
