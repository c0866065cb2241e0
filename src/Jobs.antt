-- ===== src/Jobs.antt =====
-- Scheduled work (app/jobs).
pub mod Scheduler
pub mod Proactive
