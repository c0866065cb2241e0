-- ===== src/Orchestrator.antt =====
-- Processing of root events.
pub mod Outcome
pub mod RunLog
pub mod Processor
pub mod Processing
