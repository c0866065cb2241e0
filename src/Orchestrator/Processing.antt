-- ===== src/Orchestrator/Processing.antt =====
-- What holds of the processing of an event (app/orchestrator/processor.py).
pub mod Atomic
pub mod Typed
pub mod Undisturbed
pub mod Showing
pub mod Endings
