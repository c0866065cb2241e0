-- ===== src/Reliability.antt =====
-- Admission of work to the one local model (app/reliability).
pub mod Resources
