-- ===== src/Consolidation.antt =====
-- Consolidation (app/consolidation): evidence of many events becomes a small change of who she is.
pub mod Dynamics
pub mod Candidates
pub mod Gate
pub mod Ledger
pub mod Growth
pub mod Values
pub mod Shifts
pub mod Adaptations
pub mod Scanning
pub mod Job
pub mod Drift
pub mod Mirror
