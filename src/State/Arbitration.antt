-- ===== src/State/Arbitration.antt =====
-- What holds of the arbitrator (app/state/arbitrator.py).
pub mod Merging
pub mod Provenance
pub mod Returning
pub mod Limits
pub mod Order
pub mod Accounting
pub mod Authority
