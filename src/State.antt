-- ===== src/State.antt =====
-- The state of the personality: values, who may write them, how proposals are arbitrated.
pub mod Value
pub mod Ownership
pub mod Layers
pub mod Policy
pub mod Proposal
pub mod Snapshot
pub mod Payload
pub mod Arbitrator
pub mod Arbitration
pub mod Committer
pub mod Committed
