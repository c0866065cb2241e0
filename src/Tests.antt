-- ===== src/Tests.antt =====
-- Examples: concrete proposals, events and worlds, the code run on them, and each theorem applied.
mod Cases
mod Arbitrating
mod Processing
mod Delivering
mod Managing
mod Identifying
mod Scheduling
mod Storing
mod Contacting
mod Booting
mod Growing
mod Valuing
mod Consolidating
mod Drifting
mod Mirroring
mod Living
mod Deciding
mod Registering
mod Remembering
