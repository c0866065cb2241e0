-- ===== src/Storage.antt =====
-- The database (app/storage): its tables, its transactions, and the repositories over them.
pub mod Tables
pub mod Database
pub mod StateTable
pub mod Deliveries
pub mod Delivering
pub mod Recovery
pub mod Runs
pub mod EventTable
pub mod Effects
pub mod Recording
pub mod Atomic
