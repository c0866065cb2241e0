-- ===== src/State/Committed.antt =====
-- What committing does to the state: the calls around it leave the values alone, the changes of a
-- current snapshot are written without a race, and what is then stored is what the snapshot shows.
pub mod Quiet
pub mod Current
pub mod Writing
pub mod Commits
pub mod Races
