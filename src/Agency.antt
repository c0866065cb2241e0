-- ===== src/Agency.antt =====
-- app/agency: what she does by habit, what she wants, and what she decides.
pub mod Habits
pub mod Decision
