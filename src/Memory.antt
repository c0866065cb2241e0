-- ===== src/Memory.antt =====
-- app/memory: how a memory comes to mind, and what that does to it.
pub mod Tokens
pub mod Relevance
pub mod Selection
pub mod Gate
pub mod Conservation
pub mod Practice
