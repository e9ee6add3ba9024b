-- ===== src/Limit.antt =====
-- The rate limiters of crates/tgin-runtime/src/limit.rs.
pub mod Quota
pub mod Keyed
pub mod Conform
pub mod Undo
pub mod Stale
mod Tests
