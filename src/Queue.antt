-- ===== src/Queue.antt =====
-- The leased queue of crates/tgin-runtime/src/queue.rs.
pub mod Types
pub mod Inner
pub mod Ops
pub mod Returns
pub mod Inv
pub mod Loops
pub mod Lease
pub mod Reserve
pub mod Methods
pub mod Held
pub mod Expire
pub mod Ack
pub mod World
mod Tests
