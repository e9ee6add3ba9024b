-- ===== src/Consumer.antt =====
-- Consumers: crates/tgin-core/src/consumer.
pub mod Pull
pub mod Polls
pub mod Ends
mod Tests
