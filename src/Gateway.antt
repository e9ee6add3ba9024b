-- ===== src/Gateway.antt =====
-- The gateway of crates/tgin-botapi/src/gateway.
pub mod Path
pub mod Parsed
mod Tests
