-- ===== src/Admission.antt =====
-- Admission: crates/tgin-core/src/admission.rs, and the parts of crates/tgin-core/src/engine.rs that it uses.
pub mod Slots
pub mod Reserving
pub mod Seen
pub mod Passes
pub mod Outcome
mod Tests
