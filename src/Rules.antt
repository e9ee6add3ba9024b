-- ===== src/Rules.antt =====
-- Routing rules: crates/tgin-core/src/rules.
pub mod Spec
pub mod Schedule
pub mod Table
pub mod Targets
pub mod Walk
pub mod Written
pub mod Compile
pub mod Route
pub mod ChatTypes
pub mod Scratch
pub mod Shape
pub mod Compiled
pub mod Arena
pub mod Delivery
pub mod Patterns
pub mod TextMatchers
pub mod Rooted
pub mod Faithful
pub mod InOrder
pub mod Sources
pub mod Origins
pub mod Routing
pub mod Errors
pub mod Reuse
pub mod Balance
pub mod Fair
pub mod Gcd
pub mod Examples
mod Tests
