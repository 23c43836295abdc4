-- ===== src/Machine.antt =====
-- The state machine: packages/node-sdk/paima-sm.
pub mod State
pub mod Kept
pub mod Events
pub mod Inputs
pub mod Primitives
pub mod Scheduled
pub mod Randomness
pub mod Block
pub mod Examples
mod Tests
