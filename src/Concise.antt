-- ===== src/Concise.antt =====
-- The batcher's encoding of its inputs: packages/paima-sdk/paima-concise/src/batcher.ts.
pub mod Batch
pub mod Split
pub mod Value
pub mod Builder
pub mod Consumer
pub mod Coding
pub mod Fill
pub mod Round
mod Tests
