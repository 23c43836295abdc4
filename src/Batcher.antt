-- ===== src/Batcher.antt =====
-- The batcher, which takes inputs of users and posts them in batches: packages/batcher.
pub mod Keyed
pub mod Limits
pub mod Store
pub mod Submit
pub mod Handlers
pub mod Rounds
pub mod States
pub mod Queue
pub mod Sound
pub mod Submitted
pub mod Posting
pub mod Batches
pub mod Posted
pub mod Reach
pub mod Drain
mod Tests
