-- ===== src/Runtime.antt =====
-- The runtime's loops: packages/node-sdk/paima-runtime.
pub mod Nonces
pub mod Presync
pub mod Sync
mod Tests
