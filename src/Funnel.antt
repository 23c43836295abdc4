-- ===== src/Funnel.antt =====
-- The block funnels of packages/node-sdk/paima-funnel.
pub mod Search
pub mod Grouping
pub mod Mapping
pub mod Emulated
pub mod Compose
pub mod Namespaces
pub mod L2
mod Tests
