-- ===== src/Wallet.antt =====
-- Wallets, their fixed identifiers and the delegations between them:
-- packages/node-sdk/paima-db/src/delegate-wallet.ts and
-- packages/node-sdk/paima-sm/src/delegate-wallet.ts.
pub mod Tables
pub mod Lookup
pub mod Commands
pub mod Process
mod Tests
