-- ===== src/Cde.antt =====
-- The primitives: what their datums write, and the tables that hold it. packages/node-sdk/paima-sm/src,
-- the files cde-*.ts, and the queries of packages/node-sdk/paima-db/src/sql.
pub mod Datum
pub mod Update
pub mod Host
pub mod Rows
pub mod Cardano
pub mod Tables
pub mod Transition
pub mod Erc20
pub mod Erc721
pub mod Erc1155
pub mod Engine
mod Tests
