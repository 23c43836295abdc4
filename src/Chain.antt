-- ===== src/Chain.antt =====
-- The data that the funnels hand to the state machine: packages/paima-sdk/paima-chain-types/src/types.ts
-- and the first part of packages/node-sdk/paima-sm/src/types.ts. The payloads of the primitives'
-- datums are a parameter `D` of the types: the code here only passes them on.
pub mod Hash
use paima_engine.Base.{ℕ, String, Bool, Option, List}

-- `origin` of `SubmittedData`; `none` is null.
pub record Origin : Type 0 where
  pub tx_hash : Option String
  pub caip2 : Option String
  pub contract_address : Option String
  pub primitive_name : Option String
  pub scheduled_at_ms : Option ℕ

-- `supplied_value` is a decimal text in the source, and the number that it denotes here.
pub record SubmittedData : Type 0 where
  pub real_address : String
  pub input_data : String
  pub input_nonce : String
  pub supplied_value : ℕ
  pub scheduled : Bool
  pub origin : Origin

pub data InternalEvent : Type 0 where
  cardano_best_epoch : ℕ → InternalEvent
  evm_last_block avail_last_block midnight_last_block : ℕ → String → InternalEvent
  mina_last_timestamp : String → String → InternalEvent

-- The timestamp is in seconds.
pub record ChainData (D : Type 0) : Type 0 where
  pub timestamp : ℕ
  pub block_hash : String
  pub block_number : ℕ
  pub submitted_data : List SubmittedData
  pub extension_datums : Option (List D)
  pub internal_events : Option (List InternalEvent)
