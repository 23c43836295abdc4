-- ===== src/Machine/State.antt =====
-- The state that the state machine writes, and what it is given: the game's state transition function
-- and tables, the hashes, the message broker. The tables are those of
-- packages/node-sdk/paima-db/migrations/up.sql.
use paima_engine.Base.{ℕ, String, ◌≡◌, refl, ◌⊎◌, inl, inr, Bool, true, Option, List}
use paima_engine.Chain.{SubmittedData}
use paima_engine.Wallet.Lookup.{Wallet}
use paima_engine.Wallet.Process.{ParsedCommand, Validator}

-- A row of `rollup_inputs` that is scheduled, with its origin; `due` is a block height or a timestamp
-- in milliseconds.
pub data Due : Type 0 where
  at_block at_ms : ℕ → Due

pub record Scheduled : Type 0 where
  pub id : ℕ
  pub from_address : String
  pub input_data : String
  pub primitive_name : Option String
  pub contract_address : Option String
  pub caip2 : Option String
  pub origin_tx_hash : Option String
  pub due : Due

-- A row of `event`.
pub record EventRow (F : Type 0) : Type 0 where
  pub topic : String
  pub address : String
  pub fields : F
  pub tx_index : ℕ
  pub log_index : ℕ
  pub block_height : ℕ

-- A row of `rollup_input_result`, with the id of its input where that was scheduled.
pub record InputResult : Type 0 where
  pub id : Option ℕ
  pub input_data : String
  pub from_address : String
  pub success : Bool
  pub paima_tx_hash : String
  pub index_in_block : ℕ
  pub block_height : ℕ

-- A row of `paima_blocks`.
pub record BlockRow : Type 0 where
  pub block_height : ℕ
  pub main_chain_block_hash : String
  pub seed : String
  pub ms_timestamp : ℕ
  pub paima_block_hash : Option String

-- The points up to which other chains were read.
pub record Checkpoints : Type 0 where
  pub cardano_epoch : Option ℕ
  pub cde_blocks : List (String × ℕ)
  pub mina_timestamps : List (String × String)
  pub midnight_blocks : List (String × ℕ)

-- The game's own tables are `G`. The messages sent to the broker stand last in, first out, and so do
-- the rows of each table.
pub record Machine (G F R : Type 0) : Type 0 where
  pub wallet : Wallet
  pub game : G
  pub schedule : List Scheduled
  pub nonces : List (String × ℕ)
  pub events : List (EventRow F)
  pub results : List InputResult
  pub blocks : List BlockRow
  pub checkpoints : Checkpoints
  pub random : R
  pub sent : List (String × F)

-- A broken constraint aborts the transaction.
abbrev pub abort : {G F R : Type 0} → Machine G F R → Machine G F R
abort m = record m { wallet = record m.wallet { aborted = true } }

-- `STFSubmittedData`: a `user_id` of `none` is `NO_USER_ID`.
pub record StfInput : Type 0 where
  pub submitted : SubmittedData
  pub user_address : String
  pub user_id : Option ℕ
  pub paima_tx_hash : String

-- `PreExecutionBlockHeader`, whose version is 1.
pub record Header : Type 0 where
  pub main_chain_block_hash : String
  pub block_height : ℕ
  pub prev_block_hash : Option String
  pub ms_timestamp : ℕ

-- An event that the game emits.
pub record Event (F : Type 0) : Type 0 where
  pub address : String
  pub name : String
  pub topic : String
  pub fields : F

-- What the state machine does not implement. `stf` may throw, and advances the random generator that
-- it shares; a query may fail; `deliver` is whether the broker takes the messages.
pub record Env (G Q F R : Type 0) : Type 0 where
  pub stf : StfInput → Header → R → G → R × Option (List Q × List (Event F))
  pub run : Q → G → List Scheduled → Option (G × List Scheduled)
  pub definitions : List (String × String)
  pub deliver : List (String × F) → Bool
  pub keccak_256 : String → String
  pub decimal : ℕ → String
  pub strip0x : String → String
  pub lower : String → String
  pub validators : List Validator
  pub parse : String → Option ParsedCommand
  pub store_historical : Bool
  pub mqtt_broker : Bool

-- Whether a call came back or threw, with the state that it left.
pub data Outcome (A : Type 0) : Type 0 where
  returned thrown : A → Outcome A

abbrev pub state_of : {A : Type 0} → Outcome A → A
state_of (returned a) = a
state_of (thrown a) = a

pub Outcome-cases :
    {A : Type 0} (o : Outcome A) → ((a : A) × (o ≡ returned a)) ⊎ ((a : A) × (o ≡ thrown a))
Outcome-cases (returned a) = inl (a, refl)
Outcome-cases (thrown a) = inr (a, refl)
