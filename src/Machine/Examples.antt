-- ===== src/Machine/Examples.antt =====
-- A small game, a machine and a block to try the state machine on: the game counts its inputs.
use paima_engine.Base.{
  ℕ, ◌+◌, String, true, false, none, some, List, [], ◌∷◌, str_eq, if◌then◌else◌,
}
use paima_engine.Chain.{SubmittedData, ChainData}
use paima_engine.Machine.State.{at_block, Machine, Header, Env}
use paima_engine.Machine.Primitives.{Primitives}
use paima_engine.Machine.Inputs.{Progress}
use paima_engine.Machine.Randomness.{Chance}

-- The game throws on "bad"; else it adds one to the counter.
abbrev pub env : Env ℕ ℕ ℕ ℕ
env = record {
  stf = λ input header r g.
      (r + 1, if str_eq input.submitted.input_data "bad" then none else some (1 ∷ [], []));
  run = λ q g s. some (g + q, s);
  definitions = [];
  deliver = λ messages. true;
  keccak_256 = λ s. s;
  decimal = λ n. "n";
  strip0x = λ s. s;
  lower = λ s. s;
  validators = [];
  parse = λ s. none;
  store_historical = true;
  mqtt_broker = true;
}

abbrev pub prims : Primitives ℕ ℕ ℕ
prims = record {
  cde_transition = λ d in_presync g. some (d ∷ []);
  caip2_of = λ d. "eip155:1";
  main_caip2 = "eip155:1";
}

abbrev pub chance : Chance ℕ
chance = record {
  seeded = λ s. 0;
  flip = λ r. (true, r);
  pick = λ n r. (0, r);
  hash_together = λ l. "seed";
  values_of = λ s. s ∷ [];
}

abbrev pub machine : Machine ℕ ℕ ℕ
machine = record {
  wallet = record {
    db = record { addresses = []; next_id = 1; delegations = [] };
    cache = [];
    use_cache = true;
    aborted = false;
  };
  game = 0;
  schedule =
      record {
        id = 4;
        from_address = "0x0";
        input_data = "tick";
        primitive_name = none;
        contract_address = none;
        caip2 = none;
        origin_tx_hash = none;
        due = at_block 8;
      }
      ∷ [];
  nonces = [];
  events = [];
  results = [];
  blocks =
      record {
        block_height = 7;
        main_chain_block_hash = "m7";
        seed = "s7";
        ms_timestamp = 7000;
        paima_block_hash = some "p7";
      }
      ∷ [];
  checkpoints = record {
    cardano_epoch = none;
    cde_blocks = [];
    mina_timestamps = [];
    midnight_blocks = [];
  };
  random = 0;
  sent = [];
}

abbrev pub header : Header
header = record {
  main_chain_block_hash = "m8";
  block_height = 8;
  prev_block_hash = some "p7";
  ms_timestamp = 8000;
}

abbrev pub input : (input_data input_nonce : String) → SubmittedData
input input_data input_nonce = record {
  real_address = "alice";
  input_data = input_data;
  input_nonce = input_nonce;
  supplied_value = 0;
  scheduled = false;
  origin = record {
    tx_hash = some "t1";
    caip2 = some "eip155:1";
    contract_address = none;
    primitive_name = none;
    scheduled_at_ms = none;
  };
}

abbrev pub block_8 : ChainData ℕ
block_8 = record {
  timestamp = 8;
  block_hash = "m8";
  block_number = 8;
  submitted_data = input "go" "n1" ∷ input "bad" "n2" ∷ input "go" "n1" ∷ [];
  extension_datums = some (5 ∷ []);
  internal_events = none;
}

abbrev pub start : Progress ℕ ℕ ℕ
start = record {
  machine = machine;
  indexes = [];
  tx_index = 0;
  success_hashes = [];
  failed_hashes = [];
}

abbrev pub inputs : List SubmittedData
inputs = block_8.submitted_data
