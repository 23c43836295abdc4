-- ===== src/Cde/Tests.antt =====
-- Transfers of tokens on small tables.
use paima_engine.Base.{
  ℕ, String, ◌≡◌, refl, true, false, none, some, List, [], ◌∷◌, map, ℤ, pos, ◌+ℤ◌,
}
use paima_engine.Machine.State.{Machine, abort, Env, Outcome, returned, thrown}
use paima_engine.Machine.Examples
use paima_engine.Machine.Primitives.{cde_loop}
use paima_engine.Cde.Datum.{
  DatumBase, Erc20TransferDatum, Erc721TransferDatum, Erc1155TransferDatum, erc721_transfer,
  erc1155_transfer,
}
use paima_engine.Cde.Update.{Update}
use paima_engine.Cde.Rows.{Key, key_eq, Rows, find, IsUnique}
use paima_engine.Cde.Tables.{Tables, run_updates}
use paima_engine.Cde.Host.{Host, is_burn_address}
use paima_engine.Cde.Transition.Tokens.{process_erc20_transfer}
use paima_engine.Cde.Erc20.{row_after, process_erc20_transfer_lem}
use paima_engine.Cde.Erc721.Transfers.{process_erc721_transfer-IsTransferred}
use paima_engine.Cde.Erc721.{is_reburn, IsTransferred}
use paima_engine.Cde.Erc1155.{balance_at, StartsWith}
use paima_engine.Cde.Engine.{primitives, with_tables}
use paima_engine.Cde.Engine.Ledger.{replay, replay_burns, cde_loop_refines}
use paima_engine.Cde.Engine.Refused.{cde_loop-reburn}

abbrev host : Host String
host = record {
  lower = λ s. s;
  decimal = λ n. "n";
  json = λ s. s;
  json_texts = λ l. "[]";
  bytes = λ s. s;
  start_blockheight = 5;
  network_for_caip2 = λ s. some "evm";
}

abbrev starting : StartsWith
starting base text = false

abbrev tables : Tables String
tables = record {
  erc20 = ("coin" ∷ "ann" ∷ [], pos 9) ∷ [];
  erc20_deposit = [];
  erc721 = ("art" ∷ "t7" ∷ [], "ann") ∷ [];
  erc721_burn = ("art" ∷ "t7" ∷ [], "bob") ∷ [];
  erc1155 = ("items" ∷ "t1" ∷ "ann" ∷ [], pos 4) ∷ [];
  erc1155_burn = [];
  generic_data = [];
  erc6551_registry = [];
  pools = [];
  projected_nfts = [];
  asset_utxos = [];
  transfers = [];
  mint_burns = [];
  extensions = [];
  dynamic_configs = [];
  next_id = 1;
}

abbrev base : (cde_name : String) → DatumBase
base cde_name = record {
  cde_name = cde_name;
  block_number = 8;
  transaction_hash = "h";
  caip2 = "eip155:1";
}

abbrev env : Env (Tables String) (Update String) ℕ ℕ
env = record {
  stf = λ input header r g. (r, none);
  run = λ q g s. none;
  definitions = [];
  deliver = λ messages. true;
  keccak_256 = λ s. s;
  decimal = λ n. "n";
  strip0x = λ s. s;
  lower = λ s. s;
  validators = [];
  parse = λ s. none;
  store_historical = true;
  mqtt_broker = true;
}

abbrev machine : Machine (Tables String) ℕ ℕ
machine = record {
  wallet = Examples.machine.wallet;
  game = tables;
  schedule = [];
  nonces = [];
  events = [];
  results = [];
  blocks = [];
  checkpoints = Examples.machine.checkpoints;
  random = 0;
  sent = [];
}

abbrev item_transfer : (from to : String) → ℕ → Erc1155TransferDatum
item_transfer from to value = record {
  base = base "items";
  contract_address = "c";
  scheduled_prefix = "tr";
  burn_scheduled_prefix = "";
  operator = "ann";
  from = from;
  to = to;
  items = ("t1", value) ∷ [];
}

abbrev transfers : List Erc1155TransferDatum
transfers = item_transfer "ann" "bob" 4 ∷ item_transfer "bob" "0x00" 1 ∷ []

abbrev engine : Outcome (Machine (Tables String) ℕ ℕ)
engine =
    cde_loop (with_tables host starting env) (primitives host "eip155:1") false
      (map erc1155_transfer transfers) machine

cde_loop_refines_example :
    (after : Machine (Tables String) ℕ ℕ) × (engine ≡ returned after)
    × IsUnique after.game.erc1155
    × (balance_at after.game.erc1155 ≡ replay host transfers (balance_at tables.erc1155))
    × (balance_at after.game.erc1155_burn
        ≡ replay_burns host transfers (balance_at tables.erc1155_burn))
cde_loop_refines_example =
    cde_loop_refines host starting "eip155:1" env false transfers machine unique
  where
    unique : IsUnique tables.erc1155
    unique = (unfold find in refl, tt)

abbrev to_herself : Erc20TransferDatum
to_herself = record {
  base = base "coin";
  contract_address = "c";
  from = "ann";
  to = "ann";
  value = 3;
}

process_erc20_transfer_example :
    (rows : Rows ℤ) × (run_updates host.decimal starting
        (process_erc20_transfer host tables.erc20 to_herself)
        tables
        []
      ≡ some (record tables { erc20 = rows }, []))
    × ((k : Key)
        → find k rows ≡ row_after ("coin" ∷ "ann" ∷ []) ("coin" ∷ "ann" ∷ []) 3 tables.erc20 k)
process_erc20_transfer_example =
    process_erc20_transfer_lem host host.decimal starting to_herself tables []

-- She has more than before.
gained :
    row_after ("coin" ∷ "ann" ∷ []) ("coin" ∷ "ann" ∷ []) 3 tables.erc20 ("coin" ∷ "ann" ∷ [])
    ≡ some (pos 12)
unfolding find key_eq ◌+ℤ◌
gained = refl

abbrev art_transfer : (to : String) → Erc721TransferDatum
art_transfer to = record {
  base = base "art";
  contract_address = "c";
  burn_scheduled_prefix = "b";
  from = "ann";
  to = to;
  token_id = "t7";
}

burns_again : is_reburn host (art_transfer "0x0dead") tables ≡ true
unfolding is_burn_address find key_eq
burns_again = refl

moves : is_reburn host (art_transfer "bob") tables ≡ false
unfolding is_burn_address find key_eq
moves = refl

process_erc721_transfer-IsTransferred_example :
    IsTransferred host host.decimal starting (art_transfer "bob") false tables []
process_erc721_transfer-IsTransferred_example =
    process_erc721_transfer-IsTransferred host host.decimal starting (art_transfer "bob") false
      tables [] moves

cde_loop-reburn_example :
    cde_loop
      (with_tables host starting env)
      (primitives host "eip155:1")
      false
      (erc721_transfer (art_transfer "0x0dead") ∷ [])
      machine
    ≡ thrown (abort machine)
cde_loop-reburn_example =
    cde_loop-reburn host starting "eip155:1" env false (art_transfer "0x0dead") [] machine
      burns_again
