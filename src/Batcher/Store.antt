-- ===== src/Batcher/Store.antt =====
-- The tables of the batcher (packages/batcher/db/migrations/up.sql), and the queries on them
-- (packages/batcher/db/src/sql/queries.sql beside it). A query fails only by the key of `input_states`.
use paima_engine.Base.{ℕ, ◌+◌, Option, none, some, List, [], ◌∷◌, ◌++◌, ◌==◌, if◌then◌else◌}
use paima_engine.Concise.Batch.{Text, BatchedSubunit}
use paima_engine.Batcher.Keyed.{find_key, update_key}
use paima_engine.Batcher.Limits.{TrackingRow}

pub data InputState : Type 0 where
  validating rejected accepted posted : InputState

pub record StateRow : Type 0 where
  pub input_hash : Text
  pub current_state : InputState
  pub block_height : Option ℕ
  pub transaction_hash : Option Text
  pub rejection_code : Option ℕ

-- A row of `unvalidated_game_inputs` or `validated_game_inputs`.
pub record GameInput : Type 0 where
  pub id : ℕ
  pub input : BatchedSubunit

pub record InputTable : Type 0 where
  pub rows : List GameInput
  pub next_id : ℕ

-- A message to the broker, BuiltinEvents.BatcherHash with the status Finalized.
pub record BatcherHash : Type 0 where
  pub batch : Text
  pub block_height : ℕ
  pub transaction_hash : Text

pub record BlockHeightCache : Type 0 where
  pub height : ℕ
  pub time : ℕ

pub record Store : Type 0 where
  pub input_states : List StateRow
  pub unvalidated : InputTable
  pub validated : InputTable
  pub user_tracking : List TrackingRow
  pub block_height_cache : BlockHeightCache
  pub messages : List BatcherHash

abbrev pub row_hash : StateRow → Text
row_hash row = row.input_hash

abbrev pub get_input_state : Text → List StateRow → Option StateRow
get_input_state hash rows = find_key row_hash hash rows

abbrev pub new_state : Text → InputState → StateRow
new_state hash state = record {
  input_hash = hash;
  current_state = state;
  block_height = none;
  transaction_hash = none;
  rejection_code = some 0;
}

-- insertStateValidating and insertStateAccepted: the hash is the key of the table.
unfoldable pub insert_state : Text → InputState → List StateRow → Option (List StateRow)
insert_state hash state rows = elim (get_input_state hash rows) [
  | none ↦ some (new_state hash state ∷ rows)
  | some row ↦ none
]

abbrev pub set_accepted : StateRow → StateRow
set_accepted row = record row { current_state = accepted }

abbrev pub set_rejected : ℕ → StateRow → StateRow
set_rejected code row = record row { current_state = rejected; rejection_code = some code }

abbrev pub set_posted : ℕ → Text → StateRow → StateRow
set_posted block_height transaction_hash row = record row {
  current_state = posted;
  block_height = some block_height;
  transaction_hash = some transaction_hash;
}

abbrev pub update_state : (StateRow → StateRow) → Text → List StateRow → List StateRow
update_state f hash rows = update_key row_hash f hash rows

-- insertUnvalidatedInput and insertValidatedInput.
unfoldable pub insert_input : BatchedSubunit → InputTable → InputTable
insert_input input table = record {
  rows = table.rows ++ (record { id = table.next_id; input = input } ∷ []);
  next_id = table.next_id + 1;
}

-- deleteUnvalidatedInput and deleteValidatedInput.
unfoldable pub delete_rows : (id : ℕ) → List GameInput → List GameInput
delete_rows id [] = []
delete_rows id (row ∷ rows) =
    let rest = delete_rows id rows in if row.id == id then rest else row ∷ rest

abbrev pub delete_input : (id : ℕ) → InputTable → InputTable
delete_input id table = record table { rows = delete_rows id table.rows }

unfoldable pub select_rows : (id : ℕ) → List GameInput → List GameInput
select_rows id [] = []
select_rows id (row ∷ rows) =
    let rest = select_rows id rows in if row.id == id then row ∷ rest else rest

unfoldable pub insert_all : List GameInput → InputTable → InputTable
insert_all [] table = table
insert_all (row ∷ rows) table = insert_all rows (insert_input row.input table)

-- validateInput: the rows that are deleted are inserted into the other table.
unfoldable pub validate_input : (id : ℕ) → Store → Store
validate_input id s = record s {
  unvalidated = delete_input id s.unvalidated;
  validated = insert_all (select_rows id s.unvalidated.rows) s.validated;
}
