-- ===== src/Cde/Cardano.antt =====
-- The queries on the tables of Cardano's primitives, of
-- packages/node-sdk/paima-db/src/sql/cde-cardano-*.sql.
use paima_engine.Base.{
  ℕ, String, Bool, false, not, ◌&&◌, ◌||◌, Option, none, some, List, [], ◌∷◌, str_eq, leb, ◌==◌,
  if◌then◌else◌,
}
use paima_engine.Cde.Datum.{CardanoAssetUtxoDatum}
use paima_engine.Cde.Update.{PoolRow, ProjectedRow}
use paima_engine.Cde.Rows.{Key, Rows}

abbrev pub same_pool_key : PoolRow → PoolRow → Bool
same_pool_key a b = str_eq a.cde_name b.cde_name && a.epoch == b.epoch && str_eq a.address b.address

unfoldable pub pool_insert : PoolRow → List PoolRow → List PoolRow
pool_insert row [] = row ∷ []
pool_insert row (r ∷ rows) =
    let rest = pool_insert row rows in
    if same_pool_key r row then record r { pool = row.pool } ∷ rows else r ∷ rest

-- ORDER BY epoch DESC.
unfoldable pub place_by_epoch : PoolRow → List PoolRow → List PoolRow
place_by_epoch row [] = row ∷ []
place_by_epoch row (r ∷ rows) =
    let rest = place_by_epoch row rows in if leb r.epoch row.epoch then row ∷ r ∷ rows else r ∷ rest

unfoldable pub sort_by_epoch : List PoolRow → List PoolRow
unfolding place_by_epoch
sort_by_epoch [] = []
sort_by_epoch (r ∷ rows) = place_by_epoch r (sort_by_epoch rows)

unfoldable pub rows_of_address : (address : String) → List PoolRow → List PoolRow
rows_of_address address [] = []
rows_of_address address (r ∷ rows) =
    let rest = rows_of_address address rows in if str_eq r.address address then r ∷ rest else rest

-- LIMIT 2.
abbrev pub first_two : List PoolRow → List PoolRow
first_two [] = []
first_two (a ∷ []) = a ∷ []
first_two (a ∷ b ∷ rows) = a ∷ b ∷ []

unfoldable pub has_pool_key : PoolRow → List PoolRow → Bool
has_pool_key row [] = false
has_pool_key row (r ∷ rows) = same_pool_key r row || has_pool_key row rows

unfoldable pub keep_entries : (address : String) → (newest rows : List PoolRow) → List PoolRow
unfolding has_pool_key
keep_entries address newest [] = []
keep_entries address newest (r ∷ rows) =
    let rest = keep_entries address newest rows in
    if not (has_pool_key r newest) && str_eq r.address address then rest else r ∷ rest

unfoldable pub remove_old : (address : String) → List PoolRow → List PoolRow
unfolding keep_entries sort_by_epoch rows_of_address
remove_old address rows =
    keep_entries address (first_two (sort_by_epoch (rows_of_address address rows))) rows

abbrev pub option_eq : {A : Type 0} → (A → A → Bool) → Option A → Option A → Bool
option_eq eq none b = false
option_eq eq (some x) none = false
option_eq eq (some x) (some y) = eq x y

-- A comparison with a null is not true: such a row is not found.
unfoldable pub is_previous : ProjectedRow → ProjectedRow → Bool
is_previous row r =
    str_eq r.cde_name row.cde_name
    && option_eq str_eq (some r.current_tx_hash) row.previous_tx_hash
    && option_eq ◌==◌ r.current_tx_output_index row.previous_tx_output_index
    && str_eq r.policy_id row.policy_id
    && str_eq r.asset_name row.asset_name
    && str_eq r.amount row.amount

unfoldable pub update_projected : ProjectedRow → List ProjectedRow → List ProjectedRow
unfolding is_previous
update_projected row [] = []
update_projected row (r ∷ rows) =
    let rest = update_projected row rows in if is_previous row r then row ∷ rest else r ∷ rest

abbrev pub utxo_key : CardanoAssetUtxoDatum → (decimal : ℕ → String) → Key
utxo_key d decimal = d.base.cde_name ∷ d.tx_id ∷ decimal d.output_index ∷ d.cip14_fingerprint ∷ []

unfoldable pub spend_rows :
    (tx_id : String)
    → (output_index : ℕ) → (fingerprint : Option String) → Rows (CardanoAssetUtxoDatum × String)
    → Rows (CardanoAssetUtxoDatum × String)
spend_rows tx_id output_index fingerprint [] = []
spend_rows tx_id output_index fingerprint ((k, (d, amount)) ∷ rows) =
    let rest = spend_rows tx_id output_index fingerprint rows in
    if str_eq d.tx_id tx_id
      && d.output_index == output_index
      && option_eq str_eq (some d.cip14_fingerprint) fingerprint
    then rest
    else (k, (d, amount)) ∷ rest
