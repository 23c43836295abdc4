-- ===== src/Cde/Tables.antt =====
-- The tables of the primitives (packages/node-sdk/paima-db/migrations/up.sql) and the queries on them
-- (src/sql/cde-*.sql, extensions.sql and dynamic-primitives.sql of the same package). A query that breaks
-- a constraint has no result.
pub mod Laws
pub mod Tokens
use mathlib.Core.Option
use Prim.Native.String.{◌++◌ as append}
use paima_engine.Base.{
  ℕ, ◌+◌, String, Bool, true, false, Option, none, some, List, [], ◌∷◌, ◌==◌, if◌then◌else◌, ℤ, pos,
  negsuc, ◌+ℤ◌,
}
use paima_engine.Machine.State.{Scheduled}
use paima_engine.Cde.Datum.{
  Erc6551RegistryDatum, CardanoAssetUtxoDatum, erc20_deposit, erc6551_registry,
}
use paima_engine.Cde.Update.{
  ScheduledParams, PoolRow, ProjectedRow, StoredConfig, ExtensionRow, Update, new_scheduled_data,
  erc20_insert_balance, erc20_update_balance, deposit_insert_total, deposit_update_total,
  erc721_insert_owner, erc721_update_owner, erc721_burn_insert, erc721_delete,
  erc1155_modify_balance, erc1155_delete_if_zero, erc1155_burn, generic_insert_data,
  erc6551_insert_registry, pool_insert_data, remove_old_entries, projected_nft_insert,
  projected_nft_update, insert_asset_utxo, spend_asset_utxo, cardano_transfer_insert,
  cardano_mint_burn_insert, register_dynamic_extension, insert_dynamic_extension,
}
use paima_engine.Cde.Cardano.{pool_insert, remove_old, update_projected, utxo_key, spend_rows}
use paima_engine.Cde.Rows.{Key, Rows, insert_row, set_row, delete_where, upsert_row}

pub record MintBurnRow (J : Type 0) : Type 0 where
  pub metadata : String
  pub assets : J
  pub input_addresses : J
  pub output_addresses : J

-- `next_id` is the next serial of `rollup_inputs`.
pub record Tables (J : Type 0) : Type 0 where
  pub erc20 : Rows ℤ
  pub erc20_deposit : Rows ℤ
  pub erc721 : Rows String
  pub erc721_burn : Rows String
  pub erc1155 : Rows ℤ
  pub erc1155_burn : Rows ℤ
  pub generic_data : List (String × ℕ × J)
  pub erc6551_registry : Rows Erc6551RegistryDatum
  pub pools : List PoolRow
  pub projected_nfts : List ProjectedRow
  pub asset_utxos : Rows (CardanoAssetUtxoDatum × String)
  pub transfers : Rows (String × Option String)
  pub mint_burns : Rows (MintBurnRow J)
  pub extensions : Rows ExtensionRow
  pub dynamic_configs : Rows (String × StoredConfig)
  pub next_id : ℕ

abbrev pub is_zero : ℤ → Bool
is_zero (pos n) = n == 0
is_zero (negsuc n) = false

-- COUNT(*) WHERE starts_with(cde_name, base_name).
unfoldable pub count_with : (String → Bool) → {V : Type 0} → Rows V → ℕ
count_with p [] = 0
count_with p (([], v) ∷ rows) = count_with p rows
count_with p ((name ∷ k, v) ∷ rows) =
    let rest = count_with p rows in if p name then rest + 1 else rest

-- `base_name || COUNT(*)`
abbrev pub numbered :
    (decimal : ℕ → String) (starts_with : (base text : String) → Bool)
    → (base_name : String) → {V : Type 0} → Rows V
    → Key
numbered decimal starts_with base_name rows =
    append base_name (decimal (count_with (starts_with base_name) rows)) ∷ []

-- A new input is numbered by the serial.
abbrev pub next_row : {J : Type 0} → Tables J → ScheduledParams → Scheduled
next_row t p = record {
  id = t.next_id;
  from_address = p.from_address;
  input_data = p.input_data;
  primitive_name = p.primitive_name;
  contract_address = p.origin_contract_address;
  caip2 = p.caip2;
  origin_tx_hash = p.origin_tx_hash;
  due = p.due;
}

-- `decimal` is a number's text, `starts_with` the database's.
module _ {J : Type 0} (decimal : ℕ → String) (starts_with : (base text : String) → Bool) where
  -- The queries on the tables of tokens.
  unfoldable pub run_token_update : Update J → Tables J → Option (Tables J)
  run_token_update (erc20_insert_balance name wallet balance) t =
      Option.map (λ r. record t { erc20 = r }) (insert_row (name ∷ wallet ∷ []) balance t.erc20)
  run_token_update (erc20_update_balance name wallet balance) t =
      some (record t { erc20 = set_row (name ∷ wallet ∷ []) balance t.erc20 })
  run_token_update (deposit_insert_total name wallet total) t =
      Option.map (λ r. record t { erc20_deposit = r })
        (insert_row (name ∷ wallet ∷ []) total t.erc20_deposit)
  run_token_update (deposit_update_total name wallet total) t =
      some (record t { erc20_deposit = set_row (name ∷ wallet ∷ []) total t.erc20_deposit })
  run_token_update (erc721_insert_owner name token owner) t =
      Option.map (λ r. record t { erc721 = r }) (insert_row (name ∷ token ∷ []) owner t.erc721)
  run_token_update (erc721_update_owner name token owner) t =
      some (record t { erc721 = set_row (name ∷ token ∷ []) owner t.erc721 })
  run_token_update (erc721_burn_insert name token owner) t =
      Option.map (λ r. record t { erc721_burn = r })
        (insert_row (name ∷ token ∷ []) owner t.erc721_burn)
  run_token_update (erc721_delete name token) t =
      some (record t { erc721 = delete_where (name ∷ token ∷ []) (λ _. true) t.erc721 })
  run_token_update (erc1155_modify_balance name token wallet value) t =
      let key = name ∷ token ∷ wallet ∷ [] in
      some (record t { erc1155 = upsert_row key value (λ b. b +ℤ value) t.erc1155 })
  run_token_update (erc1155_delete_if_zero name token wallet) t =
      some (record t { erc1155 = delete_where (name ∷ token ∷ wallet ∷ []) is_zero t.erc1155 })
  run_token_update (erc1155_burn name token wallet value) t =
      let key = name ∷ token ∷ wallet ∷ [] in
      some (record t { erc1155_burn = upsert_row key value (λ b. b +ℤ value) t.erc1155_burn })
  run_token_update _ t = some t

  -- The other queries. A null in a column that is NOT NULL breaks the constraint.
  unfoldable pub run_other_update : Update J → Tables J → Option (Tables J)
  run_other_update (generic_insert_data name block_height event_data) t =
      some (record t { generic_data = (name, block_height, event_data) ∷ t.generic_data })
  run_other_update (erc6551_insert_registry d) t =
      Option.map (λ r. record t { erc6551_registry = r })
        (insert_row (d.base.cde_name ∷ d.account_created ∷ []) d t.erc6551_registry)
  run_other_update (pool_insert_data row) t = some (record t { pools = pool_insert row t.pools })
  run_other_update (remove_old_entries address) t =
      some (record t { pools = remove_old address t.pools })
  run_other_update (projected_nft_insert row) t =
      some (record t { projected_nfts = row ∷ t.projected_nfts })
  run_other_update (projected_nft_update row) t =
      some (record t { projected_nfts = update_projected row t.projected_nfts })
  run_other_update (insert_asset_utxo d amount) t =
      Option.map (λ r. record t { asset_utxos = r })
        (insert_row (utxo_key d decimal) (d, amount) t.asset_utxos)
  run_other_update (spend_asset_utxo tx_id output_index fingerprint) t =
      some (record t { asset_utxos = spend_rows tx_id output_index fingerprint t.asset_utxos })
  run_other_update (cardano_transfer_insert name tx_id raw_tx metadata) t =
      Option.map (λ r. record t { transfers = r })
        (insert_row (name ∷ tx_id ∷ []) (raw_tx, metadata) t.transfers)
  run_other_update (cardano_mint_burn_insert name tx_id none assets inputs outputs) t = none
  run_other_update (cardano_mint_burn_insert name tx_id (some metadata) assets inputs outputs) t =
      Option.map (λ r. record t { mint_burns = r })
        (insert_row (name ∷ tx_id ∷ [])
          record {
            metadata = metadata;
            assets = assets;
            input_addresses = inputs;
            output_addresses = outputs;
          }
          t.mint_burns)
  run_other_update (register_dynamic_extension base_name row) t =
      Option.map (λ r. record t { extensions = r })
        (insert_row (numbered decimal starts_with base_name t.extensions) row t.extensions)
  run_other_update (insert_dynamic_extension base_name parent_name config) t =
      Option.map (λ r. record t { dynamic_configs = r })
        (insert_row (numbered decimal starts_with base_name t.dynamic_configs) (parent_name, config)
          t.dynamic_configs)
  run_other_update _ t = some t

  -- A query, on these tables and on the schedule.
  unfoldable pub run_update :
      Update J → Tables J → List Scheduled → Option (Tables J × List Scheduled)
  run_update (new_scheduled_data p) t schedule =
      some (record t { next_id = t.next_id + 1 }, next_row t p ∷ schedule)
  run_update u t schedule = elim (run_token_update u t) [
    | none ↦ none
    | some t' ↦ Option.map (λ s. (s, schedule)) (run_other_update u t')
  ]

  unfoldable pub run_updates :
      List (Update J) → Tables J → List Scheduled → Option (Tables J × List Scheduled)
  run_updates [] t schedule = some (t, schedule)
  run_updates (u ∷ updates) t schedule = elim (run_update u t schedule) [
    | none ↦ none
    | some (t', schedule') ↦ run_updates updates t' schedule'
  ]
