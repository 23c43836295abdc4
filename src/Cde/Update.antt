-- ===== src/Cde/Update.antt =====
-- The queries that datums give rise to (`SQLUpdate`), with their parameters, and the constructor of those
-- that schedule an input: packages/node-sdk/paima-db/src/scheduled-constructors.ts.
use paima_engine.Base.{ℕ, String, Option, none, some, ℤ}
use paima_engine.Machine.State.{Due, at_block, at_ms}
use paima_engine.Cde.Datum.{Erc6551RegistryDatum, CardanoAssetUtxoDatum, TargetConfig}

pub record ScheduledParams : Type 0 where
  pub due : Due
  pub input_data : String
  pub from_address : String
  pub primitive_name : Option String
  pub origin_tx_hash : Option String
  pub caip2 : Option String
  pub origin_contract_address : Option String

-- A row of `cde_cardano_pool_delegation`.
pub record PoolRow : Type 0 where
  pub cde_name : String
  pub epoch : ℕ
  pub address : String
  pub pool : Option String

-- A row of `cde_cardano_projected_nft`, but for its serial id.
pub record ProjectedRow : Type 0 where
  pub cde_name : String
  pub owner_address : String
  pub previous_tx_hash : Option String
  pub previous_tx_output_index : Option ℕ
  pub current_tx_hash : String
  pub current_tx_output_index : Option ℕ
  pub policy_id : String
  pub asset_name : String
  pub amount : String
  pub status : String
  pub plutus_datum : String
  pub for_how_long : Option String

-- The configuration that is stored for a dynamic primitive, `type`, and what it adds to the target's.
pub record StoredConfig : Type 0 where
  pub target : TargetConfig
  pub contract_address : String
  pub start_block_height : ℕ
  pub network : String

pub record ExtensionRow : Type 0 where
  pub cde_type : ℕ
  pub cde_caip2 : String
  pub start_blockheight : ℕ
  pub scheduled_prefix : String

pub data Update (J : Type 0) : Type 0 where
  new_scheduled_data : ScheduledParams → Update J
  erc20_insert_balance erc20_update_balance :
      (cde_name wallet_address : String) → (balance : ℤ) → Update J
  deposit_insert_total deposit_update_total :
      (cde_name wallet_address : String) → (total_deposited : ℤ) → Update J
  erc721_insert_owner erc721_update_owner erc721_burn_insert :
      (cde_name token_id nft_owner : String) → Update J
  erc721_delete : (cde_name token_id : String) → Update J
  erc1155_modify_balance : (cde_name token_id wallet_address : String) → (value : ℤ) → Update J
  erc1155_delete_if_zero : (cde_name token_id wallet_address : String) → Update J
  erc1155_burn : (cde_name token_id wallet_address : String) → (value : ℤ) → Update J
  generic_insert_data : (cde_name : String) → (block_height : ℕ) → (event_data : J) → Update J
  erc6551_insert_registry : Erc6551RegistryDatum → Update J
  pool_insert_data : PoolRow → Update J
  remove_old_entries : (address : String) → Update J
  projected_nft_insert : ProjectedRow → Update J
  projected_nft_update : ProjectedRow → Update J
  insert_asset_utxo : CardanoAssetUtxoDatum → (amount : String) → Update J
  spend_asset_utxo :
      (tx_id : String) → (output_index : ℕ) → (fingerprint : Option String) → Update J
  cardano_transfer_insert : (cde_name tx_id raw_tx : String) → (metadata : Option String) → Update J
  cardano_mint_burn_insert :
      (cde_name tx_id : String)
      → (metadata : Option String) → (assets input_addresses output_addresses : J) → Update J
  register_dynamic_extension : (base_name : String) → ExtensionRow → Update J
  insert_dynamic_extension : (base_name parent_name : String) → StoredConfig → Update J

-- The source of an input that is scheduled: a datum of a primitive, or a precompile.
pub data Source : Type 0 where
  primitive :
      (cde_name tx_hash caip2 from_address : String) → (contract_address : Option String) → Source
  precompile : String → Source

-- It throws where a primitive schedules by date. `bytes` is `Buffer.from(strip0x(…), 'hex')`.
unfoldable pub create_scheduled_data :
    {J : Type 0}
    → (bytes : String → String) → (input_data : String) → Due
    → Source
    → Option (Update J)
create_scheduled_data bytes input_data (at_block n)
      (primitive cde_name tx_hash caip2 from_address contract_address) =
    some (
      new_scheduled_data record {
        due = at_block n;
        input_data = input_data;
        from_address = from_address;
        primitive_name = some cde_name;
        origin_tx_hash = some (bytes tx_hash);
        caip2 = some caip2;
        origin_contract_address = contract_address;
      })
create_scheduled_data bytes input_data (at_ms t)
      (primitive cde_name tx_hash caip2 from_address contract_address) =
    none
create_scheduled_data bytes input_data due (precompile name) = some (
    new_scheduled_data record {
      due = due;
      input_data = input_data;
      from_address = name;
      primitive_name = none;
      origin_tx_hash = none;
      caip2 = none;
      origin_contract_address = none;
    })
