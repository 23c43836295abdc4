-- ===== src/Cde/Datum.antt =====
-- The datums of the primitives: packages/node-sdk/paima-sm/src/types.ts. Amounts that the source keeps as
-- decimal texts and reads by `BigInt` are the numbers that they denote; other amounts stay texts. `J` is
-- the type of the JSON values that are only passed on.
use paima_engine.Base.{ℕ, String, Option, List}

-- `CdeDatumBase` without its payload.
pub record DatumBase : Type 0 where
  pub cde_name : String
  pub block_number : ℕ
  pub transaction_hash : String
  pub caip2 : String

pub record Erc20TransferDatum : Type 0 where
  pub base : DatumBase
  pub contract_address : String
  pub from : String
  pub to : String
  pub value : ℕ

-- An absent prefix is the empty text: the code tests for both at once.
pub record Erc721TransferDatum : Type 0 where
  pub base : DatumBase
  pub contract_address : String
  pub burn_scheduled_prefix : String
  pub from : String
  pub to : String
  pub token_id : String

pub record Erc721MintDatum : Type 0 where
  pub base : DatumBase
  pub contract_address : String
  pub scheduled_prefix : String
  pub token_id : String
  pub mint_data : String
  pub from : String

pub record Erc20DepositDatum : Type 0 where
  pub base : DatumBase
  pub contract_address : String
  pub scheduled_prefix : String
  pub from : String
  pub value : ℕ

-- `ids` and `values` side by side: they have one length.
pub record Erc1155TransferDatum : Type 0 where
  pub base : DatumBase
  pub contract_address : String
  pub scheduled_prefix : String
  pub burn_scheduled_prefix : String
  pub operator : String
  pub from : String
  pub to : String
  pub items : List (String × ℕ)

-- The datums of `processGenericDatum`: those of Mina have no contract address.
pub record GenericDatum (J : Type 0) : Type 0 where
  pub base : DatumBase
  pub scheduled_prefix : String
  pub contract_address : Option String
  pub payload : J

pub record Erc6551RegistryDatum : Type 0 where
  pub base : DatumBase
  pub account_created : String
  pub implementation : String
  pub chain_id : String
  pub token_contract : String
  pub token_id : String
  pub salt : String

pub record CardanoPoolDatum : Type 0 where
  pub base : DatumBase
  pub scheduled_prefix : String
  pub address : String
  pub pool : Option String
  pub epoch : ℕ

pub record CardanoProjectedNftDatum : Type 0 where
  pub base : DatumBase
  pub scheduled_prefix : Option String
  pub owner_address : String
  pub action_tx_id : String
  pub action_output_index : Option ℕ
  pub previous_tx_hash : Option String
  pub previous_tx_output_index : Option ℕ
  pub policy_id : String
  pub asset_name : String
  pub amount : String
  pub status : String
  pub plutus_datum : String
  pub for_how_long : Option String

pub record CardanoAssetUtxoDatum : Type 0 where
  pub base : DatumBase
  pub address : String
  pub tx_id : String
  pub output_index : ℕ
  pub amount : Option String
  pub cip14_fingerprint : String
  pub policy_id : String
  pub asset_name : String

pub record CardanoTransferDatum (J : Type 0) : Type 0 where
  pub base : DatumBase
  pub scheduled_prefix : Option String
  pub tx_id : String
  pub raw_tx : String
  pub input_credentials : List String
  pub outputs : J
  pub metadata : Option String

pub record CardanoMintBurnDatum (J : Type 0) : Type 0 where
  pub base : DatumBase
  pub scheduled_prefix : Option String
  pub tx_id : String
  pub metadata : Option String
  pub assets : J
  pub input_addresses : J
  pub output_addresses : J

-- `targetConfig`, whose other types are refused; `other_target` is one of those.
pub data TargetConfig : Type 0 where
  erc721_target : (scheduled_prefix : String) (burn_scheduled_prefix : Option String) → TargetConfig
  generic_target : (abi_path event_signature scheduled_prefix : String) → TargetConfig
  other_target : TargetConfig

pub record DynamicEvmPrimitiveDatum : Type 0 where
  pub base : DatumBase
  pub contract_address : String
  pub target_config : TargetConfig

pub record MidnightContractStateDatum : Type 0 where
  pub base : DatumBase
  pub contract_address : String
  pub scheduled_prefix : String
  pub payload : String

-- `ChainDataExtensionDatum`
pub data Datum (J : Type 0) : Type 0 where
  erc20_transfer : Erc20TransferDatum → Datum J
  erc721_transfer : Erc721TransferDatum → Datum J
  erc721_mint : Erc721MintDatum → Datum J
  erc20_deposit : Erc20DepositDatum → Datum J
  erc1155_transfer : Erc1155TransferDatum → Datum J
  generic mina_event_generic mina_action_generic : GenericDatum J → Datum J
  erc6551_registry : Erc6551RegistryDatum → Datum J
  cardano_pool : CardanoPoolDatum → Datum J
  cardano_projected_nft : CardanoProjectedNftDatum → Datum J
  cardano_asset_utxo : CardanoAssetUtxoDatum → Datum J
  cardano_transfer : CardanoTransferDatum J → Datum J
  cardano_mint_burn : CardanoMintBurnDatum J → Datum J
  dynamic_evm_primitive : DynamicEvmPrimitiveDatum → Datum J
  midnight_contract_state : MidnightContractStateDatum → Datum J
