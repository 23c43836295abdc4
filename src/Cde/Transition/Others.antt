-- ===== src/Cde/Transition/Others.antt =====
-- The processors of the other datums: cde-generic.ts, cde-erc6551-registry.ts, cde-cardano-*.ts,
-- cde-evm-dynamic-primitive.ts and cde-midnight-contract-state.ts of packages/node-sdk/paima-sm/src.
use mathlib.Core.Option
use Prim.Native.String.{◌++◌ as append}
use paima_engine.Base.{ℕ, String, Bool, Option, none, some, List, [], ◌∷◌, str_eq, if◌then◌else◌}
use paima_engine.Cde.Datum.{
  GenericDatum, Erc6551RegistryDatum, CardanoPoolDatum, CardanoProjectedNftDatum,
  CardanoAssetUtxoDatum, CardanoTransferDatum, CardanoMintBurnDatum, erc721_target, generic_target,
  other_target, DynamicEvmPrimitiveDatum, MidnightContractStateDatum,
}
use paima_engine.Cde.Update.{
  PoolRow, ProjectedRow, Update, generic_insert_data, erc6551_insert_registry, pool_insert_data,
  remove_old_entries, projected_nft_insert, projected_nft_update, insert_asset_utxo,
  spend_asset_utxo, cardano_transfer_insert, cardano_mint_burn_insert, register_dynamic_extension,
  insert_dynamic_extension,
}
use paima_engine.Cde.Host.{Host, piped}
use paima_engine.Cde.Transition.Tokens.{schedule_input}

abbrev pub scheduled_data_address : String
scheduled_data_address = "0x0"

abbrev pub dynamic_primitive_name_separator : String
dynamic_primitive_name_separator = "##"

-- A value in a template text.
abbrev pub shown : Option String → String
shown none = "undefined"
shown (some s) = s

-- `metadata || undefined`
abbrev pub nonempty : Option String → Option String
nonempty none = none
nonempty (some s) = if str_eq s "" then none else some s

abbrev pub join_commas : List String → String
join_commas [] = ""
join_commas (s ∷ []) = s
join_commas (s ∷ t ∷ parts) = append s (append "," (join_commas (t ∷ parts)))

pub process_erc6551_registry : {J : Type 0} → Erc6551RegistryDatum → List (Update J)
process_erc6551_registry d = erc6551_insert_registry d ∷ []

-- The amount is set where the output is created. Where it is spent, the query gets no fingerprint.
unfoldable pub process_cardano_asset_utxo : {J : Type 0} → CardanoAssetUtxoDatum → List (Update J)
process_cardano_asset_utxo d = elim (nonempty d.amount) [
  | some amount ↦ insert_asset_utxo d amount ∷ []
  | none ↦ spend_asset_utxo d.tx_id d.output_index none ∷ []
]

-- The row that is inserted where there is no previous output, and that replaces the previous one's.
abbrev pub projected_row :
    CardanoProjectedNftDatum → (previous : Option (String × ℕ)) → ProjectedRow
projected_row d previous = record {
  cde_name = d.base.cde_name;
  owner_address = d.owner_address;
  previous_tx_hash = Option.map (λ (p : String × ℕ). p.0) previous;
  previous_tx_output_index = Option.map (λ (p : String × ℕ). p.1) previous;
  current_tx_hash = d.action_tx_id;
  current_tx_output_index = d.action_output_index;
  policy_id = d.policy_id;
  asset_name = d.asset_name;
  amount = d.amount;
  status = d.status;
  plutus_datum = d.plutus_datum;
  for_how_long = d.for_how_long;
}

abbrev pub both : {A B : Type 0} → Option A → Option B → Option (A × B)
both none b = none
both (some a) none = none
both (some a) (some b) = some (a, b)

module _ {J : Type 0} (host : Host J) where
  unfoldable pub process_generic : GenericDatum J → (in_presync : Bool) → Option (List (Update J))
  process_generic d in_presync =
      Option.map (λ u. u ∷ generic_insert_data d.base.cde_name d.base.block_number d.payload ∷ [])
        (schedule_input host in_presync d.base
          (piped (d.scheduled_prefix ∷ host.json d.payload ∷ [])) scheduled_data_address
          d.contract_address)

  unfoldable pub process_cardano_pool :
      CardanoPoolDatum → (in_presync : Bool) → Option (List (Update J))
  process_cardano_pool d in_presync =
      let row : PoolRow = record {
        cde_name = d.base.cde_name;
        epoch = d.epoch;
        address = d.address;
        pool = d.pool;
      } in
      Option.map (λ u. u ∷ pool_insert_data row ∷ remove_old_entries d.address ∷ [])
        (schedule_input host in_presync d.base
          (piped (d.scheduled_prefix ∷ d.address ∷ shown d.pool ∷ [])) d.address none)

  unfoldable pub process_cardano_projected_nft :
      CardanoProjectedNftDatum → (in_presync : Bool) → Option (List (Update J))
  process_cardano_projected_nft d in_presync =
      let previous = both d.previous_tx_hash d.previous_tx_output_index in
      let query : Update J = elim previous [
        | none ↦ projected_nft_insert (projected_row d none)
        | some p ↦ projected_nft_update (projected_row d (some p))
      ] in
      Option.map (λ u. u ∷ query ∷ [])
        (schedule_input host in_presync d.base
          (piped (
            shown d.scheduled_prefix
            ∷ d.owner_address
            ∷ shown d.previous_tx_hash
            ∷ shown (Option.map host.decimal d.previous_tx_output_index)
            ∷ d.action_tx_id
            ∷ shown (Option.map host.decimal d.action_output_index)
            ∷ d.policy_id
            ∷ d.asset_name
            ∷ d.status
            ∷ []))
          d.owner_address none)

  unfoldable pub process_cardano_transfer :
      CardanoTransferDatum J → (in_presync : Bool) → Option (List (Update J))
  process_cardano_transfer d in_presync =
      let metadata = nonempty d.metadata in
      Option.map (λ u. u ∷ cardano_transfer_insert d.base.cde_name d.tx_id d.raw_tx metadata ∷ [])
        (schedule_input host in_presync d.base
          (piped (
            shown d.scheduled_prefix
            ∷ d.tx_id
            ∷ shown metadata
            ∷ join_commas d.input_credentials
            ∷ host.json d.outputs
            ∷ []))
          scheduled_data_address none)

  unfoldable pub process_cardano_mint_burn :
      CardanoMintBurnDatum J → (in_presync : Bool) → Option (List (Update J))
  process_cardano_mint_burn d in_presync =
      let metadata = nonempty d.metadata in
      Option.map
        (λ u.
          u
          ∷ cardano_mint_burn_insert d.base.cde_name d.tx_id metadata d.assets d.input_addresses
              d.output_addresses
          ∷ [])
        (schedule_input host in_presync d.base
          (piped (
            shown d.scheduled_prefix
            ∷ d.tx_id
            ∷ shown metadata
            ∷ host.json d.assets
            ∷ host.json d.input_addresses
            ∷ host.json d.output_addresses
            ∷ []))
          scheduled_data_address none)

  -- The queries that register a primitive of the given type.
  abbrev pub registering :
      DynamicEvmPrimitiveDatum
      → (network : String) → (cde_type : ℕ) → (scheduled_prefix : String) → List (Update J)
  registering d network cde_type scheduled_prefix =
      let base_name = append d.base.cde_name dynamic_primitive_name_separator in
      register_dynamic_extension base_name (record {
        cde_type = cde_type;
        cde_caip2 = d.base.caip2;
        start_blockheight = d.base.block_number;
        scheduled_prefix = scheduled_prefix;
      })
      ∷ insert_dynamic_extension base_name d.base.cde_name (record {
        target = d.target_config;
        contract_address = host.lower d.contract_address;
        start_block_height = d.base.block_number;
        network = network;
      })
      ∷ []

  -- 2 and 5 are the numbers of the types ERC721 and Generic.
  unfoldable pub process_dynamic_evm_primitive : DynamicEvmPrimitiveDatum → Option (List (Update J))
  process_dynamic_evm_primitive d = elim (host.network_for_caip2 d.base.caip2) [
    | none ↦ none
    | some network ↦ elim d.target_config [
      | erc721_target prefix burn_prefix ↦ some (registering d network 2 prefix)
      | generic_target abi_path event_signature prefix ↦ some (registering d network 5 prefix)
      | other_target ↦ none
    ]
  ]

  unfoldable pub process_midnight_contract_state :
      MidnightContractStateDatum → (in_presync : Bool) → Option (List (Update J))
  process_midnight_contract_state d in_presync =
      Option.map (λ u. u ∷ [])
        (schedule_input host in_presync d.base (piped (d.scheduled_prefix ∷ d.payload ∷ [])) ""
          (some d.contract_address))
