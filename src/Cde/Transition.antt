-- ===== src/Cde/Transition.antt =====
-- From a datum to queries: packages/node-sdk/paima-sm/src/cde-processing.ts and the files cde-*.ts
-- beside it. A processor that throws has no result.
pub mod Tokens
pub mod Others
use paima_engine.Base.{Bool, Option, some, List}
use paima_engine.Cde.Datum.{
  Datum, erc20_transfer, erc721_transfer, erc721_mint, erc20_deposit, erc1155_transfer, generic,
  mina_event_generic, mina_action_generic, erc6551_registry, cardano_pool, cardano_projected_nft,
  cardano_asset_utxo, cardano_transfer, cardano_mint_burn, dynamic_evm_primitive,
  midnight_contract_state,
}
use paima_engine.Cde.Update.{Update}
use paima_engine.Cde.Tables.{Tables}
use paima_engine.Cde.Host.{Host}
use paima_engine.Cde.Transition.Tokens.{
  process_erc20_transfer, process_erc20_deposit, process_erc721_transfer, process_erc721_mint,
  process_erc1155_transfer,
}
use paima_engine.Cde.Transition.Others.{
  process_erc6551_registry, process_cardano_asset_utxo, process_generic, process_cardano_pool,
  process_cardano_projected_nft, process_cardano_transfer, process_cardano_mint_burn,
  process_dynamic_evm_primitive, process_midnight_contract_state,
}

-- `cdeTransitionFunction`
unfoldable pub cde_transition_function :
    {J : Type 0} → Host J → Tables J → Datum J → (in_presync : Bool) → Option (List (Update J))
cde_transition_function host t (erc20_transfer d) in_presync =
    some (process_erc20_transfer host t.erc20 d)
cde_transition_function host t (erc721_transfer d) in_presync =
    process_erc721_transfer host t.erc721 d in_presync
cde_transition_function host t (erc721_mint d) in_presync = process_erc721_mint host d in_presync
cde_transition_function host t (erc20_deposit d) in_presync =
    process_erc20_deposit host t.erc20_deposit d in_presync
cde_transition_function host t (erc1155_transfer d) in_presync =
    process_erc1155_transfer host d in_presync
cde_transition_function host t (generic d) in_presync = process_generic host d in_presync
cde_transition_function host t (mina_event_generic d) in_presync = process_generic host d in_presync
cde_transition_function host t (mina_action_generic d) in_presync =
    process_generic host d in_presync
cde_transition_function host t (erc6551_registry d) in_presync = some (process_erc6551_registry d)
cde_transition_function host t (cardano_pool d) in_presync = process_cardano_pool host d in_presync
cde_transition_function host t (cardano_projected_nft d) in_presync =
    process_cardano_projected_nft host d in_presync
cde_transition_function host t (cardano_asset_utxo d) in_presync =
    some (process_cardano_asset_utxo d)
cde_transition_function host t (cardano_transfer d) in_presync =
    process_cardano_transfer host d in_presync
cde_transition_function host t (cardano_mint_burn d) in_presync =
    process_cardano_mint_burn host d in_presync
cde_transition_function host t (dynamic_evm_primitive d) in_presync =
    process_dynamic_evm_primitive host d
cde_transition_function host t (midnight_contract_state d) in_presync =
    process_midnight_contract_state host d in_presync
