-- ===== src/Cde/Transition/Tokens.antt =====
-- The processors of the datums of tokens on EVM chains: cde-erc20-transfer.ts, cde-erc20-deposit.ts,
-- cde-erc721-transfer.ts, cde-erc721-mint.ts and cde-erc1155-transfer.ts of
-- packages/node-sdk/paima-sm/src. Their `try` blocks have nothing to catch where the amounts are numbers.
use mathlib.Core.Option
use paima_engine.Base.{
  ℕ, ◌+◌, String, Bool, not, ◌&&◌, Option, none, some, List, [], ◌∷◌, ◌++◌, map, str_eq,
  if◌then◌else◌, ℤ, pos, ◌+ℤ◌, ◌-ℤ◌,
}
use paima_engine.Machine.State.{at_block}
use paima_engine.Cde.Datum.{
  DatumBase, Erc20TransferDatum, Erc721TransferDatum, Erc721MintDatum, Erc20DepositDatum,
  Erc1155TransferDatum,
}
use paima_engine.Cde.Update.{
  Update, erc20_insert_balance, erc20_update_balance, deposit_insert_total, deposit_update_total,
  erc721_insert_owner, erc721_update_owner, erc721_burn_insert, erc721_delete,
  erc1155_modify_balance, erc1155_delete_if_zero, erc1155_burn, primitive, create_scheduled_data,
}
use paima_engine.Cde.Host.{Host, piped, is_burn_address, zero_address}
use paima_engine.Cde.Rows.{Rows, find}

-- The new balance of the sender, where it had one.
abbrev pub debit_updates :
    {J : Type 0} → (name wallet : String) → (value : ℕ) → (balance : Option ℤ) → List (Update J)
debit_updates name wallet value none = []
debit_updates name wallet value (some balance) =
    erc20_update_balance name wallet (balance -ℤ pos value) ∷ []

-- The new balance of the receiver, in its row or in a new one.
abbrev pub credit_update :
    {J : Type 0} → (name wallet : String) → (value : ℕ) → (balance : Option ℤ) → Update J
credit_update name wallet value none = erc20_insert_balance name wallet (pos value)
credit_update name wallet value (some balance) =
    erc20_update_balance name wallet (balance +ℤ pos value)

-- The queries after a burn's input, if it has one.
abbrev pub burn_updates : {J : Type 0} → (cde_name token_id nft_owner : String) → List (Update J)
burn_updates cde_name token_id nft_owner =
    erc721_burn_insert cde_name token_id nft_owner ∷ erc721_delete cde_name token_id ∷ []

abbrev pub ids_of : List (String × ℕ) → List String
ids_of items = map (λ (p : String × ℕ). p.0) items

module _ {J : Type 0} (host : Host J) where
  -- In the presync, what a datum schedules waits for the first block.
  abbrev pub scheduled_block : (in_presync : Bool) → DatumBase → ℕ
  scheduled_block in_presync base =
      if in_presync then host.start_blockheight + 1 else base.block_number

  -- The input that a datum schedules, `createScheduledData` at that block.
  abbrev pub schedule_input :
      (in_presync : Bool)
      → DatumBase
      → (input_data from_address : String) → Option String
      → Option (Update J)
  schedule_input in_presync base input_data from_address contract_address =
      create_scheduled_data host.bytes input_data (at_block (scheduled_block in_presync base))
        (primitive base.cde_name base.transaction_hash base.caip2 from_address contract_address)

  unfoldable pub process_erc20_transfer : Rows ℤ → Erc20TransferDatum → List (Update J)
  process_erc20_transfer erc20 d =
      let name = d.base.cde_name in
      let from_addr = host.lower d.from in
      let to_addr = host.lower d.to in
      debit_updates name from_addr d.value (find (name ∷ from_addr ∷ []) erc20)
      ++ (credit_update name to_addr d.value (find (name ∷ to_addr ∷ []) erc20) ∷ [])

  unfoldable pub process_erc20_deposit :
      Rows ℤ → Erc20DepositDatum → (in_presync : Bool) → Option (List (Update J))
  process_erc20_deposit deposits d in_presync =
      let name = d.base.cde_name in
      let from_addr = host.lower d.from in
      let total : Update J = elim (find (name ∷ from_addr ∷ []) deposits) [
        | some old ↦ deposit_update_total name from_addr (old +ℤ pos d.value)
        | none ↦ deposit_insert_total name from_addr (pos d.value)
      ] in
      Option.map (λ u. u ∷ total ∷ [])
        (schedule_input in_presync d.base
          (piped (d.scheduled_prefix ∷ from_addr ∷ host.decimal d.value ∷ [])) from_addr
          (some (host.lower d.contract_address)))

  unfoldable pub process_erc721_transfer :
      Rows String → Erc721TransferDatum → (in_presync : Bool) → Option (List (Update J))
  process_erc721_transfer owners d in_presync =
      let name = d.base.cde_name in
      let to_addr = host.lower d.to in
      elim (find (name ∷ d.token_id ∷ []) owners) [
        | none ↦ some (erc721_insert_owner name d.token_id to_addr ∷ [])
        | some owner ↦
            if is_burn_address (host.lower to_addr)
            then (if str_eq d.burn_scheduled_prefix ""
                then some (burn_updates name d.token_id owner)
                else Option.map (λ u. u ∷ burn_updates name d.token_id owner)
                    (schedule_input in_presync d.base
                      (piped (d.burn_scheduled_prefix ∷ owner ∷ d.token_id ∷ []))
                      (host.lower d.from) (some (host.lower d.contract_address))))
            else some (erc721_update_owner name d.token_id to_addr ∷ [])
      ]

  unfoldable pub process_erc721_mint :
      Erc721MintDatum → (in_presync : Bool) → Option (List (Update J))
  process_erc721_mint d in_presync =
      if str_eq d.scheduled_prefix ""
      then some []
      else Option.map (λ u. u ∷ [])
          (schedule_input in_presync d.base
            (piped (d.scheduled_prefix ∷ d.contract_address ∷ d.token_id ∷ d.mint_data ∷ [])) d.from
            (some (host.lower d.contract_address)))

  -- One turn of the loop over ids and values.
  abbrev pub sent_updates : Erc1155TransferDatum → (token_id : String) → ℕ → List (Update J)
  sent_updates d token_id value =
      if str_eq d.from zero_address
      then []
      else erc1155_modify_balance d.base.cde_name token_id (host.lower d.from) (pos 0 -ℤ pos value)
        ∷ erc1155_delete_if_zero d.base.cde_name token_id (host.lower d.from)
        ∷ []

  abbrev pub received_update : Erc1155TransferDatum → (token_id : String) → ℕ → Update J
  received_update d token_id value =
      if is_burn_address d.to
      then erc1155_burn d.base.cde_name token_id (host.lower d.from) (pos value)
      else erc1155_modify_balance d.base.cde_name token_id (host.lower d.to) (pos value)

  unfoldable pub erc1155_loop : Erc1155TransferDatum → List (String × ℕ) → List (Update J)
  erc1155_loop d [] = []
  erc1155_loop d ((token_id, value) ∷ items) =
      sent_updates d token_id value ++ (received_update d token_id value ∷ erc1155_loop d items)

  abbrev pub values_of : List (String × ℕ) → List String
  values_of items = map (λ (p : String × ℕ). host.decimal p.1) items

  -- The inputs that a transfer schedules, before the balances.
  unfoldable pub erc1155_scheduled :
      Erc1155TransferDatum → (in_presync : Bool) → Option (List (Update J))
  erc1155_scheduled d in_presync =
      let ids = host.json_texts (ids_of d.items) in
      let values = host.json_texts (values_of d.items) in
      let schedule : String → Option (Update J) = λ input_data.
        schedule_input in_presync d.base input_data (host.lower d.from)
          (some (host.lower d.contract_address)) in
      let transfer = schedule (
        piped (
          d.scheduled_prefix
          ∷ d.operator
          ∷ host.lower d.from
          ∷ host.lower d.to
          ∷ ids
          ∷ values
          ∷ [])) in
      let burn =
        schedule
          (piped (d.burn_scheduled_prefix ∷ d.operator ∷ host.lower d.from ∷ ids ∷ values ∷ [])) in
      let burns : Option (List (Update J)) =
        if is_burn_address d.to && not (str_eq d.burn_scheduled_prefix "")
        then Option.map (λ u. u ∷ []) burn
        else some [] in
      if str_eq d.scheduled_prefix ""
      then burns
      else elim transfer [ none ↦ none | some u ↦ Option.map (λ l. u ∷ l) burns ]

  unfoldable pub process_erc1155_transfer :
      Erc1155TransferDatum → (in_presync : Bool) → Option (List (Update J))
  process_erc1155_transfer d in_presync =
      Option.map (λ l. l ++ erc1155_loop d d.items) (erc1155_scheduled d in_presync)
