-- ===== src/Cde/Erc721.antt =====
-- The owners of ERC721 tokens: packages/node-sdk/paima-sm/src/cde-erc721-transfer.ts with the queries
-- that it gives rise to.
pub mod Transfers
use mathlib.Core.Option
use paima_engine.Base.{
  ℕ, String, ◌≡◌, refl, inl, inr, Bool, true, false, ◌&&◌, Option, none, some, List, [], ◌∷◌, ◌++◌,
  str_eq, if◌then◌else◌, Bool-cases,
}
use paima_engine.Machine.State.{Scheduled}
use paima_engine.Cde.Datum.{Erc721TransferDatum}
use paima_engine.Cde.Update.{Update, erc721_burn_insert, erc721_delete, create_scheduled_data}
use paima_engine.Cde.Rows.{Key, key_eq, Rows, find, delete_where}
use paima_engine.Cde.Tables.{Tables, run_token_update, run_other_update, run_update, run_updates}
use paima_engine.Cde.Tables.Laws.{run_updates-cons}
use paima_engine.Cde.Tables.Tokens.{run-burn_insert, run-burn_insert_taken}
use paima_engine.Cde.Host.{Host, piped, is_burn_address}
use paima_engine.Cde.Transition.Tokens.{burn_updates, schedule_input, process_erc721_transfer}

abbrev pub token_key : Erc721TransferDatum → Key
token_key d = d.base.cde_name ∷ d.token_id ∷ []

abbrev pub is_some : {A : Type 0} → Option A → Bool
is_some none = false
is_some (some a) = true

module _ {J : Type 0} (host : Host J) (d : Erc721TransferDatum) where
  abbrev pub is_burn : Bool
  is_burn = is_burn_address (host.lower (host.lower d.to))

  -- The owner after a transfer, by the one before: none after a burn of a token that was known.
  abbrev pub owner_after : Option String → Option String
  owner_after none = some (host.lower d.to)
  owner_after (some owner) = if is_burn then none else some (host.lower d.to)

  -- The record of the owner before a burn, by that owner and the record before.
  abbrev pub burnt_after : Option String → Option String → Option String
  burnt_after none burnt = burnt
  burnt_after (some owner) burnt = if is_burn then some owner else burnt

  -- A burn of a token that has an owner and was burnt before.
  abbrev pub is_reburn : Tables J → Bool
  is_reburn t =
      is_burn && is_some (find (token_key d) t.erc721) && is_some (find (token_key d) t.erc721_burn)

module _ {J : Type 0} (host : Host J) (decimal : ℕ → String)
    (starts_with : (base text : String) → Bool) (d : Erc721TransferDatum) (in_presync : Bool) where
  -- A transfer is processed, its queries run, and owners and burns are as they should be.
  pub record IsTransferred (t : Tables J) (schedule : List Scheduled) : Type 0 where
    pub updates : List (Update J)
    pub owners : Rows String
    pub burns : Rows String
    pub next_id : ℕ
    pub schedule_after : List Scheduled
    pub processed : process_erc721_transfer host t.erc721 d in_presync ≡ some updates
    pub ran :
        run_updates decimal starts_with updates t schedule
        ≡ some
            (record t { erc721 = owners; erc721_burn = burns; next_id = next_id }, schedule_after)
    pub owned :
        (k : Key)
        → find k owners ≡ (
            if key_eq (token_key d) k
            then owner_after host d (find (token_key d) t.erc721)
            else find k t.erc721)
    pub burnt :
        (k : Key)
        → find k burns ≡ (
            if key_eq (token_key d) k
            then burnt_after host d (find (token_key d) t.erc721) (find (token_key d) t.erc721_burn)
            else find k t.erc721_burn)

  -- The input that a burn schedules, if it has a prefix.
  pub burn_input : (owner : String) → Option (List (Update J))
  burn_input owner =
      if str_eq d.burn_scheduled_prefix ""
      then some (burn_updates d.base.cde_name d.token_id owner)
      else Option.map (λ u. u ∷ burn_updates d.base.cde_name d.token_id owner)
          (schedule_input host in_presync d.base
            (piped (d.burn_scheduled_prefix ∷ owner ∷ d.token_id ∷ [])) (host.lower d.from)
            (some (host.lower d.contract_address)))

  pub burn_input_runs :
      (owner : String) (t : Tables J) (schedule : List Scheduled)
      → (us : List (Update J)) × (n : ℕ) × (schedule' : List Scheduled) × (burn_input owner
          ≡ some (us ++ burn_updates d.base.cde_name d.token_id owner))
        × (run_updates decimal starts_with us t schedule
            ≡ some (record t { next_id = n }, schedule'))
  unfolding burn_input create_scheduled_data run_updates run_update
  burn_input_runs owner t schedule = elim (Bool-cases (str_eq d.burn_scheduled_prefix "")) [
    | inl silent ↦ rw silent ([], t.next_id, schedule, refl, refl)
    | inr told ↦ rw told (_ ∷ [], _, _, refl, refl)
  ]

  pub burns_run :
      (owner : String) (t : Tables J) (schedule : List Scheduled)
      → find (token_key d) t.erc721_burn ≡ none
      → run_updates decimal starts_with (burn_updates d.base.cde_name d.token_id owner) t schedule
        ≡ some (
          record t {
            erc721 = delete_where (token_key d) (λ _. true) t.erc721;
            erc721_burn = (token_key d, owner) ∷ t.erc721_burn;
          },
          schedule,
        )
  unfolding run_updates run_update run_token_update run_other_update
  burns_run owner t schedule free =
      run_updates-cons decimal starts_with (erc721_burn_insert d.base.cde_name d.token_id owner)
        (erc721_delete d.base.cde_name d.token_id ∷ []) t
        (record t { erc721_burn = (token_key d, owner) ∷ t.erc721_burn }) schedule schedule
        (run-burn_insert decimal starts_with d.base.cde_name d.token_id owner t schedule free)

  pub burns_refused :
      (owner old : String) (t : Tables J) (schedule : List Scheduled)
      → find (token_key d) t.erc721_burn ≡ some old
      → run_updates decimal starts_with (burn_updates d.base.cde_name d.token_id owner) t schedule
        ≡ none
  unfolding run_updates
  burns_refused owner old t schedule taken =
      rw
        (
          run-burn_insert_taken decimal starts_with d.base.cde_name d.token_id owner t schedule old
              taken,
          run_updates,
        )
        refl
