-- ===== src/Cde/Tables/Tokens.antt =====
-- What the inserts into the tables of tokens do, where the key is new and where it is taken.
use mathlib.Core.Option
use paima_engine.Base.{ℕ, String, ◌≡◌, refl, ap, Bool, none, some, List, [], ◌∷◌, ℤ}
use paima_engine.Machine.State.{Scheduled}
use paima_engine.Cde.Update.{erc20_insert_balance, erc721_insert_owner, erc721_burn_insert}
use paima_engine.Cde.Rows.{find, insert_row_fresh, insert_row_taken}
use paima_engine.Cde.Tables.{Tables, run_token_update, run_other_update, run_update}

module _ {J : Type 0} (decimal : ℕ → String) (starts_with : (base text : String) → Bool)
    (name key : String) (t : Tables J) (schedule : List Scheduled) where
  pub run-erc20_insert :
      (b : ℤ)
      → find (name ∷ key ∷ []) t.erc20 ≡ none
      → run_update decimal starts_with (erc20_insert_balance name key b) t schedule
        ≡ some (record t { erc20 = (name ∷ key ∷ [], b) ∷ t.erc20 }, schedule)
  unfolding run_update run_other_update
  run-erc20_insert b e =
      let ran : run_token_update decimal starts_with (erc20_insert_balance name key b) t
          ≡ some (record t { erc20 = (name ∷ key ∷ [], b) ∷ t.erc20 }) =
        unfold run_token_update in
        ap (Option.map (λ r. record t { erc20 = r }))
          (insert_row_fresh (name ∷ key ∷ []) b t.erc20 e) in
      rw (ran, run_update) refl

module _ {J : Type 0} (decimal : ℕ → String) (starts_with : (base text : String) → Bool)
    (name key value : String) (t : Tables J) (schedule : List Scheduled) where
  pub run-erc721_insert :
      find (name ∷ key ∷ []) t.erc721 ≡ none
      → run_update decimal starts_with (erc721_insert_owner name key value) t schedule
        ≡ some (record t { erc721 = (name ∷ key ∷ [], value) ∷ t.erc721 }, schedule)
  unfolding run_update run_other_update
  run-erc721_insert e =
      let ran : run_token_update decimal starts_with (erc721_insert_owner name key value) t
          ≡ some (record t { erc721 = (name ∷ key ∷ [], value) ∷ t.erc721 }) =
        unfold run_token_update in
        ap (Option.map (λ r. record t { erc721 = r }))
          (insert_row_fresh (name ∷ key ∷ []) value t.erc721 e) in
      rw (ran, run_update) refl

  pub run-burn_insert :
      find (name ∷ key ∷ []) t.erc721_burn ≡ none
      → run_update decimal starts_with (erc721_burn_insert name key value) t schedule
        ≡ some (record t { erc721_burn = (name ∷ key ∷ [], value) ∷ t.erc721_burn }, schedule)
  unfolding run_update run_other_update
  run-burn_insert e =
      let ran : run_token_update decimal starts_with (erc721_burn_insert name key value) t
          ≡ some (record t { erc721_burn = (name ∷ key ∷ [], value) ∷ t.erc721_burn }) =
        unfold run_token_update in
        ap (Option.map (λ r. record t { erc721_burn = r }))
          (insert_row_fresh (name ∷ key ∷ []) value t.erc721_burn e) in
      rw (ran, run_update) refl

  pub run-burn_insert_taken :
      (owner : String)
      → find (name ∷ key ∷ []) t.erc721_burn ≡ some owner
      → run_update decimal starts_with (erc721_burn_insert name key value) t schedule ≡ none
  unfolding run_update run_other_update
  run-burn_insert_taken owner e =
      let ran : run_token_update decimal starts_with (erc721_burn_insert name key value) t ≡ none =
        unfold run_token_update in
        ap (Option.map (λ r. record t { erc721_burn = r }))
          (insert_row_taken (name ∷ key ∷ []) value owner t.erc721_burn e) in
      rw (ran, run_update) refl
