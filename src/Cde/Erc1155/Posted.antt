-- ===== src/Cde/Erc1155/Posted.antt =====
-- The loop over the ids and values of a transfer, as a ledger.
use paima_engine.Base.{
  ℕ, String, ◌≡◌, refl, ap, ◌∙◌, inl, inr, some, List, [], ◌∷◌, str_eq, if◌then◌else◌, Bool-cases,
  ℤ, pos, ◌+ℤ◌, ◌-ℤ◌,
}
use paima_engine.Machine.State.{Scheduled}
use paima_engine.Cde.Datum.{Erc1155TransferDatum}
use paima_engine.Cde.Update.{Update}
use paima_engine.Cde.Rows.{
  Key, Rows, delete_where, upsert_row, IsUnique, delete_where-IsUnique, upsert_row-IsUnique,
}
use paima_engine.Cde.Tables.Laws.{run_updates-cons, run_updates-append}
use paima_engine.Cde.Tables.{
  Tables, is_zero, run_token_update, run_other_update, run_update, run_updates,
}
use paima_engine.Cde.Host.{Host, is_burn_address, zero_address}
use paima_engine.Cde.Transition.Tokens.{sent_updates, received_update, erc1155_loop}
use paima_engine.Cde.Erc1155.{
  balance_at, credit, balance_at-upsert_row, balance_at-delete_if_zero, balance_key, ledger_after,
  burns_after, StartsWith,
}

module _ {J : Type 0} (host : Host J) (decimal : ℕ → String) (starts_with : StartsWith) where
  -- The queries run, and leave balances and burns as the ledgers say.
  pub record IsPosted (d : Erc1155TransferDatum) (items : List (String × ℕ)) (t : Tables J)
      (schedule : List Scheduled) (updates : List (Update J)) : Type 0 where
    pub after : Tables J
    pub ran : run_updates decimal starts_with updates t schedule ≡ some (after, schedule)
    pub unique : IsUnique after.erc1155
    pub balances : balance_at after.erc1155 ≡ ledger_after host d items (balance_at t.erc1155)
    pub burns : balance_at after.erc1155_burn ≡ burns_after host d items (balance_at t.erc1155_burn)

  sent_rows :
      (d : Erc1155TransferDatum) (token_id : String) (value : ℕ) (t : Tables J)
      (schedule : List Scheduled)
      → IsUnique t.erc1155
      → (r : Rows ℤ) × (run_updates decimal starts_with
            (sent_updates host d token_id value)
            t
            schedule
          ≡ some (record t { erc1155 = r }, schedule))
        × IsUnique r
        × (balance_at r ≡ (
            if str_eq d.from zero_address
            then balance_at t.erc1155
            else credit
                (balance_key d.base token_id (host.lower d.from))
                (pos 0 -ℤ pos value)
                (balance_at t.erc1155)))
  unfolding run_updates run_update run_token_update run_other_update
  sent_rows d token_id value t schedule u = elim (Bool-cases (str_eq d.from zero_address)) [
    | inl mint ↦ rw mint (t.erc1155, refl, u, refl)
    | inr other ↦
        let key = balance_key d.base token_id (host.lower d.from) in
        let r = upsert_row key (pos 0 -ℤ pos value) (λ b. b +ℤ (pos 0 -ℤ pos value)) t.erc1155 in
        let v =
          upsert_row-IsUnique key (pos 0 -ℤ pos value) (λ b. b +ℤ (pos 0 -ℤ pos value)) t.erc1155
            u in
        rw other (
          delete_where key is_zero r,
          refl,
          delete_where-IsUnique key is_zero r v,
          balance_at-delete_if_zero key r v
              ∙ balance_at-upsert_row key (pos 0 -ℤ pos value) t.erc1155,
        )
  ]

  received_rows :
      (d : Erc1155TransferDatum) (token_id : String) (value : ℕ) (t : Tables J)
      (schedule : List Scheduled)
      → IsUnique t.erc1155
      → (r b : Rows ℤ) × (run_update decimal starts_with
            (received_update host d token_id value)
            t
            schedule
          ≡ some (record t { erc1155 = r; erc1155_burn = b }, schedule))
        × IsUnique r
        × (balance_at r ≡ (
            if is_burn_address d.to
            then balance_at t.erc1155
            else credit
                (balance_key d.base token_id (host.lower d.to))
                (pos value)
                (balance_at t.erc1155)))
        × (balance_at b ≡ (
            if is_burn_address d.to
            then credit
                (balance_key d.base token_id (host.lower d.from))
                (pos value)
                (balance_at t.erc1155_burn)
            else balance_at t.erc1155_burn))
  unfolding run_update run_token_update run_other_update
  received_rows d token_id value t schedule u = elim (Bool-cases (is_burn_address d.to)) [
    | inl burn ↦
        let key = balance_key d.base token_id (host.lower d.from) in
        rw burn (
          t.erc1155,
          upsert_row key (pos value) (λ b. b +ℤ pos value) t.erc1155_burn,
          refl,
          u,
          refl,
          balance_at-upsert_row key (pos value) t.erc1155_burn,
        )
    | inr other ↦
        let key = balance_key d.base token_id (host.lower d.to) in
        rw other (
          upsert_row key (pos value) (λ b. b +ℤ pos value) t.erc1155,
          t.erc1155_burn,
          refl,
          upsert_row-IsUnique key (pos value) (λ b. b +ℤ pos value) t.erc1155 u,
          balance_at-upsert_row key (pos value) t.erc1155,
          refl,
        )
  ]

  pub erc1155_loop-IsPosted :
      (d : Erc1155TransferDatum) (items : List (String × ℕ)) (t : Tables J)
      (schedule : List Scheduled)
      → IsUnique t.erc1155
      → IsPosted d items t schedule (erc1155_loop host d items)
  unfolding erc1155_loop ledger_after burns_after run_updates
  erc1155_loop-IsPosted d [] t schedule u = record {
    after = t;
    ran = refl;
    unique = u;
    balances = refl;
    burns = refl;
  }
  erc1155_loop-IsPosted d ((token_id, value) ∷ items) t schedule u =
      let (r, ran, ur, sent) = sent_rows d token_id value t schedule u in
      let t1 : Tables J = record t { erc1155 = r } in
      let (r2, b2, ran2, u2, received, burnt) = received_rows d token_id value t1 schedule ur in
      let t2 : Tables J = record t { erc1155 = r2; erc1155_burn = b2 } in
      let ih = erc1155_loop-IsPosted d items t2 schedule u2 in
      let rest = received_update host d token_id value ∷ erc1155_loop host d items in
      let first = sent_updates host d token_id value in
      record {
        after = ih.after;
        ran =
            run_updates-append decimal starts_with first rest t t1 schedule schedule ran
            ∙ run_updates-cons decimal starts_with (received_update host d token_id value)
                (erc1155_loop host d items) t1 t2 schedule schedule ran2
            ∙ ih.ran;
        unique = ih.unique;
        balances =
            ih.balances
            ∙ ap (ledger_after host d items) (
                received
                ∙ ap
                    (λ (f : Key → ℤ).
                      if is_burn_address d.to
                      then f
                      else credit (balance_key d.base token_id (host.lower d.to)) (pos value) f)
                    sent);
        burns = ih.burns ∙ ap (burns_after host d items) burnt;
      }
