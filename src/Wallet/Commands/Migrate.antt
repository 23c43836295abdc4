-- ===== src/Wallet/Commands/Migrate.antt =====
-- `cmdMigrate` and `cmdCancelDelegations`.
use paima_engine.Base.{ℕ, String, ◌≡◌, sym, ap, ◌∙◌, ◌≢◌, ◌⊎◌, inl, inr, none, some, [], arith}
use paima_engine.Wallet.Tables.{Db, select_address, rename}
use paima_engine.Wallet.Tables.Laws.{
  IsValid, select_id-select_address, select_id-nonempty, select_address-rename_new,
}
use paima_engine.Wallet.Tables.Steps.{swapped, swapped-IsValid}
use paima_engine.Wallet.Lookup.{WalletDelegate, Wallet, main_of}
use paima_engine.Wallet.Commands.{database, Result, ok, err, cmd_migrate}
use paima_engine.Wallet.Commands.Forms.{swap_lem, fresh_lem, ne_of_select}
use paima_engine.Wallet.Commands.Invariant.{row_cases}
use paima_engine.Wallet.Commands.Progress.{main_row-id}
use paima_engine.Wallet.Commands.Identity.{
  main_row-root, main_of-row, select_address-inserted, select_address-inserted_keeps,
}

-- A known "from" hands its row over to a new "to".
pub cmd_migrate-swap :
    (from to : String) (i : ℕ) (w : Wallet)
    → select_address from w.db.addresses ≡ some (i, from)
    → select_address to w.db.addresses ≡ none
    → cmd_migrate from to w ≡ (ok tt, record w { db = swapped to from w.db; cache = [] })
unfolding cmd_migrate
cmd_migrate-swap from to i w hf ht =
    ground (arith, swap_lem to from i w (ne_of_select to from i w.db.addresses ht hf) ht hf)

-- A throw that is no broken constraint, and that has written nothing.
abbrev pub Refused : Wallet → Result (Unit {0}) × Wallet → Type 0
Refused w (r, w') = (w' ≡ w) × (r ≢ ok tt) × (r ≢ err database)

pub cmd_migrate-Refused :
    (from to : String) (w : Wallet)
    → ((select_address from w.db.addresses ≡ none) ⊎ (select_address to w.db.addresses ≢ none))
    → Refused w (cmd_migrate from to w)
unfolding cmd_migrate
cmd_migrate-Refused from to w h = ground arith

-- "to" has the identity that "from" had, and "from" stands alone under a new id.
abbrev pub Moved : (from to : String) → (before after : Db) → Type 0
Moved from to before after =
    IsValid after
    × ((main_of to after).id ≡ (main_of from before).id)
    × (main_of from after ≡ record { address = from; id = some before.next_id })

moved_lem :
    (from to : String) (i : ℕ) (db : Db)
    → IsValid db
    → to ≢ ""
    → select_address from db.addresses ≡ some (i, from)
    → select_address to db.addresses ≡ none
    → Moved from to db (swapped to from db)
moved_lem from to i db v ts hf ht =
    let ne = ne_of_select to from i db.addresses ht hf in
    let (hs, lt) = select_id-select_address db.next_id i from from db.addresses v.rows hf in
    let fs = select_id-nonempty db.next_id i from db.addresses v.rows hs in
    let renamed : Db = record db { addresses = rename to from db.addresses } in
    let vs = swapped-IsValid to from db v ne ts fs ht in
    let ht' =
      select_address-inserted_keeps from to i renamed (λ e. ne (sym e))
        (select_address-rename_new to from from i db.addresses ht hf) in
    (
      vs,
      ap (λ (x : WalletDelegate). x.id) (main_of-row to i (swapped to from db) ht')
          ∙ main_row-id i to (swapped to from db) vs
          ∙ sym (
              ap (λ (x : WalletDelegate). x.id) (main_of-row from i db hf)
              ∙ main_row-id i from db v),
      main_of-row from db.next_id (swapped to from db) (select_address-inserted from renamed)
          ∙ main_row-root db.next_id from (swapped to from db)
              (fresh_lem db.next_id db v (omega arith)).0,
    )

-- A migration on valid tables to an address that is not empty succeeds exactly where "from" has a
-- row and "to" has none: then the tables stay valid, "to" has the identity that "from" had, and
-- "from" stands alone under a new id; else it is refused by an error that is no broken constraint,
-- and nothing is written.
pub cmd_migrate_lem :
    (from to : String) (w : Wallet)
    → IsValid w.db
    → to ≢ ""
    → ((select_address from w.db.addresses ≢ none)
        × (select_address to w.db.addresses ≡ none)
        × ((cmd_migrate from to w).0 ≡ ok tt)
        × Moved from to w.db (cmd_migrate from to w).1.db)
      ⊎ (((select_address from w.db.addresses ≡ none) ⊎ (select_address to w.db.addresses ≢ none))
          × Refused w (cmd_migrate from to w))
cmd_migrate_lem from to w v ts = elim (row_cases from w.db.addresses) [
  | inl hf ↦ inr (inl hf, cmd_migrate-Refused from to w (inl hf))
  | inr (i, hf) ↦ elim (row_cases to w.db.addresses) [
    | inr (j, ht) ↦
        let known : select_address to w.db.addresses ≢ none = λ e. cc (e, ht) in
        inr (inr known, cmd_migrate-Refused from to w (inr known))
    | inl ht ↦ inl (
      (λ e. cc (e, hf)),
      ht,
      ap (λ (x : Result (Unit {0}) × Wallet). x.0) (cmd_migrate-swap from to i w hf ht),
      rw (cmd_migrate-swap from to i w hf ht) (moved_lem from to i w.db v ts hf ht),
    )
  ]
]
