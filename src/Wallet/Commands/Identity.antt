-- ===== src/Wallet/Commands/Identity.antt =====
-- What a successful delegation means to the game: both wallets act under one identity.
use paima_engine.Base.{
  ℕ, ◌+◌, String, ◌≡◌, refl, sym, ◌∙◌, ◌≢◌, inl, inr, true, none, some, arith, eq_iff, Option-cases,
}
use paima_engine.Wallet.Tables.{Db, select_address, select_id, is_some, rename, delegator_of}
use paima_engine.Wallet.Tables.Laws.{
  IsValid, select_id-select_address, select_id-nonempty, select_address-rename_new,
}
use paima_engine.Wallet.Tables.Forest.{delegator_of-has_row, master_of}
use paima_engine.Wallet.Tables.Link.{linked}
use paima_engine.Wallet.Tables.Steps.{inserted, swapped, inserted-IsValid, swapped-IsValid}
use paima_engine.Wallet.Lookup.{WalletDelegate, Wallet, main_row, main_of}
use paima_engine.Wallet.Commands.{cmd_delegate}
use paima_engine.Wallet.Commands.Forms.{
  delegated, select_id-swapped, ne_of_select, cmd_delegate-swap, select_id-inserted,
  cmd_delegate-add_to, select_address-inserted_ne, select_id-twice, cmd_delegate-add_both,
}

-- The delegator's row decides who an address is.
pub main_row-delegated :
    (i m : ℕ) (a b : String) (db : Db)
    → delegator_of i db.delegations ≡ some m
    → select_id m db.addresses ≡ some b
    → b ≢ ""
    → main_row i a db ≡ record { address = b; id = some m }
unfolding main_row
main_row-delegated i m a b db hd hs ne = ground (arith, eq_iff b "")

pub main_row-root :
    (i : ℕ) (a : String) (db : Db)
    → delegator_of i db.delegations ≡ none
    → main_row i a db ≡ record { address = a; id = some i }
unfolding main_row
main_row-root i a db h = ground arith

-- A new delegation changes nothing for other ids.
main_row-linked :
    (i k j : ℕ) (a : String) (db : Db) → j ≢ k → main_row j a (linked i k db) ≡ main_row j a db
unfolding main_row delegator_of
main_row-linked i k j a db ne = ground arith

delegator_of-linked :
    (i k m : ℕ) (db : Db)
    → master_of i db.delegations ≡ m
    → delegator_of k (linked i k db).delegations ≡ some m
unfolding delegator_of
delegator_of-linked i k m db h = ground arith

pub row_of_master :
    (m : ℕ) (db : Db)
    → is_some (select_id m db.addresses) ≡ true
    → (c : String) × (select_id m db.addresses ≡ some c)
row_of_master m db h = ground arith

-- The id that is linked becomes whoever the other id is.
main_row-link :
    (i k : ℕ) (a b : String) (db : Db)
    → IsValid db
    → i ≢ k
    → select_id i db.addresses ≡ some a
    → main_row k b (linked i k db) ≡ main_row i a db
main_row-link i k a b db v ne hs = elim (Option-cases (delegator_of i db.delegations)) [
  | inl root ↦
      main_row-delegated k i b a (linked i k db)
        (delegator_of-linked i k i db (rw (root, master_of) refl)) hs
        (select_id-nonempty db.next_id i a db.addresses v.rows hs)
      ∙ sym (main_row-root i a db root)
  | inr (m, e) ↦
      let (c, hc) =
        row_of_master m db (delegator_of-has_row i m db.addresses db.delegations v.keys e) in
      let ns = select_id-nonempty db.next_id m c db.addresses v.rows hc in
      main_row-delegated k m b c (linked i k db)
        (delegator_of-linked i k m db (rw (e, master_of) refl)) hc ns
      ∙ sym (main_row-delegated i m a c db e hc ns)
]

-- Both addresses stand under one identity, which is that of the row (`i`, `a`) of the tables before.
abbrev pub ShareIdentity : (from to : String) → WalletDelegate → Wallet → Type 0
ShareIdentity from to who w = (main_of from w.db ≡ who) × (main_of to w.db ≡ who)

pub main_of-row :
    (a : String) (i : ℕ) (db : Db)
    → select_address a db.addresses ≡ some (i, a)
    → main_of a db ≡ main_row i a db
unfolding main_of
main_of-row a i db h = ground arith

share_lem :
    (from to : String) (i k : ℕ) (db : Db) (w : Wallet)
    → IsValid db
    → i ≢ k
    → select_address from db.addresses ≡ some (i, from)
    → select_address to db.addresses ≡ some (k, to)
    → select_id i db.addresses ≡ some from
    → ShareIdentity from to (main_row i from db) (delegated i k db w)
share_lem from to i k db w v ne hf ht hs = (
  main_of-row from i (linked i k db) hf ∙ main_row-linked i k i from db ne,
  main_of-row to k (linked i k db) ht ∙ main_row-link i k from to db v ne hs,
)

pub select_address-inserted :
    (a : String) (db : Db) → select_address a (inserted a db).addresses ≡ some (db.next_id, a)
unfolding select_address
select_address-inserted a db = ground (arith, eq_iff a a)

pub select_address-inserted_keeps :
    (a b : String) (i : ℕ) (db : Db)
    → a ≢ b
    → select_address b db.addresses ≡ some (i, b)
    → select_address b (inserted a db).addresses ≡ some (i, b)
unfolding select_address
select_address-inserted_keeps a b i db ne h = ground (arith, eq_iff a b)

module _ (from to : String) (w : Wallet) (v : IsValid w.db) (fs : from ≢ "") (ts : to ≢ "") where
  -- "to" had progress: its identity before is the one that both have now, but that the address of
  -- its row is now "from".
  pub share-swap :
      (i : ℕ)
      → select_address from w.db.addresses ≡ none
      → select_address to w.db.addresses ≡ some (i, to)
      → ShareIdentity from to (main_row i from (swapped from to w.db)) (cmd_delegate from to w).1
  share-swap i hf ht =
      let ne = ne_of_select from to i w.db.addresses hf ht in
      rw (cmd_delegate-swap from to i w v fs ts hf ht) (
        share_lem from to i w.db.next_id (swapped from to w.db) w
          (swapped-IsValid from to w.db v ne fs ts hf)
          (omega
            (arith, (select_id-select_address w.db.next_id i to to w.db.addresses v.rows ht).1))
          (select_address-inserted_keeps to from i
            (record w.db { addresses = rename from to w.db.addresses }) (λ e. ne (sym e))
            (select_address-rename_new from to to i w.db.addresses hf ht))
          (select_address-inserted to (record w.db { addresses = rename from to w.db.addresses }))
          (select_id-swapped from to i w.db v ht).0)

  pub share-add_to :
      (i : ℕ)
      → select_address from w.db.addresses ≡ some (i, from)
      → select_address to w.db.addresses ≡ none
      → ShareIdentity from to (main_row i from (inserted to w.db)) (cmd_delegate from to w).1
  share-add_to i hf ht =
      let ne = ne_of_select to from i w.db.addresses ht hf in
      rw (cmd_delegate-add_to from to i w v ts hf ht) (
        share_lem from to i w.db.next_id (inserted to w.db) w (inserted-IsValid to w.db v ts ht)
          (omega
            (arith, (select_id-select_address w.db.next_id i from from w.db.addresses v.rows hf).1))
          (select_address-inserted_keeps to from i w.db ne hf) (select_address-inserted to w.db)
          (select_id-inserted to from i w.db v hf).0)

  pub share-add_both :
      from ≢ to
      → select_address from w.db.addresses ≡ none
      → select_address to w.db.addresses ≡ none
      → ShareIdentity from to
          (main_row w.db.next_id from (inserted to (inserted from w.db)))
          (cmd_delegate from to w).1
  share-add_both ne hf ht = rw (cmd_delegate-add_both from to w v ne fs ts hf ht) (
      share_lem from to w.db.next_id (w.db.next_id + 1) (inserted to (inserted from w.db)) w
        (inserted-IsValid to (inserted from w.db) (inserted-IsValid from w.db v fs hf) ts
          (select_address-inserted_ne from to w.db ne ht))
        (omega arith)
        (select_address-inserted_keeps to from w.db.next_id (inserted from w.db) (λ e. ne (sym e))
          (select_address-inserted from w.db))
        (select_address-inserted to (inserted from w.db)) (select_id-twice from to w.db).0)
