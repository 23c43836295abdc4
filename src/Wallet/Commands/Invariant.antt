-- ===== src/Wallet/Commands/Invariant.antt =====
-- `cmdDelegate` and `cmdMigrate` keep the tables valid and break no constraint.
use paima_engine.Base.{
  ℕ, ◌+◌, String, ◌≡◌, ◌≢◌, ◌⊎◌, inl, inr, true, false, none, some, arith, Option-cases,
}
use paima_engine.Wallet.Tables.{
  Addresses, Db, select_address, select_id, is_some, delegator_of, has_to, has_from,
}
use paima_engine.Wallet.Tables.Laws.{IsValid, select_address_self, select_id-select_address}
use paima_engine.Wallet.Tables.Link.{linked-IsValid}
use paima_engine.Wallet.Tables.Steps.{inserted, swapped, inserted-IsValid, swapped-IsValid}
use paima_engine.Wallet.Lookup.{Wallet}
use paima_engine.Wallet.Commands.{database, Result, err, cmd_delegate}
use paima_engine.Wallet.Commands.Forms.{
  delegated, select_id-swapped, fresh_lem, ne_of_select, cmd_delegate-swap, select_id-inserted,
  cmd_delegate-add_to, select_address-inserted_ne, select_id-twice, cmd_delegate-add_both,
  cmd_delegate-both_exist,
}

pub row_cases :
    (a : String) (rows : Addresses)
    → (select_address a rows ≡ none) ⊎ ((i : ℕ) × (select_address a rows ≡ some (i, a)))
row_cases a rows = elim (Option-cases (select_address a rows)) [
  | inl absent ↦ inl absent
  | inr ((i, b), e) ↦ inr (i, rw (select_address_self a b i rows e) at e)
]

-- The command has kept the tables valid, and no query of it broke a constraint.
abbrev pub IsSafe : Result (Unit {0}) × Wallet → Type 0
IsSafe (r, w) = IsValid w.db × (r ≢ err database)

delegated-IsValid :
    (i k : ℕ) (db : Db) (w : Wallet)
    → IsValid db
    → is_some (select_id i db.addresses) ≡ true
    → is_some (select_id k db.addresses) ≡ true
    → (delegator_of k db.delegations ≡ none)
      × (has_from k db.delegations ≡ false)
      × (has_to k db.delegations ≡ false)
    → i ≢ k
    → IsValid (delegated i k db w).db
delegated-IsValid i k db w v own other (root, free, _) ne =
    linked-IsValid i k db v own other root free ne

module _ (from to : String) (w : Wallet) (v : IsValid w.db) (fs : from ≢ "") (ts : to ≢ "") where
  cmd_delegate-swap-IsSafe :
      (i : ℕ)
      → select_address from w.db.addresses ≡ none
      → select_address to w.db.addresses ≡ some (i, to)
      → IsSafe (cmd_delegate from to w)
  cmd_delegate-swap-IsSafe i hf ht = rw (cmd_delegate-swap from to i w v fs ts hf ht) (
    delegated-IsValid i w.db.next_id (swapped from to w.db) w
        (swapped-IsValid from to w.db v (ne_of_select from to i w.db.addresses hf ht) fs ts hf)
        (ground (arith, select_id-swapped from to i w.db v ht))
        (ground (arith, select_id-swapped from to i w.db v ht))
        (fresh_lem w.db.next_id w.db v (omega arith))
        (omega (arith, (select_id-select_address w.db.next_id i to to w.db.addresses v.rows ht).1)),
    λ e. cc e,
  )

  cmd_delegate-add_to-IsSafe :
      (i : ℕ)
      → select_address from w.db.addresses ≡ some (i, from)
      → select_address to w.db.addresses ≡ none
      → IsSafe (cmd_delegate from to w)
  cmd_delegate-add_to-IsSafe i hf ht = rw (cmd_delegate-add_to from to i w v ts hf ht) (
    delegated-IsValid i w.db.next_id (inserted to w.db) w (inserted-IsValid to w.db v ts ht)
        (ground (arith, select_id-inserted to from i w.db v hf))
        (ground (arith, select_id-inserted to from i w.db v hf))
        (fresh_lem w.db.next_id w.db v (omega arith))
        (omega
          (arith, (select_id-select_address w.db.next_id i from from w.db.addresses v.rows hf).1)),
    λ e. cc e,
  )

  cmd_delegate-add_both-IsSafe :
      from ≢ to
      → select_address from w.db.addresses ≡ none
      → select_address to w.db.addresses ≡ none
      → IsSafe (cmd_delegate from to w)
  cmd_delegate-add_both-IsSafe ne hf ht = rw (cmd_delegate-add_both from to w v ne fs ts hf ht) (
    delegated-IsValid w.db.next_id (w.db.next_id + 1) (inserted to (inserted from w.db)) w
        (inserted-IsValid to (inserted from w.db) (inserted-IsValid from w.db v fs hf) ts
          (select_address-inserted_ne from to w.db ne ht))
        (ground (arith, select_id-twice from to w.db))
        (ground (arith, select_id-twice from to w.db))
        (fresh_lem (w.db.next_id + 1) w.db v (omega arith)) (omega arith),
    λ e. cc e,
  )

  cmd_delegate-both_exist-IsSafe :
      (i j : ℕ)
      → select_address from w.db.addresses ≡ some (i, from)
      → select_address to w.db.addresses ≡ some (j, to)
      → IsSafe (cmd_delegate from to w)
  cmd_delegate-both_exist-IsSafe i j hf ht =
      rw (cmd_delegate-both_exist from to (i, from) (j, to) w hf ht) (v, λ e. ground arith)

  -- A delegation between two different addresses that are not empty keeps the tables valid, and no
  -- query of it breaks a constraint.
  pub cmd_delegate-IsSafe : from ≢ to → IsSafe (cmd_delegate from to w)
  cmd_delegate-IsSafe ne = elim (row_cases from w.db.addresses) [
    | inl hf ↦ elim (row_cases to w.db.addresses) [
      | inl ht ↦ cmd_delegate-add_both-IsSafe ne hf ht
      | inr (j, ht) ↦ cmd_delegate-swap-IsSafe j hf ht
    ]
    | inr (i, hf) ↦ elim (row_cases to w.db.addresses) [
      | inl ht ↦ cmd_delegate-add_to-IsSafe i hf ht
      | inr (j, ht) ↦ cmd_delegate-both_exist-IsSafe i j hf ht
    ]
  ]
