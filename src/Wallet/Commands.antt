-- ===== src/Wallet/Commands.antt =====
-- `DelegateWallet`: packages/node-sdk/paima-sm/src/delegate-wallet.ts. What the class does not
-- implement is a parameter: the parser of the commands, the wallets' signature schemes and
-- `toLocaleLowerCase`.
pub mod Forms
pub mod Invariant
pub mod Identity
pub mod Progress
pub mod Migrate
pub mod Cancel
use paima_engine.Base.{
  ℕ, String, ◌≡◌, refl, ◌⊎◌, inl, inr, Bool, true, Option, none, some, [], str_eq, ◌==◌,
  if◌then◌else◌,
}
use paima_engine.Wallet.Tables.{
  Addresses, Delegations, Db, select_address, select_id, insert_address, update_address,
  delegator_of, has_to, has_delegation, insert_delegation, delete_delegation,
  delete_delegations_from,
}
use paima_engine.Wallet.Lookup.{Wallet}

-- The errors that are thrown; `database` is a broken constraint.
pub data Error : Type 0 where
  cannot_delegate_self not_the_sender no_signature invalid_signature : Error
  address_does_not_exist cannot_delegate_to_itself both_have_progress delegation_exists : Error
  reverse_delegation_exists to_has_delegations address_not_created cannot_migrate : Error
  invalid_address cannot_parse database : Error

pub data Result (A : Type 0) : Type 0 where
  ok : A → Result A
  err : Error → Result A

-- What was written before an error stays written, so the state comes back beside it.
abbrev pub Command : Type 0 → Type 0
Command A = Wallet → Result A × Wallet

module _ {A : Type 0} where
  abbrev pub pure : A → Command A
  pure a w = (ok a, w)

  abbrev pub raise : Error → Command A
  raise e w = (err e, w)

infixl 5 ◌>>=◌ ◌>>◌
abbrev pub ◌>>=◌ : {A B : Type 0} → Command A → (A → Command B) → Command B
◌>>=◌ m f w = let (r, w') = m w in elim r [ ok a ↦ f a w' | err e ↦ raise e w' ]

abbrev pub ◌>>◌ : {A B : Type 0} → Command A → Command B → Command B
m >> k = m >>= λ _. k

abbrev pub raise_if : Bool → Error → Command (Unit {0})
raise_if b e w = (if b then err e else ok tt, w)

-- A query that writes the tables; one that breaks a constraint aborts the transaction.
abbrev pub execute : (Db → Option Db) → Command (Unit {0})
execute q w = elim (q w.db) [
  | none ↦ (err database, record w { aborted = true })
  | some db ↦ (ok tt, record w { db = db })
]

-- `addressCache.clear()`
abbrev pub clear_cache : Command (Unit {0})
clear_cache w = (ok tt, record w { cache = [] })

-- A row of `addresses`.
abbrev pub Row : Type 0
Row = ℕ × String

-- `AddressWrapper`
pub data AddressWrapper : Type 0 where
  existing : Row → AddressWrapper
  missing : String → AddressWrapper

unfoldable pub get_address : String → Command AddressWrapper
get_address a w =
    (ok (elim (select_address a w.db.addresses) [ none ↦ missing a | some row ↦ existing row ]), w)

unfoldable pub get_existing_address : String → Command Row
unfolding get_address
get_existing_address a = do
  found ← get_address a
  elim found [ missing _ ↦ raise address_does_not_exist | existing row ↦ pure row ]

-- `createAddress`; the destructured row is undefined only if the insert did nothing.
unfoldable pub create_address : String → Command Row
create_address a = do
  execute (insert_address a)
  λ w. elim (select_address a w.db.addresses) [
    | none ↦ (err address_not_created, w)
    | some row ↦ (ok row, w)
  ]

-- The missing address gains the row's id, and the row's address gets a new one. The result is the
-- row of the latter and that of the former.
unfoldable pub swap : Row → String → Command (Row × Row)
unfolding get_existing_address
swap (i, a) absent = do
  execute (update_address absent a)
  execute (insert_address a)
  first ← get_existing_address a
  second ← get_existing_address absent
  pure (first, second)

-- The queries behind the second test are reached by no pair of addresses, since two that exist have
-- thrown before.
unfoldable pub validate_delegate : AddressWrapper → AddressWrapper → Command (Unit {0})
validate_delegate (existing (i, a)) (existing (j, b)) = do
  raise_if (i == j) cannot_delegate_to_itself
  raise_if true both_have_progress
  λ w. raise_if (has_delegation i j w.db.delegations) delegation_exists w
  λ w. raise_if (has_delegation j i w.db.delegations) reverse_delegation_exists w
  λ w. raise_if (has_to j w.db.delegations) to_has_delegations w
validate_delegate _ _ = pure tt

unfoldable pub ensure_address : AddressWrapper → Command Row
unfolding create_address
ensure_address (existing row) = pure row
ensure_address (missing a) = create_address a

-- The rows of "from" and "to" after the first part of `cmdDelegate`.
unfoldable pub place : AddressWrapper → AddressWrapper → Command (Row × Row)
place (missing a) (existing row) = do (new_to, new_from) ← swap row a; pure (new_from, new_to)
place from to = do
  from_row ← ensure_address from
  to_row ← ensure_address to
  pure (from_row, to_row)

-- The first row of getDelegationsToWithAddress, whose id is the delegator's.
abbrev pub with_address : Option ℕ → Addresses → Option ℕ
with_address none rows = none
with_address (some m) rows = elim (select_id m rows) [ none ↦ none | some _ ↦ some m ]

-- The id of the master address: the delegator of "from", or "from" itself.
abbrev pub master_id : ℕ → Db → ℕ
master_id i db = elim (with_address (delegator_of i db.delegations) db.addresses) [
  | none ↦ i
  | some m ↦ m
]

unfoldable pub cmd_delegate : (from to : String) → Command (Unit {0})
unfolding get_address validate_delegate place
cmd_delegate from to = do
  from_address ← get_address from
  to_address ← get_address to
  validate_delegate from_address to_address
  (from_row, to_row) ← place from_address to_address
  λ w. execute (insert_delegation (master_id from_row.0 w.db) to_row.0) w
  clear_cache

abbrev pub migrate_rows : AddressWrapper → AddressWrapper → Command (Unit {0})
migrate_rows (existing row) (missing b) = do swap row b; pure tt
migrate_rows _ _ = raise cannot_migrate

unfoldable pub cmd_migrate : (from to : String) → Command (Unit {0})
unfolding get_address validate_delegate
cmd_migrate from to = do
  from_address ← get_address from
  to_address ← get_address to
  validate_delegate from_address to_address
  migrate_rows from_address to_address
  clear_cache

abbrev pub valid_address : String → Command Row
valid_address a w = elim (select_address a w.db.addresses) [
  | none ↦ (err invalid_address, w)
  | some row ↦ (ok row, w)
]

abbrev pub set_delegations : (Delegations → Delegations) → Db → Option Db
set_delegations f db = some (record db { delegations = f db.delegations })

unfoldable pub cmd_cancel_delegations : (from to : String) → Command (Unit {0})
cmd_cancel_delegations from to = do
  from_row ← valid_address from
  if str_eq to "" then execute (set_delegations (delete_delegations_from from_row.0)) else (do
    to_row ← valid_address to
    execute (set_delegations (delete_delegation from_row.0 to_row.0)))
  clear_cache

pub Result-cases :
    {A : Type 0} (r : Result A) → ((a : A) × (r ≡ ok a)) ⊎ ((e : Error) × (r ≡ err e))
Result-cases (ok a) = inl (a, refl)
Result-cases (err e) = inr (e, refl)
