-- ===== src/Wallet/Tables.antt =====
-- The tables `addresses` and `delegations` (packages/node-sdk/paima-db/migrations/up.sql) and the
-- queries on them (src/sql/wallet-delegation.sql of the same package). A query that breaks a
-- constraint of its table has no result.
pub mod Laws
pub mod Forest
pub mod Link
pub mod Steps
use paima_engine.Base.{
  ℕ, ◌+◌, String, Bool, true, false, not, ◌&&◌, ◌||◌, Option, none, some, List, [], ◌∷◌, str_eq,
  ◌==◌, if◌then◌else◌,
}

-- A row of `addresses`: its serial id and its address.
abbrev pub Addresses : Type 0
Addresses = List (ℕ × String)

-- A row of `delegations`: `from_id` and `to_id`.
abbrev pub Delegations : Type 0
Delegations = List (ℕ × ℕ)

pub record Db : Type 0 where
  pub addresses : Addresses
  pub next_id : ℕ
  pub delegations : Delegations

-- getAddressFromAddress: the first row is the only one, since addresses are unique.
unfoldable pub select_address : String → Addresses → Option (ℕ × String)
select_address a [] = none
select_address a ((i, b) ∷ rows) = if str_eq b a then some (i, b) else select_address a rows

-- The address of a row's id, as the joins on `addresses.id` read it.
unfoldable pub select_id : ℕ → Addresses → Option String
select_id k [] = none
select_id k ((i, a) ∷ rows) = if i == k then some a else select_id k rows

abbrev pub is_some {ℓ} : {A : Type ℓ} → Option A → Bool
is_some none = false
is_some (some _) = true

-- newAddress, under the unique constraint on the address.
unfoldable pub insert_address : String → Db → Option Db
insert_address a db =
    if is_some (select_address a db.addresses)
    then none
    else some (record db { addresses = (db.next_id, a) ∷ db.addresses; next_id = db.next_id + 1 })

unfoldable pub rename : (new_address old_address : String) → Addresses → Addresses
rename new_address old_address [] = []
rename new_address old_address ((i, a) ∷ rows) =
    (i, if str_eq a old_address then new_address else a) ∷ rename new_address old_address rows

-- updateAddress: it breaks the constraint where another row has the new address already.
unfoldable pub update_address : (new_address old_address : String) → Db → Option Db
update_address new_address old_address db =
    if is_some (select_address old_address db.addresses)
      && (is_some (select_address new_address db.addresses) && not (str_eq new_address old_address))
    then none
    else some (record db { addresses = rename new_address old_address db.addresses })

-- The first row of `delegations` with this `to_id`: its `from_id`.
unfoldable pub delegator_of : ℕ → Delegations → Option ℕ
delegator_of k [] = none
delegator_of k ((f, t) ∷ ds) = if t == k then some f else delegator_of k ds

-- getDelegationsTo and getDelegationsFrom return a row.
unfoldable pub has_to : ℕ → Delegations → Bool
has_to k [] = false
has_to k ((f, t) ∷ ds) = t == k || has_to k ds

unfoldable pub has_from : ℕ → Delegations → Bool
has_from k [] = false
has_from k ((f, t) ∷ ds) = f == k || has_from k ds

-- getDelegation
unfoldable pub has_delegation : ℕ → ℕ → Delegations → Bool
has_delegation from to [] = false
has_delegation from to ((f, t) ∷ ds) = (f == from && t == to) || has_delegation from to ds

-- newDelegation, under the primary key and the two foreign keys.
unfoldable pub insert_delegation : ℕ → ℕ → Db → Option Db
insert_delegation from to db =
    if has_delegation from to db.delegations
      || not (is_some (select_id from db.addresses) && is_some (select_id to db.addresses))
    then none
    else some (record db { delegations = (from, to) ∷ db.delegations })

-- deleteDelegationTo
unfoldable pub delete_delegation : ℕ → ℕ → Delegations → Delegations
delete_delegation from to [] = []
delete_delegation from to ((f, t) ∷ ds) =
    let rest = delete_delegation from to ds in if f == from && t == to then rest else (f, t) ∷ rest

-- deleteDelegationsFrom
unfoldable pub delete_delegations_from : ℕ → Delegations → Delegations
delete_delegations_from from [] = []
delete_delegations_from from ((f, t) ∷ ds) =
    let rest = delete_delegations_from from ds in if f == from then rest else (f, t) ∷ rest
