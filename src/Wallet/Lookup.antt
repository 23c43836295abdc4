-- ===== src/Wallet/Lookup.antt =====
-- `getMainAddress` and its cache, and `getRelatedWallets`:
-- packages/node-sdk/paima-db/src/delegate-wallet.ts. `lower` is `toLocaleLowerCase`, which depends on
-- the host's locale.
pub mod Coherence
use paima_engine.Base.{
  ℕ, String, Bool, Option, none, some, List, [], ◌∷◌, str_eq, ◌==◌, if◌then◌else◌,
}
use paima_engine.Wallet.Tables.{Addresses, Delegations, Db, select_address, select_id, delegator_of}

-- An address and its id; `none` is `NO_USER_ID`, which the source writes as -1.
pub record WalletDelegate : Type 0 where
  pub address : String
  pub id : Option ℕ

-- A `Map`, the newest binding first.
abbrev pub Cache : Type 0
Cache = List (String × WalletDelegate)

-- `aborted` is the state of the database transaction: after a broken constraint, and until it is rolled
-- back, every query in it fails.
pub record Wallet : Type 0 where
  pub db : Db
  pub cache : Cache
  pub use_cache : Bool
  pub aborted : Bool

unfoldable pub cached : String → Cache → Option WalletDelegate
cached a [] = none
cached a ((b, w) ∷ cache) = if str_eq b a then some w else cached a cache

-- The row of getMainAddressFromAddress that starts from the address row (`i`, `a`): the outer joins
-- give the delegator's id and address, or nulls. An empty `from_address` is falsy.
unfoldable pub main_row : ℕ → String → Db → WalletDelegate
main_row i a db =
    let own : WalletDelegate = record { address = a; id = some i } in
    elim (delegator_of i db.delegations) [
      | none ↦ own
      | some f ↦ elim (select_id f db.addresses) [
        | none ↦ own
        | some b ↦ if str_eq b "" then own else record { address = b; id = some f }
      ]
    ]

-- What the tables say of an address.
unfoldable pub main_of : String → Db → WalletDelegate
unfolding main_row
main_of a db = elim (select_address a db.addresses) [
  | none ↦ record { address = a; id = none }
  | some (i, b) ↦ main_row i b db
]

module _ (lower : String → String) where
  query_main : String → Wallet → WalletDelegate × Wallet
  query_main a w = elim (select_address a w.db.addresses) [
    | none ↦ (record { address = a; id = none }, w)
    | some (i, b) ↦ (main_row i b w.db, record w { cache = (a, main_row i b w.db) ∷ w.cache })
  ]

  unfoldable pub get_main_address : String → Wallet → WalletDelegate × Wallet
  unfolding query_main
  get_main_address address w = elim (cached (lower address) w.cache) [
    | none ↦ query_main (lower address) w
    | some found ↦ if w.use_cache then (found, w) else query_main (lower address) w
  ]

-- A row of getDelegationsToWithAddress or getDelegationsFromWithAddress: `id` is the id of the
-- address that the join reads.
pub record Related : Type 0 where
  pub id : ℕ
  pub from_id : ℕ
  pub to_id : ℕ
  pub address : String

delegations_to_with_address : ℕ → Addresses → Delegations → List Related
delegations_to_with_address k rows [] = []
delegations_to_with_address k rows ((f, t) ∷ ds) =
    let rest = delegations_to_with_address k rows ds in
    if t == k
    then elim (select_id f rows) [
      | none ↦ rest
      | some a ↦ record { id = f; from_id = f; to_id = t; address = a } ∷ rest
    ]
    else rest

delegations_from_with_address : ℕ → Addresses → Delegations → List Related
delegations_from_with_address k rows [] = []
delegations_from_with_address k rows ((f, t) ∷ ds) =
    let rest = delegations_from_with_address k rows ds in
    if f == k
    then elim (select_id t rows) [
      | none ↦ rest
      | some a ↦ record { id = t; from_id = f; to_id = t; address = a } ∷ rest
    ]
    else rest

pub record RelatedWallets : Type 0 where
  pub from : List Related
  pub to : List Related
  pub id : Option ℕ

related_of : ℕ → List Related → List Related → RelatedWallets
related_of i [] from = record { from = from; to = []; id = some i }
related_of i (r ∷ to) from = record { from = []; to = r ∷ to; id = some r.id }

pub get_related_wallets : (lower : String → String) → String → Db → RelatedWallets
unfolding related_of delegations_to_with_address delegations_from_with_address
get_related_wallets lower address db = elim (select_address (lower address) db.addresses) [
  | none ↦ record { from = []; to = []; id = none }
  | some (i, _) ↦
      related_of i (delegations_to_with_address i db.addresses db.delegations)
        (delegations_from_with_address i db.addresses db.delegations)
]
