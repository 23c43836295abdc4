-- ===== src/Wallet/Tables/Laws.antt =====
-- The invariant of the tables and the laws of the queries of addresses.
use paima_engine.Base.{
  ℕ, ◌≤◌, ◌<◌, String, ◌≡◌, refl, ◌≢◌, true, false, none, some, [], ◌∷◌, arith, str_eq, eq_iff,
  if◌then◌else◌,
}
use paima_engine.Wallet.Tables.{
  Addresses, Delegations, Db, select_address, select_id, is_some, rename, delegator_of, has_from,
}

-- Ids are unique and below the next serial, addresses are unique and not empty.
abbrev pub ValidRows : ℕ → Addresses → Type 0
ValidRows n [] = Unit
ValidRows n ((i, a) ∷ rows) =
    (i < n)
    × (select_id i rows ≡ none)
    × (select_address a rows ≡ none)
    × (a ≢ "")
    × ValidRows n rows

-- One level of delegation: nobody has two delegators, and no delegator is delegated to.
abbrev pub IsForest : Delegations → Type 0
IsForest [] = Unit
IsForest ((f, t) ∷ ds) =
    (delegator_of t ds ≡ none)
    × (has_from t ds ≡ false)
    × (delegator_of f ds ≡ none)
    × (f ≢ t)
    × IsForest ds

-- The foreign keys of the delegations.
abbrev pub Refers : Addresses → Delegations → Type 0
Refers rows [] = Unit
Refers rows ((f, t) ∷ ds) =
    (is_some (select_id f rows) ≡ true) × (is_some (select_id t rows) ≡ true) × Refers rows ds

pub record IsValid (db : Db) : Type 0 where
  pub rows : ValidRows db.next_id db.addresses
  pub forest : IsForest db.delegations
  pub keys : Refers db.addresses db.delegations

pub select_address_self :
    (a b : String) (i : ℕ) (rows : Addresses) → select_address a rows ≡ some (i, b) → b ≡ a
unfolding select_address
select_address_self a b i [] h = cc
select_address_self a b i ((j, c) ∷ rows) h =
    ground (arith, eq_iff c a, select_address_self a b i rows)

pub ValidRows-mono : (m n : ℕ) (rows : Addresses) → m ≤ n → ValidRows m rows → ValidRows n rows
ValidRows-mono m n [] le h = tt
ValidRows-mono m n ((i, a) ∷ rows) le h =
    (omega arith, h.1, h.2, h.3, ValidRows-mono m n rows le h.4)

-- An id that is the next serial or beyond is in no row.
pub select_id-fresh :
    (n k : ℕ) (rows : Addresses) → ValidRows n rows → n ≤ k → select_id k rows ≡ none
unfolding select_id
select_id-fresh n k [] v le = refl
select_id-fresh n k ((i, a) ∷ rows) v le = ground (arith, select_id-fresh n k rows v.4 le)

-- The row of an address is the row of its id.
pub select_id-select_address :
    (n i : ℕ) (a b : String) (rows : Addresses)
    → ValidRows n rows
    → select_address a rows ≡ some (i, b)
    → (select_id i rows ≡ some a) × (i < n)
unfolding select_id select_address
select_id-select_address n i a b [] v h = cc
select_id-select_address n i a b ((j, c) ∷ rows) v h =
    ground (arith, eq_iff c a, select_id-select_address n i a b rows v.4)

pub select_id-nonempty :
    (n i : ℕ) (a : String) (rows : Addresses)
    → ValidRows n rows
    → select_id i rows ≡ some a
    → a ≢ ""
unfolding select_id
select_id-nonempty n i a [] v h = cc
select_id-nonempty n i a ((j, c) ∷ rows) v h = ground (arith, select_id-nonempty n i a rows v.4)

-- A rename moves the id to the new address, which no row has.
pub select_address-rename_new :
    (new old b : String) (i : ℕ) (rows : Addresses)
    → select_address new rows ≡ none
    → select_address old rows ≡ some (i, b)
    → select_address new (rename new old rows) ≡ some (i, new)
unfolding select_address rename
select_address-rename_new new old b i [] hn ho = cc
select_address-rename_new new old b i ((j, c) ∷ rows) hn ho =
    ground (
      arith,
      eq_iff c old,
      eq_iff c new,
      eq_iff new new,
      select_address-rename_new new old b i rows,
    )

pub select_address-rename_old :
    (new old : String) (rows : Addresses)
    → new ≢ old
    → select_address old (rename new old rows) ≡ none
unfolding select_address rename
select_address-rename_old new old [] ne = refl
select_address-rename_old new old ((j, c) ∷ rows) ne =
    ground (arith, eq_iff c old, eq_iff new old, select_address-rename_old new old rows ne)

pub select_address-rename_ne :
    (new old a : String) (rows : Addresses)
    → a ≢ new
    → a ≢ old
    → select_address a (rename new old rows) ≡ select_address a rows
unfolding select_address rename
select_address-rename_ne new old a [] hn ho = refl
select_address-rename_ne new old a ((j, c) ∷ rows) hn ho =
    ground
      (arith, eq_iff c old, eq_iff c a, eq_iff new a, select_address-rename_ne new old a rows hn ho)

-- A rename keeps the ids, and the addresses of those of other rows.
pub select_id-rename :
    (new old : String) (k : ℕ) (rows : Addresses)
    → select_id k (rename new old rows)
      ≡ elim (select_id k rows) [ none ↦ none | some a ↦ some (if str_eq a old then new else a) ]
unfolding select_id rename
select_id-rename new old k [] = refl
select_id-rename new old k ((j, c) ∷ rows) = ground (arith, select_id-rename new old k rows)

select_id-rename-none :
    (new old : String) (k : ℕ) (rows : Addresses)
    → select_id k rows ≡ none
    → select_id k (rename new old rows) ≡ none
select_id-rename-none new old k rows h = rw select_id-rename (ground arith)

pub ValidRows-rename :
    (n : ℕ) (new old : String) (rows : Addresses)
    → new ≢ old
    → new ≢ ""
    → select_address new rows ≡ none
    → ValidRows n rows
    → ValidRows n (rename new old rows)
unfolding rename select_address
ValidRows-rename n new old [] ne ns hn v = tt
ValidRows-rename n new old ((i, c) ∷ rows) ne ns hn v = ground (
  arith,
  eq_iff c old,
  eq_iff c new,
  select_id-rename-none new old i rows v.1,
  select_address-rename_absent new old rows,
  select_address-rename_ne new old c rows,
  ValidRows-rename n new old rows ne ns,
)
  where
    select_address-rename_absent :
        (m o : String) (r : Addresses)
        → select_address m r ≡ none
        → select_address o r ≡ none
        → select_address m (rename m o r) ≡ none
    select_address-rename_absent m o [] h k = refl
    select_address-rename_absent m o ((j, d) ∷ r) h k =
        ground (arith, eq_iff d o, eq_iff d m, select_address-rename_absent m o r)

pub Refers-rename :
    (new old : String) (rows : Addresses) (ds : Delegations)
    → Refers rows ds
    → Refers (rename new old rows) ds
Refers-rename new old rows [] h = tt
Refers-rename new old rows ((f, t) ∷ ds) h = ground (
  arith,
  select_id-rename new old f rows,
  select_id-rename new old t rows,
  Refers-rename new old rows ds h.2,
)

pub Refers-cons :
    (i : ℕ) (a : String) (rows : Addresses) (ds : Delegations)
    → Refers rows ds
    → Refers ((i, a) ∷ rows) ds
unfolding select_id
Refers-cons i a rows [] h = tt
Refers-cons i a rows ((f, t) ∷ ds) h = ground (arith, Refers-cons i a rows ds h.2)
