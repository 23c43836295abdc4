-- ===== src/Wallet/Tables/Forest.antt =====
-- The laws of the queries of delegations.
use paima_engine.Base.{
  ℕ, ◌≡◌, refl, ◌≢◌, inl, inr, true, false, none, some, [], ◌∷◌, arith, Option-cases,
}
use paima_engine.Wallet.Tables.{
  Addresses, Delegations, select_id, is_some, delegator_of, has_to, has_from, has_delegation,
}
use paima_engine.Wallet.Tables.Laws.{IsForest, Refers}

-- No delegation names an id that has no row.
pub delegations-fresh :
    (k : ℕ) (rows : Addresses) (ds : Delegations)
    → Refers rows ds
    → select_id k rows ≡ none
    → (delegator_of k ds ≡ none) × (has_from k ds ≡ false) × (has_to k ds ≡ false)
unfolding delegator_of has_from has_to
delegations-fresh k rows [] h e = (refl, refl, refl)
delegations-fresh k rows ((f, t) ∷ ds) h e = ground (arith, delegations-fresh k rows ds h.2 e)

pub has_delegation-fresh :
    (f k : ℕ) (ds : Delegations) → has_to k ds ≡ false → has_delegation f k ds ≡ false
unfolding has_delegation has_to
has_delegation-fresh f k [] h = refl
has_delegation-fresh f k ((g, t) ∷ ds) h = ground (arith, has_delegation-fresh f k ds)

-- A delegator's id has a row, and is delegated to by nobody.
pub delegator_of-has_row :
    (k m : ℕ) (rows : Addresses) (ds : Delegations)
    → Refers rows ds
    → delegator_of k ds ≡ some m
    → is_some (select_id m rows) ≡ true
unfolding delegator_of
delegator_of-has_row k m rows [] h e = cc
delegator_of-has_row k m rows ((f, t) ∷ ds) h e =
    ground (arith, delegator_of-has_row k m rows ds h.2)

pub has_from-delegator :
    (k m : ℕ) (ds : Delegations) → delegator_of k ds ≡ some m → has_from m ds ≡ true
unfolding delegator_of has_from
has_from-delegator k m [] e = cc
has_from-delegator k m ((f, t) ∷ ds) e = ground (arith, has_from-delegator k m ds)

pub delegator_of-delegator :
    (k m : ℕ) (ds : Delegations)
    → IsForest ds
    → delegator_of k ds ≡ some m
    → delegator_of m ds ≡ none
unfolding delegator_of
delegator_of-delegator k m [] h e = cc
delegator_of-delegator k m ((f, t) ∷ ds) h e =
    ground (arith, delegator_of-delegator k m ds h.4, has_from-delegator k m ds)

-- The id that delegations of `i` are written under: its delegator, or itself.
abbrev pub master_of : ℕ → Delegations → ℕ
master_of i ds = elim (delegator_of i ds) [ none ↦ i | some m ↦ m ]

pub delegator_of-master :
    (i : ℕ) (ds : Delegations) → IsForest ds → delegator_of (master_of i ds) ds ≡ none
delegator_of-master i ds h = elim (Option-cases (delegator_of i ds)) [
  | inl root ↦ rw (root, master_of) root
  | inr (m, e) ↦ rw (e, master_of) (delegator_of-delegator i m ds h e)
]

pub master_of-has_row :
    (i : ℕ) (rows : Addresses) (ds : Delegations)
    → Refers rows ds
    → is_some (select_id i rows) ≡ true
    → is_some (select_id (master_of i ds) rows) ≡ true
master_of-has_row i rows ds h own = elim (Option-cases (delegator_of i ds)) [
  | inl root ↦ rw (root, master_of) own
  | inr (m, e) ↦ rw (e, master_of) (delegator_of-has_row i m rows ds h e)
]

pub master_of-ne : (i k : ℕ) (ds : Delegations) → has_from k ds ≡ false → i ≢ k → master_of i ds ≢ k
master_of-ne i k ds free ne = elim (Option-cases (delegator_of i ds)) [
  | inl root ↦ rw (root, master_of) ne
  | inr (m, e) ↦ rw (e, master_of) (λ p. ground (arith, has_from-delegator i m ds e))
]
