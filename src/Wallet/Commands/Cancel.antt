-- ===== src/Wallet/Commands/Cancel.antt =====
-- `cmdCancelDelegations`.
use paima_engine.Base.{
  ℕ, String, ◌≡◌, refl, ◌≢◌, ◌⊎◌, false, ◌&&◌, Option, none, some, [], ◌∷◌, arith, eq_iff, ◌==◌,
  if◌then◌else◌,
}
use paima_engine.Wallet.Tables.{
  Addresses, Delegations, Db, select_address, delegator_of, has_from, delete_delegation,
  delete_delegations_from,
}
use paima_engine.Wallet.Tables.Laws.{IsForest, Refers, IsValid}
use paima_engine.Wallet.Lookup.{Wallet}
use paima_engine.Wallet.Commands.{invalid_address, ok, err, cmd_cancel_delegations}

-- A part of the delegations that keeps their order.
delete_delegations_from-delegator :
    (i k : ℕ) (ds : Delegations)
    → IsForest ds
    → delegator_of k (delete_delegations_from i ds)
      ≡ elim (delegator_of k ds) [ none ↦ none | some m ↦ if m == i then none else some m ]
unfolding delegator_of delete_delegations_from
delete_delegations_from-delegator i k [] h = refl
delete_delegations_from-delegator i k ((f, t) ∷ ds) h =
    ground (arith, delete_delegations_from-delegator i k ds h.4)

delete_delegation-delegator :
    (i j k : ℕ) (ds : Delegations)
    → IsForest ds
    → delegator_of k (delete_delegation i j ds) ≡ elim (delegator_of k ds) [
      | none ↦ none
      | some m ↦ if m == i && k == j then none else some m
    ]
unfolding delegator_of delete_delegation
delete_delegation-delegator i j k [] h = refl
delete_delegation-delegator i j k ((f, t) ∷ ds) h =
    ground (arith, delete_delegation-delegator i j k ds h.4)

has_from-delete_from :
    (i k : ℕ) (ds : Delegations)
    → has_from k ds ≡ false
    → has_from k (delete_delegations_from i ds) ≡ false
unfolding has_from delete_delegations_from
has_from-delete_from i k [] h = refl
has_from-delete_from i k ((f, t) ∷ ds) h = ground (arith, has_from-delete_from i k ds)

has_from-delete :
    (i j k : ℕ) (ds : Delegations)
    → has_from k ds ≡ false
    → has_from k (delete_delegation i j ds) ≡ false
unfolding has_from delete_delegation
has_from-delete i j k [] h = refl
has_from-delete i j k ((f, t) ∷ ds) h = ground (arith, has_from-delete i j k ds)

delete_delegations_from-IsForest :
    (i : ℕ) (ds : Delegations) → IsForest ds → IsForest (delete_delegations_from i ds)
unfolding delete_delegations_from
delete_delegations_from-IsForest i [] h = tt
delete_delegations_from-IsForest i ((f, t) ∷ ds) h = ground (
  arith,
  delete_delegations_from-IsForest i ds h.4,
  delete_delegations_from-delegator i t ds h.4,
  delete_delegations_from-delegator i f ds h.4,
  has_from-delete_from i t ds h.1,
)

delete_delegation-IsForest :
    (i j : ℕ) (ds : Delegations) → IsForest ds → IsForest (delete_delegation i j ds)
unfolding delete_delegation
delete_delegation-IsForest i j [] h = tt
delete_delegation-IsForest i j ((f, t) ∷ ds) h = ground (
  arith,
  delete_delegation-IsForest i j ds h.4,
  delete_delegation-delegator i j t ds h.4,
  delete_delegation-delegator i j f ds h.4,
  has_from-delete i j t ds h.1,
)

delete_delegations_from-Refers :
    (i : ℕ) (rows : Addresses) (ds : Delegations)
    → Refers rows ds
    → Refers rows (delete_delegations_from i ds)
unfolding delete_delegations_from
delete_delegations_from-Refers i rows [] h = tt
delete_delegations_from-Refers i rows ((f, t) ∷ ds) h =
    ground (arith, delete_delegations_from-Refers i rows ds h.2)

delete_delegation-Refers :
    (i j : ℕ) (rows : Addresses) (ds : Delegations)
    → Refers rows ds
    → Refers rows (delete_delegation i j ds)
unfolding delete_delegation
delete_delegation-Refers i j rows [] h = tt
delete_delegation-Refers i j rows ((f, t) ∷ ds) h =
    ground (arith, delete_delegation-Refers i j rows ds h.2)

-- What a cancellation leaves of a delegator: with no "to" everything under `i` is gone, and with a
-- "to" only the delegation of its id.
abbrev pub left_over : (i : ℕ) (target : Option ℕ) → ℕ → Option ℕ → Option ℕ
left_over i target k none = none
left_over i none k (some m) = if m == i then none else some m
left_over i (some j) k (some m) = if m == i && k == j then none else some m

abbrev pub Cancelled : (i : ℕ) (target : Option ℕ) → Wallet → Wallet → Type 0
Cancelled i target w w' =
    IsValid w'.db
    × (w'.db.addresses ≡ w.db.addresses)
    × ((k : ℕ)
        → delegator_of k w'.db.delegations ≡ left_over i target k (delegator_of k w.db.delegations))

-- The id that "to" names: none where it is empty.
abbrev pub Targets : (to : String) → Option ℕ → Addresses → Type 0
Targets to none rows = to ≡ ""
Targets to (some j) rows = (to ≢ "") × (select_address to rows ≡ some (j, to))

abbrev pub remaining : (i : ℕ) (target : Option ℕ) → Delegations → Delegations
remaining i none ds = delete_delegations_from i ds
remaining i (some j) ds = delete_delegation i j ds

pub cancel_form :
    (from to : String) (i : ℕ) (target : Option ℕ) (w : Wallet)
    → select_address from w.db.addresses ≡ some (i, from)
    → Targets to target w.db.addresses
    → cmd_cancel_delegations from to w ≡ (
      ok tt,
      record w {
        db = record w.db { delegations = remaining i target w.db.delegations };
        cache = [];
      },
    )
unfolding cmd_cancel_delegations
cancel_form from to i none w hf ht = ground (arith, eq_iff to "")
cancel_form from to i (some j) w hf ht = ground (arith, eq_iff to "")

pub remaining-IsValid :
    (i : ℕ) (target : Option ℕ) (db : Db)
    → IsValid db
    → IsValid (record db { delegations = remaining i target db.delegations })
remaining-IsValid i none db v = record {
  rows = v.rows;
  forest = delete_delegations_from-IsForest i db.delegations v.forest;
  keys = delete_delegations_from-Refers i db.addresses db.delegations v.keys;
}
remaining-IsValid i (some j) db v = record {
  rows = v.rows;
  forest = delete_delegation-IsForest i j db.delegations v.forest;
  keys = delete_delegation-Refers i j db.addresses db.delegations v.keys;
}

remaining-delegator :
    (i : ℕ) (target : Option ℕ) (k : ℕ) (ds : Delegations)
    → IsForest ds
    → delegator_of k (remaining i target ds) ≡ left_over i target k (delegator_of k ds)
remaining-delegator i none k ds h = ground (arith, delete_delegations_from-delegator i k ds h)
remaining-delegator i (some j) k ds h = ground (arith, delete_delegation-delegator i j k ds h)

-- Where "from" has a row, and "to" is empty or has one, cancelling succeeds, keeps the tables
-- valid and the addresses as they are, and takes the delegator away from exactly the ids that
-- "from" delegates to, all of them or "to" alone.
pub cmd_cancel_delegations_lem :
    (from to : String) (i : ℕ) (target : Option ℕ) (w : Wallet)
    → IsValid w.db
    → select_address from w.db.addresses ≡ some (i, from)
    → Targets to target w.db.addresses
    → ((cmd_cancel_delegations from to w).0 ≡ ok tt)
      × Cancelled i target w (cmd_cancel_delegations from to w).1
cmd_cancel_delegations_lem from to i target w v hf ht = rw (cancel_form from to i target w hf ht) (
  refl,
  (
    remaining-IsValid i target w.db v,
    refl,
    λ k. remaining-delegator i target k w.db.delegations v.forest,
  ),
)

-- With an unknown "from", or a "to" that is neither empty nor known, nothing is written.
pub cancel_refused :
    (from to : String) (w : Wallet)
    → ((select_address from w.db.addresses ≡ none)
        ⊎ ((to ≢ "") × (select_address to w.db.addresses ≡ none)))
    → cmd_cancel_delegations from to w ≡ (err invalid_address, w)
unfolding cmd_cancel_delegations
cancel_refused from to w h = ground (arith, eq_iff to "")
