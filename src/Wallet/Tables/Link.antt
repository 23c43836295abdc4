-- ===== src/Wallet/Tables/Link.antt =====
-- Adding a delegation to an id that nothing names yet.
use paima_engine.Base.{ℕ, ◌≡◌, ◌≢◌, true, false, none, some, ◌∷◌}
use paima_engine.Wallet.Tables.{
  Db, select_id, is_some, delegator_of, has_to, has_from, insert_delegation,
}
use paima_engine.Wallet.Tables.Laws.{IsValid}
use paima_engine.Wallet.Tables.Forest.{
  has_delegation-fresh, master_of, delegator_of-master, master_of-has_row, master_of-ne,
}

-- A new delegation of `k`, under the master of `i`.
abbrev pub linked : (i k : ℕ) → Db → Db
linked i k db = record db { delegations = (master_of i db.delegations, k) ∷ db.delegations }

module _ (i k : ℕ) (db : Db) (valid : IsValid db) where
  -- Neither the primary key nor a foreign key stands in the way.
  pub insert_delegation-fresh :
      is_some (select_id i db.addresses) ≡ true
      → is_some (select_id k db.addresses) ≡ true
      → has_to k db.delegations ≡ false
      → insert_delegation (master_of i db.delegations) k db ≡ some (linked i k db)
  unfolding insert_delegation
  insert_delegation-fresh own other fresh = rw (
    has_delegation-fresh (master_of i db.delegations) k db.delegations fresh,
    master_of-has_row i db.addresses db.delegations valid.keys own,
    other,
  )

  pub linked-IsValid :
      is_some (select_id i db.addresses) ≡ true
      → is_some (select_id k db.addresses) ≡ true
      → delegator_of k db.delegations ≡ none
      → has_from k db.delegations ≡ false
      → i ≢ k
      → IsValid (linked i k db)
  linked-IsValid own other root free ne = record {
    rows = valid.rows;
    forest = (
      root,
      free,
      delegator_of-master i db.delegations valid.forest,
      master_of-ne i k db.delegations free ne,
      valid.forest,
    );
    keys = (master_of-has_row i db.addresses db.delegations valid.keys own, other, valid.keys);
  }
