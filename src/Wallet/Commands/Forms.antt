-- ===== src/Wallet/Commands/Forms.antt =====
-- The exact result of `cmdDelegate` and `cmdMigrate` on valid tables, for each case of the two
-- addresses.
use paima_engine.Base.{
  ℕ, ◌+◌, ◌≤◌, String, ◌≡◌, refl, ap, ◌≢◌, inl, inr, true, false, none, some, [], arith, eq_iff,
  ◌==◌, if◌then◌else◌, Option-cases,
}
use paima_engine.Wallet.Tables.{
  Addresses, Db, select_address, select_id, is_some, insert_address, update_address, delegator_of,
  has_to, has_from, insert_delegation,
}
use paima_engine.Wallet.Tables.Laws.{
  Refers, IsValid, select_id-fresh, select_id-select_address, select_address-rename_new,
  select_address-rename_old, select_id-rename,
}
use paima_engine.Wallet.Tables.Forest.{delegations-fresh, delegator_of-has_row, master_of}
use paima_engine.Wallet.Tables.Link.{linked, insert_delegation-fresh}
use paima_engine.Wallet.Tables.Steps.{inserted, swapped, inserted-IsValid, swapped-IsValid}
use paima_engine.Wallet.Lookup.{Wallet}
use paima_engine.Wallet.Commands.{
  cannot_delegate_to_itself, both_have_progress, database, ok, err, create_address, swap,
  ensure_address, master_id, cmd_delegate,
}

pub swap_lem :
    (new old : String) (i : ℕ) (w : Wallet)
    → new ≢ old
    → select_address new w.db.addresses ≡ none
    → select_address old w.db.addresses ≡ some (i, old)
    → swap (i, old) new w
      ≡ (ok ((w.db.next_id, old), (i, new)), record w { db = swapped new old w.db })
unfolding swap update_address insert_address select_address
swap_lem new old i w ne hn ho = ground (
  arith,
  eq_iff old old,
  eq_iff old new,
  select_address-rename_old new old w.db.addresses ne,
  select_address-rename_new new old old i w.db.addresses hn ho,
)

master_id-eq :
    (i : ℕ) (db : Db)
    → Refers db.addresses db.delegations
    → master_id i db ≡ master_of i db.delegations
master_id-eq i db h = elim (Option-cases (delegator_of i db.delegations)) [
  | inl root ↦ rw (root, master_id, master_of) refl
  | inr (m, e) ↦ ground (arith, delegator_of-has_row i m db.addresses db.delegations h e)
]

-- The wallet after `k` was delegated under the master of `i`.
abbrev pub delegated : (i k : ℕ) → Db → Wallet → Wallet
delegated i k db w = record w { db = linked i k db; cache = [] }

-- The queries of the last part of `cmdDelegate` break no constraint.
finish_lem :
    (i k : ℕ) (db : Db)
    → IsValid db
    → is_some (select_id i db.addresses) ≡ true
    → is_some (select_id k db.addresses) ≡ true
    → has_to k db.delegations ≡ false
    → insert_delegation (master_id i db) k db ≡ some (linked i k db)
finish_lem i k db v own other fresh =
    rw (master_id-eq i db v.keys) (insert_delegation-fresh i k db v own other fresh)

pub select_id-swapped :
    (new old : String) (i : ℕ) (db : Db)
    → IsValid db
    → select_address old db.addresses ≡ some (i, old)
    → (select_id i (swapped new old db).addresses ≡ some new)
      × (select_id db.next_id (swapped new old db).addresses ≡ some old)
unfolding select_id
select_id-swapped new old i db v ho = ground (
  arith,
  eq_iff old old,
  select_id-select_address db.next_id i old old db.addresses v.rows ho,
  select_id-rename new old i db.addresses,
)

pub fresh_lem :
    (k : ℕ) (db : Db)
    → IsValid db
    → db.next_id ≤ k
    → (delegator_of k db.delegations ≡ none)
      × (has_from k db.delegations ≡ false)
      × (has_to k db.delegations ≡ false)
fresh_lem k db v le =
    delegations-fresh k db.addresses db.delegations v.keys
      (select_id-fresh db.next_id k db.addresses v.rows le)

pub ne_of_select :
    (a b : String) (i : ℕ) (rows : Addresses)
    → select_address a rows ≡ none
    → select_address b rows ≡ some (i, b)
    → a ≢ b
ne_of_select a b i rows ha hb e = cc (ap (λ (x : String). select_address x rows) e)

-- "from" is new and "to" has progress: "from" takes over the id of "to", which gets the next one.
pub cmd_delegate-swap :
    (from to : String) (i : ℕ) (w : Wallet)
    → IsValid w.db
    → from ≢ ""
    → to ≢ ""
    → select_address from w.db.addresses ≡ none
    → select_address to w.db.addresses ≡ some (i, to)
    → cmd_delegate from to w ≡ (ok tt, delegated i w.db.next_id (swapped from to w.db) w)
unfolding cmd_delegate
cmd_delegate-swap from to i w v fs ts hf ht = ground (
  arith,
  swap_lem from to i w (ne_of_select from to i w.db.addresses hf ht) hf ht,
  finish_lem i w.db.next_id (swapped from to w.db)
      (swapped-IsValid from to w.db v (ne_of_select from to i w.db.addresses hf ht) fs ts hf)
      (ground (arith, select_id-swapped from to i w.db v ht))
      (ground (arith, select_id-swapped from to i w.db v ht))
      (fresh_lem w.db.next_id w.db v (omega arith)).2,
)

pub create_address_lem :
    (a : String) (w : Wallet)
    → select_address a w.db.addresses ≡ none
    → create_address a w ≡ (ok (w.db.next_id, a), record w { db = inserted a w.db })
unfolding create_address insert_address select_address
create_address_lem a w h = ground (arith, eq_iff a a)

pub select_id-inserted :
    (a b : String) (i : ℕ) (db : Db)
    → IsValid db
    → select_address b db.addresses ≡ some (i, b)
    → (select_id i (inserted a db).addresses ≡ some b)
      × (select_id db.next_id (inserted a db).addresses ≡ some a)
unfolding select_id
select_id-inserted a b i db v h =
    ground (arith, select_id-select_address db.next_id i b b db.addresses v.rows h)

-- "from" has progress and "to" is new: "to" gets the next id.
pub cmd_delegate-add_to :
    (from to : String) (i : ℕ) (w : Wallet)
    → IsValid w.db
    → to ≢ ""
    → select_address from w.db.addresses ≡ some (i, from)
    → select_address to w.db.addresses ≡ none
    → cmd_delegate from to w ≡ (ok tt, delegated i w.db.next_id (inserted to w.db) w)
unfolding cmd_delegate ensure_address
cmd_delegate-add_to from to i w v ts hf ht = ground (
  arith,
  create_address_lem to w ht,
  finish_lem i w.db.next_id (inserted to w.db) (inserted-IsValid to w.db v ts ht)
      (ground (arith, select_id-inserted to from i w.db v hf))
      (ground (arith, select_id-inserted to from i w.db v hf))
      (fresh_lem w.db.next_id w.db v (omega arith)).2,
)

pub select_address-inserted_ne :
    (a b : String) (db : Db)
    → a ≢ b
    → select_address b db.addresses ≡ none
    → select_address b (inserted a db).addresses ≡ none
unfolding select_address
select_address-inserted_ne a b db ne h = ground (arith, eq_iff a b)

pub select_id-twice :
    (a b : String) (db : Db)
    → (select_id db.next_id (inserted b (inserted a db)).addresses ≡ some a)
      × (select_id (db.next_id + 1) (inserted b (inserted a db)).addresses ≡ some b)
unfolding select_id
select_id-twice a b db = ground arith

-- Both are new: they get the next two ids, "from" first.
pub cmd_delegate-add_both :
    (from to : String) (w : Wallet)
    → IsValid w.db
    → from ≢ to
    → from ≢ ""
    → to ≢ ""
    → select_address from w.db.addresses ≡ none
    → select_address to w.db.addresses ≡ none
    → cmd_delegate from to w
      ≡ (ok tt, delegated w.db.next_id (w.db.next_id + 1) (inserted to (inserted from w.db)) w)
unfolding cmd_delegate ensure_address
cmd_delegate-add_both from to w v ne fs ts hf ht =
    let v1 = inserted-IsValid from w.db v fs hf in
    let ht1 = select_address-inserted_ne from to w.db ne ht in
    ground (
      arith,
      create_address_lem from w hf,
      create_address_lem to (record w { db = inserted from w.db }) ht1,
      finish_lem w.db.next_id (w.db.next_id + 1) (inserted to (inserted from w.db))
          (inserted-IsValid to (inserted from w.db) v1 ts ht1)
          (ground (arith, select_id-twice from to w.db))
          (ground (arith, select_id-twice from to w.db))
          (fresh_lem (w.db.next_id + 1) w.db v (omega arith)).2,
    )

-- One new address as both "from" and "to" breaks the unique constraint at its second insert, which
-- aborts the transaction.
pub cmd_delegate-same_new :
    (a : String) (w : Wallet)
    → select_address a w.db.addresses ≡ none
    → cmd_delegate a a w ≡ (err database, record w { db = inserted a w.db; aborted = true })
unfolding cmd_delegate ensure_address create_address insert_address select_address
cmd_delegate-same_new a w h = ground (arith, eq_iff a a)

-- Two addresses that both have progress are refused, and nothing is written.
pub cmd_delegate-both_exist :
    (from to : String) (r s : ℕ × String) (w : Wallet)
    → select_address from w.db.addresses ≡ some r
    → select_address to w.db.addresses ≡ some s
    → cmd_delegate from to w
      ≡ (err (if r.0 == s.0 then cannot_delegate_to_itself else both_have_progress), w)
unfolding cmd_delegate
cmd_delegate-both_exist from to r s w hf ht = ground arith
