-- ===== src/Wallet/Tables/Steps.antt =====
-- The steps of the commands on the table of addresses keep it valid.
use paima_engine.Base.{◌+◌, String, ◌≡◌, ◌≢◌, none, ◌∷◌, arith}
use paima_engine.Wallet.Tables.{Db, select_address, rename}
use paima_engine.Wallet.Tables.Laws.{
  IsValid, ValidRows-mono, select_id-fresh, select_address-rename_old, ValidRows-rename,
  Refers-rename, Refers-cons,
}

-- A new row for an address.
abbrev pub inserted : String → Db → Db
inserted a db = record db { addresses = (db.next_id, a) ∷ db.addresses; next_id = db.next_id + 1 }

-- The row of `old` went over to `new`, and `old` got the next id.
abbrev pub swapped : (new old : String) → Db → Db
swapped new old db = inserted old (record db { addresses = rename new old db.addresses })

pub inserted-IsValid :
    (a : String) (db : Db)
    → IsValid db
    → a ≢ ""
    → select_address a db.addresses ≡ none
    → IsValid (inserted a db)
inserted-IsValid a db v ne absent = record {
  rows = (
    omega arith,
    select_id-fresh db.next_id db.next_id db.addresses v.rows (omega arith),
    absent,
    ne,
    ValidRows-mono db.next_id (db.next_id + 1) db.addresses (omega arith) v.rows,
  );
  forest = v.forest;
  keys = Refers-cons db.next_id a db.addresses db.delegations v.keys;
}

renamed-IsValid :
    (new old : String) (db : Db)
    → IsValid db
    → new ≢ old
    → new ≢ ""
    → select_address new db.addresses ≡ none
    → IsValid (record db { addresses = rename new old db.addresses })
renamed-IsValid new old db v ne ns absent = record {
  rows = ValidRows-rename db.next_id new old db.addresses ne ns absent v.rows;
  forest = v.forest;
  keys = Refers-rename new old db.addresses db.delegations v.keys;
}

pub swapped-IsValid :
    (new old : String) (db : Db)
    → IsValid db
    → new ≢ old
    → new ≢ ""
    → old ≢ ""
    → select_address new db.addresses ≡ none
    → IsValid (swapped new old db)
swapped-IsValid new old db v ne ns os absent =
    inserted-IsValid old (record db { addresses = rename new old db.addresses })
      (renamed-IsValid new old db v ne ns absent) os
      (select_address-rename_old new old db.addresses ne)
