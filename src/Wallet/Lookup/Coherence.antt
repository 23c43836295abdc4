-- ===== src/Wallet/Lookup/Coherence.antt =====
-- The cache answers as the tables do.
use paima_engine.Base.{
  ℕ, String, ◌≡◌, refl, sym, ◌∙◌, ◌≢◌, inl, inr, Bool, true, false, none, some, [], arith, eq_iff,
  if◌then◌else◌, Option-cases,
}
use paima_engine.Wallet.Tables.{Db, select_address, select_id, delegator_of}
use paima_engine.Wallet.Tables.Laws.{IsValid, select_id-fresh}
use paima_engine.Wallet.Tables.Forest.{delegator_of-has_row}
use paima_engine.Wallet.Tables.Steps.{inserted}
use paima_engine.Wallet.Lookup.{
  WalletDelegate, Wallet, cached, main_row, main_of, query_main, get_main_address,
}

-- Each binding is what the tables say, and is of a wallet that has an id.
pub record IsCoherent (w : Wallet) : Type 0 where
  pub at :
      (a : String) (r : WalletDelegate)
      → cached a w.cache ≡ some r
      → (main_of a w.db ≡ r) × (select_address a w.db.addresses ≢ none)

pub cleared-IsCoherent : (w : Wallet) → w.cache ≡ [] → IsCoherent w
unfolding cached
cleared-IsCoherent w empty = record { at = λ a r e. ground arith }

module _ (lower : String → String) where
  query_main-eq-main_of : (a : String) (w : Wallet) → (query_main lower a w).0 ≡ main_of a w.db
  unfolding query_main main_of
  query_main-eq-main_of a w = ground arith

  query_main-IsCoherent :
      (a : String) (w : Wallet) → IsCoherent w → IsCoherent (query_main lower a w).1
  unfolding query_main cached main_of
  query_main-IsCoherent a w h = record { at = λ b r e. ground (arith, h.at b r, eq_iff a b) }

  query_main-db : (a : String) (w : Wallet) → (query_main lower a w).1.db ≡ w.db
  unfolding query_main
  query_main-db a w = ground arith

  abbrev Answers : String → Wallet → WalletDelegate × Wallet → Type 0
  Answers a w (r, w') = (r ≡ main_of a w.db) × IsCoherent w' × (w'.db ≡ w.db)

  query_main-Answers : (a : String) (w : Wallet) → IsCoherent w → Answers a w (query_main lower a w)
  query_main-Answers a w h =
      (query_main-eq-main_of a w, query_main-IsCoherent a w h, query_main-db a w)

  Answers-if :
      (a : String) (w : Wallet) (b : Bool) (x y : WalletDelegate × Wallet)
      → Answers a w x
      → Answers a w y
      → Answers a w (if b then x else y)
  Answers-if a w true x y hx hy = hx
  Answers-if a w false x y hx hy = hy

  -- With a cache that agrees with the tables, the answer for an address is what the tables say of
  -- its lower-cased form, whether or not it comes from the cache; the cache still agrees
  -- afterwards, and the tables are as they were.
  pub get_main_address-IsCoherent :
      (address : String) (w : Wallet)
      → IsCoherent w
      → let (r, w') = get_main_address lower address w in
        (r ≡ main_of (lower address) w.db) × IsCoherent w' × (w'.db ≡ w.db)
  unfolding get_main_address
  get_main_address-IsCoherent address w h = elim (Option-cases (cached (lower address) w.cache)) [
    | inl missed ↦ rw (missed, get_main_address) (query_main-Answers (lower address) w h)
    | inr (r, e) ↦
        rw (e, get_main_address)
          (Answers-if (lower address) w w.use_cache (r, w) (query_main lower (lower address) w)
            (sym (h.at (lower address) r e).0, h, refl) (query_main-Answers (lower address) w h))
  ]

-- Reading a row of the tables is not changed by a row for a new address.
main_row-inserted :
    (i : ℕ) (a b : String) (db : Db) → IsValid db → main_row i a (inserted b db) ≡ main_row i a db
unfolding main_row select_id
main_row-inserted i a b db v = elim (Option-cases (delegator_of i db.delegations)) [
  | inl root ↦ ground arith
  | inr (m, e) ↦ ground (
    arith,
    delegator_of-has_row i m db.addresses db.delegations v.keys e,
    select_id-fresh db.next_id m db.addresses v.rows,
  )
]

main_of-inserted :
    (a b : String) (db : Db)
    → IsValid db
    → select_address b db.addresses ≡ none
    → select_address a db.addresses ≢ none
    → (main_of a (inserted b db) ≡ main_of a db)
      × (select_address a (inserted b db).addresses ≢ none)
unfolding main_of select_address
main_of-inserted a b db v absent known = elim (Option-cases (select_address a db.addresses)) [
  | inl e ↦ absurd (known e)
  | inr ((i, c), e) ↦ ground (arith, eq_iff b a, main_row-inserted i c b db v)
]

-- A row for a new address leaves the cache coherent, though it is not cleared then: what is not known
-- is not cached.
pub inserted-IsCoherent :
    (b : String) (w : Wallet) (aborted : Bool)
    → IsValid w.db
    → select_address b w.db.addresses ≡ none
    → IsCoherent w
    → IsCoherent (record w { db = inserted b w.db; aborted = aborted })
inserted-IsCoherent b w aborted v absent h = record {
  at = λ a r e.
      let (m, known) = h.at a r e in
      let (same, known') = main_of-inserted a b w.db v absent known in (same ∙ m, known');
}
