-- ===== src/Cde/Rows.antt =====
-- Tables with a primary key of several texts, and what a query sees of them after each kind of write.
use paima_engine.Base.{
  String, ◌≡◌, refl, ◌≢◌, ◌↔◌, Bool, true, false, ◌&&◌, Option, none, some, List, [], ◌∷◌, arith,
  str_eq, eq_iff, if◌then◌else◌,
}

abbrev pub Key : Type 0
Key = List String

unfoldable pub key_eq : Key → Key → Bool
key_eq [] [] = true
key_eq [] (d ∷ l) = false
key_eq (c ∷ k) [] = false
key_eq (c ∷ k) (d ∷ l) = str_eq c d && key_eq k l

pub key_eq_iff : (k l : Key) → (key_eq k l ≡ true) ↔ (k ≡ l)
unfolding key_eq
key_eq_iff [] [] = (λ _. refl, λ _. refl)
key_eq_iff [] (d ∷ l) = (λ h. cc, λ h. cc)
key_eq_iff (c ∷ k) [] = (λ h. cc, λ h. cc)
key_eq_iff (c ∷ k) (d ∷ l) = (
  λ h. ground (arith, eq_iff c d, (key_eq_iff k l).0),
  λ h. ground (arith, eq_iff c d, (key_eq_iff k l).1),
)

abbrev pub Rows : Type 0 → Type 0
Rows V = List (Key × V)

module _ {V : Type 0} where
  -- SELECT of the row with the key.
  unfoldable pub find : Key → Rows V → Option V
  find k [] = none
  find k ((l, v) ∷ rows) = if key_eq l k then some v else find k rows

  -- INSERT: a second row with the key breaks the constraint.
  unfoldable pub insert_row : Key → V → Rows V → Option (Rows V)
  unfolding find
  insert_row k v rows = elim (find k rows) [ none ↦ some ((k, v) ∷ rows) | some _ ↦ none ]

  -- UPDATE of the rows with the key.
  unfoldable pub set_row : Key → V → Rows V → Rows V
  set_row k v [] = []
  set_row k v ((l, w) ∷ rows) =
      let rest = set_row k v rows in if key_eq l k then (l, v) ∷ rest else (l, w) ∷ rest

  -- DELETE of the rows with the key that pass the test.
  unfoldable pub delete_where : Key → (V → Bool) → Rows V → Rows V
  delete_where k p [] = []
  delete_where k p ((l, v) ∷ rows) =
      let rest = delete_where k p rows in if key_eq l k && p v then rest else (l, v) ∷ rest

  -- INSERT ... ON CONFLICT DO UPDATE.
  unfoldable pub upsert_row : Key → V → (V → V) → Rows V → Rows V
  upsert_row k v f [] = (k, v) ∷ []
  upsert_row k v f ((l, w) ∷ rows) =
      let rest = upsert_row k v f rows in if key_eq l k then (l, f w) ∷ rows else (l, w) ∷ rest

  abbrev pub IsUnique : Rows V → Type 0
  IsUnique [] = Unit
  IsUnique ((k, v) ∷ rows) = (find k rows ≡ none) × IsUnique rows

  pub insert_row_fresh :
      (k : Key) (v : V) (rows : Rows V)
      → find k rows ≡ none
      → insert_row k v rows ≡ some ((k, v) ∷ rows)
  unfolding insert_row
  insert_row_fresh k v rows e = rw (e, insert_row) refl

  pub insert_row_taken :
      (k : Key) (v w : V) (rows : Rows V) → find k rows ≡ some w → insert_row k v rows ≡ none
  unfolding insert_row
  insert_row_taken k v w rows e = rw (e, insert_row) refl

  pub find-set_row :
      (k j : Key) (v : V) (rows : Rows V)
      → find j (set_row k v rows)
        ≡ elim (find j rows) [ none ↦ none | some w ↦ some (if key_eq k j then v else w) ]
  unfolding set_row find
  find-set_row k j v [] = refl
  find-set_row k j v ((l, w) ∷ rows) =
      ground (arith, key_eq_iff l k, key_eq_iff l j, key_eq_iff k j, find-set_row k j v rows)

  pub find-delete_where_ne :
      (k j : Key) (p : V → Bool) (rows : Rows V)
      → k ≢ j
      → find j (delete_where k p rows) ≡ find j rows
  unfolding delete_where find
  find-delete_where_ne k j p [] ne = refl
  find-delete_where_ne k j p ((l, w) ∷ rows) ne =
      ground (arith, key_eq_iff l k, key_eq_iff l j, find-delete_where_ne k j p rows ne)

  find-delete_where-none :
      (k j : Key) (p : V → Bool) (rows : Rows V)
      → find j rows ≡ none
      → find j (delete_where k p rows) ≡ none
  unfolding delete_where find
  find-delete_where-none k j p [] e = refl
  find-delete_where-none k j p ((l, w) ∷ rows) e = ground (arith, find-delete_where-none k j p rows)

  pub find-delete_where_self :
      (k : Key) (p : V → Bool) (rows : Rows V)
      → IsUnique rows
      → find k (delete_where k p rows)
        ≡ elim (find k rows) [ none ↦ none | some w ↦ (if p w then none else some w) ]
  unfolding delete_where find
  find-delete_where_self k p [] u = refl
  find-delete_where_self k p ((l, w) ∷ rows) u = ground (
    arith,
    key_eq_iff l k,
    find-delete_where_self k p rows u.1,
    find-delete_where-none k k p rows,
  )

  pub delete_where-IsUnique :
      (k : Key) (p : V → Bool) (rows : Rows V) → IsUnique rows → IsUnique (delete_where k p rows)
  unfolding delete_where
  delete_where-IsUnique k p [] u = tt
  delete_where-IsUnique k p ((l, w) ∷ rows) u =
      ground (arith, find-delete_where-none k l p rows u.0, delete_where-IsUnique k p rows u.1)

  pub find-upsert_row :
      (k j : Key) (v : V) (f : V → V) (rows : Rows V)
      → find j (upsert_row k v f rows) ≡ (
          if key_eq k j then some (elim (find k rows) [ none ↦ v | some w ↦ f w ]) else find j rows)
  unfolding upsert_row find
  find-upsert_row k j v f [] = refl
  find-upsert_row k j v f ((l, w) ∷ rows) =
      ground (arith, key_eq_iff l k, key_eq_iff l j, key_eq_iff k j, find-upsert_row k j v f rows)

  pub upsert_row-IsUnique :
      (k : Key) (v : V) (f : V → V) (rows : Rows V)
      → IsUnique rows
      → IsUnique (upsert_row k v f rows)
  unfolding upsert_row find
  upsert_row-IsUnique k v f [] u = (refl, tt)
  upsert_row-IsUnique k v f ((l, w) ∷ rows) u = ground (
    arith,
    key_eq_iff l k,
    key_eq_iff k l,
    find-upsert_row k l v f rows,
    upsert_row-IsUnique k v f rows u.1,
  )

  find-set_row-none :
      (k j : Key) (v : V) (rows : Rows V) → find j rows ≡ none → find j (set_row k v rows) ≡ none
  find-set_row-none k j v rows e = rw find-set_row (rw e refl)

  pub set_row-IsUnique :
      (k : Key) (v : V) (rows : Rows V) → IsUnique rows → IsUnique (set_row k v rows)
  unfolding set_row
  set_row-IsUnique k v [] u = tt
  set_row-IsUnique k v ((l, w) ∷ rows) u =
      ground (arith, find-set_row-none k l v rows u.0, set_row-IsUnique k v rows u.1)

  pub find-delete_all :
      (k j : Key) (rows : Rows V)
      → find j (delete_where k (λ _. true) rows) ≡ (if key_eq k j then none else find j rows)
  unfolding delete_where find
  find-delete_all k j [] = ground arith
  find-delete_all k j ((l, w) ∷ rows) =
      ground (arith, key_eq_iff l k, key_eq_iff l j, key_eq_iff k j, find-delete_all k j rows)

  pub find-cons :
      (k j : Key) (v : V) (rows : Rows V)
      → find j ((k, v) ∷ rows) ≡ (if key_eq k j then some v else find j rows)
  unfolding find
  find-cons k j v rows = refl

  pub find-same :
      (k j : Key) (rows : Rows V) → find j rows ≡ (if key_eq k j then find k rows else find j rows)
  find-same k j rows = ground (arith, key_eq_iff k j)

  pub find-set_known :
      (k j : Key) (v w : V) (rows : Rows V)
      → find k rows ≡ some w
      → find j (set_row k v rows) ≡ (if key_eq k j then some v else find j rows)
  find-set_known k j v w rows e = ground (arith, key_eq_iff k j, find-set_row k j v rows)
