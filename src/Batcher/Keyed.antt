-- ===== src/Batcher/Keyed.antt =====
-- Tables with a text as their key, as the queries of the batcher read and write them.
use paima_engine.Base.{
  ◌≡◌, refl, sym, ap, ◌∙◌, inl, inr, Bool, true, false, Option, none, some, List, [], ◌∷◌,
  if◌then◌else◌, Bool-cases,
}
use paima_engine.Concise.Batch.{Text, text_eq}
use paima_engine.Concise.Split.{text_eq_sound}

module _ {A : Type 0} (key : A → Text) where
  -- SELECT * FROM the table WHERE the key is `a`: its first row.
  unfoldable pub find_key : Text → List A → Option A
  find_key a [] = none
  find_key a (row ∷ rows) = if text_eq (key row) a then some row else find_key a rows

  -- UPDATE the table SET what `f` sets WHERE the key is `a`.
  unfoldable pub update_key : (f : A → A) → Text → List A → List A
  update_key f a [] = []
  update_key f a (row ∷ rows) = (if text_eq (key row) a then f row else row) ∷ update_key f a rows

  pub find_key-cons :
      (a : Text) (row : A) (rows : List A)
      → text_eq (key row) a ≡ true
      → find_key a (row ∷ rows) ≡ some row
  unfolding find_key
  find_key-cons a row rows h = ap (λ (b : Bool). if b then some row else find_key a rows) h

  pub find_key-cons_other :
      (a : Text) (row : A) (rows : List A)
      → text_eq (key row) a ≡ false
      → find_key a (row ∷ rows) ≡ find_key a rows
  unfolding find_key
  find_key-cons_other a row rows h = ap (λ (b : Bool). if b then some row else find_key a rows) h

  update_key-cons :
      (f : A → A) (a : Text) (row : A) (rows : List A) (b : Bool)
      → text_eq (key row) a ≡ b
      → update_key f a (row ∷ rows) ≡ (if b then f row else row) ∷ update_key f a rows
  unfolding update_key
  update_key-cons f a row rows b h =
      ap (λ (c : Bool). (if c then f row else row) ∷ update_key f a rows) h

  abbrev pub KeepsKey : (A → A) → Type 0
  KeepsKey f = (row : A) → key (f row) ≡ key row

  pub find_key-update_key :
      (f : A → A) (a : Text) (rows : List A) (e : A)
      → KeepsKey f
      → find_key a rows ≡ some e
      → find_key a (update_key f a rows) ≡ some (f e)
  find_key-update_key f a [] e keeps h = absurd (unfold find_key in cc h)
  find_key-update_key f a (row ∷ rows) e keeps h = elim (Bool-cases (text_eq (key row) a)) [
    | inl same ↦
        let found : row ≡ e = cc (find_key-cons a row rows same, h) in
        ap (find_key a) (update_key-cons f a row rows true same)
        ∙ find_key-cons a (f row) (update_key f a rows) (ap (λ t. text_eq t a) (keeps row) ∙ same)
        ∙ ap (λ r. some (f r)) found
    | inr other ↦
        ap (find_key a) (update_key-cons f a row rows false other)
        ∙ find_key-cons_other a row (update_key f a rows) other
        ∙ find_key-update_key f a rows e keeps (sym (find_key-cons_other a row rows other) ∙ h)
  ]

  pub find_key-update_key_other :
      (f : A → A) (a b : Text) (rows : List A)
      → KeepsKey f
      → text_eq b a ≡ false
      → find_key a (update_key f b rows) ≡ find_key a rows
  unfolding find_key update_key
  find_key-update_key_other f a b [] keeps h = refl
  find_key-update_key_other f a b (row ∷ rows) keeps h = elim (Bool-cases (text_eq (key row) b)) [
    | inl same ↦
        let other : text_eq (key row) a ≡ false =
          ap (λ t. text_eq t a) (text_eq_sound (key row) b same) ∙ h in
        ap (find_key a) (update_key-cons f b row rows true same)
        ∙ find_key-cons_other a (f row) (update_key f b rows)
            (ap (λ t. text_eq t a) (keeps row) ∙ other)
        ∙ find_key-update_key_other f a b rows keeps h
        ∙ sym (find_key-cons_other a row rows other)
    | inr another ↦
        ap (find_key a) (update_key-cons f b row rows false another)
        ∙ ap (λ (o : Option A). if text_eq (key row) a then some row else o)
            (find_key-update_key_other f a b rows keeps h)
  ]
