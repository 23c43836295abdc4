-- ===== src/Concise/Round.antt =====
-- What a batch of the batcher holds: packages/paima-sdk/paima-concise/src/batcher.ts.
use mathlib.Core.List.{append-nil}
use paima_engine.Base.{
  ℕ, suc, ◌-◌, ◌≤◌, ◌≡◌, refl, sym, ap, ◌∙◌, ◌≢◌, ◌⊎◌, inl, inr, false, List, [], ◌∷◌, ◌++◌, arith,
  Bool-cases, length, All,
}
use paima_engine.Concise.Batch.{
  Text, outer_batch_divider, batch_prefix, BatchedSubunit, text_eq, split, ends_with, divide_batch,
  pack_loop, build_batch_data,
}
use paima_engine.Concise.Split.{Free, split-Free, split-divided, text_eq_sound}
use paima_engine.Concise.Fill.{
  body, packed_all, NoneFits, pack_input-nonempty, NoneFits-next, pack_loop-IsFilled,
}

-- A part is not empty and does not have the divider.
abbrev pub IsPart : Text → Type 0
IsPart w = (w ≢ []) × Free outer_batch_divider w

split-body :
    (w : Text) (ws : List Text)
    → IsPart w
    → All IsPart ws
    → split outer_batch_divider (w ++ body ws) ≡ w ∷ ws
split-body w [] f fs =
    ap (split outer_batch_divider) (append-nil w) ∙ split-Free outer_batch_divider w f.1
split-body w (v ∷ ws) f fs =
    split-divided outer_batch_divider w (v ++ body ws) f.1
    ∙ ap (λ (l : List Text). w ∷ l) (split-body v ws fs.0 fs.1)

ends_with-body :
    (w : Text) (ws : List Text)
    → IsPart w
    → All IsPart ws
    → ends_with outer_batch_divider (w ++ body ws) ≡ false
unfolding ends_with
ends_with-body [] ws f fs = absurd (f.0 refl)
ends_with-body (c ∷ []) [] f fs = ground arith
ends_with-body (c ∷ []) ([] ∷ ws) f fs = absurd (fs.0.0 refl)
ends_with-body (c ∷ []) ((e ∷ v) ∷ ws) f fs = ends_with-body (e ∷ v) ws fs.0 fs.1
ends_with-body (c ∷ e ∷ w) ws f fs = ends_with-body (e ∷ w) ws (ground arith, f.1.1) fs

prefix-IsPart : IsPart batch_prefix
prefix-IsPart = (ground arith, (ground arith, tt))

divide_batch-split :
    (t : Text) (ws : List Text)
    → split outer_batch_divider t ≡ batch_prefix ∷ ws
    → ends_with outer_batch_divider t ≡ false
    → divide_batch t ≡ ws
unfolding divide_batch
divide_batch-split t ws s e = rw (s, divide_batch) (rw e refl)

divide_batch-body : (ws : List Text) → All IsPart ws → divide_batch (batch_prefix ++ body ws) ≡ ws
divide_batch-body ws fs =
    divide_batch-split (batch_prefix ++ body ws) ws (split-body batch_prefix ws prefix-IsPart fs)
      (ends_with-body batch_prefix ws prefix-IsPart fs)

divide_empty : divide_batch [] ≡ []
unfolding divide_batch split
divide_empty = ground arith

module _ (decimal : ℕ → Text) where
  packed-IsPart :
      (inputs left : List BatchedSubunit)
      → All (Free outer_batch_divider) (packed_all decimal (inputs ++ left))
      → All IsPart (packed_all decimal inputs)
  packed-IsPart [] left h = tt
  packed-IsPart (i ∷ is) left h = ((pack_input-nonempty decimal i, h.0), packed-IsPart is left h.1)

  -- What the batch is, where nothing or something was selected.
  build_batch_data_cases :
      (max_size : ℕ) (inputs : List BatchedSubunit)
      → (build_batch_data decimal max_size inputs
            ≡ ((pack_loop decimal (max_size - 1) batch_prefix inputs).0, []))
          × ((pack_loop decimal (max_size - 1) batch_prefix inputs).1 ≡ batch_prefix)
        ⊎ (build_batch_data decimal max_size inputs
            ≡ pack_loop decimal (max_size - 1) batch_prefix inputs)
          × ((pack_loop decimal (max_size - 1) batch_prefix inputs).1 ≢ batch_prefix)
  unfolding build_batch_data
  build_batch_data_cases max_size inputs =
      let done = pack_loop decimal (max_size - 1) batch_prefix inputs in
      elim (Bool-cases (text_eq done.1 batch_prefix)) [
        | inl e ↦ inl (rw e refl, text_eq_sound done.1 batch_prefix e)
        | inr e ↦
            inr (rw e refl, λ p. absurd (ground (arith, e, ap (λ t. text_eq t batch_prefix) p)))
      ]

  body-empty :
      (inputs : List BatchedSubunit)
      → batch_prefix ++ body (packed_all decimal inputs) ≡ batch_prefix
      → inputs ≡ []
  body-empty [] h = refl
  body-empty (i ∷ is) h = absurd (ground (arith, ap (λ (t : Text). length t) h))

  length-body_pos :
      (inputs : List BatchedSubunit)
      → batch_prefix ++ body (packed_all decimal inputs) ≢ batch_prefix
      → 1 ≤ length (body (packed_all decimal inputs))
  length-body_pos [] h = absurd (h refl)
  length-body_pos (i ∷ is) h = omega arith

  -- The parts of a batch are the packed texts of the inputs that were selected for it, in their order,
  -- where no packed input has the divider of the parts in it.
  pub divide_batch-build_batch_data :
      (max_size : ℕ) (inputs : List BatchedSubunit)
      → All (Free outer_batch_divider) (packed_all decimal inputs)
      → divide_batch (build_batch_data decimal max_size inputs).1
        ≡ packed_all decimal (build_batch_data decimal max_size inputs).0
  divide_batch-build_batch_data max_size inputs free =
      let done = pack_loop-IsFilled decimal (max_size - 1) batch_prefix inputs in
      elim (build_batch_data_cases max_size inputs) [
        | inl (e, p) ↦ rw e (rw (body-empty _ (sym done.text ∙ p)) divide_empty)
        | inr (e, p) ↦
            rw (e, done.text)
              (divide_batch-body (packed_all decimal _)
                (packed-IsPart _ done.left (rw (sym done.divided) free)))
      ]

  -- The inputs that are selected for a batch are the first ones of those given, its text is no longer
  -- than the largest size, and the first input that is left out would have made it longer.
  pub build_batch_data_longest :
      (max_size : ℕ) (inputs : List BatchedSubunit)
      → (left : List BatchedSubunit) × (inputs
          ≡ (build_batch_data decimal max_size inputs).0 ++ left)
        × (length (build_batch_data decimal max_size inputs).1 ≤ max_size)
        × NoneFits decimal max_size
            (suc (length (body (packed_all decimal (build_batch_data decimal max_size inputs).0))))
            left
  build_batch_data_longest max_size inputs =
      let done = pack_loop-IsFilled decimal (max_size - 1) batch_prefix inputs in
      let full = NoneFits-next decimal max_size _ done.left done.full in
      elim (build_batch_data_cases max_size inputs) [
        | inl (e, p) ↦ rw e (done.left, done.divided, omega arith, full)
        | inr (e, p) ↦
            let some_body = length-body_pos _ (λ q. p (done.text ∙ q)) in
            rw e (
              done.left,
              done.divided,
              omega (arith, ap (λ (t : Text). length t) done.text, done.fits, some_body),
              full,
            )
      ]

  -- The text is there where an input is in it.
  pub build_batch_data-nonempty :
      (max_size : ℕ) (inputs : List BatchedSubunit)
      → (build_batch_data decimal max_size inputs).0 ≢ []
      → (build_batch_data decimal max_size inputs).1 ≢ []
  build_batch_data-nonempty max_size inputs some_selected =
      let done = pack_loop-IsFilled decimal (max_size - 1) batch_prefix inputs in
      elim (build_batch_data_cases max_size inputs) [
        | inl (e, p) ↦ absurd (some_selected (rw e (body-empty _ (sym done.text ∙ p))))
        | inr (e, p) ↦ rw (e, done.text) (ground arith)
      ]
