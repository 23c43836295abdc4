-- ===== src/Concise/Fill.antt =====
-- How the loop of `buildBatchData` fills a batch: packages/paima-sdk/paima-concise/src/batcher.ts.
use mathlib.Core.List.{append_assoc, append-nil}
use paima_engine.Base.{
  ℕ, suc, ◌+◌, ◌-◌, ◌≤◌, ◌<◌, ◌≡◌, refl, sym, ap, ◌∙◌, ◌≢◌, inl, inr, List, [], ◌∷◌, ◌++◌, map,
  arith, ltb, Bool-cases, length, length-append,
}
use paima_engine.Concise.Batch.{
  Text, outer_batch_divider, inner_batch_divider, BatchedSubunit, pack_input, pack_loop,
}

-- The parts of a batch after its prefix.
abbrev pub body : List Text → Text
body [] = []
body (w ∷ ws) = outer_batch_divider ∷ (w ++ body ws)

append-nonempty : (t u : Text) (c : ℕ) → t ++ (c ∷ u) ≢ []
append-nonempty [] u c = ground arith
append-nonempty (d ∷ t) u c = ground arith

module _ (decimal : ℕ → Text) where
  abbrev pub packed_all : List BatchedSubunit → List Text
  packed_all inputs = map (pack_input decimal) inputs

  -- The first of the inputs that are left does not fit.
  abbrev pub NoneFits : (space used : ℕ) → List BatchedSubunit → Type 0
  NoneFits space used [] = Unit
  NoneFits space used (i ∷ is) = space < used + (length (pack_input decimal i) + 1)

  -- The selected inputs are the longest beginning of the inputs that fits in the space, and their
  -- packed texts, each after a divider, are added to the text.
  pub record IsFilled (space : ℕ) (batched : Text) (inputs : List BatchedSubunit)
      (r : List BatchedSubunit × Text) : Type 0 where
    pub left : List BatchedSubunit
    pub divided : inputs ≡ r.0 ++ left
    pub text : r.1 ≡ batched ++ body (packed_all r.0)
    pub fits : length (body (packed_all r.0)) ≤ space
    pub full : NoneFits space (length (body (packed_all r.0))) left

  pub pack_input-nonempty : (input : BatchedSubunit) → pack_input decimal input ≢ []
  unfolding pack_input
  pack_input-nonempty input = append-nonempty (decimal input.address_type) _ inner_batch_divider

  NoneFits-shift :
      (space size used : ℕ) (l : List BatchedSubunit)
      → size ≤ space
      → NoneFits (space - size) used l
      → NoneFits space (used + size) l
  NoneFits-shift space size used [] le h = tt
  NoneFits-shift space size used (i ∷ is) le h = omega arith

  pub NoneFits-next :
      (max_size used : ℕ) (l : List BatchedSubunit)
      → NoneFits (max_size - 1) used l
      → NoneFits max_size (suc used) l
  NoneFits-next max_size used [] h = tt
  NoneFits-next max_size used (i ∷ is) h = omega arith

  IsFilled-cons :
      (s : ℕ) (b : Text) (j : BatchedSubunit) (js : List BatchedSubunit)
      (r : List BatchedSubunit × Text)
      → IsFilled
          (s - (length (pack_input decimal j) + 1))
          (b ++ (outer_batch_divider ∷ pack_input decimal j))
          js
          r
      → length (pack_input decimal j) + 1 ≤ s
      → IsFilled s b (j ∷ js) (j ∷ r.0, r.1)
  IsFilled-cons s b j js r f le =
      let packed = pack_input decimal j in
      let rest = body (packed_all r.0) in
      let size : length (outer_batch_divider ∷ (packed ++ rest))
          ≡ length rest + (length packed + 1) =
        omega (arith, length-append packed rest) in
      record {
        left = f.left;
        divided = ap (λ (l : List BatchedSubunit). j ∷ l) f.divided;
        text = f.text ∙ append_assoc b (outer_batch_divider ∷ packed) rest;
        fits = omega (arith, size, f.fits, le);
        full = rw size (NoneFits-shift s (length packed + 1) (length rest) f.left le f.full);
      }

  pub pack_loop-IsFilled :
      (space : ℕ) (batched : Text) (inputs : List BatchedSubunit)
      → IsFilled space batched inputs (pack_loop decimal space batched inputs)
  unfolding pack_loop
  pack_loop-IsFilled space batched [] = record {
    left = [];
    divided = refl;
    text = sym (append-nil batched);
    fits = omega arith;
    full = tt;
  }
  pack_loop-IsFilled space batched (i ∷ is) =
      let packed = pack_input decimal i in
      let ih =
        pack_loop-IsFilled (space - (length packed + 1)) (batched ++ (outer_batch_divider ∷ packed))
          is in
      elim (Bool-cases (ltb space (length packed + 1))) [
        | inl e ↦ rw e (record {
          left = i ∷ is;
          divided = refl;
          text = sym (append-nil batched);
          fits = omega arith;
          full = ground (arith, e);
        })
        | inr e ↦ rw e (IsFilled-cons space batched i is _ ih (ground (arith, e)))
      ]
