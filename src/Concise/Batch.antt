-- ===== src/Concise/Batch.antt =====
-- Packing of inputs in a batch and the division of a batch:
-- packages/paima-sdk/paima-concise/src/batcher.ts, on texts as lists of UTF-16 code units, which is
-- what the length of a text counts.
use paima_engine.Base.{
  ℕ, ◌+◌, ◌-◌, Bool, true, false, ◌&&◌, List, [], ◌∷◌, ◌++◌, ltb, ◌==◌, if◌then◌else◌, length,
}

abbrev pub Text : Type 0
Text = List ℕ

abbrev pub outer_batch_divider : ℕ
outer_batch_divider = 2

abbrev pub inner_batch_divider : ℕ
inner_batch_divider = 3

-- The text "B".
abbrev pub batch_prefix : Text
batch_prefix = 66 ∷ []

pub record BatchedSubunit : Type 0 where
  pub address_type : ℕ
  pub user_address : Text
  pub user_signature : Text
  pub game_input : Text
  pub millisecond_timestamp : Text

abbrev pub text_eq : Text → Text → Bool
text_eq [] [] = true
text_eq [] (d ∷ u) = false
text_eq (c ∷ t) [] = false
text_eq (c ∷ t) (d ∷ u) = (c == d) && text_eq t u

-- `join` on an array.
abbrev pub join : ℕ → List Text → Text
join d [] = []
join d (t ∷ []) = t
join d (t ∷ u ∷ l) = t ++ (d ∷ join d (u ∷ l))

abbrev pub onto_first : ℕ → List Text → List Text
onto_first c [] = (c ∷ []) ∷ []
onto_first c (t ∷ l) = (c ∷ t) ∷ l

-- `split` on a text, by a divider of one code unit.
unfoldable pub split : ℕ → Text → List Text
split d [] = [] ∷ []
split d (c ∷ t) = let rest = split d t in if c == d then [] ∷ rest else onto_first c rest

unfoldable pub ends_with : ℕ → Text → Bool
ends_with d [] = false
ends_with d (c ∷ []) = c == d
ends_with d (c ∷ e ∷ t) = ends_with d (e ∷ t)

abbrev pub without_last : List Text → List Text
without_last [] = []
without_last (t ∷ []) = []
without_last (t ∷ u ∷ l) = t ∷ without_last (u ∷ l)

-- `extractBatches`.
unfoldable pub divide_batch : Text → List Text
divide_batch input_data = elim (split outer_batch_divider input_data) [
  | [] ↦ []
  | prefix ∷ elems ↦
      if text_eq prefix batch_prefix
      then (if ends_with outer_batch_divider input_data then without_last elems else elems)
      else []
]

-- `toString(10)` is a parameter.
module _ (decimal : ℕ → Text) where
  unfoldable pub pack_input : BatchedSubunit → Text
  pack_input input = join inner_batch_divider (
      decimal input.address_type
      ∷ input.user_address
      ∷ input.user_signature
      ∷ input.game_input
      ∷ input.millisecond_timestamp
      ∷ [])

  -- The loop of `buildBatchData`, with the space that remains and the text so far.
  unfoldable pub pack_loop : ℕ → Text → List BatchedSubunit → List BatchedSubunit × Text
  pack_loop remaining_space batched [] = ([], batched)
  pack_loop remaining_space batched (input ∷ inputs) =
      let packed = pack_input input in
      let rest =
        pack_loop (remaining_space - (length packed + 1))
          (batched ++ (outer_batch_divider ∷ packed)) inputs in
      if ltb remaining_space (length packed + 1) then ([], batched) else (input ∷ rest.0, rest.1)

  -- A `maxSize` of 0 leaves less than no space, which admits no input either.
  unfoldable pub build_batch_data :
      (max_size : ℕ) → List BatchedSubunit → List BatchedSubunit × Text
  build_batch_data max_size inputs =
      let done = pack_loop (max_size - 1) batch_prefix inputs in
      if text_eq done.1 batch_prefix then (done.0, []) else done
