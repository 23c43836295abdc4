-- ===== src/Batcher/Batches.antt =====
-- Which inputs a batch takes: buildBatchedTransaction of
-- packages/batcher/batcher-transaction-poster/src/transactionPoster.ts.
use paima_engine.Base.{
  ℕ, suc, ◌+◌, ◌≤◌, ◌≡◌, refl, sym, ap, ◌∙◌, ◌≢◌, List, [], ◌∷◌, ◌++◌, map, arith, length, All,
}
use paima_engine.Concise.Batch.{Text, BatchedSubunit, pack_input, build_batch_data}
use paima_engine.Concise.Fill.{body, packed_all, NoneFits}
use paima_engine.Concise.Round.{build_batch_data_longest, build_batch_data-nonempty}
use paima_engine.Batcher.Store.{GameInput}
use paima_engine.Batcher.Rounds.{input_of, take_ids, build_of_rows}
use paima_engine.Batcher.Queue.{hash_of}
use paima_engine.Batcher.Posting.{id_of, take_ids-front}

record IsDivided (rows : List GameInput) (xs : List BatchedSubunit) : Type 0 where
  front : List GameInput
  left : List GameInput
  divided : rows ≡ front ++ left
  inputs : map input_of front ≡ xs

map-IsDivided :
    (rows : List GameInput) (xs ys : List BatchedSubunit)
    → map input_of rows ≡ xs ++ ys
    → IsDivided rows xs
map-IsDivided rows [] ys h = record { front = []; left = rows; divided = refl; inputs = refl }
map-IsDivided [] (x ∷ xs) ys h = absurd (cc h)
map-IsDivided (e ∷ rows) (x ∷ xs) ys h =
    let rest = map-IsDivided rows xs ys (cc h) in
    record {
      front = e ∷ rest.front;
      left = rest.left;
      divided = ap (λ (l : List GameInput). e ∷ l) rest.divided;
      inputs = cc (rest.inputs, h);
    }

-- Every input could be posted alone.
abbrev pub FitsAlone : (decimal : ℕ → Text) → (max_size : ℕ) → List GameInput → Type 0
FitsAlone decimal max_size rows =
    All (λ (e : GameInput). length (pack_input decimal e.input) + 2 ≤ max_size) rows

module _ (keccak_256 : Text → Text) (decimal : ℕ → Text) (max_size : ℕ) where
  -- A batch takes rows at the front, and some where each fits.
  pub record IsBatch (rows : List GameInput) (built : Text × (List Text × List ℕ)) : Type 0 where
    pub front : List GameInput
    pub left : List GameInput
    pub divided : rows ≡ front ++ left
    pub hashes : built.1.0 ≡ map (hash_of keccak_256) front
    pub ids : built.1.1 ≡ map id_of front
    pub progress : rows ≢ [] → FitsAlone decimal max_size rows → (front ≢ []) × (built.0 ≢ [])

  left_fits :
      (e : GameInput) (rows : List GameInput) (selected left : List BatchedSubunit)
      → selected ≡ []
      → map input_of (e ∷ rows) ≡ selected ++ left
      → NoneFits decimal max_size (suc (length (body (packed_all decimal selected)))) left
      → FitsAlone decimal max_size (e ∷ rows)
      → ⊥
  left_fits e rows (x ∷ selected) left h all full fits = absurd (cc h)
  left_fits e rows [] [] h all full fits = absurd (cc all)
  left_fits e rows [] (x ∷ left) h all full fits =
      let same : e.input ≡ x = cc all in
      let size = ap (λ i. length (pack_input decimal i)) same in omega (arith, size, full, fits.0)

  first_fits :
      (e : GameInput) (rows : List GameInput)
      → FitsAlone decimal max_size (e ∷ rows)
      → (build_batch_data decimal max_size (map input_of (e ∷ rows))).0 ≢ []
  first_fits e rows fits none_selected =
      let (left, divided, short, full) =
        build_batch_data_longest decimal max_size (map input_of (e ∷ rows)) in
      left_fits e rows _ left none_selected divided full fits

  pub build_of_rows-IsBatch :
      (rows : List GameInput) → IsBatch rows (build_of_rows keccak_256 decimal max_size rows)
  unfolding build_of_rows
  build_of_rows-IsBatch [] = record {
    front = [];
    left = [];
    divided = refl;
    hashes = refl;
    ids = refl;
    progress = λ some_rows fits. absurd (some_rows refl);
  }
  build_of_rows-IsBatch (e ∷ rows) =
      let selected = (build_batch_data decimal max_size (map input_of (e ∷ rows))).0 in
      let (left_inputs, all_inputs, short, full) =
        build_batch_data_longest decimal max_size (map input_of (e ∷ rows)) in
      let split_rows = map-IsDivided (e ∷ rows) selected left_inputs all_inputs in
      let taken : take_ids keccak_256 selected (e ∷ rows)
          ≡ (map (hash_of keccak_256) split_rows.front, map id_of split_rows.front) =
        rw (sym split_rows.inputs, split_rows.divided)
          (take_ids-front keccak_256 split_rows.front split_rows.left) in
      record {
        front = split_rows.front;
        left = split_rows.left;
        divided = split_rows.divided;
        hashes = ap (λ (p : List Text × List ℕ). p.0) taken;
        ids = ap (λ (p : List Text × List ℕ). p.1) taken;
        progress = λ some_rows fits.
            let some_selected = first_fits e rows fits in
            (
              λ p. some_selected (sym split_rows.inputs ∙ ap (map input_of) p),
              build_batch_data-nonempty decimal max_size (map input_of (e ∷ rows)) some_selected,
            );
      }
