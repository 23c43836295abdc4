-- ===== src/Batcher/Rounds.antt =====
-- The rounds of the game input validator and of the transaction poster, while the batcher keeps running:
-- packages/batcher/game-input-validator/src/index.ts and
-- packages/batcher/batcher-transaction-poster/src/transactionPoster.ts.
use paima_engine.Base.{
  ℕ, zero, suc, Option, none, some, List, [], ◌∷◌, ◌++◌, map, ◌==◌, if◌then◌else◌, length,
}
use paima_engine.Concise.Batch.{Text, BatchedSubunit, build_batch_data}
use paima_engine.Batcher.Store.{
  StateRow, GameInput, BatcherHash, Store, set_accepted, set_rejected, set_posted, update_state,
  delete_rows, delete_input, validate_input,
}
use paima_engine.Batcher.Submit.{hash_batch_subunit}

abbrev pub input_of : GameInput → BatchedSubunit
input_of row = row.input

-- `validate` is that of the validator's core: a code, which is 0 for a valid input, or none where it
-- throws. `post_message` posts a batch: a height and the hash of the transaction, or none where it throws.
module _ (keccak_256 : Text → Text) where
  -- What follows the result of the validation.
  unfoldable pub settle_input : (validation_result : Option ℕ) → GameInput → Store → Store
  settle_input none row s = s
  settle_input (some validation_result) row s =
      let hash = hash_batch_subunit keccak_256 row.input in
      if validation_result == 0
      then validate_input row.id
          (record s { input_states = update_state set_accepted hash s.input_states })
      else record s {
        input_states = update_state (set_rejected validation_result) hash s.input_states;
        unvalidated = delete_input row.id s.unvalidated;
      }

  unfoldable pub process_input :
      (validate : (game_input user_address : Text) → Option ℕ) → GameInput → Store → Store
  unfolding settle_input
  process_input validate row s =
      settle_input (validate row.input.game_input row.input.user_address) row s

  unfoldable pub validation_loop :
      (validate : (game_input user_address : Text) → Option ℕ) → List GameInput → Store → Store
  validation_loop validate [] s = s
  validation_loop validate (row ∷ rows) s =
      validation_loop validate rows (process_input validate row s)

  abbrev pub validation_round :
      (validate : (game_input user_address : Text) → Option ℕ) → Store → Store
  validation_round validate s = validation_loop validate s.unvalidated.rows s

  -- The hashes of the selected inputs, and the ids of as many rows.
  unfoldable pub take_ids : List BatchedSubunit → List GameInput → List Text × List ℕ
  take_ids [] rows = ([], [])
  take_ids (input ∷ selected) [] =
      (hash_batch_subunit keccak_256 input ∷ (take_ids selected []).0, [])
  take_ids (input ∷ selected) (row ∷ rows) =
      let rest = take_ids selected rows in
      (hash_batch_subunit keccak_256 input ∷ rest.0, row.id ∷ rest.1)

  -- The text, the hashes and the ids.
  unfoldable pub build_of_rows :
      (decimal : ℕ → Text) (max_size : ℕ) → List GameInput → Text × (List Text × List ℕ)
  build_of_rows decimal max_size [] = ([], ([], []))
  build_of_rows decimal max_size (row ∷ rows) =
      let batch_data = build_batch_data decimal max_size (map input_of (row ∷ rows)) in
      (batch_data.1, take_ids batch_data.0 (row ∷ rows))

  abbrev pub build_batched_transaction :
      (decimal : ℕ → Text) (max_size : ℕ) → Store → Text × (List Text × List ℕ)
  build_batched_transaction decimal max_size s = build_of_rows decimal max_size s.validated.rows

unfoldable pub update_states : (StateRow → StateRow) → List Text → List StateRow → List StateRow
update_states f [] rows = rows
update_states f (hash ∷ hashes) rows = update_states f hashes (update_state f hash rows)

abbrev pub finalized : ℕ → Text → Text → BatcherHash
finalized block_height transaction_hash hash = record {
  batch = hash;
  block_height = block_height;
  transaction_hash = transaction_hash;
}

abbrev pub update_posted_states :
    List Text → (block_height : ℕ) → (transaction_hash : Text) → Store → Store
update_posted_states hashes block_height transaction_hash s = record s {
  messages = s.messages ++ map (finalized block_height transaction_hash) hashes;
  input_states = update_states (set_posted block_height transaction_hash) hashes s.input_states;
}

abbrev pub reject_posted_states : List Text → Store → Store
reject_posted_states hashes s = record s {
  input_states = update_states (set_rejected 1) hashes s.input_states;
}

unfoldable pub delete_ids : List ℕ → List GameInput → List GameInput
delete_ids [] rows = rows
delete_ids (id ∷ ids) rows = delete_ids ids (delete_rows id rows)

abbrev pub delete_posted_inputs : List ℕ → Store → Store
delete_posted_inputs ids s = record s {
  validated = record s.validated { rows = delete_ids ids s.validated.rows };
}

-- What follows the posting of a batch: the number of inputs that are off the table, and the tables.
unfoldable pub after_posting :
    Option (ℕ × Text) → (hashes : List Text) → (ids : List ℕ) → Store → ℕ × Store
after_posting none hashes ids s =
    (length ids, delete_posted_inputs ids (reject_posted_states hashes s))
after_posting (some (block_height, transaction_hash)) hashes ids s = (
  length ids,
  delete_posted_inputs ids (update_posted_states hashes block_height transaction_hash s),
)

module _ (keccak_256 : Text → Text) (decimal : ℕ → Text) (max_size : ℕ)
    (post_message : Text → List Text → Option (ℕ × Text)) where
  -- An empty text is not posted.
  unfoldable pub post_built : Text → (hashes : List Text) → (ids : List ℕ) → Store → ℕ × Store
  post_built [] hashes ids s = (0, s)
  post_built (c ∷ text) hashes ids s = after_posting (post_message (c ∷ text) hashes) hashes ids s

  unfoldable pub posting_round : Store → ℕ × Store
  posting_round s =
      let (text, (hashes, ids)) = build_batched_transaction keccak_256 decimal max_size s in
      post_built text hashes ids s

  -- So many rounds of the loop.
  unfoldable pub posting_rounds : ℕ → Store → Store
  posting_rounds zero s = s
  posting_rounds (suc n) s = posting_rounds n (posting_round s).1
