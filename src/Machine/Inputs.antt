-- ===== src/Machine/Inputs.antt =====
-- The inputs that users submitted in a block: `processUserInputs` of
-- packages/node-sdk/paima-sm/src/index.ts.
pub mod Frame
pub mod Log
pub mod Atomic
pub mod Replay
pub mod Wallets
use text.Mathlib.Text.{starts_with}
use paima_engine.Base.{
  ℕ, ◌+◌, String, Bool, true, false, not, ◌||◌, none, some, List, [], ◌∷◌, ◌++◌, map, str_eq,
  if◌then◌else◌, length,
}
use paima_engine.Chain.{SubmittedData}
use paima_engine.Chain.Hash.{text_of, hash_rollup_input}
use paima_engine.Wallet.Lookup.{get_main_address}
use paima_engine.Wallet.Commands.{ok, err, create_address}
use paima_engine.Wallet.Process.{process}
use paima_engine.Machine.State.{
  InputResult, Machine, StfInput, Header, Env, Outcome, returned, thrown,
}
use paima_engine.Machine.Events.{
  Query, game_query, try_or_rollback, handle_events, send_events, Indexes, index_for_event,
}

-- How the body of the `try` ended: its hash goes to the successes, to the failures, nowhere, or to the
-- failures with the error thrown on.
pub data Verdict : Type 0 where
  accepted rejected silent raised : Verdict

-- `emitted` is `eventsToEmit.length` after a success.
pub record Attempt (G F R : Type 0) : Type 0 where
  pub machine : Machine G F R
  pub verdict : Verdict
  pub success : Bool
  pub emitted : ℕ

-- The variables of the loop; the hashes stand newest first.
pub record Progress (G F R : Type 0) : Type 0 where
  pub machine : Machine G F R
  pub indexes : Indexes
  pub tx_index : ℕ
  pub success_hashes : List String
  pub failed_hashes : List String

-- findNonce
unfoldable pub has_nonce : String → List (String × ℕ) → Bool
has_nonce nonce [] = false
has_nonce nonce ((n, _) ∷ nonces) = str_eq n nonce || has_nonce nonce nonces

-- `successTxHashes.push(txHash)` and `failedTxHashes.push(txHash)`
abbrev pub note_success : Verdict → String → List String → List String
note_success accepted hash hashes = hash ∷ hashes
note_success _ hash hashes = hashes

abbrev pub note_failure : Verdict → String → List String → List String
note_failure rejected hash hashes = hash ∷ hashes
note_failure raised hash hashes = hash ∷ hashes
note_failure _ hash hashes = hashes

abbrev pub end_round : {A : Type 0} → Verdict → A → Outcome A
end_round raised a = thrown a
end_round _ a = returned a

module _ {G Q F R : Type 0} (env : Env G Q F R) where
  -- `stateTransitions` with the queries of the events, run under a savepoint, and what follows.
  unfoldable pub apply_update : List (Query Q F) → List (String × F) → Machine G F R → Attempt G F R
  apply_update [] messages m = record {
    machine = m;
    verdict = silent;
    success = false;
    emitted = 0;
  }
  apply_update queries messages m =
      let (ran, m') = try_or_rollback env queries m in
      let (delivered, m'') = send_events env messages m' in
      if not ran
      then record { machine = m'; verdict = rejected; success = false; emitted = 0 }
      else record {
        machine = m'';
        verdict = if delivered then accepted else raised;
        success = true;
        emitted = length messages;
      }

  -- The call of the state transition function: where it or `handleEvents` throws, the input is skipped.
  unfoldable pub trigger_stf :
      StfInput → Header → (tx_index log_offset : ℕ) → Machine G F R → Attempt G F R
  trigger_stf input header tx_index log_offset m =
      let (random, result) = env.stf input header m.random m.game in
      let m' : Machine G F R = record m { random = random } in
      let skipped : Attempt G F R = record {
        machine = m';
        verdict = silent;
        success = false;
        emitted = 0;
      } in
      elim result [
        | none ↦ skipped
        | some (transitions, events) ↦
            elim (handle_events env tx_index header.block_height log_offset events) [
              | none ↦ skipped
              | some (event_queries, messages) ↦
                  apply_update (map game_query transitions ++ event_queries) messages m'
            ]
      ]

  -- What comes before that call: a wallet command, or an id for an address that has none.
  unfoldable pub attempt_input :
      StfInput → Header → (tx_index log_offset : ℕ) → Machine G F R → Attempt G F R
  attempt_input input header tx_index log_offset m =
      if starts_with input.submitted.input_data "&"
      then (let (status, w) =
            process env.lower env.validators env.parse input.submitted.real_address
              input.user_address input.submitted.input_data m.wallet in
          if status
          then trigger_stf input header tx_index log_offset (record m { wallet = w })
          else record {
            machine = record m { wallet = w };
            verdict = silent;
            success = false;
            emitted = 0;
          })
      else elim input.user_id [
        | some id ↦ trigger_stf input header tx_index log_offset m
        | none ↦
            let (created, w) = create_address input.user_address m.wallet in
            elim created [
              | err _ ↦ record {
                machine = record m { wallet = w };
                verdict = raised;
                success = false;
                emitted = 0;
              }
              | ok (id, _) ↦
                  trigger_stf (record input { user_id = some id }) header tx_index log_offset
                    (record m { wallet = w })
            ]
      ]

  -- The `finally` block: the nonce, and the result where history is kept. In an aborted transaction the
  -- first of these queries throws. An error of the `try` is thrown on afterwards.
  unfoldable pub finish_input :
      StfInput → Header → String → Progress G F R → Attempt G F R → Outcome (Progress G F R)
  finish_input input header hash p a =
      let success_hashes = note_success a.verdict hash p.success_hashes in
      let failed_hashes = note_failure a.verdict hash p.failed_hashes in
      let row : InputResult = record {
        id = none;
        input_data = input.submitted.input_data;
        from_address = input.user_address;
        success = a.success;
        paima_tx_hash = hash;
        index_in_block = p.tx_index;
        block_height = header.block_height;
      } in
      let done : Progress G F R = record {
        machine = record a.machine {
          nonces = (input.submitted.input_nonce, header.block_height) ∷ a.machine.nonces;
          results = if env.store_historical then row ∷ a.machine.results else a.machine.results;
        };
        indexes = p.indexes;
        tx_index = p.tx_index + 1;
        success_hashes = success_hashes;
        failed_hashes = failed_hashes;
      } in
      if a.machine.wallet.aborted
      then thrown (record p {
        machine = a.machine;
        success_hashes = success_hashes;
        failed_hashes = failed_hashes;
      })
      else end_round a.verdict done

  -- One round for an input whose nonce is neither empty nor known.
  unfoldable pub run_input :
      Header → (log_offset : ℕ) → SubmittedData → Progress G F R → Outcome (Progress G F R)
  run_input header log_offset d p =
      let (main, w) = get_main_address env.lower d.real_address p.machine.wallet in
      let tx = text_of d.origin.tx_hash in
      let (index, indexes) = index_for_event tx p.indexes in
      let hash = hash_rollup_input env.keccak_256 env.decimal (text_of d.origin.caip2) tx index in
      let input : StfInput = record {
        submitted = d;
        user_address = main.address;
        user_id = main.id;
        paima_tx_hash = hash;
      } in
      let m : Machine G F R = record p.machine { wallet = w } in
      finish_input input header hash (record p { indexes = indexes })
        (attempt_input input header p.tx_index log_offset m)

  unfoldable pub skips : SubmittedData → Progress G F R → Bool
  skips d p = str_eq d.input_nonce "" || has_nonce d.input_nonce p.machine.nonces

  unfoldable pub process_user_inputs :
      Header → (log_offset : ℕ) → List SubmittedData → Progress G F R → Outcome (Progress G F R)
  process_user_inputs header log_offset [] p = returned p
  process_user_inputs header log_offset (d ∷ inputs) p =
      let skipped = process_user_inputs header log_offset inputs p in
      if skips d p then skipped else elim (run_input header log_offset d p) [
        | thrown p' ↦ thrown p'
        | returned p' ↦ process_user_inputs header log_offset inputs p'
      ]
