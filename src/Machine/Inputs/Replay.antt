-- ===== src/Machine/Inputs/Replay.antt =====
-- Replay protection: an input whose nonce was processed has no effect when it comes again.
use paima_engine.Base.{
  ℕ, String, ◌≡◌, refl, ap, ◌∙◌, ◌⊎◌, inl, inr, true, some, List, [], ◌∷◌, arith, eq_iff,
  Bool-cases, Option-cases, All,
}
use paima_engine.Chain.{SubmittedData}
use paima_engine.Chain.Hash.{text_of, hash_rollup_input}
use paima_engine.Wallet.Lookup.{get_main_address}
use paima_engine.Wallet.Commands.{create_address, Result-cases}
use paima_engine.Wallet.Process.{process}
use paima_engine.Machine.State.{Machine, StfInput, Header, Env, returned, Outcome-cases}
use paima_engine.Machine.Events.{index_for_event}
use paima_engine.Machine.Inputs.{
  Attempt, Progress, has_nonce, attempt_input, finish_input, run_input, skips, process_user_inputs,
}
use paima_engine.Machine.Inputs.Frame.{trigger_stf-Framed}

module _ {G Q F R : Type 0} (env : Env G Q F R) where
  attempt_input-nonces :
      (input : StfInput) (header : Header) (tx_index log_offset : ℕ) (m : Machine G F R)
      → (attempt_input env input header tx_index log_offset m).machine.nonces ≡ m.nonces
  unfolding attempt_input
  attempt_input-nonces input header tx_index log_offset m =
      let (status, w) =
        process env.lower env.validators env.parse input.submitted.real_address input.user_address
          input.submitted.input_data m.wallet in
      let (created, w') = create_address input.user_address m.wallet in
      elim (Option-cases input.user_id) [
        | inl unknown ↦ elim (Result-cases created) [
          | inl ((i, a), e) ↦ ground (
            arith,
            trigger_stf-Framed env input header tx_index log_offset (record m { wallet = w }),
            trigger_stf-Framed env (record input { user_id = some i }) header tx_index log_offset
                (record m { wallet = w' }),
          )
          | inr (x, e) ↦ ground (
            arith,
            trigger_stf-Framed env input header tx_index log_offset (record m { wallet = w }),
          )
        ]
        | inr (id, e) ↦ ground (
          arith,
          trigger_stf-Framed env input header tx_index log_offset (record m { wallet = w }),
          trigger_stf-Framed env input header tx_index log_offset m,
        )
      ]

  finish_input-nonces :
      (input : StfInput) (header : Header) (hash : String) (p p' : Progress G F R)
      (a : Attempt G F R)
      → finish_input env input header hash p a ≡ returned p'
      → p'.machine.nonces ≡ (input.submitted.input_nonce, header.block_height) ∷ a.machine.nonces
  unfolding finish_input
  finish_input-nonces input header hash p p' a h = ground arith

  run_input-nonces :
      (header : Header) (log_offset : ℕ) (d : SubmittedData) (p p' : Progress G F R)
      → run_input env header log_offset d p ≡ returned p'
      → p'.machine.nonces ≡ (d.input_nonce, header.block_height) ∷ p.machine.nonces
  unfolding run_input
  run_input-nonces header log_offset d p p' h =
      let (main, w) = get_main_address env.lower d.real_address p.machine.wallet in
      let tx = text_of d.origin.tx_hash in
      let (index, indexes) = index_for_event tx p.indexes in
      let hash = hash_rollup_input env.keccak_256 env.decimal (text_of d.origin.caip2) tx index in
      let input : StfInput = record {
        submitted = d;
        user_address = main.address;
        user_id = main.id;
        paima_tx_hash = hash;
      } in
      let m : Machine G F R = record p.machine { wallet = w } in
      finish_input-nonces input header hash (record p { indexes = indexes }) p'
        (attempt_input env input header p.tx_index log_offset m) h
      ∙ ap (λ (l : List (String × ℕ)). (d.input_nonce, header.block_height) ∷ l)
          (attempt_input-nonces input header p.tx_index log_offset m)

  has_nonce-run :
      (nonce : String) (header : Header) (log_offset : ℕ) (d : SubmittedData)
      (p p' : Progress G F R)
      → run_input env header log_offset d p ≡ returned p'
      → has_nonce nonce p.machine.nonces ≡ true
      → has_nonce nonce p'.machine.nonces ≡ true
  unfolding has_nonce
  has_nonce-run nonce header log_offset d p p' h k =
      rw (run_input-nonces header log_offset d p p' h) (ground arith)

  skips-run :
      (header : Header) (log_offset : ℕ) (d : SubmittedData) (p p' : Progress G F R)
      → run_input env header log_offset d p ≡ returned p'
      → skips env d p' ≡ true
  unfolding skips has_nonce
  skips-run header log_offset d p p' h =
      rw (run_input-nonces header log_offset d p p' h)
        (ground (arith, eq_iff d.input_nonce d.input_nonce))

  -- The round of one input inside the loop.
  step_cases :
      (header : Header) (log_offset : ℕ) (d : SubmittedData) (inputs : List SubmittedData)
      (p p' : Progress G F R)
      → process_user_inputs env header log_offset (d ∷ inputs) p ≡ returned p'
      → ((skips env d p ≡ true)
          × (process_user_inputs env header log_offset inputs p ≡ returned p'))
        ⊎ ((q : Progress G F R) × (run_input env header log_offset d p ≡ returned q)
            × (process_user_inputs env header log_offset inputs q ≡ returned p'))
  unfolding process_user_inputs
  step_cases header log_offset d inputs p p' h = elim (Bool-cases (skips env d p)) [
    | inl s ↦ inl (s, ground arith)
    | inr runs ↦ elim (Outcome-cases (run_input env header log_offset d p)) [
      | inl (q, e) ↦ inr (q, e, ground arith)
      | inr (q, e) ↦ absurd (ground arith)
    ]
  ]

  has_nonce-kept :
      (nonce : String) (header : Header) (log_offset : ℕ) (inputs : List SubmittedData)
      (p p' : Progress G F R)
      → process_user_inputs env header log_offset inputs p ≡ returned p'
      → has_nonce nonce p.machine.nonces ≡ true
      → has_nonce nonce p'.machine.nonces ≡ true
  unfolding process_user_inputs
  has_nonce-kept nonce header log_offset [] p p' h k = ground arith
  has_nonce-kept nonce header log_offset (d ∷ inputs) p p' h k =
      elim (step_cases header log_offset d inputs p p' h) [
        | inl (s, e) ↦ has_nonce-kept nonce header log_offset inputs p p' e k
        | inr (q, e, f) ↦
            has_nonce-kept nonce header log_offset inputs q p' f
              (has_nonce-run nonce header log_offset d p q e k)
      ]

  skips-kept :
      (d : SubmittedData) (header : Header) (log_offset : ℕ) (inputs : List SubmittedData)
      (p p' : Progress G F R)
      → process_user_inputs env header log_offset inputs p ≡ returned p'
      → skips env d p ≡ true
      → skips env d p' ≡ true
  unfolding skips
  skips-kept d header log_offset inputs p p' h k =
      ground (arith, has_nonce-kept d.input_nonce header log_offset inputs p p' h)

  -- Every input of a list that was processed is skipped from then on.
  All-skip :
      (header : Header) (log_offset : ℕ) (inputs : List SubmittedData) (p p' : Progress G F R)
      → process_user_inputs env header log_offset inputs p ≡ returned p'
      → All (λ d. skips env d p' ≡ true) inputs
  All-skip header log_offset [] p p' h = tt
  All-skip header log_offset (d ∷ inputs) p p' h =
      elim (step_cases header log_offset d inputs p p' h) [
        | inl (s, e) ↦ (
          skips-kept d header log_offset inputs p p' e s,
          All-skip header log_offset inputs p p' e,
        )
        | inr (q, e, f) ↦ (
          skips-kept d header log_offset inputs q p' f (skips-run header log_offset d p q e),
          All-skip header log_offset inputs q p' f,
        )
      ]

  process-skipped :
      (header : Header) (log_offset : ℕ) (inputs : List SubmittedData) (p : Progress G F R)
      → All (λ d. skips env d p ≡ true) inputs
      → process_user_inputs env header log_offset inputs p ≡ returned p
  unfolding process_user_inputs
  process-skipped header log_offset [] p h = refl
  process-skipped header log_offset (d ∷ inputs) p h =
      rw h.0 (process-skipped header log_offset inputs p h.1)

  -- Once the inputs of a block were processed, processing them again, in this block or a later
  -- one, changes nothing: not the game, not the wallets, not the hashes.
  pub process_user_inputs-replay :
      (header later : Header) (log_offset later_offset : ℕ) (inputs : List SubmittedData)
      (p p' : Progress G F R)
      → process_user_inputs env header log_offset inputs p ≡ returned p'
      → process_user_inputs env later later_offset inputs p' ≡ returned p'
  process_user_inputs-replay header later log_offset later_offset inputs p p' h =
      process-skipped later later_offset inputs p' (All-skip header log_offset inputs p p' h)
