-- ===== src/Machine/Inputs/Frame.antt =====
-- What the state transition function and its queries cannot touch: the engine's own tables.
use paima_engine.Base.{
  ℕ, String, ◌≡◌, refl, ◌∙◌, inl, inr, some, List, [], ◌∷◌, ◌++◌, map, arith, Bool-cases,
  Option-cases,
}
use paima_engine.Chain.Hash.{text_of, hash_rollup_input}
use paima_engine.Chain.{SubmittedData}
use paima_engine.Wallet.Lookup.{get_main_address}
use paima_engine.Wallet.Commands.{create_address, Result-cases}
use paima_engine.Wallet.Process.{process}
use paima_engine.Machine.State.{Machine, StfInput, Header, Env, state_of, Outcome-cases}
use paima_engine.Machine.Events.{
  Query, game_query, insert_event, run_query, run_queries, try_or_rollback, handle_events,
  send_events, index_for_event,
}
use paima_engine.Machine.Inputs.{
  Verdict, accepted, rejected, silent, raised, Attempt, Progress, end_round, apply_update,
  trigger_stf, attempt_input, finish_input, run_input, process_user_inputs,
}

-- Nonces, results, blocks, checkpoints and wallets are as they were.
pub record Framed {G F R : Type 0} (m m' : Machine G F R) : Type 0 where
  pub wallet : m'.wallet ≡ m.wallet
  pub nonces : m'.nonces ≡ m.nonces
  pub results : m'.results ≡ m.results
  pub blocks : m'.blocks ≡ m.blocks

module _ {G F R : Type 0} where
  pub Framed-refl : (m : Machine G F R) → Framed m m
  Framed-refl m = record { wallet = refl; nonces = refl; results = refl; blocks = refl }

  pub Framed-trans : (a b c : Machine G F R) → Framed a b → Framed b c → Framed a c
  Framed-trans a b c p q = record {
    wallet = q.wallet ∙ p.wallet;
    nonces = q.nonces ∙ p.nonces;
    results = q.results ∙ p.results;
    blocks = q.blocks ∙ p.blocks;
  }

module _ {G Q F R : Type 0} (env : Env G Q F R) where
  run_query-Framed :
      (q : Query Q F) (m m' : Machine G F R) → run_query env q m ≡ some m' → Framed m m'
  unfolding run_query
  run_query-Framed (game_query q) m m' h = ground arith
  run_query-Framed (insert_event row) m m' h = ground arith

  pub run_queries-Framed :
      (queries : List (Query Q F)) (m m' : Machine G F R)
      → run_queries env queries m ≡ some m'
      → Framed m m'
  unfolding run_queries
  run_queries-Framed [] m m' h = ground arith
  run_queries-Framed (q ∷ queries) m m' h = elim (Option-cases (run_query env q m)) [
    | inl failed ↦ ground arith
    | inr (m1, e) ↦ ground (arith, run_query-Framed q m m1 e, run_queries-Framed queries m1 m')
  ]

  try_or_rollback-Framed :
      (queries : List (Query Q F)) (m : Machine G F R) → Framed m (try_or_rollback env queries m).1
  unfolding try_or_rollback
  try_or_rollback-Framed queries m = elim (Option-cases (run_queries env queries m)) [
    | inl failed ↦ ground arith
    | inr (m1, e) ↦ ground (arith, run_queries-Framed queries m m1 e)
  ]

  send_events-Framed :
      (messages : List (String × F)) (m : Machine G F R) → Framed m (send_events env messages m).1
  unfolding send_events
  send_events-Framed messages m = ground arith

  apply_update-Framed :
      (queries : List (Query Q F)) (messages : List (String × F)) (m : Machine G F R)
      → Framed m (apply_update env queries messages m).machine
  unfolding apply_update
  apply_update-Framed [] messages m = Framed-refl m
  apply_update-Framed (q ∷ queries) messages m = ground (
    arith,
    try_or_rollback-Framed (q ∷ queries) m,
    send_events-Framed messages (try_or_rollback env (q ∷ queries) m).1,
  )

  pub trigger_stf-Framed :
      (input : StfInput) (header : Header) (tx_index log_offset : ℕ) (m : Machine G F R)
      → Framed m (trigger_stf env input header tx_index log_offset m).machine
  unfolding trigger_stf
  trigger_stf-Framed input header tx_index log_offset m =
      elim (Option-cases (env.stf input header m.random m.game).1) [
        | inl threw ↦ ground arith
        | inr ((transitions, events), e) ↦
            elim (Option-cases (handle_events env tx_index header.block_height log_offset events)) [
              | inl undefined ↦ ground arith
              | inr ((queries, messages), f) ↦ ground (
                arith,
                apply_update-Framed (map game_query transitions ++ queries) messages
                    (record m { random = (env.stf input header m.random m.game).0 }),
              )
            ]
      ]

pub state_of-end_round : {A : Type 0} (v : Verdict) (a : A) → state_of (end_round v a) ≡ a
state_of-end_round accepted a = refl
state_of-end_round rejected a = refl
state_of-end_round silent a = refl
state_of-end_round raised a = refl

module _ {G Q F R : Type 0} (env : Env G Q F R) where
  -- What comes after the attempt writes nonces and results only.
  pub finish_input-Keeps :
      (input : StfInput) (header : Header) (hash : String) (p : Progress G F R) (a : Attempt G F R)
      → let m = (state_of (finish_input env input header hash p a)).machine in
        (m.wallet ≡ a.machine.wallet) × (m.blocks ≡ a.machine.blocks)
  unfolding finish_input
  finish_input-Keeps input header hash p a = elim (Bool-cases a.machine.wallet.aborted) [
    | inl dead ↦ ground arith
    | inr alive ↦ rw (alive, state_of-end_round a.verdict _) (refl, refl)
  ]

  pub attempt_input-blocks :
      (input : StfInput) (header : Header) (tx_index log_offset : ℕ) (m : Machine G F R)
      → (attempt_input env input header tx_index log_offset m).machine.blocks ≡ m.blocks
  unfolding attempt_input
  attempt_input-blocks input header tx_index log_offset m =
      let (status, w) =
        process env.lower env.validators env.parse input.submitted.real_address input.user_address
          input.submitted.input_data m.wallet in
      let (created, w') = create_address input.user_address m.wallet in
      elim (Option-cases input.user_id) [
        | inl unknown ↦ elim (Result-cases created) [
          | inl ((i, a), e) ↦ ground (
            arith,
            trigger_stf-Framed env input header tx_index log_offset (record m { wallet = w }),
            trigger_stf-Framed env (record input { user_id = some i }) header tx_index log_offset
                (record m { wallet = w' }),
          )
          | inr (x, e) ↦ ground (
            arith,
            trigger_stf-Framed env input header tx_index log_offset (record m { wallet = w }),
          )
        ]
        | inr (id, e) ↦ ground (
          arith,
          trigger_stf-Framed env input header tx_index log_offset (record m { wallet = w }),
          trigger_stf-Framed env input header tx_index log_offset m,
        )
      ]

  run_input-blocks :
      (header : Header) (log_offset : ℕ) (d : SubmittedData) (p : Progress G F R)
      → (state_of (run_input env header log_offset d p)).machine.blocks ≡ p.machine.blocks
  unfolding run_input
  run_input-blocks header log_offset d p =
      let (main, w) = get_main_address env.lower d.real_address p.machine.wallet in
      let tx = text_of d.origin.tx_hash in
      let (index, indexes) = index_for_event tx p.indexes in
      let hash = hash_rollup_input env.keccak_256 env.decimal (text_of d.origin.caip2) tx index in
      let input : StfInput = record {
        submitted = d;
        user_address = main.address;
        user_id = main.id;
        paima_tx_hash = hash;
      } in
      let m : Machine G F R = record p.machine { wallet = w } in
      (finish_input-Keeps input header hash (record p { indexes = indexes })
        (attempt_input env input header p.tx_index log_offset m)).1
      ∙ attempt_input-blocks input header p.tx_index log_offset m

  -- The inputs of a block leave the table of blocks alone.
  pub process_user_inputs-blocks :
      (header : Header) (log_offset : ℕ) (inputs : List SubmittedData) (p : Progress G F R)
      → (state_of (process_user_inputs env header log_offset inputs p)).machine.blocks
        ≡ p.machine.blocks
  unfolding process_user_inputs
  process_user_inputs-blocks header log_offset [] p = refl
  process_user_inputs-blocks header log_offset (d ∷ inputs) p =
      elim (Outcome-cases (run_input env header log_offset d p)) [
        | inl (q, e) ↦ ground (
          arith,
          process_user_inputs-blocks header log_offset inputs p,
          process_user_inputs-blocks header log_offset inputs q,
          run_input-blocks header log_offset d p,
        )
        | inr (q, e) ↦ ground (
          arith,
          process_user_inputs-blocks header log_offset inputs p,
          run_input-blocks header log_offset d p,
        )
      ]
