-- ===== src/Machine/Block/Returned.antt =====
-- A block whose processing ends leaves a transaction that is not aborted.
use paima_engine.Base.{
  ℕ, String, ◌≡◌, ap, ◌∙◌, inl, inr, Bool, some, List, [], ◌∷◌, ◌++◌, arith, Bool-cases,
  Option-cases,
}
use paima_engine.Chain.{SubmittedData, ChainData}
use paima_engine.Chain.Hash.{text_of, hash_rollup_input}
use paima_engine.Wallet.Lookup.{Wallet, get_main_address}
use paima_engine.Machine.State.{Scheduled, Machine, StfInput, Header, Env, returned, Outcome-cases}
use paima_engine.Machine.Events.{index_for_event}
use paima_engine.Machine.Primitives.{Primitives}
use paima_engine.Machine.Inputs.{
  Attempt, Progress, trigger_stf, attempt_input, finish_input, run_input, skips,
  process_user_inputs,
}
use paima_engine.Machine.Inputs.Frame.{trigger_stf-Framed}
use paima_engine.Machine.Scheduled.{
  future_by_max_timestamp, future_by_block_height, Round, identify, scheduled_input,
  close_scheduled, finish_scheduled, run_scheduled, scheduled_loop, first_round,
  process_scheduled_data,
}
use paima_engine.Machine.Randomness.{Chance}
use paima_engine.Machine.Block.{prepare, header_of, first_progress, process}
use paima_engine.Machine.Block.Alive.{IsAlive, prepare-IsAlive}

module _ {G Q F R D : Type 0} (env : Env G Q F R) (prims : Primitives G Q D)
    (chance : Chance R) where
  trigger_stf-IsAlive :
      (input : StfInput) (header : Header) (tx_index log_offset : ℕ) (m : Machine G F R)
      → IsAlive m
      → IsAlive (trigger_stf env input header tx_index log_offset m).machine
  trigger_stf-IsAlive input header tx_index log_offset m alive =
      ap (λ (w : Wallet). w.aborted)
        (trigger_stf-Framed env input header tx_index log_offset m).wallet
      ∙ alive

  close_scheduled-IsAlive :
      (header : Header) (s : Scheduled) (hash : String) (index : ℕ) (success : Bool)
      (m m' : Machine G F R)
      → IsAlive m
      → close_scheduled env header s hash index success m ≡ some m'
      → IsAlive m'
  unfolding close_scheduled
  close_scheduled-IsAlive header s hash index success m m' alive h = ground arith

  finish_scheduled-IsAlive :
      (header : Header) (s : Scheduled) (hash : String) (r r' : Round G F R) (a : Attempt G F R)
      → IsAlive a.machine
      → finish_scheduled env header s hash r a ≡ returned r'
      → IsAlive r'.machine
  unfolding finish_scheduled
  finish_scheduled-IsAlive header s hash r r' a alive h =
      elim (Option-cases (close_scheduled env header s hash r.tx_index a.success a.machine)) [
        | inl broken ↦ absurd (ground arith)
        | inr (m, e) ↦
            ground (
              arith,
              close_scheduled-IsAlive header s hash r.tx_index a.success a.machine m alive e,
            )
      ]

  identify-machine :
      (header : Header) (s : Scheduled) (r : Round G F R)
      → (identify env header s r).2.machine ≡ r.machine
  unfolding identify
  identify-machine header s r = ground arith

  run_scheduled-IsAlive :
      (header : Header) (s : Scheduled) (r r' : Round G F R)
      → IsAlive r.machine
      → run_scheduled env header s r ≡ returned r'
      → IsAlive r'.machine
  unfolding run_scheduled
  run_scheduled-IsAlive header s r r' alive h =
      let (hash, caip2, q) = identify env header s r in
      let input = scheduled_input env s hash caip2 in
      finish_scheduled-IsAlive header s hash q r'
        (trigger_stf env input header q.tx_index q.emitted_logs_count q.machine)
        (trigger_stf-IsAlive input header q.tx_index q.emitted_logs_count q.machine
          (ap (λ (m : Machine G F R). m.wallet.aborted) (identify-machine header s r) ∙ alive))
        h

  scheduled_loop-IsAlive :
      (header : Header) (scheduled_data : List Scheduled) (r r' : Round G F R)
      → IsAlive r.machine
      → scheduled_loop env header scheduled_data r ≡ returned r'
      → IsAlive r'.machine
  unfolding scheduled_loop
  scheduled_loop-IsAlive header [] r r' alive h = ground arith
  scheduled_loop-IsAlive header (s ∷ scheduled_data) r r' alive h =
      elim (Outcome-cases (run_scheduled env header s r)) [
        | inl (q, e) ↦
            scheduled_loop-IsAlive header scheduled_data q r'
              (run_scheduled-IsAlive header s r q alive e) (ground arith)
        | inr (q, e) ↦ absurd (ground arith)
      ]

  finish_input-IsAlive :
      (input : StfInput) (header : Header) (hash : String) (p p' : Progress G F R)
      (a : Attempt G F R)
      → finish_input env input header hash p a ≡ returned p'
      → IsAlive p'.machine
  unfolding finish_input
  finish_input-IsAlive input header hash p p' a h = ground arith

  run_input-IsAlive :
      (header : Header) (log_offset : ℕ) (d : SubmittedData) (p p' : Progress G F R)
      → run_input env header log_offset d p ≡ returned p'
      → IsAlive p'.machine
  unfolding run_input
  run_input-IsAlive header log_offset d p p' h =
      let (main, w) = get_main_address env.lower d.real_address p.machine.wallet in
      let tx = text_of d.origin.tx_hash in
      let (index, indexes) = index_for_event tx p.indexes in
      let hash = hash_rollup_input env.keccak_256 env.decimal (text_of d.origin.caip2) tx index in
      let input : StfInput = record {
        submitted = d;
        user_address = main.address;
        user_id = main.id;
        paima_tx_hash = hash;
      } in
      finish_input-IsAlive input header hash (record p { indexes = indexes }) p'
        (attempt_input env input header p.tx_index log_offset (record p.machine { wallet = w })) h

  process_user_inputs-IsAlive :
      (header : Header) (log_offset : ℕ) (inputs : List SubmittedData) (p p' : Progress G F R)
      → IsAlive p.machine
      → process_user_inputs env header log_offset inputs p ≡ returned p'
      → IsAlive p'.machine
  unfolding process_user_inputs
  process_user_inputs-IsAlive header log_offset [] p p' alive h = ground arith
  process_user_inputs-IsAlive header log_offset (d ∷ inputs) p p' alive h =
      elim (Bool-cases (skips env d p)) [
        | inl s ↦ process_user_inputs-IsAlive header log_offset inputs p p' alive (ground arith)
        | inr runs ↦ elim (Outcome-cases (run_input env header log_offset d p)) [
          | inl (q, e) ↦
              process_user_inputs-IsAlive header log_offset inputs q p'
                (run_input-IsAlive header log_offset d p q e) (ground arith)
          | inr (q, e) ↦ absurd (ground arith)
        ]
      ]

  pub process-IsAlive :
      (c : ChainData D) (m m' : Machine G F R) (k : ℕ)
      → IsAlive m
      → process env prims chance c m ≡ returned (k, m')
      → IsAlive m'
  unfolding process process_scheduled_data
  process-IsAlive c m m' k alive h = elim (Outcome-cases (prepare env prims chance c m)) [
    | inr (m1, e) ↦ absurd (ground arith)
    | inl (m1, e) ↦
        let header = header_of env prims chance c m1 in
        let due =
          future_by_max_timestamp header.ms_timestamp m1.results m1.schedule
          ++ future_by_block_height header.block_height m1.schedule in
        elim (Outcome-cases (scheduled_loop env header due (first_round env m1))) [
          | inr (r, f) ↦ absurd (ground arith)
          | inl (r, f) ↦
              elim (Outcome-cases (
                process_user_inputs env header r.emitted_logs_count c.submitted_data
                  (first_progress env prims chance r))) [
                    | inr (p, g) ↦ absurd (ground arith)
                    | inl (p, g) ↦
                        let done =
                          process_user_inputs-IsAlive header r.emitted_logs_count c.submitted_data
                            (first_progress env prims chance r) p
                            (scheduled_loop-IsAlive header due (first_round env m1) r
                              (prepare-IsAlive env prims chance c m m1 alive e) f)
                            g in
                        ground (arith, done)
                  ]
        ]
  ]
