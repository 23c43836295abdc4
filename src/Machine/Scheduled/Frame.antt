-- ===== src/Machine/Scheduled/Frame.antt =====
-- What the scheduled inputs cannot touch, and how they are numbered.
use paima_engine.Base.{
  ℕ, ◌+◌, ◌≤◌, String, ◌≡◌, ap, inl, inr, Bool, some, List, [], ◌∷◌, ◌++◌, arith, Option-cases,
  length,
}
use paima_engine.Wallet.Lookup.{Wallet}
use paima_engine.Machine.State.{
  Scheduled, Machine, StfInput, Header, Env, returned, state_of, Outcome-cases,
}
use paima_engine.Machine.Kept.{Keeps, Keeps-refl, Keeps-trans, Keeps-from}
use paima_engine.Machine.Inputs.{Attempt, trigger_stf}
use paima_engine.Machine.Inputs.Frame.{trigger_stf-Framed, state_of-end_round}
use paima_engine.Machine.Scheduled.{
  future_by_max_timestamp, future_by_block_height, Round, identify, scheduled_input,
  close_scheduled, finish_scheduled, run_scheduled, scheduled_loop, first_round,
  process_scheduled_data,
}

-- The numbers of a round: one more input, which counts as a success, a failure, or neither.
abbrev pub Counts : {G F R : Type 0} → Round G F R → Round G F R → Type 0
Counts r r' =
    (r'.tx_index ≡ r.tx_index + 1)
    × (length r.success_hashes + length r.failed_hashes
        ≤ length r'.success_hashes + length r'.failed_hashes)
    × (length r'.success_hashes + length r'.failed_hashes
        ≤ length r.success_hashes + length r.failed_hashes + 1)

module _ {G Q F R : Type 0} (env : Env G Q F R) where
  pub identify-keeps :
      (header : Header) (s : Scheduled) (r : Round G F R)
      → let r' = (identify env header s r).2 in
        (r'.machine ≡ r.machine)
        × (r'.tx_index ≡ r.tx_index)
        × (r'.success_hashes ≡ r.success_hashes)
        × (r'.failed_hashes ≡ r.failed_hashes)
  unfolding identify
  identify-keeps header s r = ground arith

  close_scheduled-Keeps :
      (header : Header) (s : Scheduled) (hash : String) (index : ℕ) (success : Bool)
      (m m' : Machine G F R)
      → close_scheduled env header s hash index success m ≡ some m'
      → Keeps m m'
  unfolding close_scheduled
  close_scheduled-Keeps header s hash index success m m' h = ground arith

  trigger_stf-Keeps :
      (input : StfInput) (header : Header) (tx_index log_offset : ℕ) (m : Machine G F R)
      → Keeps m (trigger_stf env input header tx_index log_offset m).machine
  trigger_stf-Keeps input header tx_index log_offset m =
      let f = trigger_stf-Framed env input header tx_index log_offset m in
      record {
        db = ap (λ (w : Wallet). w.db) f.wallet;
        cache = ap (λ (w : Wallet). w.cache) f.wallet;
        nonces = f.nonces;
        blocks = f.blocks;
      }

  finish_scheduled-Keeps :
      (header : Header) (s : Scheduled) (hash : String) (r : Round G F R) (a : Attempt G F R)
      → Keeps a.machine (state_of (finish_scheduled env header s hash r a)).machine
  unfolding finish_scheduled
  finish_scheduled-Keeps header s hash r a =
      elim (Option-cases (close_scheduled env header s hash r.tx_index a.success a.machine)) [
        | inl broken ↦ ground (arith, Keeps-refl a.machine)
        | inr (m, e) ↦
            let kept = close_scheduled-Keeps header s hash r.tx_index a.success a.machine m e in
            ground (arith, kept, state_of-end_round a.verdict)
      ]

  finish_scheduled-Counts :
      (header : Header) (s : Scheduled) (hash : String) (r r' : Round G F R) (a : Attempt G F R)
      → finish_scheduled env header s hash r a ≡ returned r'
      → Counts r r'
  unfolding finish_scheduled
  finish_scheduled-Counts header s hash r r' a h =
      elim (Option-cases (close_scheduled env header s hash r.tx_index a.success a.machine)) [
        | inl broken ↦ ground arith
        | inr (m, e) ↦ ground arith
      ]

  run_scheduled-Keeps :
      (header : Header) (s : Scheduled) (r : Round G F R)
      → Keeps r.machine (state_of (run_scheduled env header s r)).machine
  unfolding run_scheduled
  run_scheduled-Keeps header s r =
      let (hash, caip2, r') = identify env header s r in
      let input = scheduled_input env s hash caip2 in
      let a = trigger_stf env input header r'.tx_index r'.emitted_logs_count r'.machine in
      Keeps-trans r.machine a.machine _
        (Keeps-from r.machine r'.machine a.machine (identify-keeps header s r).0
          (trigger_stf-Keeps input header r'.tx_index r'.emitted_logs_count r'.machine))
        (finish_scheduled-Keeps header s hash r' a)

  pub run_scheduled-Counts :
      (header : Header) (s : Scheduled) (r r' : Round G F R)
      → run_scheduled env header s r ≡ returned r'
      → Counts r r'
  unfolding run_scheduled
  run_scheduled-Counts header s r r' h =
      let (hash, caip2, q) = identify env header s r in
      let input = scheduled_input env s hash caip2 in
      let (m, t, f, g) = identify-keeps header s r in
      let c =
        finish_scheduled-Counts header s hash q r'
          (trigger_stf env input header q.tx_index q.emitted_logs_count q.machine) h in
      rw (t, f, g) at c

  pub scheduled_loop-Keeps :
      (header : Header) (scheduled_data : List Scheduled) (r : Round G F R)
      → Keeps r.machine (state_of (scheduled_loop env header scheduled_data r)).machine
  unfolding scheduled_loop
  scheduled_loop-Keeps header [] r = Keeps-refl r.machine
  scheduled_loop-Keeps header (s ∷ scheduled_data) r =
      let kept = run_scheduled-Keeps header s r in
      elim (Outcome-cases (run_scheduled env header s r)) [
        | inl (q, e) ↦
            let rest = scheduled_loop-Keeps header scheduled_data q in
            rw (e, state_of)
              (Keeps-trans r.machine q.machine
                (state_of (scheduled_loop env header scheduled_data q)).machine (rw e at kept) rest)
        | inr (q, e) ↦ rw (e, state_of) (rw e at kept)
      ]

  scheduled_loop-Counts :
      (header : Header) (scheduled_data : List Scheduled) (r r' : Round G F R)
      → scheduled_loop env header scheduled_data r ≡ returned r'
      → (r'.tx_index ≡ r.tx_index + length scheduled_data)
        × (length r'.success_hashes + length r'.failed_hashes + r.tx_index
            ≤ length r.success_hashes + length r.failed_hashes + r'.tx_index)
  unfolding scheduled_loop
  scheduled_loop-Counts header [] r r' h = ground arith
  scheduled_loop-Counts header (s ∷ scheduled_data) r r' h =
      elim (Outcome-cases (run_scheduled env header s r)) [
        | inl (q, e) ↦
            let one = run_scheduled-Counts header s r q e in
            let (all, few) = scheduled_loop-Counts header scheduled_data q r' (ground arith) in
            (omega (arith, one, all), omega (arith, one, all, few))
        | inr (q, e) ↦ absurd (ground arith)
      ]

  -- The counters after the loop.
  pub process_scheduled_data-Counts :
      (header : Header) (m : Machine G F R) (r : Round G F R)
      → process_scheduled_data env header m ≡ returned r
      → (r.tx_index
          ≡ length (
              future_by_max_timestamp header.ms_timestamp m.results m.schedule
              ++ future_by_block_height header.block_height m.schedule))
        × (length r.success_hashes + length r.failed_hashes ≤ r.tx_index)
  unfolding process_scheduled_data
  process_scheduled_data-Counts header m r h =
      let (all, few) =
        scheduled_loop-Counts header
          (future_by_max_timestamp header.ms_timestamp m.results m.schedule
            ++ future_by_block_height header.block_height m.schedule)
          (first_round env m) r h in
      (omega (arith, all), omega (arith, few))
