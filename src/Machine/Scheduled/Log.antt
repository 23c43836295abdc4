-- ===== src/Machine/Scheduled/Log.antt =====
-- The hashes that `processScheduledData` of packages/node-sdk/paima-sm/src/index.ts returns, described
-- by a log of how each input ended.
use mathlib.Core.List.{reverse, append-nil}
use paima_engine.Base.{
  ◌+◌, String, ◌≡◌, sym, ap, ◌∙◌, inl, inr, Option, none, some, List, [], ◌∷◌, ◌++◌, arith,
  Option-cases,
}
use paima_engine.Machine.State.{Scheduled, Header, Env, returned, thrown, Outcome-cases}
use paima_engine.Machine.Inputs.{Verdict, Attempt, note_success, note_failure, trigger_stf}
use paima_engine.Machine.Inputs.Log.{successes_of, failures_of, note_success-log, note_failure-log}
use paima_engine.Machine.Scheduled.{
  Round, origin_of, identify, scheduled_input, close_scheduled, finish_scheduled, run_scheduled,
  scheduled_loop,
}
use paima_engine.Chain.Hash.{text_of, hash_rollup_input, hash_timer_data}
use paima_engine.Machine.Events.{index_for_event}

module _ {G Q F R : Type 0} (env : Env G Q F R) where
  -- The hash of a scheduled input: as of a submitted one where a primitive's transaction scheduled
  -- it, and of a timer, by the number of timers so far, where not.
  abbrev pub scheduled_hash : Header → Scheduled → Round G F R → String
  scheduled_hash header s r = elim (origin_of s) [
    | some tx ↦
        hash_rollup_input env.keccak_256 env.decimal (text_of s.caip2) tx
          (index_for_event tx r.indexes).0
    | none ↦
        hash_timer_data env.keccak_256 env.decimal s.from_address (env.keccak_256 s.input_data)
          header.block_height r.timers
  ]

  abbrev scheduled_ending : Header → Scheduled → Round G F R → Attempt G F R
  scheduled_ending header s r =
      let caip2 : Option String = elim (origin_of s) [ some tx ↦ s.caip2 | none ↦ none ] in
      trigger_stf env (scheduled_input env s (scheduled_hash header s r) caip2) header r.tx_index
        r.emitted_logs_count r.machine

  -- An entry for each input, up to one that throws.
  unfoldable pub scheduled_log : Header → List Scheduled → Round G F R → List (String × Verdict)
  scheduled_log header [] r = []
  scheduled_log header (s ∷ due) r =
      (scheduled_hash header s r, (scheduled_ending header s r).verdict)
      ∷ elim (run_scheduled env header s r) [
        | thrown r' ↦ []
        | returned r' ↦ scheduled_log header due r'
      ]

  -- What a round adds to the hashes.
  abbrev Noted : String × Verdict → (r r' : Round G F R) → Type 0
  Noted (hash, verdict) r r' =
      (r'.success_hashes ≡ note_success verdict hash r.success_hashes)
      × (r'.failed_hashes ≡ note_failure verdict hash r.failed_hashes)

  finish_scheduled-Noted :
      (header : Header) (s : Scheduled) (hash : String) (r r' : Round G F R) (a : Attempt G F R)
      → finish_scheduled env header s hash r a ≡ returned r'
      → Noted (hash, a.verdict) r r'
  unfolding finish_scheduled
  finish_scheduled-Noted header s hash r r' a h =
      elim (Option-cases (close_scheduled env header s hash r.tx_index a.success a.machine)) [
        | inl broken ↦ absurd (ground arith)
        | inr (m, e) ↦ ground arith
      ]

  run_scheduled-Noted :
      (header : Header) (s : Scheduled) (r r' : Round G F R)
      → run_scheduled env header s r ≡ returned r'
      → Noted (scheduled_hash header s r, (scheduled_ending header s r).verdict) r r'
  unfolding run_scheduled identify
  run_scheduled-Noted header s r r' h = elim (Option-cases (origin_of s)) [
    | inl timer ↦
        let hash =
          hash_timer_data env.keccak_256 env.decimal s.from_address (env.keccak_256 s.input_data)
            header.block_height r.timers in
        let q : Round G F R = record r { timers = r.timers + 1 } in
        rw (timer, Noted, scheduled_hash, scheduled_ending)
          (finish_scheduled-Noted header s hash q r'
            (trigger_stf env (scheduled_input env s hash none) header r.tx_index
              r.emitted_logs_count r.machine)
            (rw (timer, run_scheduled, identify) at h))
    | inr (tx, e) ↦
        let hash =
          hash_rollup_input env.keccak_256 env.decimal (text_of s.caip2) tx
            (index_for_event tx r.indexes).0 in
        let q : Round G F R = record r { indexes = (index_for_event tx r.indexes).1 } in
        rw (e, Noted, scheduled_hash, scheduled_ending)
          (finish_scheduled-Noted header s hash q r'
            (trigger_stf env (scheduled_input env s hash s.caip2) header r.tx_index
              r.emitted_logs_count r.machine)
            (rw (e, run_scheduled, identify) at h))
  ]

  -- The hashes after the loop, for the log of its inputs.
  abbrev pub Logged : List (String × Verdict) → (r r' : Round G F R) → Type 0
  Logged log r r' =
      (reverse r'.success_hashes ≡ reverse r.success_hashes ++ successes_of log)
      × (reverse r'.failed_hashes ≡ reverse r.failed_hashes ++ failures_of log)

  Logged-nil : (r : Round G F R) → Logged [] r r
  unfolding successes_of failures_of
  Logged-nil r =
      (sym (append-nil (reverse r.success_hashes)), sym (append-nil (reverse r.failed_hashes)))

  Logged-cons :
      (hash : String) (verdict : Verdict) (log : List (String × Verdict)) (r q r' : Round G F R)
      → Noted (hash, verdict) r q
      → Logged log q r'
      → Logged ((hash, verdict) ∷ log) r r'
  Logged-cons hash verdict log r q r' (s, f) (successes, failures) = (
    successes
        ∙ ap (λ l. reverse l ++ successes_of log) s
        ∙ note_success-log verdict hash r.success_hashes log,
    failures
        ∙ ap (λ l. reverse l ++ failures_of log) f
        ∙ note_failure-log verdict hash r.failed_hashes log,
  )

  pub scheduled_loop-Logged :
      (header : Header) (due : List Scheduled) (r r' : Round G F R)
      → scheduled_loop env header due r ≡ returned r'
      → Logged (scheduled_log header due r) r r'
  unfolding scheduled_loop scheduled_log
  scheduled_loop-Logged header [] r r' h =
      let same : r ≡ r' = ground arith in rw same (Logged-nil r')
  scheduled_loop-Logged header (s ∷ due) r r' h =
      elim (Outcome-cases (run_scheduled env header s r)) [
        | inr (q, e) ↦ absurd (ground arith)
        | inl (q, e) ↦ rw e (
            Logged-cons (scheduled_hash header s r) (scheduled_ending header s r).verdict
              (scheduled_log header due q) r q r' (run_scheduled-Noted header s r q e)
              (scheduled_loop-Logged header due q r' (ground arith)))
      ]
