-- ===== src/Machine/Inputs/Log.antt =====
-- The hashes that `processUserInputs` of packages/node-sdk/paima-sm/src/index.ts returns, described
-- by a log of how each input ended.
use mathlib.Core.List.{reverse, reverse-cons, append_assoc, append-nil}
use paima_engine.Base.{
  ℕ, String, ◌≡◌, refl, sym, ap, ◌∙◌, inl, inr, List, [], ◌∷◌, ◌++◌, arith, if◌then◌else◌,
  Bool-cases,
}
use paima_engine.Chain.{SubmittedData}
use paima_engine.Chain.Hash.{text_of, hash_rollup_input}
use paima_engine.Wallet.Lookup.{get_main_address}
use paima_engine.Machine.State.{StfInput, Header, Env, returned, thrown, Outcome-cases}
use paima_engine.Machine.Events.{index_for_event}
use paima_engine.Machine.Inputs.{
  Verdict, accepted, rejected, silent, raised, Attempt, Progress, note_success, note_failure,
  attempt_input, finish_input, run_input, skips, process_user_inputs,
}

-- The hashes of the inputs that succeeded, and of those that failed.
unfoldable pub successes_of : List (String × Verdict) → List String
successes_of [] = []
successes_of ((hash, accepted) ∷ log) = hash ∷ successes_of log
successes_of ((hash, rejected) ∷ log) = successes_of log
successes_of ((hash, silent) ∷ log) = successes_of log
successes_of ((hash, raised) ∷ log) = successes_of log

unfoldable pub failures_of : List (String × Verdict) → List String
failures_of [] = []
failures_of ((hash, accepted) ∷ log) = failures_of log
failures_of ((hash, rejected) ∷ log) = hash ∷ failures_of log
failures_of ((hash, silent) ∷ log) = failures_of log
failures_of ((hash, raised) ∷ log) = hash ∷ failures_of log

reverse-snoc {ℓ} :
    {A : Type ℓ} (x : A) (xs ys : List A) → reverse (x ∷ xs) ++ ys ≡ reverse xs ++ x ∷ ys
reverse-snoc x xs ys = ap (λ l. l ++ ys) (reverse-cons x xs) ∙ append_assoc (reverse xs) (x ∷ []) ys

-- Hashes that stand newest first, before a log.
pub note_success-log :
    (verdict : Verdict) (hash : String) (hashes : List String) (log : List (String × Verdict))
    → reverse (note_success verdict hash hashes) ++ successes_of log
      ≡ reverse hashes ++ successes_of ((hash, verdict) ∷ log)
unfolding successes_of
note_success-log accepted hash hashes log = reverse-snoc hash hashes (successes_of log)
note_success-log rejected hash hashes log = refl
note_success-log silent hash hashes log = refl
note_success-log raised hash hashes log = refl

pub note_failure-log :
    (verdict : Verdict) (hash : String) (hashes : List String) (log : List (String × Verdict))
    → reverse (note_failure verdict hash hashes) ++ failures_of log
      ≡ reverse hashes ++ failures_of ((hash, verdict) ∷ log)
unfolding failures_of
note_failure-log accepted hash hashes log = refl
note_failure-log rejected hash hashes log = reverse-snoc hash hashes (failures_of log)
note_failure-log silent hash hashes log = refl
note_failure-log raised hash hashes log = reverse-snoc hash hashes (failures_of log)

pub successes_of-append :
    (log rest : List (String × Verdict))
    → successes_of (log ++ rest) ≡ successes_of log ++ successes_of rest
unfolding successes_of
successes_of-append [] rest = refl
successes_of-append ((hash, accepted) ∷ log) rest =
    ap (λ l. hash ∷ l) (successes_of-append log rest)
successes_of-append ((hash, rejected) ∷ log) rest = successes_of-append log rest
successes_of-append ((hash, silent) ∷ log) rest = successes_of-append log rest
successes_of-append ((hash, raised) ∷ log) rest = successes_of-append log rest

pub failures_of-append :
    (log rest : List (String × Verdict))
    → failures_of (log ++ rest) ≡ failures_of log ++ failures_of rest
unfolding failures_of
failures_of-append [] rest = refl
failures_of-append ((hash, accepted) ∷ log) rest = failures_of-append log rest
failures_of-append ((hash, rejected) ∷ log) rest = ap (λ l. hash ∷ l) (failures_of-append log rest)
failures_of-append ((hash, silent) ∷ log) rest = failures_of-append log rest
failures_of-append ((hash, raised) ∷ log) rest = ap (λ l. hash ∷ l) (failures_of-append log rest)

module _ {G Q F R : Type 0} (env : Env G Q F R) where
  -- The hash of an input: of its network, its transaction, and its place among the inputs of that.
  abbrev pub input_hash : SubmittedData → Progress G F R → String
  input_hash d p =
      let tx = text_of d.origin.tx_hash in
      hash_rollup_input env.keccak_256 env.decimal (text_of d.origin.caip2) tx
        (index_for_event tx p.indexes).0

  abbrev input_ending : Header → (log_offset : ℕ) → SubmittedData → Progress G F R → Attempt G F R
  input_ending header log_offset d p =
      let (main, w) = get_main_address env.lower d.real_address p.machine.wallet in
      let input : StfInput = record {
        submitted = d;
        user_address = main.address;
        user_id = main.id;
        paima_tx_hash = input_hash d p;
      } in
      attempt_input env input header p.tx_index log_offset (record p.machine { wallet = w })

  -- An entry for each input that is not skipped, up to one that throws.
  unfoldable pub user_log :
      Header → (log_offset : ℕ) → List SubmittedData → Progress G F R → List (String × Verdict)
  user_log header log_offset [] p = []
  user_log header log_offset (d ∷ inputs) p =
      let skipped = user_log header log_offset inputs p in
      if skips env d p
      then skipped
      else (input_hash d p, (input_ending header log_offset d p).verdict)
        ∷ elim (run_input env header log_offset d p) [
          | thrown p' ↦ []
          | returned p' ↦ user_log header log_offset inputs p'
        ]

  -- What a round adds to the hashes.
  abbrev Noted : String × Verdict → (p p' : Progress G F R) → Type 0
  Noted (hash, verdict) p p' =
      (p'.success_hashes ≡ note_success verdict hash p.success_hashes)
      × (p'.failed_hashes ≡ note_failure verdict hash p.failed_hashes)

  finish_input-Noted :
      (input : StfInput) (header : Header) (hash : String) (p p' : Progress G F R)
      (a : Attempt G F R)
      → finish_input env input header hash p a ≡ returned p'
      → Noted (hash, a.verdict) p p'
  unfolding finish_input
  finish_input-Noted input header hash p p' a h = ground arith

  run_input-Noted :
      (header : Header) (log_offset : ℕ) (d : SubmittedData) (p p' : Progress G F R)
      → run_input env header log_offset d p ≡ returned p'
      → Noted (input_hash d p, (input_ending header log_offset d p).verdict) p p'
  unfolding run_input
  run_input-Noted header log_offset d p p' h =
      let (main, w) = get_main_address env.lower d.real_address p.machine.wallet in
      let input : StfInput = record {
        submitted = d;
        user_address = main.address;
        user_id = main.id;
        paima_tx_hash = input_hash d p;
      } in
      finish_input-Noted input header (input_hash d p)
        (record p { indexes = (index_for_event (text_of d.origin.tx_hash) p.indexes).1 }) p'
        (input_ending header log_offset d p) h

  -- The hashes after the loop, for the log of its inputs.
  abbrev pub Logged : List (String × Verdict) → (p p' : Progress G F R) → Type 0
  Logged log p p' =
      (reverse p'.success_hashes ≡ reverse p.success_hashes ++ successes_of log)
      × (reverse p'.failed_hashes ≡ reverse p.failed_hashes ++ failures_of log)

  Logged-nil : (p : Progress G F R) → Logged [] p p
  unfolding successes_of failures_of
  Logged-nil p =
      (sym (append-nil (reverse p.success_hashes)), sym (append-nil (reverse p.failed_hashes)))

  Logged-cons :
      (hash : String) (verdict : Verdict) (log : List (String × Verdict)) (p q p' : Progress G F R)
      → Noted (hash, verdict) p q
      → Logged log q p'
      → Logged ((hash, verdict) ∷ log) p p'
  Logged-cons hash verdict log p q p' (s, f) (successes, failures) = (
    successes
        ∙ ap (λ l. reverse l ++ successes_of log) s
        ∙ note_success-log verdict hash p.success_hashes log,
    failures
        ∙ ap (λ l. reverse l ++ failures_of log) f
        ∙ note_failure-log verdict hash p.failed_hashes log,
  )

  pub process_user_inputs-Logged :
      (header : Header) (log_offset : ℕ) (inputs : List SubmittedData) (p p' : Progress G F R)
      → process_user_inputs env header log_offset inputs p ≡ returned p'
      → Logged (user_log header log_offset inputs p) p p'
  unfolding process_user_inputs user_log
  process_user_inputs-Logged header log_offset [] p p' h =
      let same : p ≡ p' = ground arith in rw same (Logged-nil p')
  process_user_inputs-Logged header log_offset (d ∷ inputs) p p' h =
      elim (Bool-cases (skips env d p)) [
        | inl left_out ↦
            rw left_out (process_user_inputs-Logged header log_offset inputs p p' (ground arith))
        | inr tried ↦ elim (Outcome-cases (run_input env header log_offset d p)) [
          | inr (q, e) ↦ absurd (ground arith)
          | inl (q, e) ↦
              rw (tried, e)
                (Logged-cons (input_hash d p) (input_ending header log_offset d p).verdict
                  (user_log header log_offset inputs q) p q p'
                  (run_input-Noted header log_offset d p q e)
                  (process_user_inputs-Logged header log_offset inputs q p' (ground arith)))
        ]
      ]
