-- ===== src/Wallet/Process/Delegates.antt =====
-- A delegation through `DelegateWallet.process`.
use text.Mathlib.Text.{starts_with}
use paima_engine.Base.{String, ◌≡◌, refl, sym, ap, ◌∙◌, ◌≢◌, Bool, true, Option, some, List}
use paima_engine.Wallet.Lookup.{Wallet}
use paima_engine.Wallet.Commands.{Result, ok, err, cmd_delegate}
use paima_engine.Wallet.Commands.Progress.{Unified, cmd_delegate-Unified}
use paima_engine.Wallet.Process.{
  ParsedCommand, delegate, Validator, or_else, authorise, succeeded, run_command, process,
}
use paima_engine.Wallet.Process.Soundness.{Checks-run, Authorised, authorise-Checks}
use paima_engine.Wallet.Process.Safe.{IsSound, succeeded-state}

succeeded-ok : (r : Result (Unit {0}) × Wallet) → (succeeded r).0 ≡ true → r.0 ≡ ok tt
succeeded-ok (ok _, w) h = refl
succeeded-ok (err _, w) h = cc

process_form :
    (lower : String → String) (validators : List Validator) (parse : String → Option ParsedCommand)
    (real_address user_address command : String) (c : ParsedCommand) (w : Wallet)
    → starts_with command "&" ≡ true
    → parse command ≡ some c
    → process lower validators parse real_address user_address command w
      ≡ succeeded (run_command lower validators parse real_address user_address c w)
unfolding process
process_form lower validators parse real_address user_address command c w internal parsed =
    rw (internal, parsed) refl

module _ (lower : String → String) (validators : List Validator)
    (parse : String → Option ParsedCommand)
    (lower-nonempty : (a : String) → a ≢ "" → lower a ≢ "") where
  run_delegate_lem :
      (real_address user_address from to from_signature to_signature : String) (w : Wallet)
      → IsSound w
      → let from' = or_else from real_address in
        let to' = or_else to real_address in
        let c = delegate from to from_signature to_signature in
        let result = run_command lower validators parse real_address user_address c w in
        result.0 ≡ ok tt
        → Authorised lower validators real_address from' to' from_signature to_signature
          × Unified (lower from') (lower to') w.db result.1.db
  unfolding run_command
  run_delegate_lem real_address user_address from to from_signature to_signature w sound done =
      let from' = or_else from real_address in
      let to' = or_else to real_address in
      let k = cmd_delegate (lower from') (lower to') in
      let m = authorise lower validators real_address from' to' from_signature to_signature in
      let (allowed, succeeded_k, ran) =
        Checks-run m k w
          (authorise-Checks lower validators real_address from' to' from_signature to_signature)
          done in
      (
        allowed,
        rw ran (
            cmd_delegate-Unified (lower from') (lower to') w sound.0
              (lower-nonempty from' allowed.1.0.0) (lower-nonempty to' allowed.1.1.0) succeeded_k),
      )

  -- Where process accepts a delegation, on sound tables: the two wallets (the sender's address
  -- standing for a missing one) differ, one of them is the sender, and each has signed a message
  -- that names the other; and their lower-cased addresses have one main wallet afterwards, with
  -- the progress that was there. Lower-casing makes no address empty.
  pub process-delegate :
      (real_address user_address command from to from_signature to_signature : String) (w : Wallet)
      → IsSound w
      → starts_with command "&" ≡ true
      → parse command ≡ some (delegate from to from_signature to_signature)
      → (process lower validators parse real_address user_address command w).0 ≡ true
      → let from' = or_else from real_address in
        let to' = or_else to real_address in
        Authorised lower validators real_address from' to' from_signature to_signature
        × Unified
            (lower from')
            (lower to')
            w.db
            (process lower validators parse real_address user_address command w).1.db
  process-delegate real_address user_address command from to from_signature to_signature w sound
        internal parsed done =
      let c = delegate from to from_signature to_signature in
      let result = run_command lower validators parse real_address user_address c w in
      let form =
        process_form lower validators parse real_address user_address command c w internal parsed in
      let (allowed, unified) =
        run_delegate_lem real_address user_address from to from_signature to_signature w sound
          (succeeded-ok result (sym (ap (λ (x : Bool × Wallet). x.0) form) ∙ done)) in
      (allowed, rw form (rw (succeeded-state result) unified))
