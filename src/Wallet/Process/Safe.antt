-- ===== src/Wallet/Process/Safe.antt =====
-- What `DelegateWallet.process` needs to carry a command out, and what it can do to the tables and to
-- the cache.
use text.Mathlib.Text.{starts_with}
use paima_engine.Base.{
  ℕ, String, ◌≡◌, refl, ◌≢◌, inl, inr, true, Option, none, some, List, str_eq, eq_iff, Bool-cases,
  Option-cases,
}
use paima_engine.Wallet.Tables.{select_address}
use paima_engine.Wallet.Tables.Laws.{IsValid}
use paima_engine.Wallet.Tables.Steps.{inserted-IsValid, swapped-IsValid}
use paima_engine.Wallet.Lookup.{Wallet}
use paima_engine.Wallet.Lookup.Coherence.{IsCoherent, cleared-IsCoherent, inserted-IsCoherent}
use paima_engine.Wallet.Commands.{
  Result, ok, err, Command, ◌>>◌, cmd_delegate, cmd_migrate, cmd_cancel_delegations,
}
use paima_engine.Wallet.Commands.Forms.{
  ne_of_select, cmd_delegate-swap, cmd_delegate-add_to, cmd_delegate-add_both,
  cmd_delegate-same_new, cmd_delegate-both_exist,
}
use paima_engine.Wallet.Commands.Invariant.{row_cases, cmd_delegate-IsSafe}
use paima_engine.Wallet.Commands.Migrate.{cmd_migrate-swap, cmd_migrate-Refused}
use paima_engine.Wallet.Commands.Cancel.{Targets, cancel_form, remaining-IsValid, cancel_refused}
use paima_engine.Wallet.Process.{
  ParsedCommand, delegate, migrate, cancel_delegations, Validator, or_else, authorise, succeeded,
  run_command, process,
}
use paima_engine.Wallet.Process.Soundness.{Checks, then-ok, then-err, authorise-Checks}

-- Valid tables and a coherent cache.
abbrev pub IsSound : Wallet → Type 0
IsSound w = IsValid w.db × IsCoherent w

module _ (from to : String) (w : Wallet) (fs : from ≢ "") (ts : to ≢ "") (sound : IsSound w) where
  cmd_delegate-IsCoherent : from ≢ to → IsCoherent (cmd_delegate from to w).1
  cmd_delegate-IsCoherent ne = elim (row_cases from w.db.addresses) [
    | inl hf ↦ elim (row_cases to w.db.addresses) [
      | inl ht ↦
          rw (cmd_delegate-add_both from to w sound.0 ne fs ts hf ht) (cleared-IsCoherent _ refl)
      | inr (j, ht) ↦
          rw (cmd_delegate-swap from to j w sound.0 fs ts hf ht) (cleared-IsCoherent _ refl)
    ]
    | inr (i, hf) ↦ elim (row_cases to w.db.addresses) [
      | inl ht ↦ rw (cmd_delegate-add_to from to i w sound.0 ts hf ht) (cleared-IsCoherent _ refl)
      | inr (j, ht) ↦ rw (cmd_delegate-both_exist from to (i, from) (j, to) w hf ht) sound.1
    ]
  ]

  cmd_delegate_self : IsSound (cmd_delegate from from w).1
  cmd_delegate_self = elim (row_cases from w.db.addresses) [
    | inl hf ↦ rw (cmd_delegate-same_new from w hf) (
      inserted-IsValid from w.db sound.0 fs hf,
      inserted-IsCoherent from w true sound.0 hf sound.1,
    )
    | inr (i, hf) ↦ rw (cmd_delegate-both_exist from from (i, from) (i, from) w hf hf) sound
  ]

  cmd_delegate-IsSound : IsSound (cmd_delegate from to w).1
  cmd_delegate-IsSound = elim (Bool-cases (str_eq from to)) [
    | inl same ↦ rw (← (eq_iff from to).0 same) cmd_delegate_self
    | inr other ↦
        let ne : from ≢ to = λ e. cc (other, (eq_iff from to).1 e) in
        ((cmd_delegate-IsSafe from to w sound.0 fs ts ne).0, cmd_delegate-IsCoherent ne)
  ]

  cmd_migrate-IsSound : IsSound (cmd_migrate from to w).1
  cmd_migrate-IsSound = elim (row_cases from w.db.addresses) [
    | inl hf ↦ rw (cmd_migrate-Refused from to w (inl hf)).0 sound
    | inr (i, hf) ↦ elim (row_cases to w.db.addresses) [
      | inr (j, ht) ↦ rw (cmd_migrate-Refused from to w (inr (λ e. cc (e, ht)))).0 sound
      | inl ht ↦ rw (cmd_migrate-swap from to i w hf ht) (
        swapped-IsValid to from w.db sound.0 (ne_of_select to from i w.db.addresses ht hf) ts fs ht,
        cleared-IsCoherent _ refl,
      )
    ]
  ]

cancel-known :
    (from to : String) (i : ℕ) (target : Option ℕ) (w : Wallet)
    → IsSound w
    → select_address from w.db.addresses ≡ some (i, from)
    → Targets to target w.db.addresses
    → IsSound (cmd_cancel_delegations from to w).1
cancel-known from to i target w sound hf ht =
    rw (cancel_form from to i target w hf ht)
      (remaining-IsValid i target w.db sound.0, cleared-IsCoherent _ refl)

cancel-IsSound :
    (from to : String) (w : Wallet) → IsSound w → IsSound (cmd_cancel_delegations from to w).1
cancel-IsSound from to w sound = elim (row_cases from w.db.addresses) [
  | inl hf ↦ rw (cancel_refused from to w (inl hf)) sound
  | inr (i, hf) ↦ elim (Bool-cases (str_eq to "")) [
    | inl empty ↦ cancel-known from to i none w sound hf ((eq_iff to "").0 empty)
    | inr named ↦
        let ne : to ≢ "" = λ e. cc (named, (eq_iff to "").1 e) in
        elim (row_cases to w.db.addresses) [
          | inl ht ↦ rw (cancel_refused from to w (inr (ne, ht))) sound
          | inr (j, ht) ↦ cancel-known from to i (some j) w sound hf (ne, ht)
        ]
  ]
]

-- After the checks the command runs from the same state; if they fail it is left.
authorised-run :
    (m k : Command (Unit {0})) {P : Type 0} (w : Wallet)
    → Checks m P
    → IsSound w
    → (P → IsSound (k w).1)
    → IsSound ((m >> k) w).1
authorised-run m k {P} w checks sound run = go (m w).0 refl
  where
    go : (r : Result (Unit {0})) → (m w).0 ≡ r → IsSound ((m >> k) w).1
    go (ok _) e = rw (then-ok m k w e (checks w).0) (run ((checks w).1 e))
    go (err x) e = rw (then-err m k w x e (checks w).0) sound

pub succeeded-state : (r : Result (Unit {0}) × Wallet) → (succeeded r).1 ≡ r.1
succeeded-state (ok _, w) = refl
succeeded-state (err _, w) = refl

module _ (lower : String → String) (validators : List Validator)
    (parse : String → Option ParsedCommand)
    (lower-nonempty : (a : String) → a ≢ "" → lower a ≢ "") where
  run_command-IsSound :
      (real_address user_address : String) (c : ParsedCommand) (w : Wallet)
      → IsSound w
      → IsSound (run_command lower validators parse real_address user_address c w).1
  unfolding run_command
  run_command-IsSound real_address user_address (delegate from to from_signature to_signature) w
        sound =
      let from' = or_else from real_address in
      let to' = or_else to real_address in
      authorised-run (authorise lower validators real_address from' to' from_signature to_signature)
        (cmd_delegate (lower from') (lower to')) w
        (authorise-Checks lower validators real_address from' to' from_signature to_signature) sound
        (λ p.
          cmd_delegate-IsSound (lower from') (lower to') w (lower-nonempty from' p.1.0.0)
            (lower-nonempty to' p.1.1.0) sound)
  run_command-IsSound real_address user_address (migrate from to from_signature to_signature) w
        sound =
      let from' = or_else from real_address in
      let to' = or_else to real_address in
      authorised-run (authorise lower validators real_address from' to' from_signature to_signature)
        (cmd_migrate (lower from') (lower to')) w
        (authorise-Checks lower validators real_address from' to' from_signature to_signature) sound
        (λ p.
          cmd_migrate-IsSound (lower from') (lower to') w (lower-nonempty from' p.1.0.0)
            (lower-nonempty to' p.1.1.0) sound)
  run_command-IsSound real_address user_address (cancel_delegations to) w sound =
      cancel-IsSound (lower user_address) (lower to) w sound

  -- Whatever a user submits, accepted or not, the tables stay valid (ids and addresses unique, foreign
  -- keys met, one level of delegation with one delegator each) and the cache agrees with the tables.
  -- The one assumption is that lower-casing makes no address empty.
  pub process-IsSound :
      (real_address user_address command : String) (w : Wallet)
      → IsSound w
      → IsSound (process lower validators parse real_address user_address command w).1
  unfolding process
  process-IsSound real_address user_address command w sound =
      elim (Bool-cases (starts_with command "&")) [
        | inl internal ↦ elim (Option-cases (parse command)) [
          | inl none_parsed ↦ rw (internal, none_parsed) sound
          | inr (c, parsed) ↦
              rw (internal, parsed)
                (rw
                  (succeeded-state
                    (run_command lower validators parse real_address user_address c w))
                  (run_command-IsSound real_address user_address c w sound))
        ]
        | inr input ↦ rw input sound
      ]
