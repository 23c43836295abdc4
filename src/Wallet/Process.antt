-- ===== src/Wallet/Process.antt =====
-- `DelegateWallet.process` and the checks before its commands:
-- packages/node-sdk/paima-sm/src/delegate-wallet.ts.
pub mod Soundness
pub mod Safe
pub mod Delegates
use Prim.Native.String.{◌++◌ as append}
use text.Mathlib.Text.{starts_with}
use paima_engine.Base.{
  String, Bool, true, false, not, ◌&&◌, ◌||◌, Option, none, some, List, [], ◌∷◌, str_eq,
  if◌then◌else◌,
}
use paima_engine.Wallet.Lookup.{Wallet}
use paima_engine.Wallet.Commands.{
  cannot_delegate_self, not_the_sender, no_signature, invalid_signature, Result, ok, err, Command,
  ◌>>=◌, ◌>>◌, raise_if, cmd_delegate, cmd_migrate, cmd_cancel_delegations,
}

pub data ParsedCommand : Type 0 where
  delegate migrate : (from to from_signature to_signature : String) → ParsedCommand
  cancel_delegations : (to : String) → ParsedCommand

-- A signature scheme of `CryptoManager`; a call that throws has no result.
pub record Validator : Type 0 where
  pub verify_address : String → Option Bool
  pub verify_signature : (address message signature : String) → Option Bool

unfoldable pub accepts : (address message signature : String) → Validator → Bool
accepts address message signature v = elim (v.verify_address address) [
  | none ↦ false
  | some is_valid ↦ elim (v.verify_signature address message signature) [
    | none ↦ false
    | some verified ↦ is_valid && verified
  ]
]

unfoldable pub any_accepts : (address message signature : String) → List Validator → Bool
unfolding accepts
any_accepts address message signature [] = false
any_accepts address message signature (v ∷ validators) =
    accepts address message signature v || any_accepts address message signature validators

-- `x || y` on texts
abbrev pub or_else : String → String → String
or_else x y = if str_eq x "" then y else x

unfoldable pub validate_sender : (to from real_address : String) → Command (Unit {0})
validate_sender to from real_address = do
  raise_if (str_eq to from) cannot_delegate_self
  raise_if (not (str_eq to real_address || str_eq from real_address)) not_the_sender

unfoldable pub generate_message : (lower : String → String) → String → String
generate_message lower internal_message =
    append (append "DELEGATE-WALLET" ":") (lower internal_message)

module _ (lower : String → String) (validators : List Validator) where
  unfoldable pub verify_signature : (wallet_address message signature : String) → Command (Unit {0})
  verify_signature wallet_address message signature = do
    raise_if (str_eq wallet_address "" || str_eq signature "") no_signature
    raise_if (not (any_accepts wallet_address message signature validators)) invalid_signature

  -- What precedes `cmdDelegate` and `cmdMigrate`.
  unfoldable pub authorise :
      (real_address from to from_signature to_signature : String) → Command (Unit {0})
  authorise real_address from to from_signature to_signature = do
    validate_sender to from real_address
    verify_signature from (generate_message lower to) from_signature
    verify_signature to (generate_message lower from) to_signature

-- The value of `process`: an error is logged and makes it false.
abbrev pub succeeded : Result (Unit {0}) × Wallet → Bool × Wallet
succeeded (ok _, w) = (true, w)
succeeded (err _, w) = (false, w)

module _ (lower : String → String) (validators : List Validator)
    (parse : String → Option ParsedCommand) where
  unfoldable pub run_command :
      (real_address user_address : String) → ParsedCommand → Command (Unit {0})
  run_command real_address user_address (delegate from to from_signature to_signature) = do
    let from' = or_else from real_address
    let to' = or_else to real_address
    authorise lower validators real_address from' to' from_signature to_signature
    cmd_delegate (lower from') (lower to')
  run_command real_address user_address (migrate from to from_signature to_signature) = do
    let from' = or_else from real_address
    let to' = or_else to real_address
    authorise lower validators real_address from' to' from_signature to_signature
    cmd_migrate (lower from') (lower to')
  run_command real_address user_address (cancel_delegations to) =
      cmd_cancel_delegations (lower user_address) (lower to)

  unfoldable pub process : (real_address user_address command : String) → Wallet → Bool × Wallet
  process real_address user_address command w =
      if not (starts_with command "&") then (true, w) else elim (parse command) [
        | none ↦ (false, w)
        | some parsed ↦ succeeded (run_command real_address user_address parsed w)
      ]
