-- ===== src/Wallet/Tests.antt =====
-- The wallets' theorems at concrete inputs: two wallets that join, part and move.
use Prim.Native.String.{◌++◌ as append}
use paima_engine.Base.{
  String, ◌≡◌, refl, ◌≢◌, ◌⊎◌, Bool, true, false, Option, none, some, [], ◌∷◌, arith, str_eq,
  eq_iff, if◌then◌else◌,
}
use paima_engine.Wallet.Tables.{
  Db, select_address, select_id, insert_address, rename, update_address, delegator_of, has_from,
  has_delegation, insert_delegation,
}
use paima_engine.Wallet.Lookup.{Wallet, main_of, get_main_address}
use paima_engine.Wallet.Lookup.Coherence.{
  IsCoherent, cleared-IsCoherent, get_main_address-IsCoherent,
}
use paima_engine.Wallet.Commands.{
  ok, get_address, get_existing_address, create_address, swap, validate_delegate, ensure_address,
  place, cmd_delegate, cmd_migrate, cmd_cancel_delegations,
}
use paima_engine.Wallet.Commands.Invariant.{IsSafe, cmd_delegate-IsSafe}
use paima_engine.Wallet.Commands.Progress.{Unified, cmd_delegate-Unified}
use paima_engine.Wallet.Commands.Migrate.{Refused, Moved, cmd_migrate_lem}
use paima_engine.Wallet.Commands.Cancel.{Cancelled, cmd_cancel_delegations_lem}
use paima_engine.Wallet.Process.{
  ParsedCommand, delegate, Validator, accepts, any_accepts, validate_sender, generate_message,
  verify_signature, authorise, run_command, process,
}
use paima_engine.Wallet.Process.Soundness.{Authorised}
use paima_engine.Wallet.Process.Safe.{IsSound, process-IsSound}
use paima_engine.Wallet.Process.Delegates.{process-delegate}

-- "alice" has progress and delegates to "carol"; "bob" is new.
abbrev db : Db
db = record { addresses = (2, "carol") ∷ (1, "alice") ∷ []; next_id = 3; delegations = (1, 2) ∷ [] }

abbrev alice : String
alice = "alice"

abbrev bob : String
bob = "bob"

abbrev wallet : Wallet
wallet = record { db = db; cache = []; use_cache = true; aborted = false }

abbrev same_text : String → String
same_text a = a

abbrev signed : (address message : String) → String
signed address message = append (append address "|") message

abbrev scheme : Validator
scheme = record {
  verify_address = λ a. some true;
  verify_signature = λ a m s. some (str_eq s (signed a m));
}

abbrev parse_command : String → Option ParsedCommand
parse_command c =
    if str_eq c "&d"
    then some (delegate "" "bob" "alice|DELEGATE-WALLET:bob" "bob|DELEGATE-WALLET:alice")
    else none

wallet-IsSound : IsSound wallet
unfolding select_id select_address delegator_of has_from
wallet-IsSound = (
  record {
    rows = (
      omega arith,
      refl,
      refl,
      ground (arith, eq_iff "carol" ""),
      (omega arith, refl, refl, ground (arith, eq_iff "alice" ""), tt),
    );
    forest = (refl, refl, refl, ground arith, tt);
    keys = (refl, refl, tt);
  },
  cleared-IsCoherent wallet refl,
)

bob_is_new : select_address bob db.addresses ≡ none
unfolding select_address
bob_is_new = refl

alice_is_known : select_address alice db.addresses ≡ some (1, alice)
unfolding select_address
alice_is_known = refl

alice_has_row : select_address alice db.addresses ≢ none
alice_has_row e = cc (e, alice_is_known)

bob_named : bob ≢ ""
bob_named = ground (arith, eq_iff "bob" "")

alice_named : alice ≢ ""
alice_named = ground (arith, eq_iff "alice" "")

alice_is_not_bob : alice ≢ bob
alice_is_not_bob = ground (arith, eq_iff "alice" "bob")

abbrev run_delegation : Bool × Wallet
run_delegation = process same_text (scheme ∷ []) parse_command alice alice "&d" wallet

delegation_accepted : run_delegation.0 ≡ true
unfolding process run_command authorise validate_sender verify_signature generate_message
    any_accepts accepts cmd_delegate get_address validate_delegate place ensure_address
    create_address swap select_address select_id insert_address delegator_of insert_delegation
    has_delegation
delegation_accepted = refl

process-delegate_example :
    Authorised same_text
      (scheme ∷ [])
      alice
      alice
      bob
      "alice|DELEGATE-WALLET:bob"
      "bob|DELEGATE-WALLET:alice"
    × Unified alice bob db run_delegation.1.db
process-delegate_example =
    process-delegate same_text (scheme ∷ []) parse_command (λ a h. h) alice alice "&d" "" bob
      "alice|DELEGATE-WALLET:bob" "bob|DELEGATE-WALLET:alice" wallet wallet-IsSound refl refl
      delegation_accepted

process-IsSound_example : IsSound run_delegation.1
process-IsSound_example =
    process-IsSound same_text (scheme ∷ []) parse_command (λ a h. h) alice alice "&d" wallet
      wallet-IsSound

cmd_delegate-IsSafe_example : IsSafe (cmd_delegate alice bob wallet)
cmd_delegate-IsSafe_example =
    cmd_delegate-IsSafe alice bob wallet wallet-IsSound.0 alice_named bob_named alice_is_not_bob

delegated : (cmd_delegate bob alice wallet).0 ≡ ok tt
unfolding cmd_delegate get_address get_existing_address validate_delegate place ensure_address
    create_address swap select_address select_id insert_address update_address rename delegator_of
    insert_delegation has_delegation
delegated = refl

cmd_delegate-Unified_example : Unified bob alice db (cmd_delegate bob alice wallet).1.db
cmd_delegate-Unified_example =
    cmd_delegate-Unified bob alice wallet wallet-IsSound.0 bob_named alice_named delegated

cmd_migrate_example :
    ((select_address alice db.addresses ≢ none)
      × (select_address bob db.addresses ≡ none)
      × ((cmd_migrate alice bob wallet).0 ≡ ok tt)
      × Moved alice bob db (cmd_migrate alice bob wallet).1.db)
    ⊎ (((select_address alice db.addresses ≡ none) ⊎ (select_address bob db.addresses ≢ none))
        × Refused wallet (cmd_migrate alice bob wallet))
cmd_migrate_example = cmd_migrate_lem alice bob wallet wallet-IsSound.0 bob_named

cmd_cancel_delegations_example :
    ((cmd_cancel_delegations alice "" wallet).0 ≡ ok tt)
    × Cancelled 1 none wallet (cmd_cancel_delegations alice "" wallet).1
cmd_cancel_delegations_example =
    cmd_cancel_delegations_lem alice "" 1 none wallet wallet-IsSound.0 alice_is_known refl

get_main_address-IsCoherent_example :
    let (r, w) = get_main_address same_text "carol" wallet in
    (r ≡ main_of "carol" db) × IsCoherent w × (w.db ≡ db)
get_main_address-IsCoherent_example =
    get_main_address-IsCoherent same_text "carol" wallet wallet-IsSound.1
