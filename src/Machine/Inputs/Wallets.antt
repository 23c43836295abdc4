-- ===== src/Machine/Inputs/Wallets.antt =====
-- The wallets' tables under the inputs of a block.
use paima_engine.Base.{
  ℕ, String, ◌≡◌, ◌≢◌, inl, inr, true, some, List, [], ◌∷◌, arith, eq_iff, Bool-cases, Option-cases,
  All,
}
use paima_engine.Chain.{SubmittedData}
use paima_engine.Chain.Hash.{text_of, hash_rollup_input}
use paima_engine.Wallet.Tables.{Db, select_address, select_id, insert_address, delegator_of}
use paima_engine.Wallet.Tables.Steps.{inserted-IsValid}
use paima_engine.Wallet.Lookup.{Wallet, main_row, main_of, get_main_address}
use paima_engine.Wallet.Lookup.Coherence.{get_main_address-IsCoherent, inserted-IsCoherent}
use paima_engine.Wallet.Commands.{database, err, create_address, Result-cases}
use paima_engine.Wallet.Commands.Forms.{create_address_lem}
use paima_engine.Wallet.Commands.Invariant.{row_cases}
use paima_engine.Wallet.Process.{process}
use paima_engine.Wallet.Process.Safe.{IsSound, process-IsSound}
use paima_engine.Machine.State.{Machine, StfInput, Header, Env, state_of, Outcome-cases}
use paima_engine.Machine.Events.{index_for_event}
use paima_engine.Machine.Inputs.{
  Progress, trigger_stf, attempt_input, run_input, skips, process_user_inputs,
}
use paima_engine.Machine.Inputs.Frame.{trigger_stf-Framed, finish_input-Keeps}

main_row-nonempty : (i : ℕ) (a : String) (db : Db) → a ≢ "" → (main_row i a db).address ≢ ""
unfolding main_row
main_row-nonempty i a db ne = elim (Option-cases (delegator_of i db.delegations)) [
  | inl root ↦ ground arith
  | inr (f, e) ↦ elim (Option-cases (select_id f db.addresses)) [
    | inl gone ↦ ground arith
    | inr (b, g) ↦ ground (arith, eq_iff b "")
  ]
]

main_of-nonempty : (a : String) (db : Db) → a ≢ "" → (main_of a db).address ≢ ""
unfolding main_of
main_of-nonempty a db ne = elim (row_cases a db.addresses) [
  | inl absent ↦ ground arith
  | inr (i, e) ↦ ground (arith, main_row-nonempty i a db ne)
]

create_address-known :
    (a : String) (i : ℕ) (w : Wallet)
    → select_address a w.db.addresses ≡ some (i, a)
    → create_address a w ≡ (err database, record w { aborted = true })
unfolding create_address insert_address
create_address-known a i w h = ground arith

create_address-IsSound :
    (a : String) (w : Wallet) → a ≢ "" → IsSound w → IsSound (create_address a w).1
create_address-IsSound a w ne sound = elim (row_cases a w.db.addresses) [
  | inl absent ↦ rw (create_address_lem a w absent) (
    inserted-IsValid a w.db sound.0 ne absent,
    inserted-IsCoherent a w w.aborted sound.0 absent sound.1,
  )
  | inr (i, e) ↦ rw (create_address-known a i w e) (sound.0, record { at = sound.1.at })
]

module _ {G Q F R : Type 0} (env : Env G Q F R)
    (lower-nonempty : (a : String) → a ≢ "" → env.lower a ≢ "") where
  trigger_stf-wallet :
      (input : StfInput) (header : Header) (tx_index log_offset : ℕ) (m : Machine G F R)
      → IsSound m.wallet
      → IsSound (trigger_stf env input header tx_index log_offset m).machine.wallet
  trigger_stf-wallet input header tx_index log_offset m sound =
      rw ((trigger_stf-Framed env input header tx_index log_offset m).wallet) sound

  attempt_input-IsSound :
      (input : StfInput) (header : Header) (tx_index log_offset : ℕ) (m : Machine G F R)
      → input.user_address ≢ ""
      → IsSound m.wallet
      → IsSound (attempt_input env input header tx_index log_offset m).machine.wallet
  unfolding attempt_input
  attempt_input-IsSound input header tx_index log_offset m ne sound =
      let (status, w) =
        process env.lower env.validators env.parse input.submitted.real_address input.user_address
          input.submitted.input_data m.wallet in
      let (created, w') = create_address input.user_address m.wallet in
      let kept =
        process-IsSound env.lower env.validators env.parse lower-nonempty
          input.submitted.real_address input.user_address input.submitted.input_data m.wallet
          sound in
      let made = create_address-IsSound input.user_address m.wallet ne sound in
      elim (Option-cases input.user_id) [
        | inl unknown ↦ elim (Result-cases created) [
          | inl ((i, a), e) ↦ ground (
            arith,
            trigger_stf-wallet input header tx_index log_offset (record m { wallet = w }) kept,
            trigger_stf-wallet (record input { user_id = some i }) header tx_index log_offset
                (record m { wallet = w' }) made,
          )
          | inr (x, e) ↦ ground (
            arith,
            trigger_stf-wallet input header tx_index log_offset (record m { wallet = w }) kept,
          )
        ]
        | inr (id, e) ↦ ground (
          arith,
          trigger_stf-wallet input header tx_index log_offset (record m { wallet = w }) kept,
          trigger_stf-wallet input header tx_index log_offset m sound,
        )
      ]

  run_input-IsSound :
      (header : Header) (log_offset : ℕ) (d : SubmittedData) (p : Progress G F R)
      → d.real_address ≢ ""
      → IsSound p.machine.wallet
      → IsSound (state_of (run_input env header log_offset d p)).machine.wallet
  unfolding run_input
  run_input-IsSound header log_offset d p ne sound =
      let (main, w) = get_main_address env.lower d.real_address p.machine.wallet in
      let (answer, coherent, same) =
        get_main_address-IsCoherent env.lower d.real_address p.machine.wallet sound.1 in
      let tx = text_of d.origin.tx_hash in
      let (index, indexes) = index_for_event tx p.indexes in
      let hash = hash_rollup_input env.keccak_256 env.decimal (text_of d.origin.caip2) tx index in
      let input : StfInput = record {
        submitted = d;
        user_address = main.address;
        user_id = main.id;
        paima_tx_hash = hash;
      } in
      let m : Machine G F R = record p.machine { wallet = w } in
      let named : main.address ≢ "" = rw answer (
        main_of-nonempty (env.lower d.real_address) p.machine.wallet.db
          (lower-nonempty d.real_address ne)) in
      rw
        ((finish_input-Keeps env input header hash (record p { indexes = indexes })
          (attempt_input env input header p.tx_index log_offset m)).0)
        (attempt_input-IsSound input header p.tx_index log_offset m named
          (rw same sound.0, coherent))

  -- Whatever a block holds, and whether its processing ends or throws, the wallets' tables stay valid and
  -- the cache agrees with them. Every input has a sender, and lower-casing makes no address empty.
  pub process_user_inputs-IsSound :
      (header : Header) (log_offset : ℕ) (inputs : List SubmittedData) (p : Progress G F R)
      → All (λ (d : SubmittedData). d.real_address ≢ "") inputs
      → IsSound p.machine.wallet
      → IsSound (state_of (process_user_inputs env header log_offset inputs p)).machine.wallet
  unfolding process_user_inputs
  process_user_inputs-IsSound header log_offset [] p senders sound = sound
  process_user_inputs-IsSound header log_offset (d ∷ inputs) p senders sound =
      elim (Bool-cases (skips env d p)) [
        | inl skipped ↦
            rw skipped (process_user_inputs-IsSound header log_offset inputs p senders.1 sound)
        | inr runs ↦
            let kept = run_input-IsSound header log_offset d p senders.0 sound in
            elim (Outcome-cases (run_input env header log_offset d p)) [
              | inl (q, e) ↦
                  rw (runs, e)
                    (process_user_inputs-IsSound header log_offset inputs q senders.1
                      (rw e at kept))
              | inr (q, e) ↦ rw (runs, e) (rw e at kept)
            ]
      ]
