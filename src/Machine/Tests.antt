-- ===== src/Machine/Tests.antt =====
-- The state machine's theorems at concrete inputs.
use paima_engine.Base.{ℕ, String, ◌≡◌, refl, ◌≢◌, false, some, List, [], ◌++◌, arith, eq_iff}
use paima_engine.Chain.Hash.{hash_rollup_input}
use paima_engine.Wallet.Tables.{select_address, insert_address, delegator_of}
use paima_engine.Wallet.Lookup.{cached, main_row, get_main_address}
use paima_engine.Wallet.Lookup.Coherence.{cleared-IsCoherent}
use paima_engine.Wallet.Commands.{create_address}
use paima_engine.Wallet.Process.Safe.{IsSound}
use paima_engine.Machine.State.{Scheduled, StfInput, Outcome, returned, state_of}
use paima_engine.Machine.Events.{
  run_query, run_queries, try_or_rollback, handle_events, send_events, index_of, index_for_event,
}
use paima_engine.Machine.Inputs.{
  Progress, has_nonce, apply_update, trigger_stf, attempt_input, finish_input, run_input, skips,
  process_user_inputs,
}
use paima_engine.Machine.Inputs.Atomic.{Untouched, attempt_input-Untouched}
use paima_engine.Machine.Inputs.Replay.{process_user_inputs-replay}
use paima_engine.Machine.Inputs.Wallets.{process_user_inputs-IsSound}
use paima_engine.Machine.Scheduled.{
  future_by_max_timestamp, future_by_block_height, Round, process_scheduled_data,
}
use paima_engine.Machine.Block.{process}
use paima_engine.Machine.Block.Wallets.{process_block-IsSound}
use paima_engine.Machine.Examples.{
  env, prims, chance, machine, header, input, block_8, start, inputs,
}

abbrev run_once : Outcome (Progress ℕ ℕ ℕ)
run_once = process_user_inputs env header 0 inputs start

ran : run_once ≡ returned (state_of run_once)
unfolding process_user_inputs skips has_nonce run_input attempt_input trigger_stf handle_events
    apply_update try_or_rollback run_queries run_query send_events finish_input get_main_address
    cached select_address create_address insert_address index_for_event index_of hash_rollup_input
    main_row delegator_of
ran = refl

process_user_inputs-replay_example :
    process_user_inputs env header 3 inputs (state_of run_once) ≡ returned (state_of run_once)
process_user_inputs-replay_example =
    process_user_inputs-replay env header header 0 3 inputs start (state_of run_once) ran

machine-IsSound : IsSound machine.wallet
machine-IsSound =
    (record { rows = tt; forest = tt; keys = tt }, cleared-IsCoherent machine.wallet refl)

abbrev alice : String
alice = "alice"

alice_named : alice ≢ ""
alice_named = ground (arith, eq_iff "alice" "")

process_user_inputs-IsSound_example : IsSound (state_of run_once).machine.wallet
process_user_inputs-IsSound_example =
    process_user_inputs-IsSound env (λ a h. h) header 0 inputs start
      (alice_named, (alice_named, (alice_named, tt))) machine-IsSound

abbrev bad_input : StfInput
bad_input = record {
  submitted = input "bad" "n2";
  user_address = "alice";
  user_id = some 1;
  paima_tx_hash = "h";
}

unsuccessful : (attempt_input env bad_input header 0 0 machine).success ≡ false
unfolding attempt_input trigger_stf
unsuccessful = refl

attempt_input-Untouched_example :
    Untouched machine (attempt_input env bad_input header 0 0 machine).machine
attempt_input-Untouched_example =
    attempt_input-Untouched env bad_input header 0 0 machine unsuccessful

abbrev scheduled_round : Outcome (Round ℕ ℕ ℕ)
scheduled_round = process_scheduled_data env header machine

abbrev due : List Scheduled
due = future_by_max_timestamp 8000 [] machine.schedule ++ future_by_block_height 8 machine.schedule

process_block-IsSound_example :
    IsSound (state_of (process env prims chance block_8 machine)).1.wallet
process_block-IsSound_example =
    process_block-IsSound env prims chance (λ a h. h) block_8 machine
      (alice_named, (alice_named, (alice_named, tt))) machine-IsSound
