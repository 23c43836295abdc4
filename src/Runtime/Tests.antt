-- ===== src/Runtime/Tests.antt =====
-- The runtime's theorems at concrete inputs.
use paima_engine.Base.{
  ℕ, zero, suc, ◌+◌, ◌≤◌, ◌<◌, String, ◌≡◌, refl, ◌⊎◌, inl, true, false, none, some, List, [], ◌∷◌,
  arith,
}
use paima_engine.Machine.State.{Machine, Outcome, returned, state_of}
use paima_engine.Machine.Inputs.{has_nonce}
use paima_engine.Machine.Examples.{env, prims, chance, machine, block_8}
use paima_engine.Machine.Events.{run_query, run_queries}
use paima_engine.Machine.Kept.{Keeps, Keeps-refl}
use paima_engine.Machine.Primitives.{
  is_tracked, mark_cde_processed, cde_loop, process_cde_data_base, process_cde_data, evm_presync,
  presync_process,
}
use paima_engine.Machine.Primitives.Once.{IsMarked, presync_process-once}
use paima_engine.Runtime.Presync.{
  evm_main, avail_main, Network, Extension, presync_start, Answer, presync_finished, units, Range,
  every,
}
use paima_engine.Runtime.Presync.Start.{BeforeAll, NoneHigher, IsRecorded, presync_start_lem}
use paima_engine.Runtime.Presync.Whole.{run_presync, IsEnded, IsDone, run_presync_lem}
use paima_engine.Runtime.Nonces.{nonce_gc_interval, nonce_gc_lifetime, clean_nonces_if_time}
use paima_engine.Runtime.Nonces.Window.{clean_nonces_if_time_lem}
use paima_engine.Runtime.Sync.{Site, process_sync_block_data, sync_blocks}
use paima_engine.Runtime.Sync.Contiguous.{Moves, process_sync_block_data-Moves}
use paima_engine.Runtime.Sync.Loop.{IsSynced, sync_blocks-IsSynced}

abbrev site : Site ℕ
site = record { start_block_height = 0; stop_block_height = none; migrate = λ n g. some g }

process_sync_block_data-Moves_example :
    Moves env prims chance site block_8 machine
      (process_sync_block_data env prims chance site block_8 machine)
process_sync_block_data-Moves_example =
    process_sync_block_data-Moves env prims chance site block_8 machine refl

sync_blocks-IsSynced_example :
    IsSynced env prims chance site
      (block_8 ∷ block_8 ∷ [])
      machine
      (sync_blocks env prims chance site (block_8 ∷ block_8 ∷ []) machine)
sync_blocks-IsSynced_example =
    sync_blocks-IsSynced env prims chance site (block_8 ∷ block_8 ∷ []) machine refl

abbrev week : ℕ
week = nonce_gc_lifetime 2

abbrev nonces : List (String × ℕ)
nonces = ("n1", 400000) ∷ ("n0", 3) ∷ []

clean_nonces_if_time_example :
    let (next, left) = clean_nonces_if_time 2 false 450000 21600 nonces in
    (has_nonce "n1" left ≡ true) × ((21600 ≤ 450000) → 450000 + nonce_gc_interval ≤ next)
clean_nonces_if_time_example =
    clean_nonces_if_time_lem 2 false 450000 21600 "n1" 400000 nonces (inl (refl, refl))
      (omega arith) (omega arith)

abbrev presync_once : Outcome (ℕ × Machine ℕ ℕ ℕ)
presync_once = presync_process env prims returned (evm_presync 3 "eip155:1" (5 ∷ [])) machine

presync_ran : presync_once ≡ returned (1, (state_of presync_once).1)
unfolding presync_process process_cde_data process_cde_data_base cde_loop run_queries run_query
    mark_cde_processed is_tracked
presync_ran = refl

presync_process-once_example :
    IsMarked env prims 3 "eip155:1" (state_of presync_once).1
    × (¬ IsMarked env prims 3 "eip155:1" machine)
presync_process-once_example =
    presync_process-once env prims returned 3 "eip155:1" (5 ∷ []) machine (state_of presync_once).1
      1 presync_ran

abbrev answers : List (String × Answer ℕ)
answers = ("eip155:1", units (evm_presync 3 "eip155:1" (5 ∷ []) ∷ [])) ∷ []

-- In the first round there is a block, and then none.
funnel : ℕ → List Range → List (String × Answer ℕ)
funnel zero ranges = answers
funnel (suc round) ranges = ("eip155:1", presync_finished) ∷ []

funnel-IsDone : (later : ℕ) → 1 ≤ later → IsDone env prims returned (λ caip2. 4) funnel later
unfolding funnel every
funnel-IsDone zero h = absurd (omega (arith, h))
funnel-IsDone (suc round) h = λ ranges. (refl, refl)

abbrev presynced : Outcome (List (String × ℕ) × Machine ℕ ℕ ℕ)
presynced = run_presync env prims returned (λ caip2. 4) funnel 2 0 (("eip155:1", 1) ∷ []) machine

run_presync_example :
    IsEnded env prims returned (λ caip2. 4) funnel presynced × Keeps machine (state_of presynced).1
run_presync_example =
    run_presync_lem env prims returned (λ caip2. 4) funnel Keeps-refl 1 (("eip155:1", 1) ∷ [])
      machine funnel-IsDone

abbrev config : List Extension
config = record { network = "evm"; start_block_height = some 12 } ∷ []

abbrev network : Network
network = record { name = "evm"; kind = evm_main; caip2 = "eip155:1" }

-- The latest of three blocks of the network.
abbrev tracked : List (String × ℕ)
tracked = ("evm", 13) ∷ ("mina", 40) ∷ ("evm", 15) ∷ ("evm", 14) ∷ []

presync_start_example :
    let start = presync_start config 20 tracked network in
    ((h : ℕ) × IsRecorded h "evm" tracked × NoneHigher h "evm" tracked × (0 < h) × (start ≡ h + 1))
    ⊎ (NoneHigher 0 "evm" tracked
        × ((evm_main ≡ avail_main) × (start ≡ 1) ⊎ BeforeAll start "evm" config))
presync_start_example = presync_start_lem config 20 tracked network
