-- ===== src/Machine/Block.antt =====
-- `process`, which takes a block through the state machine, and the table of blocks:
-- packages/node-sdk/paima-sm/src/index.ts and
-- packages/node-sdk/paima-db/src/sql/block-heights.sql.
pub mod Table
pub mod Kept
pub mod Linked
pub mod Alive
pub mod Returned
pub mod Wallets
use mathlib.Core.List.{reverse}
use paima_engine.Base.{
  ℕ, ◌+◌, ◌*◌, String, false, Option, none, some, List, [], ◌∷◌, ◌++◌, str_eq, leb, ◌==◌,
  if◌then◌else◌, length,
}
use paima_engine.Chain.{ChainData}
use paima_engine.Chain.Hash.{PostHeader, gen_v1_block_header, hash_block_v1}
use paima_engine.Machine.State.{BlockRow, Machine, Header, Env, Outcome, returned, thrown}
use paima_engine.Machine.Primitives.{Primitives, process_internal_events, process_cde_data}
use paima_engine.Machine.Inputs.{Progress, process_user_inputs}
use paima_engine.Machine.Scheduled.{Round, process_scheduled_data}
use paima_engine.Machine.Randomness.{Chance, get_seed}

-- saveLastBlock
unfoldable pub save_last_block : BlockRow → List BlockRow → List BlockRow
save_last_block row [] = row ∷ []
save_last_block row (b ∷ blocks) =
    let rest = save_last_block row blocks in
    if b.block_height == row.block_height then row ∷ blocks else b ∷ rest

-- blockHeightDone
unfoldable pub block_height_done : ℕ → (block_hash : String) → List BlockRow → List BlockRow
block_height_done n block_hash [] = []
block_height_done n block_hash (b ∷ blocks) =
    (if b.block_height == n then record b { paima_block_hash = some block_hash } else b)
    ∷ block_height_done n block_hash blocks

abbrev pub higher : BlockRow → Option BlockRow → Option BlockRow
higher b none = some b
higher b (some c) = if leb c.block_height b.block_height then some b else some c

-- getLatestProcessedBlockHeight: the highest row that has a hash.
unfoldable pub latest_processed : List BlockRow → Option BlockRow
latest_processed [] = none
latest_processed (b ∷ blocks) =
    let rest = latest_processed blocks in
    elim b.paima_block_hash [ none ↦ rest | some _ ↦ higher b rest ]

-- `extensionsPerNetwork`: the networks in the order of their first datum.
unfoldable pub add_to_network :
    {D : Type 0} → String → D → List (String × List D) → List (String × List D)
add_to_network caip2 d [] = (caip2, d ∷ []) ∷ []
add_to_network caip2 d ((c, ds) ∷ networks) =
    let rest = add_to_network caip2 d networks in
    if str_eq c caip2 then (c, ds ++ d ∷ []) ∷ networks else (c, ds) ∷ rest

unfoldable pub per_network :
    {D : Type 0} → (D → String) → List D → List (String × List D) → List (String × List D)
per_network caip2_of [] networks = networks
per_network caip2_of (d ∷ ds) networks =
    per_network caip2_of ds (add_to_network (caip2_of d) d networks)

abbrev pub list_of {ℓ} : {A : Type ℓ} → Option (List A) → List A
list_of none = []
list_of (some l) = l

module _ {G Q F R D : Type 0} (env : Env G Q F R) (prims : Primitives G Q D)
    (chance : Chance R) where
  unfoldable pub networks_loop :
      (block_height : ℕ) → List (String × List D) → Machine G F R → Outcome (Machine G F R)
  networks_loop block_height [] m = returned m
  networks_loop block_height ((caip2, ds) ∷ networks) m =
      elim (process_cde_data env prims block_height caip2 (some ds) false m) [
        | thrown (_, m') ↦ thrown m'
        | returned (_, m') ↦ networks_loop block_height networks m'
      ]

  -- What comes before the inputs: the block's row, the generator, the datums, the internal events.
  unfoldable pub prepare : ChainData D → Machine G F R → Outcome (Machine G F R)
  prepare c m =
      let seed = get_seed chance c.block_hash c.submitted_data m.blocks in
      let row : BlockRow = record {
        block_height = c.block_number;
        main_chain_block_hash = env.strip0x c.block_hash;
        seed = seed;
        ms_timestamp = c.timestamp * 1000;
        paima_block_hash = none;
      } in
      let m' : Machine G F R = record m {
        blocks = save_last_block row m.blocks;
        random = chance.seeded seed;
      } in
      elim (networks_loop c.block_number
        (per_network prims.caip2_of (list_of c.extension_datums) []) m') [
          | thrown m'' ↦ thrown m''
          | returned m'' ↦ process_internal_events c.internal_events m''
        ]

  -- The hash of the block before.
  abbrev pub prev_hash : List BlockRow → Option String
  prev_hash blocks = elim (latest_processed blocks) [ none ↦ none | some b ↦ b.paima_block_hash ]

  abbrev pub header_of : ChainData D → Machine G F R → Header
  header_of c m = record {
    main_chain_block_hash = env.strip0x c.block_hash;
    block_height = c.block_number;
    prev_block_hash = prev_hash m.blocks;
    ms_timestamp = c.timestamp * 1000;
  }

  -- `userInputsTxHashes` starts empty, and the inputs are numbered from the count of the scheduled
  -- inputs that succeeded or failed.
  abbrev pub first_progress : Round G F R → Progress G F R
  first_progress r = record {
    machine = r.machine;
    indexes = r.indexes;
    tx_index = length r.success_hashes + length r.failed_hashes;
    success_hashes = [];
    failed_hashes = [];
  }

  -- The header of the finished block; the hashes of the loops stand newest first.
  abbrev pub block_header : Header → Round G F R → Progress G F R → PostHeader
  block_header header r p =
      gen_v1_block_header env.keccak_256 header.main_chain_block_hash header.block_height
        header.ms_timestamp header.prev_block_hash
        (reverse r.success_hashes ++ reverse p.success_hashes)
        (reverse r.failed_hashes ++ reverse p.failed_hashes)

  abbrev pub finish_block : Header → Round G F R → Progress G F R → ℕ × Machine G F R
  finish_block header r p = (
    length p.success_hashes + length r.success_hashes,
    record p.machine {
      blocks =
          block_height_done header.block_height
            (hash_block_v1 env.keccak_256 env.decimal (block_header header r p)) p.machine.blocks;
    },
  )

  unfoldable pub process : ChainData D → Machine G F R → Outcome (ℕ × Machine G F R)
  process c before = elim (prepare c before) [
    | thrown m ↦ thrown (0, m)
    | returned m ↦
        let header = header_of c m in
        elim (process_scheduled_data env header m) [
          | thrown r ↦ thrown (0, r.machine)
          | returned r ↦
              elim (process_user_inputs env header r.emitted_logs_count c.submitted_data
                (first_progress r)) [
                  | thrown p ↦ thrown (0, p.machine)
                  | returned p ↦ returned (finish_block header r p)
                ]
        ]
  ]
