-- ===== src/Runtime/Sync.antt =====
-- The main loop: `processSyncBlockData`, `blockPreProcess`, `blockCoreProcess`, `blockPostProcess` and
-- the loop over the blocks in `runSync`, of packages/node-sdk/paima-runtime/src/runtime-loops.ts.
-- Snapshots, log lines and the flag that stops the process are left out.
pub mod Latest
pub mod Contiguous
pub mod Loop
use paima_engine.Base.{
  ℕ, ◌+◌, Bool, false, Option, none, some, List, [], ◌∷◌, leb, ◌==◌, if◌then◌else◌,
}
use paima_engine.Chain.{ChainData}
use paima_engine.Machine.State.{BlockRow, Machine, abort, Env, returned, thrown}
use paima_engine.Machine.Primitives.{Primitives}
use paima_engine.Machine.Randomness.{Chance}
use paima_engine.Machine.Block.{latest_processed, process}

-- What surrounds the state machine: the height before the first block, the height at which to stop, and
-- the data migrations of a block, which fail where they have no result.
pub record Site (G : Type 0) : Type 0 where
  pub start_block_height : ℕ
  pub stop_block_height : Option ℕ
  pub migrate : ℕ → G → Option G

-- `latestProcessedBlockHeight`
unfoldable pub latest_processed_block_height : (start_block_height : ℕ) → List BlockRow → ℕ
latest_processed_block_height start_block_height blocks = elim (latest_processed blocks) [
  | none ↦ start_block_height
  | some b ↦ b.block_height
]

-- The end of a transaction. An aborted one is rolled back when it is committed; what is in memory, what
-- was sent, and the serial numbers that were drawn stay.
unfoldable pub commit : {G F R : Type 0} (before after : Machine G F R) → Machine G F R
commit before after =
    if after.wallet.aborted
    then record before {
      wallet = record before.wallet {
        db = record before.wallet.db { next_id = after.wallet.db.next_id };
        cache = after.wallet.cache;
      };
      random = after.random;
      sent = after.sent;
    }
    else after

abbrev pub reached : Option ℕ → ℕ → Bool
reached none height = false
reached (some stop_block_height) height = leb stop_block_height height

-- What `processSyncBlockData` comes to: -1, a count, or the loop that waits at the last block.
pub data Synced : Type 0 where
  refused stopped : Synced
  advanced : ℕ → Synced

module _ {G Q F R D : Type 0} (env : Env G Q F R) (prims : Primitives G Q D) (chance : Chance R)
    (site : Site G) where
  -- The count or -1, and the state inside the transaction: an error is caught here.
  unfoldable pub block_core_process : ChainData D → Machine G F R → Option ℕ × Machine G F R
  block_core_process c m = elim (site.migrate c.block_number m.game) [
    | none ↦ (none, abort m)
    | some game ↦ elim (process env prims chance c (record m { game = game })) [
      | thrown (_, m') ↦ (none, m')
      | returned (count, m') ↦ (some count, m')
    ]
  ]

  abbrev pub height_of : Machine G F R → ℕ
  height_of m = latest_processed_block_height site.start_block_height m.blocks

  unfoldable pub block_pre_process : (block_number : ℕ) → Machine G F R → Bool
  block_pre_process block_number m = block_number == height_of m + 1

  -- `blockPostProcess`, after a count.
  abbrev pub block_post_process : ℕ → Machine G F R → Synced
  block_post_process count m =
      if reached site.stop_block_height (height_of m) then stopped else advanced count

  -- What follows the transaction, given what it came to.
  unfoldable pub finish_sync : Machine G F R → Option ℕ × Machine G F R → Synced × Machine G F R
  finish_sync m (none, m') = (refused, commit m m')
  finish_sync m (some k, m') = (block_post_process k (commit m m'), commit m m')

  unfoldable pub process_sync_block_data : ChainData D → Machine G F R → Synced × Machine G F R
  process_sync_block_data c m =
      let ran = finish_sync m (block_core_process c m) in
      if block_pre_process c.block_number m then ran else (refused, m)

  -- The loop over the blocks that the funnel returned: how many were processed, and the state.
  unfoldable pub sync_blocks : List (ChainData D) → Machine G F R → ℕ × Machine G F R
  sync_blocks [] m = (0, m)
  sync_blocks (c ∷ chain_data) m =
      let (synced, m') = process_sync_block_data c m in
      let (k, m'') = sync_blocks chain_data m' in
      elim synced [ refused ↦ (0, m') | stopped ↦ (1, m') | advanced _ ↦ (k + 1, m'') ]
