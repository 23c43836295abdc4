-- ===== src/Runtime/Sync/Contiguous.antt =====
-- Blocks are processed one after the other, and none is passed over or taken twice.
use paima_engine.Base.{
  ℕ, ◌+◌, String, ◌≡◌, refl, ◌≢◌, ◌⊎◌, inl, inr, true, false, Option, none, some, List, arith, ◌==◌,
  Bool-cases, Option-cases,
}
use paima_engine.Chain.{ChainData}
use paima_engine.Machine.State.{BlockRow, Machine, abort, Env, Outcome, returned, thrown}
use paima_engine.Machine.Primitives.{Primitives}
use paima_engine.Machine.Randomness.{Chance}
use paima_engine.Machine.Block.{latest_processed, process}
use paima_engine.Machine.Block.Table.{ProcessedBelow, IsLatest}
use paima_engine.Machine.Block.Linked.{Ends, process-Ends}
use paima_engine.Machine.Block.Alive.{IsAlive}
use paima_engine.Runtime.Sync.{
  Site, latest_processed_block_height, commit, reached, Synced, refused, stopped, advanced,
  block_core_process, block_pre_process, block_post_process, finish_sync, process_sync_block_data,
}
use paima_engine.Machine.Block.Returned.{process-IsAlive}
use paima_engine.Runtime.Sync.Latest.{ProcessedBelow-latest}

module _ {G Q F R D : Type 0} (env : Env G Q F R) (prims : Primitives G Q D) (chance : Chance R)
    (site : Site G) where
  -- The migration succeeded, and the state machine took the block on what it left.
  abbrev pub Ran : ChainData D → Machine G F R → ℕ → Machine G F R → Type 0
  Ran c m count m' =
      (game : G) × (site.migrate c.block_number m.game ≡ some game)
      × (process env prims chance c (record m { game = game }) ≡ returned (count, m'))

  -- Why a block is not processed: it is not the next one, its migration fails, or its processing throws.
  abbrev pub IsRefused : ChainData D → Machine G F R → Type 0
  IsRefused c m =
      (c.block_number ≢ latest_processed_block_height site.start_block_height m.blocks + 1)
      ⊎ (site.migrate c.block_number m.game ≡ none)
      ⊎ ((game : G) × (failed : ℕ × Machine G F R) × (site.migrate c.block_number m.game
            ≡ some game)
          × (process env prims chance c (record m { game = game }) ≡ thrown failed))

  -- The block is the next one, and the latest processed one afterwards.
  abbrev pub IsNext : ChainData D → Machine G F R → Machine G F R → Type 0
  IsNext c m m' =
      (c.block_number ≡ latest_processed_block_height site.start_block_height m.blocks + 1)
      × (latest_processed_block_height site.start_block_height m'.blocks ≡ c.block_number)

  -- What a transaction for a block comes to: the block, its count, the state before and after.
  abbrev pub Advances : Synced → ChainData D → Machine G F R → Machine G F R → Type 0
  Advances refused c m m' =
      (latest_processed_block_height site.start_block_height m'.blocks
        ≡ latest_processed_block_height site.start_block_height m.blocks)
      × IsRefused c m
  Advances stopped c m m' =
      IsNext c m m'
      × ((count : ℕ) × Ran c m count m')
      × (reached site.stop_block_height c.block_number ≡ true)
  Advances (advanced count) c m m' =
      IsNext c m m' × Ran c m count m' × (reached site.stop_block_height c.block_number ≡ false)

  -- The transaction is never left aborted.
  abbrev pub Moves : ChainData D → Machine G F R → Synced × Machine G F R → Type 0
  Moves c m (s, m') = IsAlive m' × Advances s c m m'

  -- What the transaction comes to, before its end.
  abbrev pub Core : ChainData D → Machine G F R → Option ℕ × Machine G F R → Type 0
  Core c m (none, m') = (latest_processed m'.blocks ≡ latest_processed m.blocks) × IsRefused c m
  Core c m (some k, m') =
      IsAlive m' × ((hash : String) × IsLatest c.block_number hash m'.blocks) × Ran c m k m'

  commit-IsAlive : (m m' : Machine G F R) → IsAlive m → IsAlive (commit m m')
  unfolding commit
  commit-IsAlive m m' alive = ground arith

  commit-same : (m m' : Machine G F R) → IsAlive m' → commit m m' ≡ m'
  unfolding commit
  commit-same m m' alive = ground arith

  commit-height :
      (m m' : Machine G F R)
      → latest_processed m'.blocks ≡ latest_processed m.blocks
      → latest_processed_block_height site.start_block_height (commit m m').blocks
        ≡ latest_processed_block_height site.start_block_height m.blocks
  unfolding commit latest_processed_block_height
  commit-height m m' same = ground arith

  IsLatest-height :
      (n : ℕ) (hash : String) (blocks : List BlockRow)
      → IsLatest n hash blocks
      → latest_processed_block_height site.start_block_height blocks ≡ n
  unfolding latest_processed_block_height
  IsLatest-height n hash blocks (b, e, height, done) = ground arith

  block_post_process-Advances :
      (c : ChainData D) (m m' : Machine G F R) (k : ℕ)
      → IsNext c m m'
      → Ran c m k m'
      → Advances (block_post_process env prims chance site k m') c m m'
  block_post_process-Advances c m m' k next ran =
      elim (Bool-cases (
        reached site.stop_block_height
          (latest_processed_block_height site.start_block_height m'.blocks))) [
            | inl stop ↦ rw (stop, Advances) (next, (k, ran), rw next.1 at stop)
            | inr go ↦ rw (go, Advances) (next, ran, rw next.1 at go)
          ]

  finish_sync-Moves :
      (c : ChainData D) (m : Machine G F R) (r : Option ℕ × Machine G F R)
      → IsAlive m
      → c.block_number ≡ latest_processed_block_height site.start_block_height m.blocks + 1
      → Core c m r
      → Moves c m (finish_sync env prims chance site m r)
  unfolding finish_sync
  finish_sync-Moves c m (none, m') alive next (same, why) =
      (commit-IsAlive m m' alive, (commit-height m m' same, why))
  finish_sync-Moves c m (some k, m') alive next (lives, (hash, latest), ran) =
      rw (commit-same m m' lives) (
        lives,
        block_post_process-Advances c m m' k
            (next, IsLatest-height c.block_number hash m'.blocks latest) ran,
      )

  core_lem :
      (c : ChainData D) (m : Machine G F R) (game : G) (o : Outcome (ℕ × Machine G F R))
      → site.migrate c.block_number m.game ≡ some game
      → process env prims chance c (record m { game = game }) ≡ o
      → ((k : ℕ) (m' : Machine G F R) → o ≡ returned (k, m') → IsAlive m')
      → Ends env prims chance c (record m { game = game }) o
      → Core c m (elim o [ thrown (_, m') ↦ (none, m') | returned (count, m') ↦ (some count, m') ])
  core_lem c m game (thrown (k, m')) migrated ran lives ends =
      (ends.0, inr (inr (game, (k, m'), migrated, ran)))
  core_lem c m game (returned (k, m')) migrated ran lives
        (prepared, scheduled, ready, due, counted, latest, below) =
      (lives k m' refl, (_, latest), (game, migrated, ran))

  block_core_process-failed :
      (c : ChainData D) (m : Machine G F R)
      → site.migrate c.block_number m.game ≡ none
      → block_core_process env prims chance site c m ≡ (none, abort m)
  unfolding block_core_process
  block_core_process-failed c m failed = rw (failed, block_core_process) refl

  block_core_process-ran :
      (c : ChainData D) (m : Machine G F R) (game : G)
      → site.migrate c.block_number m.game ≡ some game
      → block_core_process env prims chance site c m
        ≡ elim (process env prims chance c (record m { game = game })) [
          | thrown (_, m') ↦ (none, m')
          | returned (count, m') ↦ (some count, m')
        ]
  unfolding block_core_process
  block_core_process-ran c m game e = rw (e, block_core_process) refl

  block_core_process-Core :
      (c : ChainData D) (m : Machine G F R)
      → IsAlive m
      → ProcessedBelow c.block_number m.blocks
      → Core c m (block_core_process env prims chance site c m)
  block_core_process-Core c m alive below =
      elim (Option-cases (site.migrate c.block_number m.game)) [
        | inl failed ↦ rw (block_core_process-failed c m failed) (refl, inr (inl failed))
        | inr (game, e) ↦
            let m1 : Machine G F R = record m { game = game } in
            rw (block_core_process-ran c m game e) (
              core_lem c m game (process env prims chance c m1) e refl
                (λ k m' f. process-IsAlive env prims chance c m1 m' k alive f)
                (process-Ends env prims chance c m1 below))
      ]

  -- Where the transaction for a block begins unaborted: either the block is the next one, its
  -- migration succeeded, the state machine processed it on what the migration left, the state is
  -- what that returned, and the latest processed height is that of the block, which is the stop
  -- block exactly where the loop stops; or it is refused, because it is not the next one, its
  -- migration fails or its processing throws, and the height is as before. The connection is never
  -- left in an aborted transaction.
  pub process_sync_block_data-Moves :
      (c : ChainData D) (m : Machine G F R)
      → IsAlive m
      → Moves c m (process_sync_block_data env prims chance site c m)
  unfolding process_sync_block_data block_pre_process
  process_sync_block_data-Moves c m alive =
      let height = latest_processed_block_height site.start_block_height m.blocks in
      elim (Bool-cases (c.block_number == height + 1)) [
        | inr other ↦ rw other (alive, (refl, inl (ground (arith, other))))
        | inl same ↦
            let next : c.block_number ≡ height + 1 = ground arith in
            rw same (
              finish_sync-Moves c m (block_core_process env prims chance site c m) alive next (
                block_core_process-Core c m alive
                  (rw next (ProcessedBelow-latest site.start_block_height m.blocks))))
      ]
