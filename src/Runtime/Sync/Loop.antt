-- ===== src/Runtime/Sync/Loop.antt =====
-- Which of the funnel's blocks the main loop processes: the loop over them in `runSync` of
-- packages/node-sdk/paima-runtime/src/runtime-loops.ts.
use paima_engine.Base.{
  ℕ, ◌+◌, ◌≡◌, refl, ap, ◌⊎◌, inl, inr, true, false, Option, List, [], ◌∷◌, ◌++◌, arith, length,
}
use paima_engine.Chain.{ChainData}
use paima_engine.Machine.State.{Machine, Env}
use paima_engine.Machine.Primitives.{Primitives}
use paima_engine.Machine.Randomness.{Chance}
use paima_engine.Machine.Block.Alive.{IsAlive}
use paima_engine.Runtime.Sync.{
  Site, latest_processed_block_height, reached, Synced, refused, stopped, advanced,
  process_sync_block_data, sync_blocks,
}
use paima_engine.Runtime.Sync.Contiguous.{
  Ran, IsRefused, IsNext, Advances, process_sync_block_data-Moves,
}

-- Each block has the number after the one before.
abbrev pub GoOn : {D : Type 0} → (height : ℕ) → List (ChainData D) → Type 0
GoOn height [] = Unit
GoOn height (c ∷ chain_data) = (c.block_number ≡ height + 1) × GoOn c.block_number chain_data

-- The stop block is none of them, but perhaps the last.
abbrev pub StopsLast : {D : Type 0} → (stop_block_height : Option ℕ) → List (ChainData D) → Type 0
StopsLast stop_block_height [] = Unit
StopsLast stop_block_height (c ∷ []) = Unit
StopsLast stop_block_height (c ∷ d ∷ chain_data) =
    (reached stop_block_height c.block_number ≡ false)
    × StopsLast stop_block_height (d ∷ chain_data)

module _ {G Q F R D : Type 0} (env : Env G Q F R) (prims : Primitives G Q D) (chance : Chance R)
    (site : Site G) where
  -- Each block is the next one, and its migration and the state machine ran on what the one before left.
  abbrev pub RunTo : List (ChainData D) → (m m' : Machine G F R) → Type 0
  RunTo [] m m' = m' ≡ m
  RunTo (c ∷ chain_data) m m' =
      (next : Machine G F R) × IsNext env prims chance site c m next
      × ((count : ℕ) × Ran env prims chance site c m count next)
      × RunTo chain_data next m'

  -- Why the loop ends in a state that the last block left: no block is left, the last one was the stop
  -- block, or the next one was refused.
  abbrev pub IsOver : List (ChainData D) → (left m : Machine G F R) → Type 0
  IsOver rest left m =
      (rest ≡ []) × (m ≡ left)
      ⊎ (reached site.stop_block_height
            (latest_processed_block_height site.start_block_height left.blocks)
          ≡ true)
        × (m ≡ left)
      ⊎ ((c : ChainData D) × (later : List (ChainData D)) × (rest ≡ c ∷ later)
          × IsRefused env prims chance site c left
          × (process_sync_block_data env prims chance site c left ≡ (refused, m)))

  -- What the loop comes to.
  pub record IsSynced (chain_data : List (ChainData D)) (m : Machine G F R) (r : ℕ × Machine G F R)
      : Type 0 where
    pub done : List (ChainData D)
    pub rest : List (ChainData D)
    pub divided : chain_data ≡ done ++ rest
    pub counted : r.0 ≡ length done
    pub go_on : GoOn (latest_processed_block_height site.start_block_height m.blocks) done
    pub stops : StopsLast site.stop_block_height done
    pub height :
        latest_processed_block_height site.start_block_height r.1.blocks
        ≡ latest_processed_block_height site.start_block_height m.blocks + r.0
    pub left : Machine G F R
    pub ran : RunTo done m left
    pub over : IsOver rest left r.1

  StopsLast-cons :
      (c : ChainData D) (done : List (ChainData D))
      → reached site.stop_block_height c.block_number ≡ false
      → StopsLast site.stop_block_height done
      → StopsLast site.stop_block_height (c ∷ done)
  StopsLast-cons c [] go h = tt
  StopsLast-cons c (d ∷ done) go h = (go, h)

  loop_step :
      (c : ChainData D) (chain_data : List (ChainData D)) (m m' : Machine G F R)
      (later : ℕ × Machine G F R) (s : Synced)
      → process_sync_block_data env prims chance site c m ≡ (s, m')
      → Advances env prims chance site s c m m'
      → IsSynced chain_data m' later
      → IsSynced
          (c ∷ chain_data)
          m
          (elim s [ refused ↦ (0, m') | stopped ↦ (1, m') | advanced _ ↦ (later.0 + 1, later.1) ])
  loop_step c chain_data m m' later refused e (kept, why) next = record {
    done = [];
    rest = c ∷ chain_data;
    divided = refl;
    counted = refl;
    go_on = tt;
    stops = tt;
    height = omega (arith, kept);
    left = m;
    ran = refl;
    over = inr (inr (c, chain_data, refl, why, e));
  }
  loop_step c chain_data m m' later stopped e ((next_one, top), ran, stop) next = record {
    done = c ∷ [];
    rest = chain_data;
    divided = refl;
    counted = refl;
    go_on = (next_one, tt);
    stops = tt;
    height = omega (arith, next_one, top);
    left = m';
    ran = (m', (next_one, top), ran, refl);
    over = inr (inl (rw top stop, refl));
  }
  loop_step c chain_data m m' later (advanced count) e ((next_one, top), ran, go) next = record {
    done = c ∷ next.done;
    rest = next.rest;
    divided = ap (λ (l : List (ChainData D)). c ∷ l) next.divided;
    counted = omega (arith, next.counted);
    go_on = (next_one, rw top at next.go_on);
    stops = StopsLast-cons c next.done go next.stops;
    height = omega (arith, next_one, top, next.height);
    left = next.left;
    ran = (m', (next_one, top), (count, ran), next.ran);
    over = next.over;
  }

  -- Where the first transaction begins unaborted, the loop processes the first ones of the
  -- funnel's blocks, each on the state that the one before left, which have the numbers from the
  -- latest processed height on one by one, with the stop block as none of them but perhaps the
  -- last; the height has grown by their number; and the loop ended since no block is left, the
  -- stop block is reached, or the next block was refused in the state that the last one left.
  pub sync_blocks-IsSynced :
      (chain_data : List (ChainData D)) (m : Machine G F R)
      → IsAlive m
      → IsSynced chain_data m (sync_blocks env prims chance site chain_data m)
  unfolding sync_blocks
  sync_blocks-IsSynced [] m alive = record {
    done = [];
    rest = [];
    divided = refl;
    counted = refl;
    go_on = tt;
    stops = tt;
    height = omega arith;
    left = m;
    ran = refl;
    over = inl (refl, refl);
  }
  sync_blocks-IsSynced (c ∷ chain_data) m alive =
      let (s, m') = process_sync_block_data env prims chance site c m in
      let (lives, moved) = process_sync_block_data-Moves env prims chance site c m alive in
      loop_step c chain_data m m' (sync_blocks env prims chance site chain_data m') s refl moved
        (sync_blocks-IsSynced chain_data m' lives)
