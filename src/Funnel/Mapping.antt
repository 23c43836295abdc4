-- ===== src/Funnel/Mapping.antt =====
-- Merging the blocks of a parallel chain into those of the main chain: `buildParallelBlockMappings` and
-- `addInternalCheckpointingEvent` of
-- packages/node-sdk/paima-funnel/src/utils.ts.
pub mod Reference
use paima_engine.Base.{
  ℕ, zero, suc, String, Option, none, some, List, [], ◌∷◌, ◌++◌, leb, ◌==◌, if◌then◌else◌,
}
use paima_engine.Chain.{InternalEvent, evm_last_block, avail_last_block, ChainData}

-- An object keyed by block numbers, the newest assignment first.
abbrev pub BlockMap : Type 0
BlockMap = List (ℕ × ℕ)

unfoldable pub block_at : ℕ → BlockMap → Option ℕ
block_at k [] = none
block_at k ((j, v) ∷ m) = if j == k then some v else block_at k m

pub record Mappings : Type 0 where
  pub parallel_to_mainchain : BlockMap
  pub mainchain_to_parallel : BlockMap

abbrev pub no_mappings : Mappings
no_mappings = record { parallel_to_mainchain = []; mainchain_to_parallel = [] }

abbrev pub assign_both : (parallel main : ℕ) → Mappings → Mappings
assign_both parallel main m = record {
  parallel_to_mainchain = (parallel, main) ∷ m.parallel_to_mainchain;
  mainchain_to_parallel = (main, parallel) ∷ m.mainchain_to_parallel;
}

module _ {D : Type 0} (apply_delay : ℕ → ℕ) where
  -- The `while` loop: `currIndex` is what is left of the main chain's data.
  advance : (ts : ℕ) → List (ChainData D) → List (ChainData D)
  advance ts [] = []
  advance ts (c ∷ chain) = if leb ts (apply_delay c.timestamp) then c ∷ chain else advance ts chain

  assign_head : (parallel : ℕ) → List (ChainData D) → Mappings → Mappings
  assign_head parallel [] m = m
  assign_head parallel (c ∷ chain) m = assign_both parallel c.block_number m

  -- The `for` loop; a parallel block is a timestamp and a block number.
  mapping_loop : List (ChainData D) → List (ℕ × ℕ) → Mappings → Mappings
  mapping_loop chain [] m = m
  mapping_loop chain ((ts, number) ∷ blocks) m =
      let left = advance ts chain in mapping_loop left blocks (assign_head number left m)

  pub build_parallel_block_mappings : List (ChainData D) → List (ℕ × ℕ) → Mappings
  unfolding mapping_loop advance assign_head
  build_parallel_block_mappings chain_data block_data =
      mapping_loop chain_data block_data no_mappings

-- `data.internalEvents.push(event)`, after the list is made where there is none.
abbrev pub push_event : InternalEvent → Option (List InternalEvent) → Option (List InternalEvent)
push_event e none = some (e ∷ [])
push_event e (some l) = some (l ++ e ∷ [])

-- The two types of event that the function is called with.
pub data CheckpointType : Type 0 where
  evm_last avail_last : CheckpointType

abbrev pub checkpoint_event : CheckpointType → ℕ → String → InternalEvent
checkpoint_event evm_last block caip2 = evm_last_block block caip2
checkpoint_event avail_last block caip2 = avail_last_block block caip2

-- `!originalBlockNumber` also holds of block 0.
add_checkpoint : {D : Type 0} → Option ℕ → String → CheckpointType → ChainData D → ChainData D
add_checkpoint none caip2 t c = c
add_checkpoint (some zero) caip2 t c = c
add_checkpoint (some (suc n)) caip2 t c = record c {
  internal_events = push_event (checkpoint_event t (suc n) caip2) c.internal_events;
}

pub add_internal_checkpointing_event :
    {D : Type 0}
    → List (ChainData D)
    → (ℕ → Option ℕ)
    → String
    → CheckpointType
    → List (ChainData D)
unfolding add_checkpoint
add_internal_checkpointing_event [] map_block_number caip2 t = []
add_internal_checkpointing_event (c ∷ chain) map_block_number caip2 t =
    add_checkpoint (map_block_number c.block_number) caip2 t c
    ∷ add_internal_checkpointing_event chain map_block_number caip2 t
