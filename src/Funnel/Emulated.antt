-- ===== src/Funnel/Emulated.antt =====
-- Emulated blocks, which gather the deployment chain's blocks into intervals of equal length:
-- packages/node-sdk/paima-funnel/src/funnels/emulated/funnel.ts and utils.ts beside it.
pub mod Order
pub mod Feeding
pub mod Partition
use paima_engine.Base.{
  ℕ, zero, suc, ◌+◌, ◌-◌, ◌*◌, ◌/◌, String, Bool, true, false, ◌&&◌, ◌||◌, Option, none, some, List,
  [], ◌∷◌, ◌++◌, map, ltb, leb, ◌==◌, if◌then◌else◌,
}
use paima_engine.Chain.{ChainData}

-- `ENV.BLOCK_TIME` is a number of seconds that may have a fraction: the quotient of two numbers here.
-- What the class takes from elsewhere: the hash of several hashes, that of an interval without blocks,
-- which reads the seeds of earlier blocks and may throw, and of a datum its block number, whether
-- its name is at most another's, and itself with another block number.
pub record Setup (D : Type 0) : Type 0 where
  pub start_timestamp : ℕ
  pub block_time_numerator : ℕ
  pub block_time_denominator : ℕ
  pub max_wait : ℕ
  pub hash_together : List String → String
  pub empty_hash : ℕ → Option String
  pub datum_block : D → ℕ
  pub name_leb : D → D → Bool
  pub renumber : ℕ → D → D

abbrev pub max_batch_size : ℕ
max_batch_size = 100

-- `emulatedState`, `dcState`, the queue, and the rows of `emulated_block_heights`: the deployment chain's
-- height, its timestamp and the emulated height.
pub record Emulated (D : Type 0) : Type 0 where
  pub latest_emulated_block_number : ℕ
  pub timestamp_lower_bound : ℕ
  pub latest_fetched_block_number : ℕ
  pub latest_fetched_timestamp : ℕ
  pub queue : List (ChainData D)
  pub heights : List (ℕ × ℕ × ℕ)

-- `calculateBoundaryTimestamp`
unfoldable pub calculate_boundary_timestamp : {D : Type 0} → Setup D → ℕ → ℕ
calculate_boundary_timestamp setup n =
    setup.start_timestamp + setup.block_time_numerator * n / setup.block_time_denominator

-- A stable sort by a Boolean order.
unfoldable pub insert_le : {T : Type 0} → (T → T → Bool) → T → List T → List T
insert_le le x [] = x ∷ []
insert_le le x (y ∷ l) = let rest = insert_le le x l in if le x y then x ∷ y ∷ l else y ∷ rest

unfoldable pub sort_le : {T : Type 0} → (T → T → Bool) → List T → List T
unfolding insert_le
sort_le le [] = []
sort_le le (x ∷ l) = insert_le le x (sort_le le l)

unfoldable pub flat_map : {S T : Type 0} → (S → List T) → List S → List T
flat_map f [] = []
flat_map f (x ∷ l) = f x ++ flat_map f l

abbrev pub or_empty {ℓ} : {A : Type ℓ} → Option (List A) → List A
or_empty none = []
or_empty (some l) = l

-- `emulateCde`
unfoldable pub emulate_cde : {D : Type 0} → Setup D → List D → (block_number : ℕ) → List D
emulate_cde setup datums block_number = map (setup.renumber block_number) (
    sort_le
      (λ a b.
        ltb (setup.datum_block a) (setup.datum_block b)
        || (setup.datum_block a == setup.datum_block b && setup.name_leb a b))
      datums)

-- The loop of `validateFetchedBlocks`: whether it comes to its end.
unfoldable pub validate_fetched_blocks :
    {D : Type 0} → (latest_timestamp latest_block_number : ℕ) → List (ChainData D) → Bool
validate_fetched_blocks latest_timestamp latest_block_number [] = true
validate_fetched_blocks latest_timestamp latest_block_number (b ∷ blocks) =
    leb latest_timestamp b.timestamp
    && (b.block_number == latest_block_number + 1
        && validate_fetched_blocks b.timestamp b.block_number blocks)

abbrev pub last_block : {D : Type 0} → ChainData D → List (ChainData D) → ChainData D
last_block b [] = b
last_block b (c ∷ blocks) = last_block c blocks

abbrev pub max : ℕ → ℕ → ℕ
max a b = if leb a b then b else a

-- How the loop on the queue ends: the blocks that were shifted off, with the rest, and whether it threw
-- at one of them.
pub record Shifted (D : Type 0) : Type 0 where
  pub merged : List (ChainData D)
  pub rest : List (ChainData D)
  pub out_of_order : Bool

unfoldable pub shift_blocks :
    {D : Type 0} → (start_timestamp end_timestamp : ℕ) → List (ChainData D) → Shifted D
shift_blocks start_timestamp end_timestamp [] = record {
  merged = [];
  rest = [];
  out_of_order = false;
}
shift_blocks start_timestamp end_timestamp (b ∷ queue) =
    let after = shift_blocks start_timestamp end_timestamp queue in
    if ltb b.timestamp end_timestamp
    then (if ltb b.timestamp start_timestamp
        then record { merged = []; rest = queue; out_of_order = true }
        else record after { merged = b ∷ after.merged })
    else record { merged = []; rest = b ∷ queue; out_of_order = false }

-- What `getNextBlock` comes to: undefined, an error, or a block.
pub data Next (D : Type 0) : Type 0 where
  waits out_of_order no_hash : Next D
  closed : ChainData D → Next D

module _ {D : Type 0} (setup : Setup D) where
  -- The part of `feedData` on the blocks, which throws where they are not valid.
  unfoldable pub queue_blocks : List (ChainData D) → Emulated D → Option (Emulated D)
  queue_blocks [] s = some s
  queue_blocks (b ∷ blocks) s =
      if validate_fetched_blocks s.latest_fetched_timestamp s.latest_fetched_block_number
        (b ∷ blocks)
      then some (record s {
        queue = s.queue ++ b ∷ blocks;
        latest_fetched_block_number = (last_block b blocks).block_number;
        latest_fetched_timestamp = (last_block b blocks).timestamp;
      })
      else none

  -- The lower bound, which only a node that has caught up lets the clock raise. A threshold before the
  -- epoch is 0 here.
  unfoldable pub raise_bound : (current_timestamp : ℕ) → (synced : Bool) → Emulated D → Emulated D
  raise_bound current_timestamp synced s = record s {
    timestamp_lower_bound =
        if synced
        then max s.latest_fetched_timestamp (current_timestamp - setup.max_wait)
        else s.latest_fetched_timestamp;
  }

  unfoldable pub feed_data :
      (current_timestamp : ℕ)
      → List (ChainData D)
      → (synced : Bool) → Emulated D
      → Option (Emulated D)
  feed_data current_timestamp fetched_blocks synced s = elim (queue_blocks fetched_blocks s) [
    | none ↦ none
    | some s' ↦ some (raise_bound current_timestamp synced s')
  ]

  -- `calculateHash`
  abbrev pub calculate_hash : List (ChainData D) → ℕ → Option String
  calculate_hash [] n = setup.empty_hash n
  calculate_hash (b ∷ merged) n =
      some (setup.hash_together (map (λ (c : ChainData D). c.block_hash) (b ∷ merged)))

  abbrev pub merge_block :
      (block_number end_timestamp : ℕ) → (block_hash : String) → List (ChainData D) → ChainData D
  merge_block block_number end_timestamp block_hash merged = record {
    timestamp = end_timestamp;
    block_hash = block_hash;
    block_number = block_number;
    submitted_data = flat_map (λ (c : ChainData D). c.submitted_data) merged;
    extension_datums = some (
        emulate_cde setup (flat_map (λ (c : ChainData D). or_empty c.extension_datums) merged)
          block_number);
    internal_events = some (flat_map (λ (c : ChainData D). or_empty c.internal_events) merged);
  }

  abbrev pub record_heights : ℕ → List (ChainData D) → List (ℕ × ℕ × ℕ)
  record_heights n merged = map (λ (c : ChainData D). (c.block_number, c.timestamp, n)) merged

  -- The end of `getNextBlock`, once the interval's blocks are off the queue.
  unfoldable pub close_block : ℕ → Shifted D → Emulated D → Next D × Emulated D
  close_block n shifted s =
      let left : Emulated D = record s { latest_emulated_block_number = n; queue = shifted.rest } in
      if shifted.out_of_order
      then (out_of_order, left)
      else elim (calculate_hash shifted.merged n) [
        | none ↦ (no_hash, left)
        | some hash ↦ (
          closed (merge_block n (calculate_boundary_timestamp setup n) hash shifted.merged),
          record left { heights = record_heights n shifted.merged ++ s.heights },
        )
      ]

  -- `getNextBlock`
  unfoldable pub get_next_block : Emulated D → Next D × Emulated D
  get_next_block s =
      let n = s.latest_emulated_block_number + 1 in
      let end_timestamp = calculate_boundary_timestamp setup n in
      let start_timestamp = calculate_boundary_timestamp setup s.latest_emulated_block_number in
      let done = close_block n (shift_blocks start_timestamp end_timestamp s.queue) s in
      if ltb s.timestamp_lower_bound end_timestamp then (waits, s) else done

  -- One round of the loop of `getNextBlockBatch`, given what the later rounds come to.
  abbrev pub extend :
      Next D × Emulated D
      → List (ChainData D) × Bool × Emulated D
      → List (ChainData D) × Bool × Emulated D
  extend (waits, s) later = ([], false, s)
  extend (out_of_order, s) later = ([], true, s)
  extend (no_hash, s) later = ([], true, s)
  extend (closed b, s) (blocks, threw, s') = (b ∷ blocks, threw, s')

  -- The loop: the blocks, whether it threw, and the state.
  unfoldable pub batch_loop : ℕ → Emulated D → List (ChainData D) × Bool × Emulated D
  batch_loop zero s = ([], false, s)
  batch_loop (suc count) s =
      let later = batch_loop count (get_next_block s).1 in extend (get_next_block s) later

  unfoldable pub get_next_block_batch :
      (block_height : ℕ) → Emulated D → List (ChainData D) × Bool × Emulated D
  get_next_block_batch block_height = batch_loop (if block_height == 1 then 1 else max_batch_size)
