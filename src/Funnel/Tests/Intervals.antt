-- ===== src/Funnel/Tests/Intervals.antt =====
-- Emulated blocks of three seconds over a chain with two blocks.
use paima_engine.Base.{
  ℕ, ◌+◌, String, ◌≡◌, refl, ◌≢◌, Bool, true, false, none, some, List, [], ◌∷◌, arith,
}
use paima_engine.Chain.{SubmittedData, ChainData}
use paima_engine.Funnel.Emulated.{
  Setup, Emulated, calculate_boundary_timestamp, sort_le, flat_map, emulate_cde,
  validate_fetched_blocks, shift_blocks, out_of_order, closed, queue_blocks, raise_bound, feed_data,
  close_block, get_next_block, batch_loop, get_next_block_batch,
}
use paima_engine.Funnel.Emulated.Feeding.{IsFed, feed_data-IsFed}
use paima_engine.Funnel.Emulated.Order.{IsOrdered, feed_data-IsOrdered, get_next_block-IsOrdered}
use paima_engine.Funnel.Emulated.Partition.{
  Gathers, get_next_block-Gathers, Parts, get_next_block_batch-Parts,
}

abbrev setup : Setup ℕ
setup = record {
  start_timestamp = 100;
  block_time_numerator = 3;
  block_time_denominator = 1;
  max_wait = 5;
  hash_together = λ l. "h";
  empty_hash = λ n. some "e";
  datum_block = λ d. d;
  name_leb = λ a b. true;
  renumber = λ n d. d;
}

abbrev input : String → SubmittedData
input input_data = record {
  real_address = "alice";
  input_data = input_data;
  input_nonce = input_data;
  supplied_value = 0;
  scheduled = false;
  origin = record {
    tx_hash = none;
    caip2 = none;
    contract_address = none;
    primitive_name = none;
    scheduled_at_ms = none;
  };
}

abbrev block : (timestamp block_number : ℕ) → String → ChainData ℕ
block timestamp block_number input_data = record {
  timestamp = timestamp;
  block_hash = "m";
  block_number = block_number;
  submitted_data = input input_data ∷ [];
  extension_datums = none;
  internal_events = none;
}

abbrev first : Emulated ℕ
first = record {
  latest_emulated_block_number = 0;
  timestamp_lower_bound = 99;
  latest_fetched_block_number = 6;
  latest_fetched_timestamp = 100;
  queue = [];
  heights = [];
}

first-IsOrdered : IsOrdered setup first
unfolding calculate_boundary_timestamp
first-IsOrdered = record { queue = omega arith; bound = omega arith }

abbrev fed : Emulated ℕ
fed = record first {
  timestamp_lower_bound = 104;
  latest_fetched_block_number = 8;
  latest_fetched_timestamp = 104;
  queue = block 101 7 "a" ∷ block 104 8 "b" ∷ [];
}

fed_by : feed_data setup 200 (block 101 7 "a" ∷ block 104 8 "b" ∷ []) false first ≡ some fed
unfolding feed_data queue_blocks validate_fetched_blocks raise_bound
fed_by = refl

feed_data-IsFed_example :
    IsFed setup 6
      (block 101 7 "a" ∷ block 104 8 "b" ∷ [])
      first
      (feed_data setup 200 (block 101 7 "a" ∷ block 104 8 "b" ∷ []) false first)
feed_data-IsFed_example =
    feed_data-IsFed setup 200 6 (block 101 7 "a" ∷ block 104 8 "b" ∷ []) first first-IsOrdered refl

fed-IsOrdered : IsOrdered setup fed
fed-IsOrdered =
    feed_data-IsOrdered setup 200 (block 101 7 "a" ∷ block 104 8 "b" ∷ []) first fed first-IsOrdered
      fed_by

get_next_block-IsOrdered_example :
    let (next, s) = get_next_block setup fed in (next ≢ out_of_order) × IsOrdered setup s
get_next_block-IsOrdered_example = get_next_block-IsOrdered setup fed fed-IsOrdered

abbrev merged : ChainData ℕ
merged = record {
  timestamp = 103;
  block_hash = "h";
  block_number = 1;
  submitted_data = input "a" ∷ [];
  extension_datums = some [];
  internal_events = some [];
}

abbrev left : Emulated ℕ
left = record fed {
  latest_emulated_block_number = 1;
  queue = block 104 8 "b" ∷ [];
  heights = (7, 101, 1) ∷ [];
}

closes : get_next_block setup fed ≡ (closed merged, left)
unfolding get_next_block close_block shift_blocks calculate_boundary_timestamp flat_map emulate_cde
    sort_le
closes = refl

get_next_block-Gathers_example : Gathers setup 0 fed.queue merged left.queue × (1 ≡ 0 + 1)
get_next_block-Gathers_example = get_next_block-Gathers setup fed left merged closes

abbrev batch : List (ChainData ℕ) × Bool × Emulated ℕ
batch = get_next_block_batch setup 1 fed

quiet : batch.1 ≡ false
unfolding get_next_block_batch batch_loop get_next_block close_block shift_blocks
    calculate_boundary_timestamp flat_map emulate_cde sort_le
quiet = refl

get_next_block_batch-Parts_example : Parts setup fed batch.0 batch.2
get_next_block_batch-Parts_example = get_next_block_batch-Parts setup 1 fed quiet
