-- ===== src/Funnel/Tests.antt =====
-- The funnels' theorems at concrete inputs.
mod Intervals
mod Units
use paima_engine.Base.{ℕ, ◌-◌, ◌*◌, ◌≡◌, none, some, List, [], ◌∷◌, arith, All}
use paima_engine.Chain.{ChainData}
use paima_engine.Funnel.Search.{
  find_block_by_timestamp, IsFirstAfter, find_block_by_timestamp_lem, get_upper_bound_block,
  last_upto, get_upper_bound_block-eq-last_upto,
}
use paima_engine.Funnel.Grouping.{group_cde_data, group_evm_cde_data}
use paima_engine.Funnel.Grouping.Reference.{
  AllRiseFrom, reference_blocks, group_cde_data-eq-reference,
}
use paima_engine.Funnel.Grouping.Sorted.{IsBlockOf, group_evm_cde_data_sorted}
use paima_engine.Funnel.Mapping.{no_mappings, build_parallel_block_mappings}
use paima_engine.Funnel.Mapping.Reference.{
  reference_mappings, build_parallel_block_mappings-eq-reference,
}

-- Blocks every ten seconds.
abbrev clock : ℕ → ℕ
clock n = 10 * n

find_block_by_timestamp_example :
    (r : ℕ) × (q : ℕ) × (find_block_by_timestamp 3 9 55 clock ≡ some (r, q))
    × IsFirstAfter clock 55 3 9 r
find_block_by_timestamp_example =
    find_block_by_timestamp_lem 3 9 55 clock (λ a b l le h. omega arith) (omega arith)

get_upper_bound_block-eq-last_upto_example :
    get_upper_bound_block ((10, 1) ∷ (30, 3) ∷ (20, 2) ∷ []) 25
    ≡ last_upto ((10, 1) ∷ (30, 3) ∷ (20, 2) ∷ []) 25 none
get_upper_bound_block-eq-last_upto_example =
    get_upper_bound_block-eq-last_upto ((10, 1) ∷ (30, 3) ∷ (20, 2) ∷ []) 25

-- A datum is its block number and its log index.
abbrev number : ℕ × ℕ → ℕ
number d = d.0

abbrev log_index : ℕ × ℕ → ℕ
log_index d = d.1

abbrev streams : List (List (ℕ × ℕ))
streams = ((5, 7) ∷ (6, 1) ∷ []) ∷ ((5, 2) ∷ (5, 3) ∷ []) ∷ []

streams-AllRiseFrom : AllRiseFrom number 5 streams
streams-AllRiseFrom = ((omega arith, (omega arith, tt)), ((omega arith, (omega arith, tt)), tt))

group_cde_data-eq-reference_example :
    group_cde_data number "eip155:1" 5 6 streams (λ l. l)
    ≡ reference_blocks number "eip155:1" (λ l. l) 2 5 streams
group_cde_data-eq-reference_example =
    group_cde_data-eq-reference number "eip155:1" 5 6 streams (λ l. l) streams-AllRiseFrom

group_evm_cde_data_sorted_example :
    All
      (IsBlockOf number log_index streams)
      (group_evm_cde_data number log_index "eip155:1" 5 6 streams)
group_evm_cde_data_sorted_example =
    group_evm_cde_data_sorted number log_index "eip155:1" 5 6 streams streams-AllRiseFrom

abbrev block : (timestamp block_number : ℕ) → ChainData ℕ
block timestamp block_number = record {
  timestamp = timestamp;
  block_hash = "0x";
  block_number = block_number;
  submitted_data = [];
  extension_datums = none;
  internal_events = none;
}

abbrev delay : ℕ → ℕ
delay ts = ts - 2

build_parallel_block_mappings-eq-reference_example :
    build_parallel_block_mappings delay (block 10 1 ∷ block 20 2 ∷ []) ((7, 70) ∷ (9, 90) ∷ [])
    ≡ reference_mappings delay (block 10 1 ∷ block 20 2 ∷ []) ((7, 70) ∷ (9, 90) ∷ []) no_mappings
build_parallel_block_mappings-eq-reference_example =
    build_parallel_block_mappings-eq-reference delay (block 10 1 ∷ block 20 2 ∷ [])
      ((7, 70) ∷ (9, 90) ∷ []) ((omega arith, tt), (tt, tt))
