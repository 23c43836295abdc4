-- ===== src/Concise/Tests.antt =====
-- Batches of two inputs, with space for one of them or both, and an input "c|x|*y".
use paima_engine.Base.{
  ℕ, suc, ◌+◌, ◌≤◌, ◌≡◌, refl, inl, inr, true, false, none, some, List, [], ◌∷◌, ◌++◌, arith,
  length, All,
}
use paima_engine.Concise.Batch.{
  Text, outer_batch_divider, BatchedSubunit, divide_batch, pack_input, pack_loop, build_batch_data,
}
use paima_engine.Concise.Split.{Free}
use paima_engine.Concise.Fill.{body, packed_all, NoneFits}
use paima_engine.Concise.Value.{ConciseValue}
use paima_engine.Concise.Builder.{v1, Builder, new_builder, set_prefix, add_values, build}
use paima_engine.Concise.Consumer.{initialize_consumer}
use paima_engine.Concise.Coding.{IsTold, consumer-build}
use paima_engine.Concise.Round.{divide_batch-build_batch_data, build_batch_data_longest}

abbrev digit : ℕ → Text
digit n = (48 + n) ∷ []

abbrev subunit : Text → BatchedSubunit
subunit game_input = record {
  address_type = 0;
  user_address = 97 ∷ [];
  user_signature = 98 ∷ [];
  game_input = game_input;
  millisecond_timestamp = 55 ∷ [];
}

abbrev subunits : List BatchedSubunit
subunits = subunit (103 ∷ []) ∷ subunit (104 ∷ 105 ∷ []) ∷ []

one_fits : (build_batch_data digit 12 subunits).0 ≡ subunit (103 ∷ []) ∷ []
unfolding build_batch_data pack_loop pack_input
one_fits = refl

both_fit : (build_batch_data digit 22 subunits).0 ≡ subunits
unfolding build_batch_data pack_loop pack_input
both_fit = refl

no_dividers : All (Free outer_batch_divider) (packed_all digit subunits)
unfolding pack_input
no_dividers = ground arith

divide_batch-build_batch_data_example :
    divide_batch (build_batch_data digit 22 subunits).1
    ≡ packed_all digit (build_batch_data digit 22 subunits).0
divide_batch-build_batch_data_example = divide_batch-build_batch_data digit 22 subunits no_dividers

build_batch_data_longest_example :
    (left : List BatchedSubunit) × (subunits ≡ (build_batch_data digit 12 subunits).0 ++ left)
    × (length (build_batch_data digit 12 subunits).1 ≤ 12)
    × NoneFits digit 12
        (suc (length (body (packed_all digit (build_batch_data digit 12 subunits).0))))
        left
build_batch_data_longest_example = build_batch_data_longest digit 12 subunits

abbrev plain_value : ConciseValue
plain_value = record { value = 120 ∷ []; is_state_identifier = false }

abbrev state_value : ConciseValue
state_value = record { value = 121 ∷ []; is_state_identifier = true }

abbrev named : Builder
named = record (new_builder v1) { concise_prefix = 99 ∷ [] }

abbrev filled : Builder
filled = record named { concise_values = plain_value ∷ state_value ∷ [] }

set_prefix_c : set_prefix (99 ∷ []) false (new_builder v1) ≡ some named
unfolding set_prefix
set_prefix_c = refl

add_values_two : add_values (plain_value ∷ state_value ∷ []) named ≡ some filled
unfolding add_values paima_engine.Concise.Value.validate_string
add_values_two = refl

IsTold-both : All IsTold (plain_value ∷ state_value ∷ [])
IsTold-both = (inr (ground arith), (inl refl, tt))

consumer-build_example :
    (text : Text) × (build filled ≡ some text)
    × (initialize_consumer (λ t. t) text none ≡ record {
      concise_input = text;
      concise_prefix = 99 ∷ [];
      concise_values = plain_value ∷ state_value ∷ [];
    })
consumer-build_example =
    consumer-build (λ t. t) (99 ∷ []) plain_value (state_value ∷ []) named filled (refl, tt)
      IsTold-both set_prefix_c add_values_two
