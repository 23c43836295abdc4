-- ===== src/Concise/Builder.antt =====
-- The builder of inputs: packages/paima-sdk/paima-concise/src/builder.ts. An operation that throws has no
-- result, and leaves the builder as it was. `hex_to_utf8` is that of web3.
use paima_engine.Base.{
  ℕ, zero, suc, ◌-◌, Bool, true, ◌&&◌, Option, none, some, List, [], ◌∷◌, ◌++◌, map, ◌==◌,
  if◌then◌else◌, length,
}
use paima_engine.Concise.Batch.{Text, split}
use paima_engine.Concise.Value.{
  separator, ConciseValue, to_concise_value, build_v1, validate_string, is_hex_string,
}

pub data EncodingVersion : Type 0 where
  empty v1 : EncodingVersion

pub record Builder : Type 0 where
  pub version : EncodingVersion
  pub initial_concise_input : Text
  pub concise_prefix : Text
  pub concise_values : List ConciseValue

unfoldable pub all_valid : List Text → Bool
all_valid [] = true
all_valid (t ∷ l) = validate_string t && all_valid l

abbrev pub new_builder : EncodingVersion → Builder
new_builder version = record {
  version = version;
  initial_concise_input = [];
  concise_prefix = [];
  concise_values = [];
}

-- An input that is absent is the empty text: the code tests for both at once.
unfoldable pub initialize_builder :
    (hex_to_utf8 : Text → Text) → (input : Text) → EncodingVersion → Option Builder
unfolding all_valid
initialize_builder hex_to_utf8 [] version = some (new_builder version)
initialize_builder hex_to_utf8 (c ∷ input) empty = some (new_builder empty)
initialize_builder hex_to_utf8 (c ∷ input) v1 =
    let initial = if is_hex_string (c ∷ input) then hex_to_utf8 (c ∷ input) else c ∷ input in
    elim (split separator initial) [
      | [] ↦ none
      | prefix ∷ string_values ↦
          if all_valid (prefix ∷ string_values)
          then some (record {
            version = v1;
            initial_concise_input = initial;
            concise_prefix = prefix;
            concise_values = map to_concise_value string_values;
          })
          else none
    ]

-- "@" before the prefix stands for an implicit user.
unfoldable pub set_prefix :
    (value : Text) → (implicit_user_address : Bool) → Builder → Option Builder
set_prefix [] implicit_user_address b = none
set_prefix (c ∷ value) implicit_user_address b =
    some (record b { concise_prefix = if implicit_user_address then 64 ∷ c ∷ value else c ∷ value })

unfoldable pub add_value : ConciseValue → Builder → Option Builder
add_value v b =
    if validate_string v.value
    then some (record b { concise_values = b.concise_values ++ (v ∷ []) })
    else none

unfoldable pub values_valid : List ConciseValue → Bool
values_valid [] = true
values_valid (v ∷ values) = validate_string v.value && values_valid values

unfoldable pub add_values : List ConciseValue → Builder → Option Builder
unfolding values_valid
add_values values b =
    if values_valid values
    then some (record b { concise_values = b.concise_values ++ values })
    else none

-- `splice(index, 0, value)`: an index behind the end is the end.
unfoldable pub insert_at {ℓ} : {A : Type ℓ} → ℕ → A → List A → List A
insert_at zero v l = v ∷ l
insert_at (suc i) v [] = v ∷ []
insert_at (suc i) v (x ∷ l) = x ∷ insert_at i v l

-- Positions start at 1; the index of position 0 is -1, which counts from the end.
unfoldable pub insert_value : (position : ℕ) → ConciseValue → Builder → Option Builder
unfolding insert_at
insert_value position v b =
    let index = if position == 0 then length b.concise_values - 1 else position - 1 in
    if validate_string v.value
    then some (record b { concise_values = insert_at index v b.concise_values })
    else none

unfoldable pub build : Builder → Option Text
build b = elim b.version [ v1 ↦ build_v1 b.concise_prefix b.concise_values | empty ↦ none ]

abbrev pub builder_value_count : Builder → ℕ
builder_value_count b = length b.concise_values
