-- ===== src/Concise/Consumer.antt =====
-- The consumer of inputs: packages/paima-sdk/paima-concise/src/consumer.ts. An operation returns its
-- result and the consumer after it.
use paima_engine.Base.{
  ℕ, zero, suc, Bool, true, false, ◌&&◌, ◌||◌, Option, none, some, List, [], ◌∷◌, map, leb, ◌==◌,
  if◌then◌else◌, length, get_elem?,
}
use paima_engine.Concise.Batch.{Text, split}
use paima_engine.Concise.Value.{separator, ConciseValue, to_concise_value, has_unit, is_hex_string}
use paima_engine.Concise.Builder.{EncodingVersion, empty, v1}

pub record Consumer : Type 0 where
  pub concise_input : Text
  pub concise_prefix : Text
  pub concise_values : List ConciseValue

abbrev pub empty_consumer : Consumer
empty_consumer = record { concise_input = []; concise_prefix = []; concise_values = [] }

abbrev pub is_lower_letter : ℕ → Bool
is_lower_letter c = leb 97 c && leb c 122

-- \w
abbrev pub is_word_unit : ℕ → Bool
is_word_unit c = is_lower_letter c || (leb 65 c && leb c 90) || (leb 48 c && leb c 57) || c == 95

unfoldable pub word_of : Text → Text
word_of [] = []
word_of (c ∷ t) = let rest = word_of t in if is_word_unit c then c ∷ rest else []

-- The prefix behind an "@", where a word follows it.
unfoldable pub read_prefix : Text → Text
unfolding word_of
read_prefix [] = []
read_prefix (c ∷ t) = if c == 64 then elim (word_of t) [ [] ↦ c ∷ t | d ∷ w ↦ d ∷ w ] else c ∷ t

unfoldable pub parse_text : Text → Consumer
parse_text concise_input =
    if has_unit separator concise_input
    then elim (split separator concise_input) [
      | [] ↦ empty_consumer
      | input_prefix ∷ string_values ↦ record {
        concise_input = concise_input;
        concise_prefix = read_prefix input_prefix;
        concise_values = map to_concise_value string_values;
      }
    ]
    else empty_consumer

unfoldable pub pre_parse : (hex_to_utf8 : Text → Text) → Text → EncodingVersion → Consumer
unfolding parse_text
pre_parse hex_to_utf8 input empty = empty_consumer
pre_parse hex_to_utf8 input v1 =
    parse_text (if is_hex_string input then hex_to_utf8 input else input)

-- /^[a-z]+\|/
unfoldable pub letters_then_separator : Text → Bool
letters_then_separator [] = false
letters_then_separator (c ∷ t) =
    let rest = letters_then_separator t in
    if c == separator then true else is_lower_letter c && rest

unfoldable pub is_v1_input : Text → Bool
unfolding letters_then_separator
is_v1_input [] = false
is_v1_input (c ∷ t) = is_lower_letter c && letters_then_separator t

-- A version that is given decides; the first version, EMPTY, is 0, and counts as not given.
unfoldable pub initialize_consumer :
    (hex_to_utf8 : Text → Text) → Text → (version : Option EncodingVersion) → Consumer
unfolding pre_parse is_v1_input
initialize_consumer hex_to_utf8 input (some v1) = pre_parse hex_to_utf8 input v1
initialize_consumer hex_to_utf8 input (some empty) =
    if is_v1_input input then pre_parse hex_to_utf8 input v1 else pre_parse hex_to_utf8 input empty
initialize_consumer hex_to_utf8 input none =
    if is_v1_input input then pre_parse hex_to_utf8 input v1 else pre_parse hex_to_utf8 input empty

unfoldable pub next_value : Consumer → Option ConciseValue × Consumer
next_value c = elim c.concise_values [
  | [] ↦ (none, c)
  | v ∷ values ↦ (some v, record c { concise_values = values })
]

abbrev pub but_last {ℓ} : {A : Type ℓ} → List A → List A
but_last [] = []
but_last (x ∷ []) = []
but_last (x ∷ y ∷ l) = x ∷ but_last (y ∷ l)

abbrev pub last? {ℓ} : {A : Type ℓ} → List A → Option A
last? [] = none
last? (x ∷ []) = some x
last? (x ∷ y ∷ l) = last? (y ∷ l)

unfoldable pub pop_value : Consumer → Option ConciseValue × Consumer
pop_value c = (last? c.concise_values, record c { concise_values = but_last c.concise_values })

-- Positions start at 1; there is nothing at position 0, whose index is -1.
unfoldable pub read_value : (position : ℕ) → Consumer → Option ConciseValue
read_value zero c = none
read_value (suc index) c = get_elem? c.concise_values index

unfoldable pub state_identifiers_of : List ConciseValue → List ConciseValue
state_identifiers_of [] = []
state_identifiers_of (v ∷ values) =
    let rest = state_identifiers_of values in if v.is_state_identifier then v ∷ rest else rest

abbrev pub state_identifiers : Consumer → List ConciseValue
state_identifiers c = state_identifiers_of c.concise_values

abbrev pub consumer_value_count : Consumer → ℕ
consumer_value_count c = length c.concise_values
