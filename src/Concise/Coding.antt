-- ===== src/Concise/Coding.antt =====
-- What a builder writes, a consumer reads: packages/paima-sdk/paima-concise/src/builder.ts and consumer.ts.
use paima_engine.Base.{
  ℕ, ◌≡◌, refl, sym, ap, ◌∙◌, ◌≢◌, ◌⊎◌, inl, inr, Bool, true, false, none, some, List, [], ◌∷◌,
  ◌++◌, map, arith, if◌then◌else◌, Bool-cases, All,
}
use paima_engine.Concise.Batch.{Text, join, split}
use paima_engine.Concise.Split.{Free, split-Free, split-divided}
use paima_engine.Concise.Value.{
  separator, state_identifier, ConciseValue, to_concise_value, to_string, build_v1, has_unit,
  validate_string, is_hex_string,
}
use paima_engine.Concise.Builder.{
  v1, Builder, new_builder, set_prefix, values_valid, add_values, build,
}
use paima_engine.Concise.Consumer.{
  is_lower_letter, read_prefix, parse_text, pre_parse, letters_then_separator, initialize_consumer,
}

-- Lower-case letters only.
abbrev pub IsLetters : Text → Type 0
IsLetters [] = Unit
IsLetters (c ∷ t) = (is_lower_letter c ≡ true) × IsLetters t

-- The text of a value tells whether it identifies a state.
abbrev pub IsPlain : Text → Type 0
IsPlain [] = Unit
IsPlain (c ∷ t) = c ≢ state_identifier

abbrev pub IsTold : ConciseValue → Type 0
IsTold v = (v.is_state_identifier ≡ true) ⊎ IsPlain v.value

has_unit-Free : (d : ℕ) (t : Text) → has_unit d t ≡ false → Free d t
unfolding has_unit
has_unit-Free d [] h = tt
has_unit-Free d (c ∷ t) h = ground (arith, has_unit-Free d t)

valid-Free : (t : Text) → validate_string t ≡ true → Free separator t
unfolding validate_string
valid-Free t h = has_unit-Free separator t (ground arith)

to_string-Free : (v : ConciseValue) → validate_string v.value ≡ true → Free separator (to_string v)
unfolding to_string
to_string-Free v h = ground (arith, valid-Free v.value h)

All-Free :
    (values : List ConciseValue)
    → values_valid values ≡ true
    → All (Free separator) (map to_string values)
unfolding values_valid
All-Free [] h = tt
All-Free (v ∷ values) h = ground (arith, to_string-Free v, All-Free values)

told_apart :
    (t : Text) (state : Bool)
    → (state ≡ true) ⊎ IsPlain t
    → to_concise_value (if state then state_identifier ∷ t else t)
      ≡ record { value = t; is_state_identifier = state }
unfolding to_concise_value
told_apart t true h = refl
told_apart [] false h = refl
told_apart (c ∷ t) false (inl h) = absurd (cc h)
told_apart (c ∷ t) false (inr h) = ground (arith, h)

to_concise_value-to_string : (v : ConciseValue) → IsTold v → to_concise_value (to_string v) ≡ v
unfolding to_string
to_concise_value-to_string v h = told_apart v.value v.is_state_identifier h

map-told :
    (values : List ConciseValue)
    → All IsTold values
    → map to_concise_value (map to_string values) ≡ values
map-told [] h = refl
map-told (v ∷ values) h = cc (to_concise_value-to_string v h.0, map-told values h.1)

split-join :
    (d : ℕ) (w : Text) (ws : List Text)
    → Free d w
    → All (Free d) ws
    → split d (join d (w ∷ ws)) ≡ w ∷ ws
split-join d w [] f fs = split-Free d w f
split-join d w (u ∷ ws) f fs =
    split-divided d w (join d (u ∷ ws)) f
    ∙ ap (λ (l : List Text). w ∷ l) (split-join d u ws fs.0 fs.1)

letters-Free : (t : Text) → IsLetters t → Free separator t
letters-Free [] h = tt
letters-Free (c ∷ t) h = ground (arith, letters-Free t h.1)

letters-then : (t u : Text) → IsLetters t → letters_then_separator (t ++ (separator ∷ u)) ≡ true
unfolding letters_then_separator
letters-then [] u h = refl
letters-then (c ∷ t) u h = ground (arith, letters-then t u h.1)

has_unit-append : (t u : Text) (d : ℕ) → has_unit d (t ++ (d ∷ u)) ≡ true
unfolding has_unit
has_unit-append [] u d = ground arith
has_unit-append (c ∷ t) u d = ground (arith, has_unit-append t u d)

parse_text_parts :
    (input prefix : Text) (strings : List Text)
    → has_unit separator input ≡ true
    → split separator input ≡ prefix ∷ strings
    → parse_text input ≡ record {
      concise_input = input;
      concise_prefix = read_prefix prefix;
      concise_values = map to_concise_value strings;
    }
unfolding parse_text
parse_text_parts input prefix strings separated parts =
    rw (separated, parse_text) (rw (parts, parse_text) refl)

pre_parse_parts :
    (hex_to_utf8 : Text → Text) (input : Text)
    → is_hex_string input ≡ false
    → pre_parse hex_to_utf8 input v1 ≡ parse_text input
unfolding pre_parse
pre_parse_parts hex_to_utf8 input text =
    ap (λ (b : Bool). parse_text (if b then hex_to_utf8 input else input)) text

letter_no_hex : (c : ℕ) (t : Text) → is_lower_letter c ≡ true → is_hex_string (c ∷ t) ≡ false
unfolding is_hex_string
letter_no_hex c [] h = refl
letter_no_hex c (d ∷ t) h = ground (arith, h)

read_prefix-letters : (t : Text) → IsLetters t → read_prefix t ≡ t
unfolding read_prefix
read_prefix-letters [] h = refl
read_prefix-letters (c ∷ t) h = ground (arith, h.0)

-- What the consumer reads in a text of a prefix and values.
read_text :
    (hex_to_utf8 : Text → Text) (c : ℕ) (prefix : Text) (values : List ConciseValue)
    (v : ConciseValue)
    → IsLetters (c ∷ prefix)
    → All (Free separator) (map to_string (v ∷ values))
    → All IsTold (v ∷ values)
    → let text = (c ∷ prefix) ++ (separator ∷ join separator (map to_string (v ∷ values))) in
      initialize_consumer hex_to_utf8 text none
      ≡ record { concise_input = text; concise_prefix = c ∷ prefix; concise_values = v ∷ values }
unfolding initialize_consumer
read_text hex_to_utf8 c prefix values v letters free told =
    let ws = join separator (map to_string (v ∷ values)) in
    let parts : split separator ((c ∷ prefix) ++ (separator ∷ ws))
        ≡ (c ∷ prefix) ∷ map to_string (v ∷ values) =
      split-divided separator (c ∷ prefix) ws (letters-Free (c ∷ prefix) letters)
      ∙ ap (λ (l : List Text). (c ∷ prefix) ∷ l)
          (split-join separator (to_string v) (map to_string values) free.0 free.1) in
    let parsed =
      pre_parse_parts hex_to_utf8 ((c ∷ prefix) ++ (separator ∷ ws))
        (letter_no_hex c (prefix ++ (separator ∷ ws)) letters.0)
      ∙ parse_text_parts ((c ∷ prefix) ++ (separator ∷ ws)) (c ∷ prefix)
          (map to_string (v ∷ values)) (has_unit-append (c ∷ prefix) ws separator) parts in
    rw (letters.0, letters-then prefix ws letters.1)
      (parsed ∙ cc (read_prefix-letters (c ∷ prefix) letters, map-told (v ∷ values) told))

add_values-some :
    (values : List ConciseValue) (b filled : Builder)
    → add_values values b ≡ some filled
    → (values_valid values ≡ true)
      × (record b { concise_values = b.concise_values ++ values } ≡ filled)
unfolding add_values
add_values-some values b filled h = elim (Bool-cases (values_valid values)) [
  | inl valid ↦ (valid, cc (rw valid at h))
  | inr invalid ↦ absurd (cc (rw invalid at h))
]

set_prefix-some :
    (c : ℕ) (prefix : Text) (b named : Builder)
    → set_prefix (c ∷ prefix) false b ≡ some named
    → record b { concise_prefix = c ∷ prefix } ≡ named
unfolding set_prefix
set_prefix-some c prefix b named h = cc

-- Where the prefix is of lower-case letters, values are given, and the text of each value tells whether
-- it identifies a state: a builder that takes the prefix and the values builds a text, and a consumer
-- that finds out the version by itself reads the same prefix and the same values in it.
pub consumer-build :
    (hex_to_utf8 : Text → Text) (prefix : Text) (v : ConciseValue) (values : List ConciseValue)
    (named filled : Builder)
    → IsLetters prefix
    → All IsTold (v ∷ values)
    → set_prefix prefix false (new_builder v1) ≡ some named
    → add_values (v ∷ values) named ≡ some filled
    → (text : Text) × (build filled ≡ some text)
      × (initialize_consumer hex_to_utf8 text none
          ≡ record { concise_input = text; concise_prefix = prefix; concise_values = v ∷ values })
unfolding build build_v1
consumer-build hex_to_utf8 [] v values named filled letters told p a =
    absurd (unfold set_prefix in cc p)
consumer-build hex_to_utf8 (c ∷ prefix) v values named filled letters told p a =
    let named_as = set_prefix-some c prefix (new_builder v1) named p in
    let (valid, filled_as) =
      add_values-some (v ∷ values) (record (new_builder v1) { concise_prefix = c ∷ prefix }) filled
        (rw (sym named_as) at a) in
    (
      (c ∷ prefix) ++ (separator ∷ join separator (map to_string (v ∷ values))),
      rw (← filled_as) refl,
      read_text hex_to_utf8 c prefix values v letters (All-Free (v ∷ values) valid) told,
    )
