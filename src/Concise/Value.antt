-- ===== src/Concise/Value.antt =====
-- The values of an input in the concise encoding, and the encoding itself:
-- packages/paima-sdk/paima-concise/src/v1 and types.ts beside it.
use paima_engine.Base.{
  ℕ, Bool, true, false, not, ◌&&◌, ◌||◌, Option, none, some, List, [], ◌∷◌, ◌++◌, map, ◌==◌,
  if◌then◌else◌,
}
use paima_engine.Concise.Batch.{Text, outer_batch_divider, inner_batch_divider, join}

-- "|" and "*".
abbrev pub separator : ℕ
separator = 124

abbrev pub state_identifier : ℕ
state_identifier = 42

pub record ConciseValue : Type 0 where
  pub value : Text
  pub is_state_identifier : Bool

unfoldable pub to_concise_value : Text → ConciseValue
to_concise_value [] = record { value = []; is_state_identifier = false }
to_concise_value (c ∷ t) =
    if c == state_identifier
    then record { value = t; is_state_identifier = true }
    else record { value = c ∷ t; is_state_identifier = false }

unfoldable pub to_string : ConciseValue → Text
to_string v = if v.is_state_identifier then state_identifier ∷ v.value else v.value

-- The result is none where the prefix is missing, which throws.
unfoldable pub build_v1 : (prefix : Text) → List ConciseValue → Option Text
build_v1 [] values = none
build_v1 (c ∷ prefix) values =
    some ((c ∷ prefix) ++ (separator ∷ join separator (map to_string values)))

-- `includes` on a text.
unfoldable pub has_unit : ℕ → Text → Bool
has_unit d [] = false
has_unit d (c ∷ t) = c == d || has_unit d t

-- No forbidden character: the separator and the dividers of batches.
unfoldable pub validate_string : Text → Bool
unfolding has_unit
validate_string t =
    not (has_unit separator t)
    && not (has_unit inner_batch_divider t)
    && not (has_unit outer_batch_divider t)

-- "0x" at the start.
unfoldable pub is_hex_string : Text → Bool
is_hex_string (a ∷ b ∷ t) = a == 48 && b == 120
is_hex_string (a ∷ []) = false
is_hex_string [] = false
