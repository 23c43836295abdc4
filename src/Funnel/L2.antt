-- ===== src/Funnel/L2.antt =====
-- The inputs in an event of the L2 contract, alone or in a batch:
-- packages/node-sdk/paima-funnel/src/paima-l2-processing.ts and
-- packages/paima-sdk/paima-concise/src/batcher.ts.
pub mod Part
pub mod Sound
use Prim.Native.String.{◌++◌ as append}
use paima_engine.Base.{
  ℕ, ◌+◌, ◌*◌, ◌/◌, String, Bool, true, false, ◌&&◌, Option, none, some, List, [], ◌∷◌, str_eq, ltb,
  if◌then◌else◌, length,
}
use paima_engine.Chain.{Origin, SubmittedData}
use paima_engine.Funnel.Namespaces.{Namespace, get_read_namespaces}

-- The host's methods on texts, keccak, and the signature schemes by the type of the address: a call that
-- throws has no result, and a type without a scheme is false.
pub record Host : Type 0 where
  pub split : (divider : String) → String → List String
  pub is_digits : String → Bool
  pub parse_int : String → Option ℕ
  pub decimal : ℕ → String
  pub keccak_256 : String → String
  pub verify : (address_type : ℕ) → (address message signature : String) → Option Bool
  pub namespace : Namespace
  pub contract_address : String
  pub outer_divider : String
  pub inner_divider : String

abbrev pub drop_last {ℓ} : {A : Type ℓ} → List A → List A
drop_last [] = []
drop_last (x ∷ []) = []
drop_last (x ∷ y ∷ l) = x ∷ drop_last (y ∷ l)

abbrev pub last_of : List String → String
last_of [] = ""
last_of (s ∷ []) = s
last_of (s ∷ t ∷ l) = last_of (t ∷ l)

-- Where the text ends with the divider, the last part is empty, and is left out.
unfoldable pub extract_batches : Host → String → List String
extract_batches host input_data = elim (host.split host.outer_divider input_data) [
  | [] ↦ []
  | prefix ∷ elems ↦
      if str_eq prefix "B"
      then (if str_eq (last_of elems) "" then drop_last elems else elems)
      else []
]

unfoldable pub create_message_for_batcher :
    (namespace input_data millisecond_timestamp : String) → String
create_message_for_batcher namespace input_data millisecond_timestamp =
    append namespace (append input_data millisecond_timestamp)

module _ (host : Host) where
  unfoldable pub create_batch_nonce :
      (millisecond_timestamp user_address input_data : String) → String
  create_batch_nonce millisecond_timestamp user_address input_data =
      append "0x" (host.keccak_256 (append millisecond_timestamp (append user_address input_data)))

  unfoldable pub create_unbatched_nonce :
      (block_height : ℕ) → (user_address input_data : String) → String
  create_unbatched_nonce block_height user_address input_data =
      append "0x"
        (host.keccak_256 (append (host.decimal block_height) (append user_address input_data)))

  -- Less than a day between the two, the first in milliseconds.
  abbrev pub is_near : (milliseconds block_timestamp : ℕ) → Bool
  is_near milliseconds block_timestamp =
      ltb milliseconds (1000 * block_timestamp + 86400000)
      && ltb (1000 * block_timestamp) (milliseconds + 86400000)

  unfoldable pub validate_subunit_timestamp : Option ℕ → (block_timestamp : ℕ) → Bool
  validate_subunit_timestamp none block_timestamp = false
  validate_subunit_timestamp (some milliseconds) block_timestamp =
      is_near milliseconds block_timestamp

  -- The loop over the namespaces in `validateSubunitSignature`.
  unfoldable pub validate_subunit_signature :
      (address_type : ℕ)
      → (user_address user_signature input_data millisecond_timestamp : String) → List String
      → Option Bool
  validate_subunit_signature address_type user_address user_signature input_data
        millisecond_timestamp [] =
      some false
  validate_subunit_signature address_type user_address user_signature input_data
        millisecond_timestamp (namespace ∷ namespaces) =
      let rest =
        validate_subunit_signature address_type user_address user_signature input_data
          millisecond_timestamp namespaces in
      elim (host.verify address_type user_address
        (create_message_for_batcher namespace input_data millisecond_timestamp) user_signature) [
          | none ↦ none
          | some accepted ↦ if accepted then some true else rest
        ]

  -- The subunit, and whether it is validated.
  abbrev pub invalid_input : Origin → Bool × SubmittedData
  invalid_input origin = (
    false,
    record {
      real_address = "";
      input_data = "";
      input_nonce = "";
      supplied_value = 0;
      scheduled = false;
      origin = origin;
    },
  )

  -- The five parts of a subunit.
  abbrev pub five_parts : List String → Option (String × String × String × String × String)
  five_parts (t ∷ a ∷ s ∷ d ∷ m ∷ []) = some (t, a, s, d, m)
  five_parts _ = none

  unfoldable pub process_parts :
      (supplied_value block_height block_timestamp : ℕ)
      → Origin
      → (address_type : ℕ) → (user_address user_signature input_data millisecond_timestamp : String)
      → Option (Bool × SubmittedData)
  process_parts supplied_value block_height block_timestamp origin address_type user_address
        user_signature input_data millisecond_timestamp =
      elim (validate_subunit_signature address_type user_address user_signature input_data
        millisecond_timestamp
        (get_read_namespaces host.namespace host.contract_address block_height)) [
          | none ↦ none
          | some signed ↦ some (
            signed
                && validate_subunit_timestamp (host.parse_int millisecond_timestamp)
                    block_timestamp,
            record {
              real_address = user_address;
              input_data = input_data;
              input_nonce = create_batch_nonce millisecond_timestamp user_address input_data;
              supplied_value = supplied_value;
              scheduled = false;
              origin = origin;
            },
          )
        ]

  unfoldable pub process_batched_subunit :
      (supplied_value block_height block_timestamp : ℕ)
      → Origin
      → (input : String) → Option (Bool × SubmittedData)
  process_batched_subunit supplied_value block_height block_timestamp origin input =
      elim (five_parts (host.split host.inner_divider input)) [
        | none ↦ some (invalid_input origin)
        | some (t, a, s, d, m) ↦
            if host.is_digits t
            then elim (host.parse_int t) [
              | none ↦ some (invalid_input origin)
              | some address_type ↦
                  process_parts supplied_value block_height block_timestamp origin address_type a s
                    d m
            ]
            else some (invalid_input origin)
      ]

  -- `Promise.all` over the subunits, with the filter on what it comes to.
  unfoldable pub process_subunits :
      (supplied_value block_height block_timestamp : ℕ)
      → Origin
      → List String
      → Option (List SubmittedData)
  process_subunits supplied_value block_height block_timestamp origin [] = some []
  process_subunits supplied_value block_height block_timestamp origin (input ∷ subunits) =
      let rest = process_subunits supplied_value block_height block_timestamp origin subunits in
      elim (process_batched_subunit supplied_value block_height block_timestamp origin input) [
        | none ↦ none
        | some (validated, d) ↦ elim rest [
          | none ↦ none
          | some ds ↦ some (if validated then d ∷ ds else ds)
        ]
      ]

  -- An error anywhere leaves nothing of the unit.
  abbrev pub unpack : List String → Option (List SubmittedData) → List SubmittedData
  unpack [] processed = []
  unpack (s ∷ ss) none = []
  unpack (s ∷ ss) (some ds) = ds

  unfoldable pub process_data_unit :
      SubmittedData → (block_height block_timestamp : ℕ) → List SubmittedData
  process_data_unit u block_height block_timestamp =
      let subunits = extract_batches host u.input_data in
      let share = u.supplied_value / length subunits in
      let processed = process_subunits share block_height block_timestamp u.origin subunits in
      if ltb 1 (length (host.split host.outer_divider u.input_data))
      then unpack subunits processed
      else record u {
        input_nonce = create_unbatched_nonce block_height u.real_address u.input_data;
      }
        ∷ []
