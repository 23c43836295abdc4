-- ===== src/Funnel/Namespaces.antt =====
-- The namespaces that signed inputs may carry at a height:
-- packages/paima-sdk/paima-utils/src/security/parse.ts. The file that holds them is read elsewhere.
pub mod Highest
use paima_engine.Base.{
  ℕ, String, Bool, true, ◌&&◌, Option, none, some, List, [], ◌∷◌, str_eq, ltb, leb, if◌then◌else◌,
}

-- `ENV.SECURITY_NAMESPACE`: a namespace, or the `read` entries of the file that it names.
pub data Namespace : Type 0 where
  constant : String → Namespace
  file : List (ℕ × List String) → Namespace

-- The loop of `getEntryFromFile`.
unfoldable pub highest_entry :
    (block_height : ℕ)
    → Option (ℕ × List String)
    → List (ℕ × List String)
    → Option (ℕ × List String)
highest_entry block_height best [] = best
highest_entry block_height best ((h, prefix) ∷ entries) =
    let kept = highest_entry block_height best entries in
    let taken = highest_entry block_height (some (h, prefix)) entries in
    let is_better : Bool = elim best [ none ↦ true | some (b, _) ↦ ltb b h ] in
    if is_better && leb h block_height then taken else kept

unfoldable pub get_entry_from_file :
    (block_height : ℕ) → List (ℕ × List String) → Option (List String)
get_entry_from_file block_height entries = elim (highest_entry block_height none entries) [
  | none ↦ none
  | some (_, prefix) ↦ some prefix
]

abbrev pub adjust : (contract_address : String) → List String → List String
adjust contract_address [] = []
adjust contract_address (prefix ∷ entry) =
    (if str_eq prefix "CONTRACT_ADDRESS" then contract_address else prefix)
    ∷ adjust contract_address entry

unfoldable pub get_read_namespaces :
    Namespace → (contract_address : String) → (block_height : ℕ) → List String
get_read_namespaces (constant namespace) contract_address block_height =
    adjust contract_address (namespace ∷ [])
get_read_namespaces (file entries) contract_address block_height =
    elim (get_entry_from_file block_height entries) [
      | none ↦ contract_address ∷ []
      | some entry ↦ adjust contract_address entry
    ]
