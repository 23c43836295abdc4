-- ===== src/Cde/Host.antt =====
-- What the processors are given, and the texts that they build and test.
use Prim.Native.Char.{code}
use Prim.Native.String.{◌++◌ as append}
use paima_engine.Base.{
  ℕ, ◌+◌, String, Bool, true, false, ◌&&◌, Option, List, [], ◌∷◌, map, leb, ◌==◌, if◌then◌else◌,
}

-- The host's functions on texts and JSON, the configured start, and the configured network of a chain.
pub record Host (J : Type 0) : Type 0 where
  pub lower : String → String
  pub decimal : ℕ → String
  pub json : J → String
  pub json_texts : List String → String
  pub bytes : String → String
  pub start_blockheight : ℕ
  pub network_for_caip2 : String → Option String

-- The parts of an input in the concise encoding.
abbrev pub piped : List String → String
piped [] = ""
piped (s ∷ []) = s
piped (s ∷ t ∷ parts) = append s (append "|" (piped (t ∷ parts)))

abbrev pub codes : String → List ℕ
codes String.[] = []
codes (String.◌∷◌ c s) = code c ∷ codes s

abbrev pub codes_eq : List ℕ → List ℕ → Bool
codes_eq [] [] = true
codes_eq [] (d ∷ l) = false
codes_eq (c ∷ k) [] = false
codes_eq (c ∷ k) (d ∷ l) = c == d && codes_eq k l

-- A letter regardless of its case.
abbrev pub fold_case : ℕ → ℕ
fold_case c = if leb 65 c && leb c 90 then c + 32 else c

-- (dead)?$ after zeros.
unfoldable pub is_zeros_end : List ℕ → Bool
is_zeros_end [] = true
is_zeros_end (c ∷ l) =
    let rest = is_zeros_end l in
    if c == 48 then rest else codes_eq (map fold_case (c ∷ l)) (codes "dead")

-- /^0x0+(dead)?$/i
unfoldable pub is_burn_address : String → Bool
unfolding is_zeros_end
is_burn_address address = elim (codes address) [
  | a ∷ x ∷ z ∷ l ↦ a == 48 && fold_case x == 120 && z == 48 && is_zeros_end l
  | _ ↦ false
]

abbrev pub zero_address : String
zero_address = "0x0000000000000000000000000000000000000000"
