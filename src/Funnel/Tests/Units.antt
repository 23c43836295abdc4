-- ===== src/Funnel/Tests/Units.antt =====
-- Joined blocks, namespaces and a batch of one input.
use paima_engine.Base.{
  ℕ, ◌≤◌, String, ◌≡◌, refl, ◌⊎◌, inl, inr, true, false, none, some, List, [], ◌∷◌, arith, str_eq,
  if◌then◌else◌,
}
use paima_engine.Chain.{SubmittedData, ChainData}
use paima_engine.Funnel.Compose.{CdeBlock, compose_chain_data}
use paima_engine.Funnel.Compose.Join.{datums_at, cde_at, both, compose_chain_data-at}
use paima_engine.Funnel.Namespaces.{constant, highest_entry}
use paima_engine.Funnel.Namespaces.Highest.{InEntries, AtMost, NoneBegun, highest_entry-IsHighest}
use paima_engine.Funnel.L2.{Host}

abbrev block : ℕ → ChainData ℕ
block n = record {
  timestamp = n;
  block_hash = "m";
  block_number = n;
  submitted_data = [];
  extension_datums = some (1 ∷ []);
  internal_events = none;
}

abbrev cde : ℕ → CdeBlock ℕ
cde n = record {
  block_number = n;
  extension_datums = some (2 ∷ []);
  internal_events = none;
  submitted_data = none;
}

compose_chain_data-at_example :
    datums_at 5 (compose_chain_data (block 4 ∷ block 5 ∷ []) (cde 5 ∷ cde 6 ∷ []))
    ≡ both (datums_at 5 (block 4 ∷ block 5 ∷ [])) (cde_at 5 (cde 5 ∷ cde 6 ∷ []))
compose_chain_data-at_example =
    compose_chain_data-at 5 4 5 (block 4 ∷ block 5 ∷ []) (cde 5 ∷ cde 6 ∷ [])
      (omega arith, (omega arith, tt)) (omega arith, (omega arith, tt)) (inr (inl refl))

abbrev entries : List (ℕ × List String)
entries = (1, "a" ∷ []) ∷ (10, "b" ∷ []) ∷ []

highest_entry-IsHighest_example :
    ((e : ℕ × List String) × (highest_entry 7 none entries ≡ some e)
      × InEntries e entries
      × ((e.0 ≤ 7) × AtMost 7 e.0 entries))
    ⊎ ((highest_entry 7 none entries ≡ none) × NoneBegun 7 entries)
highest_entry-IsHighest_example = highest_entry-IsHighest 7 entries

-- "~" divides subunits and "|" their parts.
abbrev split : (divider : String) → String → List String
split divider s =
    if str_eq divider "~"
    then "B" ∷ "0|alice|sig|go|5000" ∷ []
    else "0" ∷ "alice" ∷ "sig" ∷ "go" ∷ "5000" ∷ []

abbrev host : Host
host = record {
  split = split;
  is_digits = λ s. true;
  parse_int = λ s. some (if str_eq s "0" then 0 else 5000);
  decimal = λ n. "n";
  keccak_256 = λ s. s;
  verify = λ t a m s. some (str_eq m "nsgo5000");
  namespace = constant "ns";
  contract_address = "0xc";
  outer_divider = "~";
  inner_divider = "|";
}

abbrev unit : SubmittedData
unit = record {
  real_address = "batcher";
  input_data = "B~0|alice|sig|go|5000";
  input_nonce = "";
  supplied_value = 9;
  scheduled = false;
  origin = record {
    tx_hash = none;
    caip2 = none;
    contract_address = none;
    primitive_name = none;
    scheduled_at_ms = none;
  };
}
