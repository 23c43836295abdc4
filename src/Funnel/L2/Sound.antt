-- ===== src/Funnel/L2/Sound.antt =====
-- What the inputs of a batch are: its parts, signed, recent, and paid for by the value of the batch. For
-- packages/node-sdk/paima-funnel/src/paima-l2-processing.ts.
use paima_engine.Base.{ℕ, ◌+◌, ◌/◌, ◌≤◌, String, ◌≡◌, ◌≢◌, ◌⊎◌, List, [], ◌∷◌, ◌++◌, length}
use paima_engine.Chain.{Origin, SubmittedData}
use paima_engine.Funnel.L2.{Host, last_of, create_unbatched_nonce}
use paima_engine.Funnel.L2.Part.{IsSubunit, IsFrom, PartThrows}

module _ (host : Host) where
  -- The inputs come from the parts that were validated, in their order.
  abbrev pub Picked :
      (share block_height block_timestamp : ℕ)
      → Origin
      → (parts : List String) → List SubmittedData
      → Type 0
  Picked share block_height block_timestamp origin [] ds = ds ≡ []
  Picked share block_height block_timestamp origin (part ∷ parts) ds =
      ((¬ ((d : SubmittedData) × IsSubunit host block_height block_timestamp part d))
        × Picked share block_height block_timestamp origin parts ds)
      ⊎ ((d : SubmittedData) × (rest : List SubmittedData) × (ds ≡ d ∷ rest)
          × IsFrom host share block_height block_timestamp origin part d
          × Picked share block_height block_timestamp origin parts rest)

  -- Some part makes a signature scheme throw.
  abbrev pub SomeThrows : (block_height : ℕ) → (parts : List String) → Type 0
  SomeThrows block_height [] = ⊥
  SomeThrows block_height (part ∷ parts) =
      PartThrows host block_height part ⊎ SomeThrows block_height parts

  -- What is said of an input that was submitted alone: it is the event's, with its nonce.
  abbrev pub IsAlone : (block_height : ℕ) → SubmittedData → SubmittedData → Type 0
  IsAlone block_height u d = d ≡ record u {
    input_nonce = create_unbatched_nonce host block_height u.real_address u.input_data;
  }

  abbrev pub total_value : List SubmittedData → ℕ
  total_value [] = 0
  total_value (d ∷ ds) = d.supplied_value + total_value ds

  -- The parts of a batch: what stands behind the prefix "B", without an empty last one.
  abbrev pub AreParts : (input_data : String) (parts : List String) → Type 0
  AreParts input_data parts =
      (elems : List String) × (host.split host.outer_divider input_data ≡ "B" ∷ elems)
      × ((elems ≡ parts ++ "" ∷ []) ⊎ (elems ≡ parts) × (last_of elems ≢ ""))

  -- The text starts with something else.
  abbrev pub NoBatch : (input_data : String) → Type 0
  NoBatch input_data =
      (prefix : String) × (elems : List String) × (host.split host.outer_divider input_data
        ≡ prefix ∷ elems)
      × (prefix ≢ "B")

  -- What a unit comes to: itself, nothing where it is no batch or an error is thrown, or inputs from the
  -- parts of the batch, each with an equal share of its value.
  abbrev pub Unpacked :
      SubmittedData → (block_height block_timestamp : ℕ) → List SubmittedData → Type 0
  Unpacked u block_height block_timestamp ds =
      (length (host.split host.outer_divider u.input_data) ≤ 1)
        × ((d : SubmittedData) × (ds ≡ d ∷ []) × IsAlone block_height u d)
      ⊎ (ds ≡ []) × NoBatch u.input_data
      ⊎ ((parts : List String) × AreParts u.input_data parts
          × ((ds ≡ []) × SomeThrows block_height parts
              ⊎ Picked (u.supplied_value / length parts) block_height block_timestamp u.origin parts
                  ds))
