-- ===== src/Funnel/L2/Part.antt =====
-- What a part of a batch is, and which parts are validated:
-- packages/node-sdk/paima-funnel/src/paima-l2-processing.ts.
use mathlib.Core.Path.{subst}
use paima_engine.Base.{
  ℕ, ◌+◌, ◌*◌, ◌<◌, String, ◌≡◌, refl, ◌≢◌, ◌⊎◌, inl, inr, true, false, none, some, List, [], ◌∷◌,
  arith, Bool-cases, Option-cases,
}
use paima_engine.Chain.{Origin, SubmittedData}
use paima_engine.Funnel.Namespaces.{get_read_namespaces}
use paima_engine.Funnel.L2.{
  Host, create_message_for_batcher, create_batch_nonce, validate_subunit_timestamp,
  validate_subunit_signature, five_parts, process_parts, process_batched_subunit,
}

module _ (host : Host) where
  -- A namespace of the list for which the scheme accepts the signature.
  abbrev pub SignedIn :
      (address_type : ℕ)
      → (user_address user_signature input_data millisecond_timestamp : String) → List String
      → Type 0
  SignedIn address_type user_address user_signature input_data millisecond_timestamp [] = ⊥
  SignedIn address_type user_address user_signature input_data millisecond_timestamp
        (namespace ∷ namespaces) =
      (host.verify address_type user_address
          (create_message_for_batcher namespace input_data millisecond_timestamp) user_signature
        ≡ some true)
      ⊎ SignedIn address_type user_address user_signature input_data millisecond_timestamp
          namespaces

  -- Some scheme throws before any accepts the signature.
  abbrev pub ThrowsIn :
      (address_type : ℕ)
      → (user_address user_signature input_data millisecond_timestamp : String) → List String
      → Type 0
  ThrowsIn address_type user_address user_signature input_data millisecond_timestamp [] = ⊥
  ThrowsIn address_type user_address user_signature input_data millisecond_timestamp
        (namespace ∷ namespaces) =
      let answer =
        host.verify address_type user_address
          (create_message_for_batcher namespace input_data millisecond_timestamp) user_signature in
      (answer ≡ none)
      ⊎ (answer ≡ some false)
        × ThrowsIn address_type user_address user_signature input_data millisecond_timestamp
            namespaces

  -- A number of milliseconds, less than a day from the block's time in seconds.
  abbrev pub IsRecent : (millisecond_timestamp : String) → (block_timestamp : ℕ) → Type 0
  IsRecent millisecond_timestamp block_timestamp =
      (milliseconds : ℕ) × (host.parse_int millisecond_timestamp ≡ some milliseconds)
      × (milliseconds < 1000 * block_timestamp + 86400000)
      × (1000 * block_timestamp < milliseconds + 86400000)

  -- The input has the fields of a part, in their order: its address signed the input and a time of less
  -- than a day from the block's, under a namespace of the block's height; its nonce is taken of these.
  abbrev pub IsSubunit :
      (block_height block_timestamp : ℕ) → (part : String) → SubmittedData → Type 0
  IsSubunit block_height block_timestamp part d =
      (kind : String) × (address_type : ℕ) × (signature : String) × (millisecond_timestamp : String)
      × (host.split host.inner_divider part
          ≡ kind ∷ d.real_address ∷ signature ∷ d.input_data ∷ millisecond_timestamp ∷ [])
      × (host.is_digits kind ≡ true)
      × (host.parse_int kind ≡ some address_type)
      × SignedIn address_type d.real_address signature d.input_data millisecond_timestamp
          (get_read_namespaces host.namespace host.contract_address block_height)
      × IsRecent millisecond_timestamp block_timestamp
      × (d.input_nonce ≡ create_batch_nonce host millisecond_timestamp d.real_address d.input_data)

  -- What is said of an input that came out of a part of a batch.
  abbrev pub IsFrom :
      (share block_height block_timestamp : ℕ) → Origin → (part : String) → SubmittedData → Type 0
  IsFrom share block_height block_timestamp origin part d =
      (d.supplied_value ≡ share)
      × (d.origin ≡ origin)
      × IsSubunit block_height block_timestamp part d

  -- The part makes a scheme throw.
  abbrev pub PartThrows : (block_height : ℕ) → (part : String) → Type 0
  PartThrows block_height part =
      (kind address signature input_data millisecond_timestamp : String) × (address_type : ℕ)
      × (host.split host.inner_divider part
          ≡ kind ∷ address ∷ signature ∷ input_data ∷ millisecond_timestamp ∷ [])
      × (host.is_digits kind ≡ true)
      × (host.parse_int kind ≡ some address_type)
      × ThrowsIn address_type address signature input_data millisecond_timestamp
          (get_read_namespaces host.namespace host.contract_address block_height)

  recent_lem :
      (m : String) (time : ℕ)
      → validate_subunit_timestamp host (host.parse_int m) time ≡ true
      → IsRecent m time
  unfolding validate_subunit_timestamp
  recent_lem m time h = elim (Option-cases (host.parse_int m)) [
    | inl nan ↦ absurd (ground arith)
    | inr (ms, e) ↦ (ms, e, ground arith, ground arith)
  ]

  recent_back :
      (m : String) (time : ℕ)
      → IsRecent m time
      → validate_subunit_timestamp host (host.parse_int m) time ≡ true
  unfolding validate_subunit_timestamp
  recent_back m time (ms, e, below, above) = ground (arith, e, below, above)

  signature-SignedIn :
      (t : ℕ) (a s d m : String) (namespaces : List String)
      → validate_subunit_signature host t a s d m namespaces ≡ some true
      → SignedIn t a s d m namespaces
  unfolding validate_subunit_signature
  signature-SignedIn t a s d m [] h = ground arith
  signature-SignedIn t a s d m (n ∷ namespaces) h =
      elim (Option-cases (host.verify t a (create_message_for_batcher n d m) s)) [
        | inl threw ↦ absurd (ground arith)
        | inr (true, e) ↦ inl e
        | inr (false, e) ↦ inr (signature-SignedIn t a s d m namespaces (ground arith))
      ]

  -- What the five fields come to.
  process_parts-signed :
      (share height time : ℕ) (origin : Origin) (t : ℕ) (a s d m : String) (r : SubmittedData)
      → process_parts host share height time origin t a s d m ≡ some (true, r)
      → SignedIn t a s d m (get_read_namespaces host.namespace host.contract_address height)
        × IsRecent m time
        × (record {
          real_address = a;
          input_data = d;
          input_nonce = create_batch_nonce host m a d;
          supplied_value = share;
          scheduled = false;
          origin = origin;
        }
            ≡ r)
  unfolding process_parts
  process_parts-signed share height time origin t a s d m r h =
      elim (Option-cases (
        validate_subunit_signature host t a s d m
          (get_read_namespaces host.namespace host.contract_address height))) [
            | inl threw ↦ absurd (ground arith)
            | inr (false, e) ↦ absurd (ground arith)
            | inr (true, e) ↦ (
              signature-SignedIn t a s d m
                  (get_read_namespaces host.namespace host.contract_address height) e,
              recent_lem m time (ground arith),
              ground arith,
            )
          ]

  five_parts-five :
      (l : List String) (t a s d m : String)
      → five_parts host l ≡ some (t, a, s, d, m)
      → l ≡ t ∷ a ∷ s ∷ d ∷ m ∷ []
  five_parts-five [] t a s d m h = absurd (cc h)
  five_parts-five (t' ∷ []) t a s d m h = absurd (cc h)
  five_parts-five (t' ∷ a' ∷ []) t a s d m h = absurd (cc h)
  five_parts-five (t' ∷ a' ∷ s' ∷ []) t a s d m h = absurd (cc h)
  five_parts-five (t' ∷ a' ∷ s' ∷ d' ∷ []) t a s d m h = absurd (cc h)
  five_parts-five (t' ∷ a' ∷ s' ∷ d' ∷ m' ∷ []) t a s d m h = cc h
  five_parts-five (t' ∷ a' ∷ s' ∷ d' ∷ m' ∷ x ∷ l) t a s d m h = absurd (cc h)

  pub process_batched_subunit-IsFrom :
      (share height time : ℕ) (origin : Origin) (part : String) (r : SubmittedData)
      → process_batched_subunit host share height time origin part ≡ some (true, r)
      → IsFrom share height time origin part r
  unfolding process_batched_subunit
  process_batched_subunit-IsFrom share height time origin part r h =
      elim (Option-cases (five_parts host (host.split host.inner_divider part))) [
        | inl other ↦ absurd (ground arith)
        | inr ((t, a, s, d, m), e) ↦ elim (Option-cases (host.parse_int t)) [
          | inl nan ↦ absurd (ground arith)
          | inr (n, f) ↦ elim (Bool-cases (host.is_digits t)) [
            | inr words ↦ absurd (ground arith)
            | inl digits ↦
                let five = five_parts-five (host.split host.inner_divider part) t a s d m e in
                let (signed, recent, same) =
                  process_parts-signed share height time origin n a s d m r (ground arith) in
                subst (IsFrom share height time origin part) same
                  (refl, refl, (t, n, s, m, five, digits, f, signed, recent, refl))
          ]
        ]
      ]

  SignedIn-accepted :
      (t : ℕ) (a s d m : String) (namespaces : List String)
      → SignedIn t a s d m namespaces
      → validate_subunit_signature host t a s d m namespaces ≢ some false
  unfolding validate_subunit_signature
  SignedIn-accepted t a s d m [] h = λ e. h
  SignedIn-accepted t a s d m (n ∷ namespaces) (inl h) = λ e. absurd (ground (arith, h, e))
  SignedIn-accepted t a s d m (n ∷ namespaces) (inr h) = λ e.
      elim (Option-cases (host.verify t a (create_message_for_batcher n d m) s)) [
        | inl threw ↦ absurd (ground (arith, e))
        | inr (true, f) ↦ absurd (ground (arith, e))
        | inr (false, f) ↦ SignedIn-accepted t a s d m namespaces h (ground (arith, e))
      ]

  signature-ThrowsIn :
      (t : ℕ) (a s d m : String) (namespaces : List String)
      → validate_subunit_signature host t a s d m namespaces ≡ none
      → ThrowsIn t a s d m namespaces
  unfolding validate_subunit_signature
  signature-ThrowsIn t a s d m [] h = absurd (cc h)
  signature-ThrowsIn t a s d m (n ∷ namespaces) h =
      elim (Option-cases (host.verify t a (create_message_for_batcher n d m) s)) [
        | inl threw ↦ inl threw
        | inr (true, e) ↦ absurd (ground arith)
        | inr (false, e) ↦ inr (e, signature-ThrowsIn t a s d m namespaces (ground arith))
      ]

  process_parts-none :
      (share height time : ℕ) (origin : Origin) (t : ℕ) (a s d m : String)
      → process_parts host share height time origin t a s d m ≡ none
      → ThrowsIn t a s d m (get_read_namespaces host.namespace host.contract_address height)
  unfolding process_parts
  process_parts-none share height time origin t a s d m h =
      let namespaces = get_read_namespaces host.namespace host.contract_address height in
      elim (Option-cases (validate_subunit_signature host t a s d m namespaces)) [
        | inl threw ↦ signature-ThrowsIn t a s d m namespaces threw
        | inr (signed, e) ↦ absurd (ground arith)
      ]

  process_parts-accepted :
      (share height time : ℕ) (origin : Origin) (t : ℕ) (a s d m : String) (r : SubmittedData)
      → SignedIn t a s d m (get_read_namespaces host.namespace host.contract_address height)
      → IsRecent m time
      → process_parts host share height time origin t a s d m ≢ some (false, r)
  unfolding process_parts
  process_parts-accepted share height time origin t a s d m r signed recent =
      let namespaces = get_read_namespaces host.namespace host.contract_address height in
      let near = recent_back m time recent in
      let accepted = SignedIn-accepted t a s d m namespaces signed in
      λ h. elim (Option-cases (validate_subunit_signature host t a s d m namespaces)) [
        | inl threw ↦ absurd (ground (arith, h))
        | inr (true, e) ↦ absurd (ground (arith, h, near))
        | inr (false, e) ↦ accepted e
      ]

  -- A part that is not validated is not that of a signed, recent input.
  pub process_batched_subunit-rejected :
      (share height time : ℕ) (origin : Origin) (part : String) (r d : SubmittedData)
      → process_batched_subunit host share height time origin part ≡ some (false, r)
      → IsSubunit height time part d
      → ⊥
  unfolding process_batched_subunit
  process_batched_subunit-rejected share height time origin part r d h
        (kind, t, s, m, five, digits, number, signed, recent, nonce) =
      process_parts-accepted share height time origin t d.real_address s d.input_data m r signed
        recent (rw (process_batched_subunit, five, digits, number) at h)

  pub process_batched_subunit-PartThrows :
      (share height time : ℕ) (origin : Origin) (part : String)
      → process_batched_subunit host share height time origin part ≡ none
      → PartThrows height part
  unfolding process_batched_subunit
  process_batched_subunit-PartThrows share height time origin part h =
      elim (Option-cases (five_parts host (host.split host.inner_divider part))) [
        | inl other ↦ absurd (ground arith)
        | inr ((t, a, s, d, m), e) ↦ elim (Option-cases (host.parse_int t)) [
          | inl nan ↦ absurd (ground arith)
          | inr (n, f) ↦ elim (Bool-cases (host.is_digits t)) [
            | inr words ↦ absurd (ground arith)
            | inl digits ↦
                let five = five_parts-five (host.split host.inner_divider part) t a s d m e in
                (
                  t,
                  a,
                  s,
                  d,
                  m,
                  n,
                  five,
                  digits,
                  f,
                  process_parts-none share height time origin n a s d m (ground arith),
                )
          ]
        ]
      ]
