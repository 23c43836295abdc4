-- ===== src/Funnel/Emulated/Partition.antt =====
-- Every block of the deployment chain goes into exactly one emulated block.
use mathlib.Core.List.{append_assoc}
use paima_engine.Base.{
  ℕ, zero, suc, ◌+◌, ◌≤◌, ◌<◌, String, ◌≡◌, refl, sym, ap, ◌∙◌, ◌≢◌, inl, inr, Bool, false, List,
  [], ◌∷◌, ◌++◌, arith, ltb, ◌==◌, if◌then◌else◌, Bool-cases, Option-cases, length, All,
}
use paima_engine.Chain.{SubmittedData, ChainData}
use paima_engine.Funnel.Emulated.{
  Setup, max_batch_size, Emulated, calculate_boundary_timestamp, flat_map, Shifted, shift_blocks,
  Next, waits, out_of_order, no_hash, closed, calculate_hash, merge_block, close_block,
  get_next_block, extend, batch_loop, get_next_block_batch,
}

abbrev pub submitted_of : {D : Type 0} → List (ChainData D) → List SubmittedData
submitted_of blocks = flat_map (λ b. b.submitted_data) blocks

flat_map-append :
    {S T : Type 0} (f : S → List T) (xs ys : List S)
    → flat_map f (xs ++ ys) ≡ flat_map f xs ++ flat_map f ys
unfolding flat_map
flat_map-append f [] ys = refl
flat_map-append f (x ∷ xs) ys =
    rw (flat_map-append f xs ys) (sym (append_assoc (f x) (flat_map f xs) (flat_map f ys)))

-- What the loop takes off the queue lies in the interval, and with the rest it is the queue.
shift_blocks-append :
    {D : Type 0} (start_timestamp end_timestamp : ℕ) (queue : List (ChainData D))
    → let s = shift_blocks start_timestamp end_timestamp queue in
      s.out_of_order ≡ false
      → (s.merged ++ s.rest ≡ queue)
        × All
            (λ (b : ChainData D). (start_timestamp ≤ b.timestamp) × (b.timestamp < end_timestamp))
            s.merged
unfolding shift_blocks
shift_blocks-append start_timestamp end_timestamp [] h = (refl, tt)
shift_blocks-append start_timestamp end_timestamp (b ∷ queue) h =
    ground (arith, shift_blocks-append start_timestamp end_timestamp queue)

module _ {D : Type 0} (setup : Setup D) where
  -- What a closed block says of the queue before and after.
  abbrev pub Gathers : ℕ → List (ChainData D) → ChainData D → List (ChainData D) → Type 0
  Gathers n before block after =
      (merged : List (ChainData D)) × (merged ++ after ≡ before)
      × (block.submitted_data ≡ submitted_of merged)
      × (block.block_number ≡ n + 1)
      × (block.timestamp ≡ calculate_boundary_timestamp setup (n + 1))
      × All
          (λ (b : ChainData D).
            (calculate_boundary_timestamp setup n ≤ b.timestamp)
            × (b.timestamp < calculate_boundary_timestamp setup (n + 1)))
          merged

  close_block_form :
      (n : ℕ) (shifted : Shifted D) (s s' : Emulated D) (block : ChainData D)
      → close_block setup n shifted s ≡ (closed block, s')
      → (shifted.out_of_order ≡ false)
        × ((hash : String) × (block
              ≡ merge_block setup n (calculate_boundary_timestamp setup n) hash shifted.merged))
        × (s'.queue ≡ shifted.rest)
        × (s'.latest_emulated_block_number ≡ n)
  unfolding close_block
  close_block_form n shifted s s' block h =
      elim (Option-cases (calculate_hash setup shifted.merged n)) [
        | inl none_hash ↦ absurd (ground arith)
        | inr (hash, e) ↦ elim (Bool-cases shifted.out_of_order) [
          | inl bad ↦ absurd (ground arith)
          | inr fine ↦ (fine, (hash, ground arith), ground arith, ground arith)
        ]
      ]

  -- A block that is closed has the next number and the end of its interval as its timestamp; it holds the
  -- inputs of exactly the blocks that it takes off the front of the queue, in their order, and each of
  -- these lies in the interval.
  pub get_next_block-Gathers :
      (s s' : Emulated D) (block : ChainData D)
      → get_next_block setup s ≡ (closed block, s')
      → Gathers s.latest_emulated_block_number s.queue block s'.queue
        × (s'.latest_emulated_block_number ≡ s.latest_emulated_block_number + 1)
  unfolding get_next_block
  get_next_block-Gathers s s' block h =
      let n = s.latest_emulated_block_number + 1 in
      let end_timestamp = calculate_boundary_timestamp setup n in
      let start = calculate_boundary_timestamp setup s.latest_emulated_block_number in
      elim (Bool-cases (ltb s.timestamp_lower_bound end_timestamp)) [
        | inl early ↦ absurd (ground arith)
        | inr over ↦
            let shifted = shift_blocks start end_timestamp s.queue in
            let (fine, (hash, same), left, counted) =
              close_block_form n shifted s s' block (ground arith) in
            let (whole, inside) = shift_blocks-append start end_timestamp s.queue fine in
            (
              (shifted.merged, rw left whole, rw same refl, rw same refl, rw same refl, inside),
              counted,
            )
      ]

  -- What a batch that ends without an error says of the queue before and after.
  abbrev pub Parts : Emulated D → List (ChainData D) → Emulated D → Type 0
  Parts s blocks s' =
      (submitted_of blocks ++ submitted_of s'.queue ≡ submitted_of s.queue)
      × (s'.latest_emulated_block_number ≡ s.latest_emulated_block_number + length blocks)

  Parts-closed :
      (s s1 s2 : Emulated D) (block : ChainData D) (blocks : List (ChainData D))
      → get_next_block setup s ≡ (closed block, s1)
      → Parts s1 blocks s2
      → Parts s (block ∷ blocks) s2
  unfolding flat_map
  Parts-closed s s1 s2 block blocks e (parts, counted) =
      let ((merged, whole, inputs, number, time, inside), next) =
        get_next_block-Gathers s s1 block e in
      (
        rw inputs (
            append_assoc (submitted_of merged) (submitted_of blocks) (submitted_of s2.queue)
            ∙ (ap (λ l. submitted_of merged ++ l) parts
                ∙ (sym (flat_map-append (λ (b : ChainData D). b.submitted_data) merged s1.queue)
                    ∙ ap submitted_of whole))),
        omega (arith, counted, next),
      )

  close_block_ends :
      (n : ℕ) (shifted : Shifted D) (s : Emulated D) → (close_block setup n shifted s).0 ≢ waits
  unfolding close_block
  close_block_ends n shifted s h = elim (Option-cases (calculate_hash setup shifted.merged n)) [
    | inl none_hash ↦ ground arith
    | inr (hash, e) ↦ ground arith
  ]

  get_next_block_waits : (s s1 : Emulated D) → get_next_block setup s ≡ (waits, s1) → s1 ≡ s
  unfolding get_next_block
  get_next_block_waits s s1 h =
      let n = s.latest_emulated_block_number + 1 in
      let shifted =
        shift_blocks (calculate_boundary_timestamp setup s.latest_emulated_block_number)
          (calculate_boundary_timestamp setup n) s.queue in
      ground (arith, close_block_ends n shifted s)

  extend-Parts :
      (s s' : Emulated D) (blocks : List (ChainData D)) (r : Next D × Emulated D)
      (later : List (ChainData D) × Bool × Emulated D)
      → get_next_block setup s ≡ r
      → (later.1 ≡ false → Parts r.1 later.0 later.2)
      → extend setup r later ≡ (blocks, false, s')
      → Parts s blocks s'
  unfolding flat_map
  extend-Parts s s' blocks (waits, s1) later e ih h =
      let same = get_next_block_waits s s1 e in (ground arith, ground arith)
  extend-Parts s s' blocks (out_of_order, s1) later e ih h = absurd (ground arith)
  extend-Parts s s' blocks (no_hash, s1) later e ih h = absurd (ground arith)
  extend-Parts s s' blocks (closed b, s1) (more, threw, s2) e ih h =
      let parts = Parts-closed s s1 s2 b more e (ih (ground arith)) in
      (ground (arith, parts.0), ground (arith, parts.1))

  batch_loop-Parts :
      (count : ℕ) (s : Emulated D)
      → (batch_loop setup count s).1 ≡ false
      → Parts s (batch_loop setup count s).0 (batch_loop setup count s).2
  unfolding batch_loop flat_map
  batch_loop-Parts zero s h = (refl, omega arith)
  batch_loop-Parts (suc count) s h =
      let s1 = (get_next_block setup s).1 in
      let r = batch_loop setup (suc count) s in
      extend-Parts s r.2 r.0 (get_next_block setup s) (batch_loop setup count s1) refl
        (batch_loop-Parts count s1) (ground (arith, h))

  -- Where a batch ends without an error, the inputs of its blocks, with those that are left on the queue,
  -- are those that were on the queue, in their order: none is lost, doubled or moved past another; and
  -- the latest emulated block has moved on by the number of blocks.
  pub get_next_block_batch-Parts :
      (block_height : ℕ) (s : Emulated D)
      → let (blocks, threw, s') = get_next_block_batch setup block_height s in
        threw ≡ false → Parts s blocks s'
  unfolding get_next_block_batch
  get_next_block_batch-Parts block_height s =
      batch_loop-Parts (if block_height == 1 then 1 else max_batch_size) s
