-- ===== src/Funnel/Emulated/Order.antt =====
-- The blocks on the queue belong to intervals that are not closed.
use paima_engine.Base.{
  ℕ, ◌+◌, ◌≤◌, ◌≡◌, refl, ◌≢◌, inl, inr, true, false, some, List, [], ◌∷◌, ◌++◌, arith, ltb,
  Bool-cases, Option-cases,
}
use paima_engine.Chain.{ChainData}
use paima_engine.Funnel.Emulated.{
  Setup, Emulated, calculate_boundary_timestamp, validate_fetched_blocks, last_block, Shifted,
  shift_blocks, out_of_order, queue_blocks, raise_bound, feed_data, calculate_hash, close_block,
  get_next_block,
}

-- Timestamps rise along the list from this one on, and end at that one.
abbrev pub Rises : {D : Type 0} → (from to : ℕ) → List (ChainData D) → Type 0
Rises from to [] = from ≤ to
Rises from to (b ∷ queue) = (from ≤ b.timestamp) × Rises b.timestamp to queue

Rises-le : {D : Type 0} (from to : ℕ) (queue : List (ChainData D)) → Rises from to queue → from ≤ to
Rises-le from to [] h = h
Rises-le from to (b ∷ queue) h = omega (arith, h.0, Rises-le b.timestamp to queue h.1)

Rises-append :
    {D : Type 0} (from mid to : ℕ) (queue blocks : List (ChainData D))
    → Rises from mid queue
    → Rises mid to blocks
    → Rises from to (queue ++ blocks)
Rises-append from mid to [] [] h k = omega (arith, h, k)
Rises-append from mid to [] (b ∷ blocks) h k = (omega (arith, h, k.0), k.1)
Rises-append from mid to (b ∷ queue) blocks h k =
    (h.0, Rises-append b.timestamp mid to queue blocks h.1 k)

validate-Rises :
    {D : Type 0} (t n : ℕ) (b : ChainData D) (blocks : List (ChainData D))
    → validate_fetched_blocks t n (b ∷ blocks) ≡ true
    → Rises t (last_block b blocks).timestamp (b ∷ blocks)
unfolding validate_fetched_blocks
validate-Rises t n b [] h = (ground arith, omega arith)
validate-Rises t n b (c ∷ blocks) h =
    (ground arith, validate-Rises b.timestamp b.block_number c blocks (ground arith))

-- From an interval whose start is passed by every block of the queue, no block is out of order, and what
-- is left belongs to later intervals.
shift_blocks-Rises :
    {D : Type 0} (start end_timestamp from to : ℕ) (queue : List (ChainData D))
    → start ≤ from
    → Rises from to queue
    → end_timestamp ≤ to
    → let s = shift_blocks start end_timestamp queue in
      (s.out_of_order ≡ false) × Rises end_timestamp to s.rest
unfolding shift_blocks
shift_blocks-Rises start end_timestamp from to [] le h bound = (refl, bound)
shift_blocks-Rises start end_timestamp from to (b ∷ queue) le h bound = ground (
  arith,
  h.0,
  shift_blocks-Rises start end_timestamp b.timestamp to queue (omega (arith, h.0)) h.1 bound,
)

module _ {D : Type 0} (setup : Setup D) where
  -- The queue rises from the end of the last closed interval to the latest fetched timestamp, and the
  -- lower bound is not beyond that.
  pub record IsOrdered (s : Emulated D) : Type 0 where
    pub queue :
        Rises
          (calculate_boundary_timestamp setup s.latest_emulated_block_number)
          s.latest_fetched_timestamp
          s.queue
    pub bound : s.timestamp_lower_bound ≤ s.latest_fetched_timestamp

  queue_blocks-Rises :
      (blocks : List (ChainData D)) (s s' : Emulated D) (from : ℕ)
      → Rises from s.latest_fetched_timestamp s.queue
      → queue_blocks setup blocks s ≡ some s'
      → Rises from s'.latest_fetched_timestamp s'.queue
        × (s'.latest_emulated_block_number ≡ s.latest_emulated_block_number)
  unfolding queue_blocks
  queue_blocks-Rises [] s s' from h e = ground arith
  queue_blocks-Rises (b ∷ blocks) s s' from h e =
      elim (Bool-cases (
        validate_fetched_blocks s.latest_fetched_timestamp s.latest_fetched_block_number
          (b ∷ blocks))) [
            | inl valid ↦
                let risen =
                  Rises-append from s.latest_fetched_timestamp (last_block b blocks).timestamp
                    s.queue (b ∷ blocks) h
                    (validate-Rises s.latest_fetched_timestamp s.latest_fetched_block_number b
                      blocks valid) in
                ground (arith, risen)
            | inr bad ↦ absurd (ground arith)
          ]

  raise_bound-IsOrdered :
      (current_timestamp : ℕ) (s : Emulated D)
      → Rises
          (calculate_boundary_timestamp setup s.latest_emulated_block_number)
          s.latest_fetched_timestamp
          s.queue
      → IsOrdered (raise_bound setup current_timestamp false s)
  unfolding raise_bound
  raise_bound-IsOrdered current_timestamp s h = record { queue = h; bound = omega arith }

  -- Feeding a node that has not caught up keeps its queue in order.
  pub feed_data-IsOrdered :
      (current_timestamp : ℕ) (blocks : List (ChainData D)) (s s' : Emulated D)
      → IsOrdered s
      → feed_data setup current_timestamp blocks false s ≡ some s'
      → IsOrdered s'
  unfolding feed_data
  feed_data-IsOrdered current_timestamp blocks s s' h e =
      elim (Option-cases (queue_blocks setup blocks s)) [
        | inl refused ↦ absurd (ground arith)
        | inr (q, f) ↦
            let (risen, same) =
              queue_blocks-Rises blocks s q
                (calculate_boundary_timestamp setup s.latest_emulated_block_number) h.queue f in
            let ordered = raise_bound-IsOrdered current_timestamp q (rw same risen) in
            ground (arith, ordered)
      ]

  close_block-IsOrdered :
      (n : ℕ) (shifted : Shifted D) (s : Emulated D)
      → shifted.out_of_order ≡ false
      → Rises (calculate_boundary_timestamp setup n) s.latest_fetched_timestamp shifted.rest
      → s.timestamp_lower_bound ≤ s.latest_fetched_timestamp
      → let (next, s') = close_block setup n shifted s in (next ≢ out_of_order) × IsOrdered s'
  unfolding close_block
  close_block-IsOrdered n shifted s fine risen bound =
      elim (Option-cases (calculate_hash setup shifted.merged n)) [
        | inl none_hash ↦
            rw (fine, none_hash) (ground arith, record { queue = risen; bound = bound })
        | inr (hash, e) ↦ rw (fine, e) (ground arith, record { queue = risen; bound = bound })
      ]

  -- On a queue in order the next block never finds one out of order, and leaves the queue in order,
  -- whether it closes an interval, waits for its end or has no hash for it.
  pub get_next_block-IsOrdered :
      (s : Emulated D)
      → IsOrdered s
      → let (next, s') = get_next_block setup s in (next ≢ out_of_order) × IsOrdered s'
  unfolding get_next_block
  get_next_block-IsOrdered s h =
      let n = s.latest_emulated_block_number + 1 in
      let end_timestamp = calculate_boundary_timestamp setup n in
      let start = calculate_boundary_timestamp setup s.latest_emulated_block_number in
      elim (Bool-cases (ltb s.timestamp_lower_bound end_timestamp)) [
        | inl early ↦ rw early (ground arith, h)
        | inr over ↦
            let (fine, risen) =
              shift_blocks-Rises start end_timestamp start s.latest_fetched_timestamp s.queue
                (omega arith) h.queue (ground (arith, h.bound)) in
            rw over (
              close_block-IsOrdered n (shift_blocks start end_timestamp s.queue) s fine risen
                h.bound)
      ]
