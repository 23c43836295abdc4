-- ===== src/Funnel/Emulated/Feeding.antt =====
-- Which blocks the queue takes: `feedData` and `validateFetchedBlocks` of
-- packages/node-sdk/paima-funnel/src/funnels/emulated/funnel.ts.
use mathlib.Core.List.{append-nil}
use paima_engine.Base.{
  ℕ, ◌+◌, ◌≤◌, ◌≡◌, refl, inl, inr, true, false, Option, none, some, List, [], ◌∷◌, ◌++◌, arith,
  Bool-cases, Option-cases,
}
use paima_engine.Chain.{ChainData}
use paima_engine.Funnel.Emulated.{
  Setup, Emulated, validate_fetched_blocks, last_block, queue_blocks, raise_bound, feed_data,
}
use paima_engine.Funnel.Emulated.Order.{IsOrdered, feed_data-IsOrdered}

-- From a timestamp and a number on, no block is older than the one before, and each has the next number.
abbrev pub Follows : {D : Type 0} → (timestamp block_number : ℕ) → List (ChainData D) → Type 0
Follows timestamp block_number [] = Unit
Follows timestamp block_number (b ∷ blocks) =
    (timestamp ≤ b.timestamp)
    × (b.block_number ≡ block_number + 1)
    × Follows b.timestamp b.block_number blocks

-- The numbers go on one by one, from behind this one up to that one.
abbrev pub Counts : {D : Type 0} → (from to : ℕ) → List (ChainData D) → Type 0
Counts from to [] = from ≡ to
Counts from to (b ∷ blocks) = (b.block_number ≡ from + 1) × Counts b.block_number to blocks

validate-Follows :
    {D : Type 0} (t n : ℕ) (blocks : List (ChainData D))
    → validate_fetched_blocks t n blocks ≡ true
    → Follows t n blocks
unfolding validate_fetched_blocks
validate-Follows t n [] h = tt
validate-Follows t n (b ∷ blocks) h =
    ground (arith, validate-Follows b.timestamp b.block_number blocks)

Follows-validate :
    {D : Type 0} (t n : ℕ) (blocks : List (ChainData D))
    → Follows t n blocks
    → validate_fetched_blocks t n blocks ≡ true
unfolding validate_fetched_blocks
Follows-validate t n [] h = refl
Follows-validate t n (b ∷ blocks) h =
    ground (arith, h.0, h.1, Follows-validate b.timestamp b.block_number blocks h.2)

Counts-append :
    {D : Type 0} (from t : ℕ) (n : ℕ) (queue : List (ChainData D)) (b : ChainData D)
    (blocks : List (ChainData D))
    → Counts from n queue
    → Follows t n (b ∷ blocks)
    → Counts from (last_block b blocks).block_number (queue ++ b ∷ blocks)
Counts-append from t n [] b [] c f = (cc (c, f.1), refl)
Counts-append from t n [] b (d ∷ blocks) c f =
    (cc (c, f.1), Counts-append b.block_number b.timestamp b.block_number [] d blocks refl f.2)
Counts-append from t n (q ∷ queue) b blocks c f =
    (c.0, Counts-append q.block_number t n queue b blocks c.1 f)

module _ {D : Type 0} (setup : Setup D) where
  -- What feeding comes to: blocks that do not follow are refused, the others are on the queue.
  abbrev pub IsFed : (from : ℕ) → List (ChainData D) → Emulated D → Option (Emulated D) → Type 0
  IsFed from blocks s none =
      ¬ Follows s.latest_fetched_timestamp s.latest_fetched_block_number blocks
  IsFed from blocks s (some s') =
      Follows s.latest_fetched_timestamp s.latest_fetched_block_number blocks
      × (s'.queue ≡ s.queue ++ blocks)
      × IsOrdered setup s'
      × Counts from s'.latest_fetched_block_number s'.queue

  module _ (current_timestamp from : ℕ) (s : Emulated D) (ordered : IsOrdered setup s)
      (counted : Counts from s.latest_fetched_block_number s.queue) where
    feed_data-none :
        (blocks : List (ChainData D))
        → feed_data setup current_timestamp blocks false s ≡ none
        → IsFed from blocks s none
    unfolding feed_data queue_blocks
    feed_data-none [] e = absurd (ground arith)
    feed_data-none (b ∷ blocks) e = λ f. absurd (
        ground (
          arith,
          Follows-validate s.latest_fetched_timestamp s.latest_fetched_block_number (b ∷ blocks) f,
        ))

    feed_data-some :
        (blocks : List (ChainData D)) (s' : Emulated D)
        → feed_data setup current_timestamp blocks false s ≡ some s'
        → IsFed from blocks s (some s')
    unfolding feed_data queue_blocks raise_bound
    feed_data-some [] s' e =
        let kept = feed_data-IsOrdered setup current_timestamp [] s s' ordered e in
        (tt, ground (arith, append-nil s.queue), kept, ground (arith, counted))
    feed_data-some (b ∷ blocks) s' e =
        let kept = feed_data-IsOrdered setup current_timestamp (b ∷ blocks) s s' ordered e in
        elim (Bool-cases (
          validate_fetched_blocks s.latest_fetched_timestamp s.latest_fetched_block_number
            (b ∷ blocks))) [
              | inr bad ↦ absurd (ground arith)
              | inl valid ↦
                  let follows =
                    validate-Follows s.latest_fetched_timestamp s.latest_fetched_block_number
                      (b ∷ blocks) valid in
                  let counts =
                    Counts-append from s.latest_fetched_timestamp s.latest_fetched_block_number
                      s.queue b blocks counted follows in
                  (follows, ground arith, kept, ground (arith, counts))
            ]

  -- Where the queue of a node that has not caught up is in order, and its block numbers go on one
  -- by one up to the latest one that was fetched: blocks are refused exactly where one is older
  -- than the block before it, or does not have the next number; otherwise they are put behind the
  -- queue, which stays in order, with its numbers going on one by one.
  pub feed_data-IsFed :
      (current_timestamp from : ℕ) (blocks : List (ChainData D)) (s : Emulated D)
      → IsOrdered setup s
      → Counts from s.latest_fetched_block_number s.queue
      → IsFed from blocks s (feed_data setup current_timestamp blocks false s)
  feed_data-IsFed current_timestamp from blocks s ordered counted =
      elim (Option-cases (feed_data setup current_timestamp blocks false s)) [
        | inl refused ↦
            rw (refused, IsFed)
              (feed_data-none current_timestamp from s ordered counted blocks refused)
        | inr (s', e) ↦
            rw (e, IsFed) (feed_data-some current_timestamp from s ordered counted blocks s' e)
      ]
