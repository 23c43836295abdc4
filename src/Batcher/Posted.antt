-- ===== src/Batcher/Posted.antt =====
-- The tables of the batcher after a round of posting: postingRound of
-- packages/batcher/batcher-transaction-poster/src/transactionPoster.ts.
use paima_engine.Base.{
  ℕ, ◌≡◌, refl, ap, ◌≢◌, Option, none, some, List, [], ◌∷◌, ◌++◌, map, All, All-append, All-mono,
  All-front,
}
use paima_engine.Concise.Batch.{Text}
use paima_engine.Batcher.Store.{
  rejected, accepted, posted, StateRow, GameInput, BatcherHash, Store, set_rejected, set_posted,
}
use paima_engine.Batcher.Rounds.{
  build_of_rows, finalized, update_posted_states, reject_posted_states, delete_posted_inputs,
  after_posting, post_built, posting_round,
}
use paima_engine.Batcher.States.{state_of}
use paima_engine.Batcher.Queue.{hash_of, IsApart, AreApart, IsQueue}
use paima_engine.Batcher.Sound.{AreOnce, ArePosted, IsSound}
use paima_engine.Batcher.Posting.{id_of, AreOnce-append, IsLeft, leave_all-IsLeft}
use paima_engine.Batcher.Batches.{build_of_rows-IsBatch}

module _ (keccak_256 : Text → Text) where
  AreApart-front :
      (front left : List GameInput)
      → AreApart keccak_256 (front ++ left)
      → AreApart keccak_256 front
  AreApart-front [] left h = tt
  AreApart-front (e ∷ front) left h =
      (All-front (IsApart keccak_256 e) front left h.0, AreApart-front front left h.1)

  module _ (block_height : ℕ) (transaction_hash : Text) where
    abbrev messages_of : List GameInput → List BatcherHash
    messages_of front =
        map (finalized block_height transaction_hash) (map (hash_of keccak_256) front)

    All-messages {κ} :
        (P : Text → Type κ) (front : List GameInput)
        → All (λ (e : GameInput). P (hash_of keccak_256 e)) front
        → All (λ (m : BatcherHash). P m.batch) (messages_of front)
    All-messages P [] h = tt
    All-messages P (e ∷ front) h = (h.0, All-messages P front h.1)

    AreOnce-messages :
        (front : List GameInput) → AreApart keccak_256 front → AreOnce (messages_of front)
    AreOnce-messages [] h = tt
    AreOnce-messages (e ∷ front) h = (
      All-messages (λ t. hash_of keccak_256 e ≢ t) front (All-mono _ _ front (λ r. λ p. p.0) h.0),
      AreOnce-messages front h.1,
    )

    -- What was posted before is not what is accepted now.
    new_messages :
        (states : List StateRow) (ms : List BatcherHash) (front : List GameInput)
        → ArePosted states ms
        → All (λ (e : GameInput). state_of (hash_of keccak_256 e) states ≡ some accepted) front
        → All
            (λ (m : BatcherHash). All (λ (n : BatcherHash). m.batch ≢ n.batch) (messages_of front))
            ms
    new_messages states [] front h a = tt
    new_messages states (m ∷ ms) front h a = (
      All-messages (λ t. m.batch ≢ t) front
          (All-mono _ _ front (λ e. λ p. λ q. absurd (cc (ap (λ k. state_of k states) q, h.0, p)))
            a),
      new_messages states ms front h.1 a,
    )

    pub posted_sound :
        (front left : List GameInput) (s : Store)
        → IsSound keccak_256 s
        → s.validated.rows ≡ front ++ left
        → IsLeft keccak_256
            (set_posted block_height transaction_hash)
            posted
            (λ row. refl)
            (λ row. refl)
            front
            left
            s
            (delete_posted_inputs (map id_of front) (
              update_posted_states
                (map (hash_of keccak_256) front)
                block_height
                transaction_hash
                s))
    posted_sound front left s sound found =
        let gone =
          leave_all-IsLeft keccak_256 (set_posted block_height transaction_hash) posted
            (λ row. refl) (λ row. refl) (λ p. absurd (cc p)) front left s sound found in
        let ready : IsQueue keccak_256 accepted s.input_states (front ++ left) s.validated.next_id =
          rw (← found) sound.ready in
        record {
          all_sound = record {
            waiting = gone.all_sound.waiting;
            ready = gone.all_sound.ready;
            sent =
                All-append _ s.messages (messages_of front) gone.all_sound.sent
                  (All-messages _ front gone.all_set);
            once =
                AreOnce-append s.messages (messages_of front) sound.once
                  (AreOnce-messages front (AreApart-front front left ready.apart))
                  (new_messages s.input_states s.messages front sound.sent
                    (All-front _ front left ready.in_state));
          };
          all_left = gone.all_left;
          all_set = gone.all_set;
          still = gone.still;
        }

  rejected-IsSound :
      (front left : List GameInput) (s : Store)
      → IsSound keccak_256 s
      → s.validated.rows ≡ front ++ left
      → IsSound keccak_256 (
          delete_posted_inputs
            (map id_of front)
            (reject_posted_states (map (hash_of keccak_256) front) s))
  rejected-IsSound front left s sound found =
      (leave_all-IsLeft keccak_256 (set_rejected 1) rejected (λ row. refl) (λ row. refl)
        (λ p. absurd (cc p)) front left s sound found).all_sound

  after_posting-IsSound :
      (result : Option (ℕ × Text)) (front left : List GameInput) (s : Store)
      → IsSound keccak_256 s
      → s.validated.rows ≡ front ++ left
      → IsSound keccak_256
          (after_posting result (map (hash_of keccak_256) front) (map id_of front) s).1
  unfolding after_posting
  after_posting-IsSound none front left s sound found = rejected-IsSound front left s sound found
  after_posting-IsSound (some (height, hash)) front left s sound found =
      (posted_sound height hash front left s sound found).all_sound

  module _ (decimal : ℕ → Text) (max_size : ℕ) where
    module _ (post_message : Text → List Text → Option (ℕ × Text)) where
      post_built-IsSound :
          (text : Text) (front left : List GameInput) (s : Store)
          → IsSound keccak_256 s
          → s.validated.rows ≡ front ++ left
          → IsSound keccak_256
              (post_built keccak_256 decimal max_size post_message text
                (map (hash_of keccak_256) front)
                (map id_of front)
                s).1
      unfolding post_built
      post_built-IsSound [] front left s sound found = sound
      post_built-IsSound (c ∷ text) front left s sound found =
          after_posting-IsSound (post_message (c ∷ text) (map (hash_of keccak_256) front)) front
            left s sound found

      -- The round takes the batch's rows.
      pub posting_round-post_built :
          (s : Store)
          → let batch = build_of_rows-IsBatch keccak_256 decimal max_size s.validated.rows in
            posting_round keccak_256 decimal max_size post_message s
            ≡ post_built keccak_256 decimal max_size post_message
                (build_of_rows keccak_256 decimal max_size s.validated.rows).0
                (map (hash_of keccak_256) batch.front)
                (map id_of batch.front)
                s
      unfolding posting_round
      posting_round-post_built s =
          let batch = build_of_rows-IsBatch keccak_256 decimal max_size s.validated.rows in
          cc (batch.hashes, batch.ids)

      pub posting_round-IsSound :
          (s : Store)
          → IsSound keccak_256 s
          → IsSound keccak_256 (posting_round keccak_256 decimal max_size post_message s).1
      posting_round-IsSound s sound =
          let batch = build_of_rows-IsBatch keccak_256 decimal max_size s.validated.rows in
          rw (posting_round-post_built s)
            (post_built-IsSound _ batch.front batch.left s sound batch.divided)
