-- ===== src/Batcher/Drain.antt =====
-- The inputs that are ready get posted: the loop of
-- packages/batcher/batcher-transaction-poster/src/transactionPoster.ts.
use paima_engine.Base.{
  ℕ, zero, suc, ◌≤◌, ◌≡◌, refl, sym, ap, ◌∙◌, ◌≢◌, some, List, [], ◌∷◌, ◌++◌, map, arith, length,
  length-append, All, All-append, All-mono,
}
use paima_engine.Concise.Batch.{Text}
use paima_engine.Batcher.Store.{posted, GameInput, Store}
use paima_engine.Batcher.Rounds.{after_posting, post_built, posting_round, posting_rounds}
use paima_engine.Batcher.States.{state_of, Keeps}
use paima_engine.Batcher.Queue.{hash_of}
use paima_engine.Batcher.Sound.{IsSound}
use paima_engine.Batcher.Posting.{id_of}
use paima_engine.Batcher.Batches.{FitsAlone, build_of_rows-IsBatch}
use paima_engine.Batcher.Posted.{posted_sound, posting_round-post_built}

All-back {ℓ κ} : {A : Type ℓ} (P : A → Type κ) (xs ys : List A) → All P (xs ++ ys) → All P ys
All-back P [] ys h = h
All-back P (x ∷ xs) ys h = All-back P xs ys h.1

length-left :
    (rows front left : List GameInput) (n : ℕ)
    → rows ≡ front ++ left
    → (rows ≢ [] → front ≢ [])
    → length rows ≤ suc n
    → length left ≤ n
length-left [] front left n d progress h =
    omega (arith, ap (λ (l : List GameInput). length l) d, length-append front left)
length-left (r ∷ rows) [] left n d progress h = absurd (progress (λ p. absurd (cc p)) refl)
length-left (r ∷ rows) (e ∷ front) left n d progress h =
    omega (arith, h, ap (λ (l : List GameInput). length l) d, length-append front left)

no_rows : (rows : List GameInput) → length rows ≤ 0 → rows ≡ []
no_rows [] h = refl
no_rows (e ∷ rows) h = absurd (omega (arith, h))

module _ (keccak_256 : Text → Text) (decimal : ℕ → Text) (max_size : ℕ)
    (post : Text → List Text → ℕ × Text) where
  -- Posting always succeeds.
  abbrev round : Store → Store
  round s = (posting_round keccak_256 decimal max_size (λ text hashes. some (post text hashes)) s).1

  abbrev rounds : ℕ → Store → Store
  rounds n s =
      posting_rounds keccak_256 decimal max_size (λ text hashes. some (post text hashes)) n s

  abbrev IsPosted : Store → GameInput → Type 0
  IsPosted s e = state_of (hash_of keccak_256 e) s.input_states ≡ some posted

  -- A round posts inputs at the front, some where there are any.
  record IsRound (s t : Store) : Type 0 where
    kept_sound : IsSound keccak_256 t
    front : List GameInput
    divided : s.validated.rows ≡ front ++ t.validated.rows
    posted_front : All (IsPosted t) front
    still : Keeps posted s.input_states t.input_states
    progress : s.validated.rows ≢ [] → front ≢ []

  post_built-IsRound :
      (text : Text) (front left : List GameInput) (s : Store)
      → IsSound keccak_256 s
      → s.validated.rows ≡ front ++ left
      → (s.validated.rows ≢ [] → (front ≢ []) × (text ≢ []))
      → IsRound s
          (post_built keccak_256 decimal max_size
            (λ t hashes. some (post t hashes))
            text
            (map (hash_of keccak_256) front)
            (map id_of front)
            s).1
  unfolding post_built after_posting
  post_built-IsRound [] front left s sound d progress = record {
    kept_sound = sound;
    front = [];
    divided = refl;
    posted_front = tt;
    still = λ k p. p;
    progress = λ some_rows. absurd ((progress some_rows).1 refl);
  }
  post_built-IsRound (c ∷ text) front left s sound d progress =
      let (height, hash) = post (c ∷ text) (map (hash_of keccak_256) front) in
      let done = posted_sound keccak_256 height hash front left s sound d in
      record {
        kept_sound = done.all_sound;
        front = front;
        divided = d ∙ ap (λ l. front ++ l) (sym done.all_left);
        posted_front = done.all_set;
        still = done.still posted (λ p. absurd (cc p));
        progress = λ some_rows. (progress some_rows).0;
      }

  posts-IsRound :
      (s : Store)
      → IsSound keccak_256 s
      → FitsAlone decimal max_size s.validated.rows
      → IsRound s
          (posting_round keccak_256 decimal max_size (λ text hashes. some (post text hashes)) s).1
  posts-IsRound s sound fits =
      let batch = build_of_rows-IsBatch keccak_256 decimal max_size s.validated.rows in
      rw
        (posting_round-post_built keccak_256 decimal max_size
          (λ text hashes. some (post text hashes)) s)
        (post_built-IsRound _ batch.front batch.left s sound batch.divided
          (λ some_rows. batch.progress some_rows fits))

  record IsDrained (s t : Store) : Type 0 where
    none_left : t.validated.rows ≡ []
    all_posted : All (IsPosted t) s.validated.rows
    posted_kept : Keeps posted s.input_states t.input_states

  rounds-IsDrained :
      (n : ℕ) (s : Store)
      → IsSound keccak_256 s
      → length s.validated.rows ≤ n
      → FitsAlone decimal max_size s.validated.rows
      → IsDrained s (rounds n s)
  unfolding posting_rounds
  rounds-IsDrained zero s sound h fits =
      let empty = no_rows s.validated.rows h in
      record { none_left = empty; all_posted = rw empty tt; posted_kept = λ k p. p }
  rounds-IsDrained (suc n) s sound h fits =
      let r = posts-IsRound s sound fits in
      let rest =
        rounds-IsDrained n (round s) r.kept_sound
          (length-left s.validated.rows r.front (round s).validated.rows n r.divided r.progress h)
          (All-back _ r.front (round s).validated.rows (rw (sym r.divided) fits)) in
      let later =
        All-append (IsPosted (rounds n (round s))) r.front (round s).validated.rows
          (All-mono _ _ r.front (λ e. λ p. rest.posted_kept (hash_of keccak_256 e) p)
            r.posted_front)
          rest.all_posted in
      record {
        none_left = rest.none_left;
        all_posted = rw (sym r.divided) at later;
        posted_kept = λ k p. rest.posted_kept k (r.still k p);
      }

  -- On sound tables, where each input that is ready fits in a batch alone and posting succeeds, as
  -- many rounds of posting as there are such inputs leave none, and all of them are posted.
  pub posting_rounds_lem :
      (s : Store)
      → IsSound keccak_256 s
      → FitsAlone decimal max_size s.validated.rows
      → let t =
          posting_rounds keccak_256 decimal max_size
            (λ text hashes. some (post text hashes))
            (length s.validated.rows)
            s in
        (t.validated.rows ≡ [])
        × All
            (λ (e : GameInput). state_of (hash_of keccak_256 e) t.input_states ≡ some posted)
            s.validated.rows
  posting_rounds_lem s sound fits =
      let drained = rounds-IsDrained (length s.validated.rows) s sound (omega arith) fits in
      (drained.none_left, drained.all_posted)
