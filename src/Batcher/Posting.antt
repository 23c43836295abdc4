-- ===== src/Batcher/Posting.antt =====
-- What a round of the transaction poster does with the inputs that are ready:
-- packages/batcher/batcher-transaction-poster/src/transactionPoster.ts.
use paima_engine.Base.{ℕ, ◌≡◌, refl, sym, ◌≢◌, some, List, [], ◌∷◌, ◌++◌, map, All, All-append}
use paima_engine.Concise.Batch.{Text}
use paima_engine.Batcher.Store.{
  InputState, validating, accepted, posted, StateRow, GameInput, BatcherHash, Store, row_hash,
}
use paima_engine.Batcher.Rounds.{
  input_of, take_ids, update_states, delete_ids, delete_posted_inputs,
}
use paima_engine.Batcher.States.{
  state_of, Keeps, state_of-update_state, state_of-update_state_other, Keeps-update_state,
}
use paima_engine.Batcher.Queue.{
  hash_of, IsQueue, IsQueue-Keeps, delete_rows-middle, IsQueue-middle, IsQueue-delete,
}
use paima_engine.Batcher.Sound.{AreOnce, ArePosted-Keeps, IsSound}

abbrev pub id_of : GameInput → ℕ
id_of row = row.id

pub AreOnce-append :
    (ms ns : List BatcherHash)
    → AreOnce ms
    → AreOnce ns
    → All (λ (m : BatcherHash). All (λ (n : BatcherHash). m.batch ≢ n.batch) ns) ms
    → AreOnce (ms ++ ns)
AreOnce-append [] ns a b h = b
AreOnce-append (m ∷ ms) ns a b h = (All-append _ ms ns a.0 h.0, AreOnce-append ms ns a.1 b h.1)

module _ (keccak_256 : Text → Text) where
  pub take_ids-front :
      (front left : List GameInput)
      → take_ids keccak_256 (map input_of front) (front ++ left)
        ≡ (map (hash_of keccak_256) front, map id_of front)
  unfolding take_ids
  take_ids-front [] left = refl
  take_ids-front (e ∷ front) left = rw (take_ids-front front left) refl

  module _ (f : StateRow → StateRow) (st : InputState)
      (keeps : (row : StateRow) → row_hash (f row) ≡ row_hash row)
      (sets : (row : StateRow) → (f row).current_state ≡ st) where
    -- The rows at the front leave, with their states set.
    abbrev pub leave_all : List GameInput → Store → Store
    leave_all front s = delete_posted_inputs (map id_of front) (record s {
      input_states = update_states f (map (hash_of keccak_256) front) s.input_states;
    })

    -- One row leaves.
    leave_one : GameInput → Store → Store
    leave_one e s = leave_all (e ∷ []) s

    leave_all-cons :
        (e : GameInput) (front : List GameInput) (s : Store)
        → leave_all (e ∷ front) s ≡ leave_all front (leave_one e s)
    unfolding leave_one update_states delete_ids
    leave_all-cons e front s = refl

    module _ (e : GameInput) (left : List GameInput) (s : Store) (sound : IsSound keccak_256 s)
        (found : s.validated.rows ≡ e ∷ left) where
      was_ready : IsQueue keccak_256 accepted s.input_states (e ∷ left) s.validated.next_id
      was_ready = rw (← found) sound.ready

      was_accepted : state_of (hash_of keccak_256 e) s.input_states ≡ some accepted
      was_accepted =
          IsQueue-middle keccak_256 accepted s.input_states [] e left s.validated.next_id was_ready

      leave_one-left : (leave_one e s).validated.rows ≡ left
      unfolding leave_one delete_ids
      leave_one-left = rw found (delete_rows-middle keccak_256 [] e left was_ready.apart).0

      others_kept :
          (other : InputState)
          → accepted ≢ other
          → Keeps other s.input_states (leave_one e s).input_states
      unfolding leave_one update_states
      others_kept other apart =
          Keeps-update_state f st keeps sets (hash_of keccak_256 e) s.input_states accepted other
            was_accepted apart

      now_set : state_of (hash_of keccak_256 e) (leave_one e s).input_states ≡ some st
      unfolding leave_one update_states
      now_set =
          state_of-update_state f st keeps sets (hash_of keccak_256 e) s.input_states accepted
            was_accepted

      leave_one-IsSound : IsSound keccak_256 (leave_one e s)
      unfolding leave_one update_states delete_ids
      leave_one-IsSound = record {
        waiting =
            IsQueue-Keeps keccak_256 validating s.input_states _ s.unvalidated.rows
              s.unvalidated.next_id (others_kept validating (λ p. absurd (cc p))) sound.waiting;
        ready = rw leave_one-left (
            IsQueue-delete keccak_256 accepted s.input_states _ [] e left s.validated.next_id
              (λ k apart.
                state_of-update_state_other f st keeps sets (hash_of keccak_256 e) k s.input_states
                  apart)
              was_ready);
        sent =
            ArePosted-Keeps s.input_states _ s.messages (others_kept posted (λ p. absurd (cc p)))
              sound.sent;
        once = sound.once;
      }

    -- The rows at the front leave one after the other.
    pub record IsLeft (front left : List GameInput) (s t : Store) : Type 0 where
      pub all_sound : IsSound keccak_256 t
      pub all_left : t.validated.rows ≡ left
      pub all_set :
          All (λ (e : GameInput). state_of (hash_of keccak_256 e) t.input_states ≡ some st) front
      pub still :
          (other : InputState) → accepted ≢ other → Keeps other s.input_states t.input_states

    pub leave_all-IsLeft :
        st ≢ accepted
        → (front left : List GameInput) (s : Store) → IsSound keccak_256 s
        → s.validated.rows ≡ front ++ left
        → IsLeft front left s (leave_all front s)
    unfolding update_states delete_ids
    leave_all-IsLeft other [] left s sound found = record {
      all_sound = record {
        waiting = sound.waiting;
        ready = sound.ready;
        sent = sound.sent;
        once = sound.once;
      };
      all_left = found;
      all_set = tt;
      still = λ o a k p. p;
    }
    leave_all-IsLeft other (e ∷ front) left s sound found =
        let rest =
          leave_all-IsLeft other front left (leave_one e s)
            (leave_one-IsSound e (front ++ left) s sound found)
            (leave_one-left e (front ++ left) s sound found) in
        rw (leave_all-cons e front s) (record {
          all_sound = rest.all_sound;
          all_left = rest.all_left;
          all_set = (
            rest.still st (λ p. other (sym p)) (hash_of keccak_256 e)
                (now_set e (front ++ left) s sound found),
            rest.all_set,
          );
          still = λ o a k p. rest.still o a k (others_kept e (front ++ left) s sound found o a k p);
        })
