-- ===== src/Batcher/Sound.antt =====
-- What the batcher keeps true of its tables when it takes requests and validates inputs:
-- packages/batcher/webserver/src/index.ts and packages/batcher/game-input-validator/src/index.ts.
use mathlib.Core.List.{append_assoc}
use paima_engine.Base.{
  ℕ, ◌≡◌, refl, sym, ◌∙◌, ◌≢◌, inl, inr, Option, none, some, List, [], ◌∷◌, ◌++◌, ◌==◌, Bool-cases,
  All, All-mono,
}
use paima_engine.Concise.Batch.{Text, BatchedSubunit}
use paima_engine.Batcher.Store.{
  InputState, validating, rejected, accepted, posted, StateRow, GameInput, InputTable, BatcherHash,
  Store, row_hash, set_accepted, set_rejected, update_state, insert_input, delete_rows,
  delete_input, select_rows, insert_all, validate_input,
}
use paima_engine.Batcher.Rounds.{settle_input, process_input, validation_loop, validation_round}
use paima_engine.Batcher.States.{
  state_of, Keeps, state_of-update_state, state_of-update_state_other, Keeps-update_state,
}
use paima_engine.Batcher.Queue.{
  hash_of, IsQueue, IsQueue-Keeps, IsQueue-insert, delete_rows-middle, IsQueue-middle,
  IsQueue-delete,
}

-- No two messages are about the same input.
abbrev pub AreOnce : List BatcherHash → Type 0
AreOnce [] = Unit
AreOnce (m ∷ ms) = All (λ (n : BatcherHash). m.batch ≢ n.batch) ms × AreOnce ms

abbrev pub ArePosted : List StateRow → List BatcherHash → Type 0
ArePosted states ms = All (λ (m : BatcherHash). state_of m.batch states ≡ some posted) ms

pub ArePosted-Keeps :
    (states after : List StateRow) (ms : List BatcherHash)
    → Keeps posted states after
    → ArePosted states ms
    → ArePosted after ms
ArePosted-Keeps states after ms keeps h = All-mono _ _ ms (λ m. λ p. keeps m.batch p) h

module _ (keccak_256 : Text → Text) where
  -- The inputs that wait are being validated, those that are ready are accepted, no input waits or is
  -- ready twice, and what messages were sent about is posted, and was posted once.
  pub record IsSound (s : Store) : Type 0 where
    pub waiting :
        IsQueue keccak_256 validating s.input_states s.unvalidated.rows s.unvalidated.next_id
    pub ready : IsQueue keccak_256 accepted s.input_states s.validated.rows s.validated.next_id
    pub sent : ArePosted s.input_states s.messages
    pub once : AreOnce s.messages

  insert_all-one :
      (input : BatchedSubunit) (id : ℕ) (table : InputTable)
      → insert_all (record { id = id; input = input } ∷ []) table ≡ insert_input input table
  unfolding insert_all
  insert_all-one input id table = refl

  module _ (s : Store) (sound : IsSound s) (e : GameInput) (kept rest : List GameInput)
      (found : s.unvalidated.rows ≡ kept ++ (e ∷ rest)) where
    was_waiting :
        IsQueue keccak_256 validating s.input_states (kept ++ (e ∷ rest)) s.unvalidated.next_id
    was_waiting = rw (← found) sound.waiting

    was_state : state_of (hash_of keccak_256 e) s.input_states ≡ some validating
    was_state =
        IsQueue-middle keccak_256 validating s.input_states kept e rest s.unvalidated.next_id
          was_waiting

    deleted :
        (delete_rows e.id s.unvalidated.rows ≡ kept ++ rest)
        × (select_rows e.id s.unvalidated.rows ≡ e ∷ [])
    deleted = rw found (delete_rows-middle keccak_256 kept e rest was_waiting.apart)

    module _ (f : StateRow → StateRow) (st : InputState)
        (keeps : (row : StateRow) → row_hash (f row) ≡ row_hash row)
        (sets : (row : StateRow) → (f row).current_state ≡ st) where
      abbrev after : List StateRow
      after = update_state f (hash_of keccak_256 e) s.input_states

      left_waiting :
          IsQueue keccak_256 validating after
            (delete_rows e.id s.unvalidated.rows)
            s.unvalidated.next_id
      left_waiting = rw deleted.0 (
          IsQueue-delete keccak_256 validating s.input_states after kept e rest
            s.unvalidated.next_id
            (λ k apart.
              state_of-update_state_other f st keeps sets (hash_of keccak_256 e) k s.input_states
                apart)
            was_waiting)

      others_kept : (other : InputState) → validating ≢ other → Keeps other s.input_states after
      others_kept other apart =
          Keeps-update_state f st keeps sets (hash_of keccak_256 e) s.input_states validating other
            was_state apart

      now_state : state_of (hash_of keccak_256 e) after ≡ some st
      now_state =
          state_of-update_state f st keeps sets (hash_of keccak_256 e) s.input_states validating
            was_state

    rejected-IsSound :
        (code : ℕ)
        → IsSound (record s {
          input_states = update_state (set_rejected code) (hash_of keccak_256 e) s.input_states;
          unvalidated = delete_input e.id s.unvalidated;
        })
    rejected-IsSound code =
        let others = others_kept (set_rejected code) rejected (λ row. refl) (λ row. refl) in
        record {
          waiting = left_waiting (set_rejected code) rejected (λ row. refl) (λ row. refl);
          ready =
              IsQueue-Keeps keccak_256 accepted s.input_states _ s.validated.rows
                s.validated.next_id (others accepted (λ p. absurd (cc p))) sound.ready;
          sent =
              ArePosted-Keeps s.input_states _ s.messages (others posted (λ p. absurd (cc p)))
                sound.sent;
          once = sound.once;
        }

    accepted-IsSound : IsSound (
        validate_input e.id (record s {
          input_states = update_state set_accepted (hash_of keccak_256 e) s.input_states;
        }))
    unfolding validate_input
    accepted-IsSound =
        let others = others_kept set_accepted accepted (λ row. refl) (λ row. refl) in
        record {
          waiting = left_waiting set_accepted accepted (λ row. refl) (λ row. refl);
          ready =
              rw (deleted.1, insert_all-one e.input e.id s.validated)
                (IsQueue-insert keccak_256 accepted s.input_states _ e.input s.validated sound.ready
                  (others accepted (λ p. absurd (cc p))) (λ p. absurd (cc (p, was_state)))
                  (now_state set_accepted accepted (λ row. refl) (λ row. refl)));
          sent =
              ArePosted-Keeps s.input_states _ s.messages (others posted (λ p. absurd (cc p)))
                sound.sent;
          once = sound.once;
        }

    record IsProcessed (t : Store) : Type 0 where
      kept_sound : IsSound t
      still : List GameInput
      left : t.unvalidated.rows ≡ still ++ rest

    settle_input-IsProcessed :
        (result : Option ℕ) → IsProcessed (settle_input keccak_256 result e s)
    unfolding settle_input validate_input
    settle_input-IsProcessed none = record {
      kept_sound = sound;
      still = kept ++ (e ∷ []);
      left = found ∙ sym (append_assoc kept (e ∷ []) rest);
    }
    settle_input-IsProcessed (some code) = elim (Bool-cases (code == 0)) [
      | inl ok ↦ rw ok (record { kept_sound = accepted-IsSound; still = kept; left = deleted.0 })
      | inr bad ↦
          rw bad (record { kept_sound = rejected-IsSound code; still = kept; left = deleted.0 })
    ]

    process_input-IsProcessed :
        (validate : (game_input user_address : Text) → Option ℕ)
        → IsProcessed (process_input keccak_256 validate e s)
    unfolding process_input
    process_input-IsProcessed validate =
        settle_input-IsProcessed (validate e.input.game_input e.input.user_address)

  validation_loop-IsSound :
      (validate : (game_input user_address : Text) → Option ℕ) (rest kept : List GameInput)
      (s : Store)
      → IsSound s
      → s.unvalidated.rows ≡ kept ++ rest
      → IsSound (validation_loop keccak_256 validate rest s)
  unfolding validation_loop
  validation_loop-IsSound validate [] kept s sound found = sound
  validation_loop-IsSound validate (e ∷ rest) kept s sound found =
      let done = process_input-IsProcessed s sound e kept rest found validate in
      validation_loop-IsSound validate rest done.still (process_input keccak_256 validate e s)
        done.kept_sound done.left

  pub validation_round-IsSound :
      (validate : (game_input user_address : Text) → Option ℕ) (s : Store)
      → IsSound s
      → IsSound (validation_round keccak_256 validate s)
  validation_round-IsSound validate s sound =
      validation_loop-IsSound validate s.unvalidated.rows [] s sound refl
