-- ===== src/Batcher/Reach.antt =====
-- What the batcher may come to, by requests and rounds in any order: packages/batcher.
use paima_engine.Base.{ℕ, ◌≡◌, Option, List, []}
use paima_engine.Concise.Batch.{Text}
use paima_engine.Batcher.Store.{Store}
use paima_engine.Batcher.Submit.{UserRequest, SelfSignedRequest, BatcherEnv, World}
use paima_engine.Batcher.Handlers.{submit_user_input, submit_self_signed_input}
use paima_engine.Batcher.Rounds.{validation_round, posting_round}
use paima_engine.Batcher.Sound.{IsSound, validation_round-IsSound}
use paima_engine.Batcher.Submitted.{submit_user_input-IsSound, submit_self_signed_input-IsSound}
use paima_engine.Batcher.Posted.{posting_round-IsSound}

-- What the batcher's surroundings answer may differ at each step, but not the hash.
pub data Step (env : BatcherEnv) (keccak_256 : Text → Text) (decimal : ℕ → Text) (max_size : ℕ)
    : Store → Store → Type 0 where
  submitting :
      (world : World)
      → world.keccak_256 ≡ keccak_256
      → (now : ℕ) (body : UserRequest) (s : Store)
      → Step env keccak_256 decimal max_size s (submit_user_input env world now body s).1
  self_signing :
      (world : World)
      → world.keccak_256 ≡ keccak_256
      → (body : SelfSignedRequest) (s : Store)
      → Step env keccak_256 decimal max_size s (submit_self_signed_input env world body s).1
  checking :
      (validate : (game_input user_address : Text) → Option ℕ) (s : Store)
      → Step env keccak_256 decimal max_size s (validation_round keccak_256 validate s)
  posting :
      (post_message : Text → List Text → Option (ℕ × Text)) (s : Store)
      → Step env keccak_256 decimal max_size s
          (posting_round keccak_256 decimal max_size post_message s).1

pub data Reach (env : BatcherEnv) (keccak_256 : Text → Text) (decimal : ℕ → Text) (max_size : ℕ)
    (s : Store) : Store → Type 0 where
  here : Reach env keccak_256 decimal max_size s s
  next :
      {t u : Store}
      → Reach env keccak_256 decimal max_size s t
      → Step env keccak_256 decimal max_size t u
      → Reach env keccak_256 decimal max_size s u

abbrev pub empty_store : Store
empty_store = record {
  input_states = [];
  unvalidated = record { rows = []; next_id = 1 };
  validated = record { rows = []; next_id = 1 };
  user_tracking = [];
  block_height_cache = record { height = 0; time = 0 };
  messages = [];
}

module _ (env : BatcherEnv) (keccak_256 : Text → Text) (decimal : ℕ → Text) (max_size : ℕ) where
  Step-IsSound :
      {s t : Store}
      → Step env keccak_256 decimal max_size s t
      → IsSound keccak_256 s
      → IsSound keccak_256 t
  Step-IsSound (submitting world same now body s) h =
      rw (← same) (submit_user_input-IsSound env world now body s (rw same h))
  Step-IsSound (self_signing world same body s) h =
      rw (← same) (submit_self_signed_input-IsSound env world body s (rw same h))
  Step-IsSound (checking validate s) h = validation_round-IsSound keccak_256 validate s h
  Step-IsSound (posting post_message s) h =
      posting_round-IsSound keccak_256 decimal max_size post_message s h

  empty-IsSound : IsSound keccak_256 empty_store
  empty-IsSound = record {
    waiting = record { in_state = tt; apart = tt; below = tt };
    ready = record { in_state = tt; apart = tt; below = tt };
    sent = tt;
    once = tt;
  }

  Reach-IsSound :
      {s t : Store}
      → IsSound keccak_256 s
      → Reach env keccak_256 decimal max_size s t
      → IsSound keccak_256 t
  Reach-IsSound h here = h
  Reach-IsSound h (next r st) = Step-IsSound st (Reach-IsSound h r)

  -- Whatever users submit and whatever the validator and the chain answer, from empty tables on:
  -- the inputs that wait are being validated, those that are ready are accepted, no input waits or
  -- is ready twice, and no two messages of posted inputs are about the same input, whose state is
  -- posted. Inputs are the same where their hashes are.
  pub reached-IsSound :
      (s : Store) → Reach env keccak_256 decimal max_size empty_store s → IsSound keccak_256 s
  reached-IsSound s r = Reach-IsSound empty-IsSound r
