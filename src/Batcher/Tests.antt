-- ===== src/Batcher/Tests.antt =====
-- An address that may submit twice in a minute, and an input that is submitted, checked and posted.
use paima_engine.Base.{ℕ, ◌+◌, ◌≤◌, ◌≡◌, refl, true, false, none, some, List, [], ◌∷◌, arith, All}
use paima_engine.Concise.Batch.{Text, pack_input}
use paima_engine.Batcher.Keyed.{find_key, update_key}
use paima_engine.Batcher.Limits.{
  utc_day, is_same_day, is_same_minute, Limits, authenticate_known, authenticate_entry,
  authenticate_user_address,
}
use paima_engine.Batcher.Limits.Rows.{utc_minute}
use paima_engine.Batcher.Limits.Bound.{allowed_times, count_in, allowed_times_bounded}
use paima_engine.Batcher.Store.{accepted, posted, GameInput, Store, new_state}
use paima_engine.Batcher.Submit.{UserRequest, BatcherEnv, World}
use paima_engine.Batcher.Handlers.{submit_user_input}
use paima_engine.Batcher.Rounds.{validation_round, posting_round, posting_rounds}
use paima_engine.Batcher.States.{state_of, state_of-new}
use paima_engine.Batcher.Queue.{hash_of}
use paima_engine.Batcher.Sound.{IsSound}
use paima_engine.Batcher.Batches.{FitsAlone}
use paima_engine.Batcher.Reach.{
  submitting, checking, posting, Reach, here, next, empty_store, reached-IsSound,
}
use paima_engine.Batcher.Drain.{posting_rounds_lem}

abbrev two_three : Limits
two_three = record { max_user_inputs_per_minute = 2; max_user_inputs_per_day = 3 }

abbrev alice : Text
alice = 97 ∷ []

-- The third one in the first minute is refused, and the one after the third of the day.
abbrev requests : List (ℕ × Text)
requests =
    (1000, alice)
    ∷ (2000, alice)
    ∷ (2000, 98 ∷ [])
    ∷ (59999, alice)
    ∷ (60000, alice)
    ∷ (120000, alice)
    ∷ []

three_allowed : allowed_times two_three alice requests [] ≡ 1000 ∷ 2000 ∷ 60000 ∷ []
unfolding allowed_times authenticate_user_address authenticate_entry authenticate_known is_same_day
    is_same_minute find_key update_key
three_allowed = refl

allowed_times_bounded_example :
    (count_in utc_minute 0 (allowed_times two_three alice requests []) ≤ 2)
    × (count_in utc_day 0 (allowed_times two_three alice requests []) ≤ 3)
allowed_times_bounded_example = allowed_times_bounded two_three alice requests 0 0 (ground arith)

abbrev env : BatcherEnv
env = record {
  limits = two_three;
  cardano_enabled_pools = none;
  self_signing_enabled = false;
  self_signing_api_key = [];
  recaptcha = record { backend = false; enabled = false; score = 0 };
}

abbrev world : World
world = record {
  keccak_256 = λ t. t;
  error_code_to_message = λ code. "error";
  crypto_verify_address = λ address_type address. true;
  crypto_verify_signature = λ address_type address message signature. true;
  read_namespaces = λ height. [] ∷ [];
  write_namespace = [];
  delegation_for_address = λ address. none;
  verify_captcha = λ captcha. none;
  current_block = λ now. 7;
  own_address_type = 1;
  own_address = 98 ∷ [];
  sign_message = λ message. message;
}

abbrev body : UserRequest
body = record {
  address_type = some 1;
  user_address = some alice;
  game_input = some (103 ∷ []);
  timestamp = some (55 ∷ []);
  user_signature = some (115 ∷ []);
  captcha = none;
}

abbrev digit : ℕ → Text
digit n = (48 + n) ∷ []

abbrev stored : Store
stored = (submit_user_input env world 1000 body empty_store).1

abbrev checked : Store
checked = validation_round world.keccak_256 (λ game_input user_address. some 0) stored

abbrev post : Text → List Text → ℕ × Text
post text hashes = (7, 116 ∷ [])

abbrev done : Store
done = (posting_round world.keccak_256 digit 100 (λ text hashes. some (post text hashes)) checked).1

reached : Reach env world.keccak_256 digit 100 empty_store done
reached =
    next
      (next (next here (submitting world refl 1000 body empty_store))
        (checking (λ game_input user_address. some 0) stored))
      (posting (λ text hashes. some (post text hashes)) checked)

reached-IsSound_example : IsSound world.keccak_256 done
reached-IsSound_example = reached-IsSound env world.keccak_256 digit 100 done reached

abbrev ready_input : GameInput
ready_input = record {
  id = 1;
  input = record {
    address_type = 1;
    user_address = alice;
    user_signature = 115 ∷ [];
    game_input = 103 ∷ [];
    millisecond_timestamp = 55 ∷ [];
  };
}

abbrev ready_store : Store
ready_store = record empty_store {
  input_states = new_state (hash_of world.keccak_256 ready_input) accepted ∷ [];
  validated = record { rows = ready_input ∷ []; next_id = 2 };
}

ready_store-IsSound : IsSound world.keccak_256 ready_store
ready_store-IsSound = record {
  waiting = record { in_state = tt; apart = tt; below = tt };
  ready = record {
    in_state = (state_of-new (hash_of world.keccak_256 ready_input) accepted [], tt);
    apart = (tt, tt);
    below = (omega arith, tt);
  };
  sent = tt;
  once = tt;
}

ready_store-FitsAlone : FitsAlone digit 100 ready_store.validated.rows
unfolding pack_input
ready_store-FitsAlone = (ground arith, tt)

abbrev emptied : Store
emptied =
    posting_rounds world.keccak_256 digit 100 (λ text hashes. some (post text hashes)) 1 ready_store

posting_rounds_lem_example :
    (emptied.validated.rows ≡ [])
    × All
        (λ (e : GameInput).
          state_of (hash_of world.keccak_256 e) emptied.input_states ≡ some posted)
        (ready_input ∷ [])
posting_rounds_lem_example =
    posting_rounds_lem world.keccak_256 digit 100 post ready_store ready_store-IsSound
      ready_store-FitsAlone
