-- ===== src/Batcher/Submitted.antt =====
-- Requests keep the tables of the batcher sound: packages/batcher/webserver/src/index.ts.
use paima_engine.Base.{
  ℕ, ◌≡◌, inl, inr, ◌&&◌, Option, none, some, List, ◌∷◌, ◌==◌, Bool-cases, Option-cases,
}
use paima_engine.Concise.Batch.{Text, BatchedSubunit, text_eq}
use paima_engine.Batcher.Store.{
  InputState, validating, accepted, posted, StateRow, Store, get_input_state, new_state,
  insert_input,
}
use paima_engine.Batcher.Submit.{
  hash_batch_subunit, UserRequest, SelfSignedRequest, BatcherEnv, World, given, or_empty,
  re_captcha_validation, validate_user_input,
}
use paima_engine.Batcher.Handlers.{
  cached_block_height, insert_validating, submit_validated, submit_input, submit_user_input,
  insert_accepted, submit_self_signed_input,
}
use paima_engine.Batcher.States.{
  state_of, Keeps, insert_state-new, state_of-new, Keeps-new, given-state,
}
use paima_engine.Batcher.Queue.{IsQueue-Keeps, IsQueue-insert}
use paima_engine.Batcher.Sound.{ArePosted-Keeps, IsSound}

module _ (env : BatcherEnv) (world : World) where
  module _ (s : Store) (sound : IsSound world.keccak_256 s) (input : BatchedSubunit)
      (unknown : state_of (hash_batch_subunit world.keccak_256 input) s.input_states ≡ none) where
    abbrev hash : Text
    hash = hash_batch_subunit world.keccak_256 input

    abbrev with_state : InputState → List StateRow
    with_state st = new_state hash st ∷ s.input_states

    Keeps-all : (st other : InputState) → Keeps other s.input_states (with_state st)
    Keeps-all st other = Keeps-new hash st other s.input_states unknown

    waiting_more : IsSound world.keccak_256 (record s {
      input_states = with_state validating;
      unvalidated = insert_input input s.unvalidated;
    })
    waiting_more = record {
      waiting =
          IsQueue-insert world.keccak_256 validating s.input_states _ input s.unvalidated
            sound.waiting (Keeps-all validating validating) (λ p. absurd (cc (p, unknown)))
            (state_of-new hash validating s.input_states);
      ready =
          IsQueue-Keeps world.keccak_256 accepted s.input_states _ s.validated.rows
            s.validated.next_id (Keeps-all validating accepted) sound.ready;
      sent = ArePosted-Keeps s.input_states _ s.messages (Keeps-all validating posted) sound.sent;
      once = sound.once;
    }

    ready_more : IsSound world.keccak_256 (record s {
      input_states = with_state accepted;
      validated = insert_input input s.validated;
    })
    ready_more = record {
      waiting =
          IsQueue-Keeps world.keccak_256 validating s.input_states _ s.unvalidated.rows
            s.unvalidated.next_id (Keeps-all accepted validating) sound.waiting;
      ready =
          IsQueue-insert world.keccak_256 accepted s.input_states _ input s.validated sound.ready
            (Keeps-all accepted accepted) (λ p. absurd (cc (p, unknown)))
            (state_of-new hash accepted s.input_states);
      sent = ArePosted-Keeps s.input_states _ s.messages (Keeps-all accepted posted) sound.sent;
      once = sound.once;
    }

    insert_validating-IsSound :
        (captcha : Text)
        → IsSound world.keccak_256
            (insert_validating env world input captcha
              (hash_batch_subunit world.keccak_256 input)
              s).1
    unfolding insert_validating
    insert_validating-IsSound captcha =
        elim (Bool-cases (re_captcha_validation env.recaptcha world.verify_captcha captcha)) [
          | inr refused ↦ rw refused sound
          | inl passed ↦
              rw (passed, insert_state-new hash validating s.input_states unknown) waiting_more
        ]

    submit_validated-IsSound :
        (verdict : Option ℕ) (captcha : Text)
        → IsSound world.keccak_256
            (submit_validated env world verdict input captcha
              (hash_batch_subunit world.keccak_256 input)
              s).1
    unfolding submit_validated
    submit_validated-IsSound none captcha = sound
    submit_validated-IsSound (some code) captcha = elim (Bool-cases (code == 0)) [
      | inl ok ↦ rw ok (insert_validating-IsSound captcha)
      | inr bad ↦ rw bad sound
    ]

  submit_input-IsSound :
      (now : ℕ) (input : BatchedSubunit) (captcha : Text) (s : Store)
      → IsSound world.keccak_256 s
      → IsSound world.keccak_256 (submit_input env world now input captcha s).1
  unfolding submit_input
  submit_input-IsSound now input captcha s sound =
      let hash = hash_batch_subunit world.keccak_256 input in
      let block_height = cached_block_height env world now s.block_height_cache in
      let verdict = validate_user_input env world now input block_height.0 s.user_tracking in
      elim (Option-cases (get_input_state hash s.input_states)) [
        | inr (row, known) ↦ rw known sound
        | inl unknown ↦ rw unknown (
            submit_validated-IsSound
              (record s { block_height_cache = block_height.1; user_tracking = verdict.1 })
              (record {
                waiting = sound.waiting;
                ready = sound.ready;
                sent = sound.sent;
                once = sound.once;
              })
              input (given-state hash s.input_states unknown) verdict.0 captcha)
      ]

  insert_accepted-IsSound :
      (input : BatchedSubunit) (s : Store)
      → IsSound world.keccak_256 s
      → IsSound world.keccak_256 (insert_accepted env world input s).1
  unfolding insert_accepted
  insert_accepted-IsSound input s sound =
      let hash = hash_batch_subunit world.keccak_256 input in
      elim (Option-cases (get_input_state hash s.input_states)) [
        | inr (row, known) ↦ rw known sound
        | inl unknown ↦
            let new = given-state hash s.input_states unknown in
            rw (unknown, insert_state-new hash accepted s.input_states new)
              (ready_more s sound input new)
      ]

  pub submit_user_input-IsSound :
      (now : ℕ) (body : UserRequest) (s : Store)
      → IsSound world.keccak_256 s
      → IsSound world.keccak_256 (submit_user_input env world now body s).1
  unfolding submit_user_input
  submit_user_input-IsSound now body s sound =
      let complete =
        given body.address_type
        && (given body.user_address
            && (given body.game_input && (given body.timestamp && given body.user_signature))) in
      elim (Bool-cases complete) [
        | inl all ↦ rw all (submit_input-IsSound now _ (or_empty body.captcha) s sound)
        | inr some_missing ↦ rw some_missing sound
      ]

  pub submit_self_signed_input-IsSound :
      (body : SelfSignedRequest) (s : Store)
      → IsSound world.keccak_256 s
      → IsSound world.keccak_256 (submit_self_signed_input env world body s).1
  unfolding submit_self_signed_input insert_accepted
  submit_self_signed_input-IsSound body s sound = elim (Bool-cases env.self_signing_enabled) [
    | inr off ↦ rw off sound
    | inl on ↦
        rw on
          (elim (Bool-cases
            (given body.game_input && (given body.timestamp && given body.api_key))) [
              | inr part ↦ rw part sound
              | inl all ↦
                  rw all
                    (elim (Bool-cases (text_eq (or_empty body.api_key) env.self_signing_api_key)) [
                      | inr wrong ↦ rw wrong sound
                      | inl right ↦ rw right (insert_accepted-IsSound _ s sound)
                    ])
            ])
  ]
