-- ===== src/Batcher/Handlers.antt =====
-- The handlers of the webserver: packages/batcher/webserver/src/index.ts. A handler returns its response
-- and the tables after it.
use paima_engine.Base.{ℕ, ◌-◌, not, ◌&&◌, Option, none, some, ltb, ◌==◌, if◌then◌else◌}
use paima_engine.Concise.Batch.{Text, BatchedSubunit, text_eq}
use paima_engine.Batcher.Store.{
  validating, rejected, accepted, posted, BlockHeightCache, Store, get_input_state, insert_state,
  insert_input,
}
use paima_engine.Batcher.Submit.{
  hash_batch_subunit, batcher_message, SubmitResponse, submitted, failed, TrackResponse, tracked,
  tracked_rejected, tracked_posted, untracked, UserRequest, SelfSignedRequest, BatcherEnv, World,
  given, or_empty, or_unknown, re_captcha_validation, validate_user_input,
}

module _ (env : BatcherEnv) (world : World) where
  unfoldable pub track_user_input : Option (Option Text) → Store → TrackResponse
  track_user_input none s = untracked 400 "Invalid request options" none
  track_user_input (some input_hash) s =
      let hash = or_empty input_hash in
      elim (get_input_state hash s.input_states) [
        | none ↦ untracked 200 "Hash not found" (some hash)
        | some result ↦ elim result.current_state [
          | rejected ↦
              tracked_rejected hash (world.error_code_to_message (or_unknown result.rejection_code))
          | posted ↦ tracked_posted hash result.block_height result.transaction_hash
          | accepted ↦ tracked hash accepted
          | validating ↦ tracked hash validating
        ]
      ]

  -- The height from the cache while it is not older than a minute. A height that is asked for is asked
  -- for until it is there.
  unfoldable pub cached_block_height : (now : ℕ) → BlockHeightCache → ℕ × BlockHeightCache
  cached_block_height now cache =
      if ltb (now - cache.time) 60000
      then (cache.height, cache)
      else (world.current_block now, record { height = world.current_block now; time = now })

  -- The insertion of an input that was found to be valid: what the `try` around it does.
  unfoldable pub insert_validating :
      BatchedSubunit → (captcha hash : Text) → Store → SubmitResponse × Store
  insert_validating input captcha hash s =
      if not (re_captcha_validation env.recaptcha world.verify_captcha captcha)
      then (failed 500 "Internal server error" none, s)
      else elim (insert_state hash validating s.input_states) [
        | none ↦ (failed 500 "Internal server error" none, s)
        | some input_states ↦ (
          submitted hash,
          record s { input_states = input_states; unvalidated = insert_input input s.unvalidated },
        )
      ]

  -- What follows the verdict on an input.
  unfoldable pub submit_validated :
      Option ℕ → BatchedSubunit → (captcha hash : Text) → Store → SubmitResponse × Store
  submit_validated none input captcha hash s =
      (failed 500 "Unknown server error, please contact batcher operator" none, s)
  submit_validated (some validity) input captcha hash s =
      if validity == 0
      then insert_validating input captcha hash s
      else (failed 400 (world.error_code_to_message validity) (some validity), s)

  unfoldable pub submit_input :
      (now : ℕ) → BatchedSubunit → (captcha : Text) → Store → SubmitResponse × Store
  submit_input now input captcha s =
      let hash = hash_batch_subunit world.keccak_256 input in
      let block_height = cached_block_height now s.block_height_cache in
      let verdict = validate_user_input env world now input block_height.0 s.user_tracking in
      if given (get_input_state hash s.input_states)
      then (failed 400 "Input has already been submitted" none, s)
      else submit_validated verdict.0 input captcha hash
          (record s { block_height_cache = block_height.1; user_tracking = verdict.1 })

  unfoldable pub submit_user_input : (now : ℕ) → UserRequest → Store → SubmitResponse × Store
  submit_user_input now body s =
      let input : BatchedSubunit = record {
        address_type = or_unknown body.address_type;
        user_address = or_empty body.user_address;
        user_signature = or_empty body.user_signature;
        game_input = or_empty body.game_input;
        millisecond_timestamp = or_empty body.timestamp;
      } in
      if not (
        given body.address_type
        && (given body.user_address
            && (given body.game_input && (given body.timestamp && given body.user_signature))))
      then (failed 400 "Invalid request options" none, s)
      else submit_input now input (or_empty body.captcha) s

  -- The batcher's own input, which is accepted as it is.
  unfoldable pub insert_accepted : BatchedSubunit → Store → SubmitResponse × Store
  insert_accepted input s =
      let hash = hash_batch_subunit world.keccak_256 input in
      if given (get_input_state hash s.input_states)
      then (failed 400 "Input has already been submitted" none, s)
      else elim (insert_state hash accepted s.input_states) [
        | none ↦ (failed 500 "Internal server error" none, s)
        | some input_states ↦ (
          submitted hash,
          record s { input_states = input_states; validated = insert_input input s.validated },
        )
      ]

  unfoldable pub submit_self_signed_input : SelfSignedRequest → Store → SubmitResponse × Store
  submit_self_signed_input body s =
      let game_input = or_empty body.game_input in
      let timestamp = or_empty body.timestamp in
      let message = batcher_message world.write_namespace game_input timestamp in
      let input : BatchedSubunit = record {
        address_type = world.own_address_type;
        user_address = world.own_address;
        user_signature = world.sign_message message;
        game_input = game_input;
        millisecond_timestamp = timestamp;
      } in
      if not env.self_signing_enabled
      then (failed 403 "Endpoint disabled" none, s)
      else if not (given body.game_input && (given body.timestamp && given body.api_key))
      then (failed 400 "Invalid request options" none, s)
      else if not (text_eq (or_empty body.api_key) env.self_signing_api_key)
      then (failed 403 "Invalid API key" none, s)
      else insert_accepted input s
