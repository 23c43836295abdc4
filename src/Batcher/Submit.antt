-- ===== src/Batcher/Submit.antt =====
-- What the webserver does with requests: packages/batcher/webserver/src/index.ts and recaptcha.ts, with
-- validateUserInput of packages/batcher/address-validator/src/index.ts. Requests are taken one after the
-- other, while the batcher is not shutting down.
use paima_engine.Base.{
  ℕ, String, Bool, true, false, not, ◌&&◌, ◌||◌, Option, none, some, List, [], ◌∷◌, ◌++◌, ltb, leb,
  if◌then◌else◌,
}
use paima_engine.Concise.Batch.{Text, BatchedSubunit, text_eq}
use paima_engine.Batcher.Limits.{TrackingRow, Limits, authenticate_user_address}
use paima_engine.Batcher.Store.{InputState}

-- 48 and 120 are the code units of "0x".
unfoldable pub hash_batch_subunit : (keccak_256 : Text → Text) → BatchedSubunit → Text
hash_batch_subunit keccak_256 input =
    48 ∷ 120 ∷ keccak_256 (input.user_address ++ input.game_input ++ input.millisecond_timestamp)

-- createMessageForBatcher.
unfoldable pub batcher_message : (namespace input_data millisecond_timestamp : Text) → Text
batcher_message namespace input_data millisecond_timestamp =
    namespace ++ input_data ++ millisecond_timestamp

-- `code` is given where an input was found not to be valid.
pub data SubmitResponse : Type 0 where
  submitted : (hash : Text) → SubmitResponse
  failed : (status : ℕ) (message : String) (code : Option ℕ) → SubmitResponse

pub data TrackResponse : Type 0 where
  tracked : (hash : Text) (status : InputState) → TrackResponse
  tracked_rejected : (hash : Text) (message : String) → TrackResponse
  tracked_posted :
      (hash : Text) (block_height : Option ℕ) (transaction_hash : Option Text) → TrackResponse
  untracked : (status : ℕ) (message : String) (hash : Option Text) → TrackResponse

-- A property of a request's body may be absent; an empty value is as good as one that is missing.
pub record UserRequest : Type 0 where
  pub address_type : Option ℕ
  pub user_address : Option Text
  pub game_input : Option Text
  pub timestamp : Option Text
  pub user_signature : Option Text
  pub captcha : Option Text

pub record SelfSignedRequest : Type 0 where
  pub game_input : Option Text
  pub timestamp : Option Text
  pub api_key : Option Text

-- RECAPTCHA_V3_BACKEND, ENABLE_RECAPTCHA_V3 and RECAPTCHA_V3_SCORE, a score in hundredths.
pub record RecaptchaEnv : Type 0 where
  pub backend : Bool
  pub enabled : Bool
  pub score : ℕ

pub record BatcherEnv : Type 0 where
  pub limits : Limits
  pub cardano_enabled_pools : Option (List Text)
  pub self_signing_enabled : Bool
  pub self_signing_api_key : Text
  pub recaptcha : RecaptchaEnv

-- What the handlers ask others: the crypto managers by type of address, the namespaces at a height, the
-- pool that an address delegates to (none where the request fails), reCAPTCHA (success and score, or none
-- where the request fails), the chain's height, and the batcher's own wallet.
pub record World : Type 0 where
  pub keccak_256 : Text → Text
  pub error_code_to_message : ℕ → String
  pub crypto_verify_address : (address_type : ℕ) → Text → Bool
  pub crypto_verify_signature : (address_type : ℕ) → (address message signature : Text) → Bool
  pub read_namespaces : ℕ → List Text
  pub write_namespace : Text
  pub delegation_for_address : Text → Option (Option Text)
  pub verify_captcha : Text → Option (Bool × ℕ)
  pub current_block : ℕ → ℕ
  pub own_address_type : ℕ
  pub own_address : Text
  pub sign_message : Text → Text

abbrev pub given {ℓ} : {A : Type ℓ} → Option A → Bool
given none = false
given (some x) = true

abbrev pub or_empty : Option Text → Text
or_empty none = []
or_empty (some t) = t

abbrev pub or_unknown : Option ℕ → ℕ
or_unknown none = 0
or_unknown (some n) = n

-- EVM, CARDANO, POLKADOT, ALGORAND and MINA are 1 to 5, and 0 is UNKNOWN.
abbrev pub is_supported : (address_type : ℕ) → Bool
is_supported address_type = leb 1 address_type && leb address_type 5

-- True where no error is thrown.
unfoldable pub re_captcha_validation :
    RecaptchaEnv → (verify_captcha : Text → Option (Bool × ℕ)) → (captcha : Text) → Bool
re_captcha_validation env verify_captcha captcha =
    if not env.backend then true else elim (verify_captcha captcha) [
      | none ↦ false
      | some (success, score) ↦ success && not (env.enabled && ltb score env.score)
    ]

module _ (env : BatcherEnv) (world : World) where
  unfoldable pub validate_address : Text → (address_type : ℕ) → Bool
  validate_address address address_type =
      is_supported address_type && world.crypto_verify_address address_type address

  unfoldable pub signed_in_some : BatchedSubunit → List Text → Bool
  unfolding batcher_message
  signed_in_some input [] = false
  signed_in_some input (namespace ∷ namespaces) =
      let message = batcher_message namespace input.game_input input.millisecond_timestamp in
      is_supported input.address_type
        && world.crypto_verify_signature input.address_type input.user_address message
            input.user_signature
      || signed_in_some input namespaces

  abbrev pub signature_valid : BatchedSubunit → (height : ℕ) → Bool
  signature_valid input height = signed_in_some input (world.read_namespaces height)

  -- `!!pools.find(x => x === pool)`: an empty name that is found counts as not found.
  abbrev pub has_text : Option Text → List Text → Bool
  has_text o [] = false
  has_text o (t ∷ l) = elim o [
    | none ↦ false
    | some u ↦ (text_eq u t && not (text_eq t [])) || has_text o l
  ]

  -- The result is none where an error is thrown.
  unfoldable pub is_delegating_to_allowed_pools : Text → Option Bool
  is_delegating_to_allowed_pools user_address = elim env.cardano_enabled_pools [
    | none ↦ some true
    | some pools ↦ elim (world.delegation_for_address user_address) [
      | none ↦ none
      | some pool ↦ some (has_text pool pools)
    ]
  ]

  abbrev pub pools_code : Option Bool → Option ℕ
  pools_code none = none
  pools_code (some true) = some 0
  pools_code (some false) = some 4

  -- The code is 0 for a valid input, and none where an error is thrown.
  unfoldable pub validate_user_input :
      (now : ℕ) → BatchedSubunit → (height : ℕ) → List TrackingRow → Option ℕ × List TrackingRow
  unfolding validate_address signed_in_some is_delegating_to_allowed_pools
  validate_user_input now input height rows =
      let authenticated = authenticate_user_address env.limits now input.user_address rows in
      if not (validate_address input.user_address input.address_type)
      then (some 2, rows)
      else if not (signature_valid input height)
      then (some 3, rows)
      else if not authenticated.0
      then (some 4, authenticated.1)
      else (pools_code (is_delegating_to_allowed_pools input.user_address), authenticated.1)
