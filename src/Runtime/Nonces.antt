-- ===== src/Runtime/Nonces.antt =====
-- Deleting old nonces: packages/node-sdk/paima-runtime/src/nonce-gc.ts.
pub mod Window
use paima_engine.Base.{ℕ, ◌+◌, ◌-◌, ◌*◌, ◌/◌, String, Bool, List, [], ◌∷◌, ltb, leb, if◌then◌else◌}

-- deleteNonces
unfoldable pub delete_nonces : (limit_block_height : ℕ) → List (String × ℕ) → List (String × ℕ)
delete_nonces limit_block_height [] = []
delete_nonces limit_block_height ((nonce, n) ∷ nonces) =
    let rest = delete_nonces limit_block_height nonces in
    if leb n limit_block_height then rest else (nonce, n) ∷ rest

abbrev pub nonce_gc_interval : ℕ
nonce_gc_interval = 21600

-- `Math.ceil(60 / ENV.BLOCK_TIME)`
abbrev pub blocks_per_minute : (block_time : ℕ) → ℕ
blocks_per_minute block_time = (60 + block_time - 1) / block_time

abbrev pub nonce_gc_lifetime : (block_time : ℕ) → ℕ
nonce_gc_lifetime block_time = 7 * 24 * 60 * blocks_per_minute block_time

abbrev pub max : ℕ → ℕ → ℕ
max a b = if leb a b then b else a

-- The next trigger, and the nonces. The database fails where `fails` holds, which is logged and leaves
-- them. A negative limit becomes 0, as the subtraction here has it.
unfoldable pub clean_nonces_if_time :
    (block_time : ℕ) (fails : Bool) (latest_processed_block_height nonce_gc_trigger : ℕ)
    → List (String × ℕ)
    → ℕ × List (String × ℕ)
clean_nonces_if_time block_time fails latest_processed_block_height nonce_gc_trigger nonces =
    if ltb latest_processed_block_height nonce_gc_trigger then (nonce_gc_trigger, nonces) else (
      max nonce_gc_trigger latest_processed_block_height + nonce_gc_interval,
      if fails
          then nonces
          else delete_nonces (latest_processed_block_height - nonce_gc_lifetime block_time) nonces,
    )
