-- ===== src/Chain/Hash.antt =====
-- What the hashes of blocks and inputs are taken of: packages/paima-sdk/paima-chain-types/src/hash.ts.
-- `keccak_256` is a library's, and `decimal` writes a number into a template text.
use Prim.Native.String.{◌++◌ as append}
use paima_engine.Base.{ℕ, String, Option, none, some, List, [], ◌∷◌}

-- `PostExecutionBlockHeader`, whose version is 1.
pub record PostHeader : Type 0 where
  pub prev_block_hash : Option String
  pub main_chain_block_hash : String
  pub block_height : ℕ
  pub ms_timestamp : ℕ
  pub success_txs_hash : String
  pub failed_txs_hash : String

-- A null in a template text.
abbrev pub text_of : Option String → String
text_of none = "null"
text_of (some s) = s

-- `parts.join('|')`
unfoldable pub join : List String → String
join [] = ""
join (s ∷ []) = s
join (s ∷ t ∷ parts) = append s (append "|" (join (t ∷ parts)))

module _ (keccak_256 : String → String) where
  unfoldable pub hash_transactions : List String → String
  hash_transactions txs = keccak_256 (join txs)

  unfoldable pub gen_v1_block_header :
      (block_hash : String) (block_height ms_timestamp : ℕ) (prev_block_hash : Option String)
      (successful_txs failed_txs : List String)
      → PostHeader
  gen_v1_block_header block_hash block_height ms_timestamp prev_block_hash successful_txs
        failed_txs =
      record {
        prev_block_hash = prev_block_hash;
        main_chain_block_hash = block_hash;
        block_height = block_height;
        ms_timestamp = ms_timestamp;
        success_txs_hash = hash_transactions successful_txs;
        failed_txs_hash = hash_transactions failed_txs;
      }

  module _ (decimal : ℕ → String) where
    unfoldable pub hash_block_v1 : PostHeader → String
    unfolding join
    hash_block_v1 header = keccak_256 (
        join (
          "1"
          ∷ text_of header.prev_block_hash
          ∷ header.main_chain_block_hash
          ∷ decimal header.block_height
          ∷ decimal header.ms_timestamp
          ∷ header.success_txs_hash
          ∷ header.failed_txs_hash
          ∷ []))

    -- The first part ends with a brace that the template has too many.
    unfoldable pub hash_rollup_input :
        (caip2_prefix tx_hash : String) → (index_in_block : ℕ) → String
    unfolding join
    hash_rollup_input caip2_prefix tx_hash index_in_block =
        keccak_256 (join (append caip2_prefix "}" ∷ tx_hash ∷ decimal index_in_block ∷ []))

    unfoldable pub hash_timer_data :
        (address data_hash : String) → (block_height index_in_block : ℕ) → String
    unfolding join
    hash_timer_data address data_hash block_height index_in_block =
        keccak_256 (join (address ∷ data_hash ∷ decimal block_height ∷ decimal index_in_block ∷ []))
