-- ===== src/Funnel/Grouping.antt =====
-- Grouping the primitives' datums by block: `groupCdeData` and `groupEvmCdeData` of
-- packages/node-sdk/paima-funnel/src/utils.ts.
pub mod Reference
pub mod Sorted
use paima_engine.Base.{
  leb, ◌==◌, if◌then◌else◌, ℕ, zero, suc, ◌+◌, ◌-◌, String, List, [], ◌∷◌, ◌++◌,
}

-- `EvmPresyncChainData`, whose network type is always EVM here.
pub record PresyncBlock (T : Type 0) : Type 0 where
  pub caip2 : String
  pub block_number : ℕ
  pub extension_datums : List T

module _ {T : Type 0} (number : T → ℕ) where
  -- The `while` loop on one stream: what it shifts off, and what stays.
  shift_block : ℕ → List T → List T × List T
  shift_block n [] = ([], [])
  shift_block n (d ∷ stream) =
      let (taken, rest) = shift_block n stream in
      if number d == n then (d ∷ taken, rest) else ([], d ∷ stream)

  -- The `for` loop over the streams, in one round.
  shift_all : ℕ → List (List T) → List T × List (List T)
  unfolding shift_block
  shift_all n [] = ([], [])
  shift_all n (stream ∷ data_streams) =
      let (taken, rest) = shift_block n stream in
      let (more, rests) = shift_all n data_streams in (taken ++ more, rest ∷ rests)

  -- `count` rounds from `block_number` on.
  group_loop :
      (caip2 : String) (post : List T → List T) → ℕ → ℕ → List (List T) → List (PresyncBlock T)
  unfolding shift_all
  group_loop caip2 post zero block_number streams = []
  group_loop caip2 post (suc count) block_number streams =
      let (extension_datums, rests) = shift_all block_number streams in
      record {
        caip2 = caip2;
        block_number = block_number;
        extension_datums = post extension_datums;
      }
      ∷ group_loop caip2 post count (block_number + 1) rests

  -- `post` is `blockPostProcess`, the identity where the caller gives none.
  pub group_cde_data :
      (caip2 : String) (from_block to_block : ℕ)
      → List (List T)
      → (List T → List T)
      → List (PresyncBlock T)
  unfolding group_loop
  group_cde_data caip2 from_block to_block streams post =
      group_loop caip2 post (to_block + 1 - from_block) from_block streams

-- `ext.sort((a, b) => a.logIndex - b.logIndex)`: a stable sort by a key.
module _ {T : Type 0} (key : T → ℕ) where
  insert_by : T → List T → List T
  insert_by x [] = x ∷ []
  insert_by x (y ∷ l) = if leb (key x) (key y) then x ∷ y ∷ l else y ∷ insert_by x l

  unfoldable pub sort_by : List T → List T
  unfolding insert_by
  sort_by [] = []
  sort_by (x ∷ l) = insert_by x (sort_by l)

pub group_evm_cde_data :
    {T : Type 0} (number log_index : T → ℕ) (caip2 : String) (from_block to_block : ℕ)
    → List (List T)
    → List (PresyncBlock T)
unfolding group_cde_data sort_by
group_evm_cde_data number log_index caip2 from_block to_block streams =
    group_cde_data number caip2 from_block to_block streams (sort_by log_index)
