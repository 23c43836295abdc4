-- ===== src/Machine/Block/Table.antt =====
-- The table of blocks: the latest processed block, and what saving and finishing a block do to it.
use paima_engine.Base.{
  ℕ, ◌+◌, ◌≤◌, ◌<◌, String, ◌≡◌, refl, ◌⊎◌, inl, inr, none, some, List, [], ◌∷◌, arith, ◌==◌,
  Bool-cases, Option-cases, All,
}
use paima_engine.Machine.State.{BlockRow}
use paima_engine.Machine.Block.{save_last_block, block_height_done, latest_processed}

-- Every block that was processed is below `n`.
abbrev pub ProcessedBelow : ℕ → List BlockRow → Type 0
ProcessedBelow n = All (λ (b : BlockRow). (b.paima_block_hash ≡ none) ⊎ (b.block_height < n))

pub latest_processed-below :
    (n : ℕ) (blocks : List BlockRow) (b : BlockRow)
    → ProcessedBelow n blocks
    → latest_processed blocks ≡ some b
    → b.block_height < n
unfolding latest_processed
latest_processed-below n [] b h e = ground arith
latest_processed-below n (c ∷ blocks) b h e = elim (Option-cases c.paima_block_hash) [
  | inl undone ↦ ground (arith, latest_processed-below n blocks b h.1)
  | inr (hash, done) ↦ elim (Option-cases (latest_processed blocks)) [
    | inl first ↦ ground (arith, h.0)
    | inr (d, f) ↦ ground (arith, h.0, latest_processed-below n blocks d h.1 f)
  ]
]

-- Saving a block that is not done yet keeps the latest one.
pub latest_processed-save :
    (row : BlockRow) (blocks : List BlockRow)
    → row.paima_block_hash ≡ none
    → ProcessedBelow row.block_height blocks
    → latest_processed (save_last_block row blocks) ≡ latest_processed blocks
unfolding latest_processed save_last_block
latest_processed-save row [] undone h = ground arith
latest_processed-save row (c ∷ blocks) undone h =
    ground (arith, latest_processed-save row blocks undone h.1, h.0)

pub save_last_block-ProcessedBelow :
    (n : ℕ) (row : BlockRow) (blocks : List BlockRow)
    → row.paima_block_hash ≡ none
    → ProcessedBelow n blocks
    → ProcessedBelow n (save_last_block row blocks)
unfolding save_last_block
save_last_block-ProcessedBelow n row [] undone h = (inl undone, tt)
save_last_block-ProcessedBelow n row (c ∷ blocks) undone h =
    ground (arith, save_last_block-ProcessedBelow n row blocks undone h.1)

abbrev pub HasRow : ℕ → List BlockRow → Type 0
HasRow n [] = ⊥
HasRow n (b ∷ blocks) = (b.block_height ≡ n) ⊎ HasRow n blocks

pub save_last_block-HasRow :
    (row : BlockRow) (blocks : List BlockRow) → HasRow row.block_height (save_last_block row blocks)
unfolding save_last_block
save_last_block-HasRow row [] = inl refl
save_last_block-HasRow row (c ∷ blocks) = ground (arith, save_last_block-HasRow row blocks)

-- The latest block is `n`, with this hash.
abbrev pub IsLatest : ℕ → (hash : String) → List BlockRow → Type 0
IsLatest n hash blocks =
    (b : BlockRow) × (latest_processed blocks ≡ some b)
    × (b.block_height ≡ n)
    × (b.paima_block_hash ≡ some hash)

-- Of rows that are at most as high, this one is the latest.
IsLatest-top :
    (n : ℕ) (hash : String) (b : BlockRow) (blocks : List BlockRow)
    → b.block_height ≡ n
    → b.paima_block_hash ≡ some hash
    → ((c : BlockRow) → latest_processed blocks ≡ some c → c.block_height ≤ n)
    → IsLatest n hash (b ∷ blocks)
unfolding latest_processed
IsLatest-top n hash b blocks same done le = (
  b,
  elim (Option-cases (latest_processed blocks)) [
    | inl first ↦ ground arith
    | inr (c, e) ↦ ground (arith, le c e)
  ],
  same,
  done,
)

-- Where the row is further down, it is the latest if the rows before it are lower.
IsLatest-later :
    (n : ℕ) (hash : String) (b : BlockRow) (blocks : List BlockRow)
    → (b.paima_block_hash ≡ none) ⊎ (b.block_height < n)
    → IsLatest n hash blocks
    → IsLatest n hash (b ∷ blocks)
unfolding latest_processed
IsLatest-later n hash b blocks low (c, e, same, done) = (
  c,
  elim (Option-cases b.paima_block_hash) [ inl undone ↦ ground arith | inr (h, f) ↦ ground arith ],
  same,
  done,
)

block_height_done-at_most :
    (n : ℕ) (hash : String) (blocks : List BlockRow) (c : BlockRow)
    → ProcessedBelow n blocks
    → latest_processed (block_height_done n hash blocks) ≡ some c
    → c.block_height ≤ n
unfolding latest_processed block_height_done
block_height_done-at_most n hash [] c h e = ground arith
block_height_done-at_most n hash (b ∷ blocks) c h e =
    elim (Option-cases (latest_processed (block_height_done n hash blocks))) [
      | inl first ↦ ground (arith, h.0)
      | inr (d, f) ↦ ground (arith, h.0, block_height_done-at_most n hash blocks d h.1 f)
    ]

pub block_height_done-IsLatest :
    (n : ℕ) (hash : String) (blocks : List BlockRow)
    → ProcessedBelow n blocks
    → HasRow n blocks
    → IsLatest n hash (block_height_done n hash blocks)
unfolding block_height_done
block_height_done-IsLatest n hash [] h here = absurd here
block_height_done-IsLatest n hash (b ∷ blocks) h here = elim (Bool-cases (b.block_height == n)) [
  | inl same ↦ rw same (
      IsLatest-top n hash (record b { paima_block_hash = some hash })
        (block_height_done n hash blocks) (ground arith) refl
        (λ c e. block_height_done-at_most n hash blocks c h.1 e))
  | inr other ↦ rw other (
      IsLatest-later n hash b (block_height_done n hash blocks) h.0
        (block_height_done-IsLatest n hash blocks h.1 (ground (arith, here))))
]

-- What is done next finds the table as this block found it.
pub block_height_done-ProcessedBelow :
    (n : ℕ) (hash : String) (blocks : List BlockRow)
    → ProcessedBelow n blocks
    → ProcessedBelow (n + 1) (block_height_done n hash blocks)
unfolding block_height_done
block_height_done-ProcessedBelow n hash [] h = tt
block_height_done-ProcessedBelow n hash (b ∷ blocks) h =
    (ground (arith, h.0), block_height_done-ProcessedBelow n hash blocks h.1)
