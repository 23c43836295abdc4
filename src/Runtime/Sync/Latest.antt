-- ===== src/Runtime/Sync/Latest.antt =====
-- The latest processed height is that of the highest block.
use paima_engine.Base.{ℕ, ◌+◌, ◌≤◌, ◌≡◌, inl, inr, none, some, List, [], ◌∷◌, arith, Option-cases}
use paima_engine.Machine.State.{BlockRow}
use paima_engine.Machine.Block.{latest_processed}
use paima_engine.Machine.Block.Table.{ProcessedBelow}
use paima_engine.Runtime.Sync.{latest_processed_block_height}

ProcessedBelow-mono :
    (n k : ℕ) (blocks : List BlockRow) → n ≤ k → ProcessedBelow n blocks → ProcessedBelow k blocks
ProcessedBelow-mono n k [] le h = tt
ProcessedBelow-mono n k (b ∷ blocks) le h =
    (ground (arith, h.0), ProcessedBelow-mono n k blocks le h.1)

none_processed :
    (n : ℕ) (blocks : List BlockRow) → latest_processed blocks ≡ none → ProcessedBelow n blocks
unfolding latest_processed
none_processed n [] e = tt
none_processed n (b ∷ blocks) e = elim (Option-cases b.paima_block_hash) [
  | inl undone ↦ (inl undone, none_processed n blocks (ground arith))
  | inr (h, done) ↦ elim (Option-cases (latest_processed blocks)) [
    | inl first ↦ absurd (ground arith)
    | inr (c, f) ↦ absurd (ground arith)
  ]
]

latest_is_top :
    (b : BlockRow) (blocks : List BlockRow)
    → latest_processed blocks ≡ some b
    → ProcessedBelow (b.block_height + 1) blocks
unfolding latest_processed
latest_is_top b [] e = tt
latest_is_top b (c ∷ blocks) e = elim (Option-cases c.paima_block_hash) [
  | inl undone ↦ (inl undone, latest_is_top b blocks (ground arith))
  | inr (h, done) ↦ elim (Option-cases (latest_processed blocks)) [
    | inl first ↦ (inr (ground arith), none_processed (b.block_height + 1) blocks first)
    | inr (d, f) ↦ (
      inr (ground arith),
      ProcessedBelow-mono (d.block_height + 1) (b.block_height + 1) blocks (ground arith)
          (latest_is_top d blocks f),
    )
  ]
]

-- Nothing is processed above the latest processed height.
pub ProcessedBelow-latest :
    (start : ℕ) (blocks : List BlockRow)
    → ProcessedBelow (latest_processed_block_height start blocks + 1) blocks
unfolding latest_processed_block_height
ProcessedBelow-latest start blocks = elim (Option-cases (latest_processed blocks)) [
  | inl first ↦ rw (first, latest_processed_block_height) (none_processed (start + 1) blocks first)
  | inr (b, e) ↦ rw (e, latest_processed_block_height) (latest_is_top b blocks e)
]
