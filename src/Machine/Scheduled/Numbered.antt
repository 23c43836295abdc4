-- ===== src/Machine/Scheduled/Numbered.antt =====
-- How the scheduled inputs of a block are numbered: `processScheduledData` of
-- packages/node-sdk/paima-sm/src/index.ts.
use paima_engine.Base.{ℕ, suc, ◌≡◌, Bool, true, false, some, List, [], ◌∷◌}
use paima_engine.Machine.State.{Scheduled, InputResult, Machine, Header, Env}

-- A row for each input in its order, the first with this number.
abbrev pub Recorded : (height first : ℕ) → List Scheduled → (old new : List InputResult) → Type 0
Recorded height first [] old new = new ≡ old
Recorded height first (s ∷ due) old new =
    (row : InputResult) × (row.id ≡ some s.id)
    × (row.block_height ≡ height)
    × (row.index_in_block ≡ first)
    × Recorded height (suc first) due (row ∷ old) new

-- Without history, no row is written.
abbrev pub RecordedIf :
    Bool → (height first : ℕ) → List Scheduled → (old new : List InputResult) → Type 0
RecordedIf true height first due old new = Recorded height first due old new
RecordedIf false height first due old new = new ≡ old

module _ {G Q F R : Type 0} (env : Env G Q F R) where
  -- What one input adds.
  abbrev IsAdded : Bool → Header → Scheduled → ℕ → (old new : List InputResult) → Type 0
  IsAdded true header s index old new =
      (row : InputResult) × (row.id ≡ some s.id)
      × (row.block_height ≡ header.block_height)
      × (row.index_in_block ≡ index)
      × (new ≡ row ∷ old)
  IsAdded false header s index old new = new ≡ old
