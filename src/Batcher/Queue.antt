-- ===== src/Batcher/Queue.antt =====
-- A table of inputs all in one state, no input in it twice: what the batcher keeps true of its two tables
-- of inputs, packages/batcher/db/migrations/up.sql.
use paima_engine.Base.{
  ℕ, ◌<◌, ◌≡◌, refl, sym, ap, ◌∙◌, ◌≢◌, some, List, [], ◌∷◌, ◌++◌, arith, All, All-append, All-mono,
}
use paima_engine.Concise.Batch.{Text, BatchedSubunit}
use paima_engine.Batcher.Store.{
  InputState, StateRow, GameInput, InputTable, insert_input, delete_rows, select_rows,
}
use paima_engine.Batcher.Submit.{hash_batch_subunit}
use paima_engine.Batcher.States.{state_of, Keeps}

delete_absent :
    (id : ℕ) (rows : List GameInput)
    → All (λ (r : GameInput). id ≢ r.id) rows
    → delete_rows id rows ≡ rows
unfolding delete_rows
delete_absent id [] h = refl
delete_absent id (r ∷ rows) h = ground (arith, h.0, delete_absent id rows h.1)

select_absent :
    (id : ℕ) (rows : List GameInput)
    → All (λ (r : GameInput). id ≢ r.id) rows
    → select_rows id rows ≡ []
unfolding select_rows
select_absent id [] h = refl
select_absent id (r ∷ rows) h = ground (arith, h.0, select_absent id rows h.1)

module _ (keccak_256 : Text → Text) where
  abbrev pub hash_of : GameInput → Text
  hash_of row = hash_batch_subunit keccak_256 row.input

  -- Another input, with another id.
  abbrev pub IsApart : GameInput → GameInput → Type 0
  IsApart e r = (hash_of e ≢ hash_of r) × (e.id ≢ r.id)

  abbrev pub AreApart : List GameInput → Type 0
  AreApart [] = Unit
  AreApart (e ∷ rows) = All (IsApart e) rows × AreApart rows

  pub record IsQueue (st : InputState) (states : List StateRow) (rows : List GameInput)
      (next_id : ℕ) : Type 0 where
    pub in_state : All (λ (e : GameInput). state_of (hash_of e) states ≡ some st) rows
    pub apart : AreApart rows
    pub below : All (λ (e : GameInput). e.id < next_id) rows

  pub IsQueue-Keeps :
      (st : InputState) (states after : List StateRow) (rows : List GameInput) (next_id : ℕ)
      → Keeps st states after
      → IsQueue st states rows next_id
      → IsQueue st after rows next_id
  IsQueue-Keeps st states after rows next_id keeps q = record {
    in_state = All-mono _ _ rows (λ e. λ h. keeps (hash_of e) h) q.in_state;
    apart = q.apart;
    below = q.below;
  }

  AreApart-append :
      (rows : List GameInput) (e : GameInput)
      → AreApart rows
      → All (λ (r : GameInput). IsApart r e) rows
      → AreApart (rows ++ (e ∷ []))
  AreApart-append [] e a h = (tt, tt)
  AreApart-append (r ∷ rows) e a h =
      (All-append (IsApart r) rows (e ∷ []) a.0 (h.0, tt), AreApart-append rows e a.1 h.1)

  IsApart-new :
      (st : InputState) (states : List StateRow) (rows : List GameInput) (e : GameInput)
      → state_of (hash_of e) states ≢ some st
      → All (λ (r : GameInput). state_of (hash_of r) states ≡ some st) rows
      → All (λ (r : GameInput). r.id < e.id) rows
      → All (λ (r : GameInput). IsApart r e) rows
  IsApart-new st states [] e new s b = tt
  IsApart-new st states (r ∷ rows) e new s b = (
    (λ p. new (ap (λ h. state_of h states) (sym p) ∙ s.0), omega (arith, b.0)),
    IsApart-new st states rows e new s.1 b.1,
  )

  -- An input that was not in this state joins.
  pub IsQueue-insert :
      (st : InputState) (states after : List StateRow) (input : BatchedSubunit) (table : InputTable)
      → IsQueue st states table.rows table.next_id
      → Keeps st states after
      → state_of (hash_batch_subunit keccak_256 input) states ≢ some st
      → state_of (hash_batch_subunit keccak_256 input) after ≡ some st
      → IsQueue st after (insert_input input table).rows (insert_input input table).next_id
  unfolding insert_input
  IsQueue-insert st states after input table q keeps new now =
      let e : GameInput = record { id = table.next_id; input = input } in
      let kept = IsQueue-Keeps st states after table.rows table.next_id keeps q in
      record {
        in_state = All-append _ table.rows (e ∷ []) kept.in_state (now, tt);
        apart =
            AreApart-append table.rows e q.apart
              (IsApart-new st states table.rows e new q.in_state q.below);
        below =
            All-append _ table.rows (e ∷ [])
              (All-mono _ _ table.rows (λ r. λ h. omega (arith, h)) q.below) (omega arith, tt);
      }

  -- What is apart from a row in the middle.
  IsApart-middle :
      (kept : List GameInput) (e : GameInput) (rest : List GameInput)
      → AreApart (kept ++ (e ∷ rest))
      → All (IsApart e) (kept ++ rest) × AreApart (kept ++ rest)
  IsApart-middle [] e rest h = h
  IsApart-middle (r ∷ kept) e rest h =
      let later = IsApart-middle kept e rest h.1 in
      let (all, own) = without_middle kept h.0 in
      (((λ p. own.0 (sym p), λ p. own.1 (sym p)), later.0), (all, later.1))
    where
      without_middle :
          (kept : List GameInput)
          → All (IsApart r) (kept ++ (e ∷ rest))
          → All (IsApart r) (kept ++ rest) × IsApart r e
      without_middle [] h = (h.1, h.0)
      without_middle (u ∷ kept) h = let more = without_middle kept h.1 in ((h.0, more.0), more.1)

  delete_first :
      (e : GameInput) (rest : List GameInput)
      → All (λ (r : GameInput). e.id ≢ r.id) rest
      → (delete_rows e.id (e ∷ rest) ≡ rest) × (select_rows e.id (e ∷ rest) ≡ e ∷ [])
  unfolding delete_rows select_rows
  delete_first e rest h =
      (ground (arith, delete_absent e.id rest h), ground (arith, select_absent e.id rest h))

  delete_later :
      (e r : GameInput) (rows : List GameInput)
      → e.id ≢ r.id
      → (delete_rows e.id (r ∷ rows) ≡ r ∷ delete_rows e.id rows)
        × (select_rows e.id (r ∷ rows) ≡ select_rows e.id rows)
  unfolding delete_rows select_rows
  delete_later e r rows h = (ground (arith, h), ground (arith, h))

  delete_at :
      (kept : List GameInput) (e : GameInput) (rest : List GameInput)
      → All (IsApart e) (kept ++ rest)
      → (delete_rows e.id (kept ++ (e ∷ rest)) ≡ kept ++ rest)
        × (select_rows e.id (kept ++ (e ∷ rest)) ≡ e ∷ [])
  delete_at [] e rest h = delete_first e rest (All-mono _ _ rest (λ r. λ p. p.1) h)
  delete_at (r ∷ kept) e rest h =
      let step = delete_later e r (kept ++ (e ∷ rest)) h.0.1 in
      let later = delete_at kept e rest h.1 in
      (step.0 ∙ ap (λ (l : List GameInput). r ∷ l) later.0, step.1 ∙ later.1)

  -- A row in the middle can be told by its id.
  pub delete_rows-middle :
      (kept : List GameInput) (e : GameInput) (rest : List GameInput)
      → AreApart (kept ++ (e ∷ rest))
      → (delete_rows e.id (kept ++ (e ∷ rest)) ≡ kept ++ rest)
        × (select_rows e.id (kept ++ (e ∷ rest)) ≡ e ∷ [])
  delete_rows-middle kept e rest h = delete_at kept e rest (IsApart-middle kept e rest h).0

  All-middle {κ} :
      (P : GameInput → Type κ) (kept : List GameInput) (e : GameInput) (rest : List GameInput)
      → All P (kept ++ (e ∷ rest))
      → P e × All P (kept ++ rest)
  All-middle P [] e rest h = h
  All-middle P (r ∷ kept) e rest h =
      let later = All-middle P kept e rest h.1 in (later.0, (h.0, later.1))

  pub IsQueue-middle :
      (st : InputState) (states : List StateRow) (kept : List GameInput) (e : GameInput)
      (rest : List GameInput) (next_id : ℕ)
      → IsQueue st states (kept ++ (e ∷ rest)) next_id
      → state_of (hash_of e) states ≡ some st
  IsQueue-middle st states kept e rest next_id q = (All-middle _ kept e rest q.in_state).0

  -- It leaves, and its state may change.
  pub IsQueue-delete :
      (st : InputState) (states after : List StateRow) (kept : List GameInput) (e : GameInput)
      (rest : List GameInput) (next_id : ℕ)
      → ((k : Text) → hash_of e ≢ k → state_of k after ≡ state_of k states)
      → IsQueue st states (kept ++ (e ∷ rest)) next_id
      → IsQueue st after (kept ++ rest) next_id
  IsQueue-delete st states after kept e rest next_id others q =
      let (apart, among) = IsApart-middle kept e rest q.apart in
      record {
        in_state = both (kept ++ rest) apart (All-middle _ kept e rest q.in_state).1;
        apart = among;
        below = (All-middle _ kept e rest q.below).1;
      }
    where
      both :
          (rows : List GameInput)
          → All (IsApart e) rows
          → All (λ (r : GameInput). state_of (hash_of r) states ≡ some st) rows
          → All (λ (r : GameInput). state_of (hash_of r) after ≡ some st) rows
      both [] a h = tt
      both (r ∷ rows) a h = (others (hash_of r) a.0.0 ∙ h.0, both rows a.1 h.1)
