-- ===== src/Batcher/States.antt =====
-- The state of an input, as `input_states` tells it: packages/batcher/db/src/sql/queries.sql.
use paima_engine.Base.{
  ◌≡◌, refl, ap, ◌∙◌, ◌≢◌, inl, inr, false, Option, none, some, List, ◌∷◌, Bool-cases, Option-cases,
}
use paima_engine.Concise.Batch.{Text, text_eq}
use paima_engine.Concise.Split.{text_eq_sound, text_eq-same}
use paima_engine.Batcher.Keyed.{
  find_key-cons, find_key-cons_other, KeepsKey, find_key-update_key, find_key-update_key_other,
}
use paima_engine.Batcher.Store.{
  InputState, StateRow, row_hash, get_input_state, new_state, insert_state, update_state,
}

abbrev pub status : Option StateRow → Option InputState
status none = none
status (some row) = some row.current_state

unfoldable pub state_of : Text → List StateRow → Option InputState
state_of hash rows = status (get_input_state hash rows)

pub text_eq-apart : (t u : Text) → t ≢ u → text_eq t u ≡ false
text_eq-apart t u h = elim (Bool-cases (text_eq t u)) [
  | inl e ↦ absurd (h (text_eq_sound t u e))
  | inr e ↦ e
]

-- An input in this state stays in it.
abbrev pub Keeps : InputState → (rows after : List StateRow) → Type 0
Keeps st rows after = (k : Text) → state_of k rows ≡ some st → state_of k after ≡ some st

module _ (f : StateRow → StateRow) (st : InputState) (keeps : KeepsKey row_hash f)
    (sets : (row : StateRow) → (f row).current_state ≡ st) where
  pub state_of-update_state :
      (h : Text) (rows : List StateRow) (was : InputState)
      → state_of h rows ≡ some was
      → state_of h (update_state f h rows) ≡ some st
  unfolding state_of
  state_of-update_state h rows was p = elim (Option-cases (get_input_state h rows)) [
    | inl new ↦ absurd (cc (rw new at p))
    | inr (row, found) ↦
        ap status (find_key-update_key row_hash f h rows row keeps found)
        ∙ ap (λ (x : InputState). some x) (sets row)
  ]

  pub state_of-update_state_other :
      (h k : Text) (rows : List StateRow)
      → h ≢ k
      → state_of k (update_state f h rows) ≡ state_of k rows
  unfolding state_of
  state_of-update_state_other h k rows apart =
      ap status (find_key-update_key_other row_hash f k h rows keeps (text_eq-apart h k apart))

  pub Keeps-update_state :
      (h : Text) (rows : List StateRow) (was other : InputState)
      → state_of h rows ≡ some was
      → was ≢ other
      → Keeps other rows (update_state f h rows)
  Keeps-update_state h rows was other p apart k q =
      state_of-update_state_other h k rows (λ e. apart (cc (e, p, q))) ∙ q

-- insertState, for a hash that is not in the table.
pub insert_state-new :
    (h : Text) (st : InputState) (rows : List StateRow)
    → state_of h rows ≡ none
    → insert_state h st rows ≡ some (new_state h st ∷ rows)
unfolding insert_state state_of
insert_state-new h st rows p = elim (Option-cases (get_input_state h rows)) [
  | inl new ↦ rw (new, insert_state) refl
  | inr (row, found) ↦ absurd (cc (rw found at p))
]

pub state_of-new :
    (h : Text) (st : InputState) (rows : List StateRow)
    → state_of h (new_state h st ∷ rows) ≡ some st
unfolding state_of
state_of-new h st rows = ap status (find_key-cons row_hash h (new_state h st) rows (text_eq-same h))

pub Keeps-new :
    (h : Text) (st other : InputState) (rows : List StateRow)
    → state_of h rows ≡ none
    → Keeps other rows (new_state h st ∷ rows)
unfolding state_of
Keeps-new h st other rows p k q =
    ap status (
      find_key-cons_other row_hash k (new_state h st) rows
        (text_eq-apart h k (λ e. absurd (cc (e, p, q)))))
    ∙ q

pub given-state :
    (h : Text) (rows : List StateRow) → get_input_state h rows ≡ none → state_of h rows ≡ none
unfolding state_of
given-state h rows p = ap status p
