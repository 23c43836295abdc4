-- ===== src/Cde/Erc1155.antt =====
-- The balances of ERC1155 tokens as a ledger: process_erc1155_transfer of
-- packages/node-sdk/paima-sm/src/cde-erc1155-transfer.ts with the queries that it gives rise to.
pub mod Posted
pub mod Processed
use mathlib.Core.Option
use paima_engine.Base.{
  ℕ, String, ◌≡◌, refl, fun_ext, inl, inr, Bool, Option, none, some, List, [], ◌∷◌, arith, str_eq,
  if◌then◌else◌, Bool-cases, ℤ, pos, negsuc, ◌+ℤ◌, ◌-ℤ◌, int_laws,
}
use paima_engine.Cde.Datum.{DatumBase, Erc1155TransferDatum}
use paima_engine.Cde.Rows.{
  Key, key_eq, key_eq_iff, Rows, find, delete_where, upsert_row, IsUnique, find-delete_where_ne,
  find-delete_where_self, find-upsert_row,
}
use paima_engine.Cde.Tables.{is_zero}
use paima_engine.Cde.Host.{Host, is_burn_address, zero_address}

-- The balance of a key, 0 where there is no row.
abbrev pub amount_of : Option ℤ → ℤ
amount_of none = pos 0
amount_of (some b) = b

abbrev pub balance_at : Rows ℤ → Key → ℤ
balance_at rows k = amount_of (find k rows)

-- A ledger changed at one key.
unfoldable pub credit : Key → ℤ → (Key → ℤ) → Key → ℤ
credit key value ledger k = if key_eq key k then ledger k +ℤ value else ledger k

zero_add : (v : ℤ) → pos 0 +ℤ v ≡ v
zero_add v = omega int_laws

-- What a query sees of an upsert that adds a value.
pub balance_at-upsert_row :
    (key : Key) (value : ℤ) (rows : Rows ℤ)
    → balance_at (upsert_row key value (λ b. b +ℤ value) rows) ≡ credit key value (balance_at rows)
unfolding credit
balance_at-upsert_row key value rows = fun_ext λ k.
    ground
      (arith, find-upsert_row key k value (λ b. b +ℤ value) rows, key_eq_iff key k, zero_add value)

amount_of-nonzero :
    (o : Option ℤ)
    → amount_of (elim o [ none ↦ none | some w ↦ (if is_zero w then none else some w) ])
      ≡ amount_of o
amount_of-nonzero none = refl
amount_of-nonzero (some (pos n)) = ground arith
amount_of-nonzero (some (negsuc n)) = refl

pub balance_at-delete_if_zero :
    (key : Key) (rows : Rows ℤ)
    → IsUnique rows
    → balance_at (delete_where key is_zero rows) ≡ balance_at rows
balance_at-delete_if_zero key rows u = fun_ext λ k. elim (Bool-cases (key_eq key k)) [
  | inl same ↦
      let e = (key_eq_iff key k).0 same in
      rw (← e) (rw (find-delete_where_self key is_zero rows u) (amount_of-nonzero (find key rows)))
  | inr other ↦
      rw
        (find-delete_where_ne key k is_zero rows
          (λ e. absurd (ground (arith, (key_eq_iff key k).1 e, other))))
        refl
]

abbrev pub balance_key : DatumBase → (token_id wallet : String) → Key
balance_key base token_id wallet = base.cde_name ∷ token_id ∷ wallet ∷ []

module _ {J : Type 0} (host : Host J) (d : Erc1155TransferDatum) where
  -- What a transfer means for the balances: the sender loses the value, where it is no mint, and the
  -- receiver gains it, where it is no burn.
  unfoldable pub ledger_after : List (String × ℕ) → (Key → ℤ) → Key → ℤ
  ledger_after [] ledger = ledger
  ledger_after ((token_id, value) ∷ items) ledger =
      let sender = balance_key d.base token_id (host.lower d.from) in
      let receiver = balance_key d.base token_id (host.lower d.to) in
      let sent =
        if str_eq d.from zero_address then ledger else credit sender (pos 0 -ℤ pos value) ledger in
      ledger_after items (if is_burn_address d.to then sent else credit receiver (pos value) sent)

  -- What it means for the record of burns.
  unfoldable pub burns_after : List (String × ℕ) → (Key → ℤ) → Key → ℤ
  burns_after [] burns = burns
  burns_after ((token_id, value) ∷ items) burns = burns_after items (
      if is_burn_address d.to
      then credit (balance_key d.base token_id (host.lower d.from)) (pos value) burns
      else burns)

abbrev pub StartsWith : Type 0
StartsWith = (base text : String) → Bool
