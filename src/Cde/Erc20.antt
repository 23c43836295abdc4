-- ===== src/Cde/Erc20.antt =====
-- The balances of ERC20 tokens: packages/node-sdk/paima-sm/src/cde-erc20-transfer.ts with the queries
-- that it gives rise to.
use mathlib.Core.Option
use paima_engine.Base.{
  ℕ, String, ◌≡◌, refl, ap, ◌∙◌, ◌↔◌, inl, inr, Bool, Option, none, some, List, [], ◌∷◌, ◌++◌,
  arith, if◌then◌else◌, Bool-cases, ℤ, pos, ◌+ℤ◌, ◌-ℤ◌, int_laws,
}
use paima_engine.Machine.State.{Scheduled}
use paima_engine.Cde.Datum.{DatumBase, Erc20TransferDatum}
use paima_engine.Cde.Update.{Update, erc20_insert_balance}
use paima_engine.Cde.Rows.{Key, key_eq, key_eq_iff, Rows, find, set_row, find-set_row}
use paima_engine.Cde.Tables.{Tables, run_token_update, run_other_update, run_update, run_updates}
use paima_engine.Cde.Tables.Laws.{run_updates-cons}
use paima_engine.Cde.Tables.Tokens.{run-erc20_insert}
use paima_engine.Cde.Host.{Host}
use paima_engine.Cde.Transition.Tokens.{debit_updates, credit_update, process_erc20_transfer}

abbrev pub amount_or_zero : Option ℤ → ℤ
amount_or_zero none = pos 0
amount_or_zero (some b) = b

abbrev pub wallet_key : {J : Type 0} → Host J → DatumBase → (wallet : String) → Key
wallet_key host base wallet = base.cde_name ∷ host.lower wallet ∷ []

-- The table after the sender's query and after the receiver's, by the balances that were read.
abbrev sent_rows : Key → ℕ → Option ℤ → Rows ℤ → Rows ℤ
sent_rows key value none rows = rows
sent_rows key value (some b) rows = set_row key (b -ℤ pos value) rows

abbrev received_rows : Key → ℕ → Option ℤ → Rows ℤ → Rows ℤ
received_rows key value none rows = (key, pos value) ∷ rows
received_rows key value (some b) rows = set_row key (b +ℤ pos value) rows

-- The balance of a key after a transfer.
abbrev pub row_after : (sender receiver : Key) → ℕ → Rows ℤ → Key → Option ℤ
row_after sender receiver value rows k =
    if key_eq receiver k
    then some (amount_or_zero (find receiver rows) +ℤ pos value)
    else if key_eq sender k
    then Option.map (λ b. b -ℤ pos value) (find sender rows)
    else find k rows

zero_add : (v : ℤ) → pos 0 +ℤ v ≡ v
zero_add v = omega int_laws

find-sent_rows :
    (sender k : Key) (value : ℕ) (rows : Rows ℤ) (o : Option ℤ)
    → find sender rows ≡ o
    → find k (sent_rows sender value o rows) ≡ (
        if key_eq sender k
        then Option.map (λ b. b -ℤ pos value) (find sender rows)
        else find k rows)
find-sent_rows sender k value rows none e = ground (arith, key_eq_iff sender k)
find-sent_rows sender k value rows (some b) e =
    ground (arith, key_eq_iff sender k, find-set_row sender k (b -ℤ pos value) rows)

map-none {ℓ} : {A B : Type ℓ} (f : A → B) (o : Option A) → (Option.map f o ≡ none) ↔ (o ≡ none)
map-none f none = (λ _. refl, λ _. refl)
map-none f (some a) = (λ h. cc, λ h. cc)

-- The sender's query makes and removes no row.
sent_rows-none :
    (sender k : Key) (value : ℕ) (rows : Rows ℤ)
    → (find k (sent_rows sender value (find sender rows) rows) ≡ none) ↔ (find k rows ≡ none)
sent_rows-none sender k value rows = elim (Bool-cases (key_eq sender k)) [
  | inl same ↦
      let e = (key_eq_iff sender k).0 same in
      rw (find-sent_rows sender k value rows (find sender rows) refl, same)
        (rw (← e) (map-none (λ b. b -ℤ pos value) (find sender rows)))
  | inr other ↦
      rw (find-sent_rows sender k value rows (find sender rows) refl, other) (λ h. h, λ h. h)
]

find-received_rows :
    (receiver k : Key) (value : ℕ) (rows : Rows ℤ) (o : Option ℤ)
    → ((find receiver rows ≡ none) ↔ (o ≡ none))
    → find k (received_rows receiver value o rows)
      ≡ (if key_eq receiver k then some (amount_or_zero o +ℤ pos value) else find k rows)
unfolding find
find-received_rows receiver k value rows none e = rw zero_add refl
find-received_rows receiver k value rows (some b) e =
    ground (arith, key_eq_iff receiver k, find-set_row receiver k (b +ℤ pos value) rows)

module _ {J : Type 0} (decimal : ℕ → String) (starts_with : (base text : String) → Bool)
    (name : String) where
  sent_ran :
      (wallet : String) (value : ℕ) (o : Option ℤ) (us : List (Update J)) (t : Tables J)
      (schedule : List Scheduled)
      → run_updates decimal starts_with (debit_updates name wallet value o ++ us) t schedule
        ≡ run_updates decimal starts_with us
            (record t { erc20 = sent_rows (name ∷ wallet ∷ []) value o t.erc20 })
            schedule
  unfolding run_updates run_update run_token_update run_other_update
  sent_ran wallet value none us t schedule = refl
  sent_ran wallet value (some b) us t schedule = refl

  received_ran :
      (wallet : String) (value : ℕ) (o : Option ℤ) (t : Tables J) (schedule : List Scheduled)
      → (o ≡ none → find (name ∷ wallet ∷ []) t.erc20 ≡ none)
      → run_updates decimal starts_with (credit_update name wallet value o ∷ []) t schedule
        ≡ some (record t { erc20 = received_rows (name ∷ wallet ∷ []) value o t.erc20 }, schedule)
  unfolding run_updates run_update run_token_update run_other_update
  received_ran wallet value none t schedule new =
      run_updates-cons decimal starts_with (erc20_insert_balance name wallet (pos value)) [] t
        (record t { erc20 = (name ∷ wallet ∷ [], pos value) ∷ t.erc20 }) schedule schedule
        (run-erc20_insert decimal starts_with name wallet t schedule (pos value) (new refl))
  received_ran wallet value (some b) t schedule new = refl

-- After a transfer, the receiver has the value more than before, a new row where there was none; the
-- sender, where it has a row and is not the receiver, has the value less; all other rows, and all other
-- tables, are as they were. A tracked wallet that sends to itself thus gains the value.
pub process_erc20_transfer_lem :
    {J : Type 0} (host : Host J) (decimal : ℕ → String) (starts_with : (base text : String) → Bool)
    (d : Erc20TransferDatum) (t : Tables J) (schedule : List Scheduled)
    → (rows : Rows ℤ) × (run_updates decimal starts_with
          (process_erc20_transfer host t.erc20 d)
          t
          schedule
        ≡ some (record t { erc20 = rows }, schedule))
      × ((k : Key)
          → find k rows
            ≡ row_after
                (wallet_key host d.base d.from)
                (wallet_key host d.base d.to)
                d.value
                t.erc20
                k)
unfolding process_erc20_transfer
process_erc20_transfer_lem host decimal starts_with d t schedule =
    let name = d.base.cde_name in
    let sender = wallet_key host d.base d.from in
    let receiver = wallet_key host d.base d.to in
    let before = find sender t.erc20 in
    let old = find receiver t.erc20 in
    let sent = sent_rows sender d.value before t.erc20 in
    let new = sent_rows-none sender receiver d.value t.erc20 in
    (
      received_rows receiver d.value old sent,
      sent_ran decimal starts_with name (host.lower d.from) d.value before
            (credit_update name (host.lower d.to) d.value old ∷ []) t schedule
          ∙ received_ran decimal starts_with name (host.lower d.to) d.value old
              (record t { erc20 = sent }) schedule new.1,
      λ k.
          find-received_rows receiver k d.value sent old new
          ∙ ap
              (λ (o : Option ℤ).
                if key_eq receiver k then some (amount_or_zero old +ℤ pos d.value) else o)
              (find-sent_rows sender k d.value t.erc20 before refl),
    )
