-- ===== src/Wallet/Commands/Progress.antt =====
-- Whose progress two wallets share after a delegation.
use paima_engine.Base.{
  ℕ, String, ◌≡◌, refl, sym, ap, ◌∙◌, ◌≢◌, inl, inr, none, some, str_eq, eq_iff, Bool-cases,
  Option-cases,
}
use paima_engine.Wallet.Tables.{Db, select_address, delegator_of}
use paima_engine.Wallet.Tables.Laws.{IsValid, select_id-nonempty}
use paima_engine.Wallet.Tables.Forest.{delegator_of-has_row, master_of}
use paima_engine.Wallet.Tables.Steps.{inserted, swapped, inserted-IsValid, swapped-IsValid}
use paima_engine.Wallet.Lookup.{WalletDelegate, Wallet, main_row, main_of}
use paima_engine.Wallet.Commands.{Result, ok, cmd_delegate}
use paima_engine.Wallet.Commands.Forms.{
  ne_of_select, cmd_delegate-same_new, cmd_delegate-both_exist,
}
use paima_engine.Wallet.Commands.Invariant.{row_cases}
use paima_engine.Wallet.Commands.Identity.{
  main_row-delegated, main_row-root, row_of_master, main_of-row, share-swap, share-add_to,
  share-add_both,
}

-- The id of an identity is that of the delegator, or the own one.
pub main_row-id :
    (i : ℕ) (a : String) (db : Db)
    → IsValid db
    → (main_row i a db).id ≡ some (master_of i db.delegations)
main_row-id i a db v = elim (Option-cases (delegator_of i db.delegations)) [
  | inl root ↦ rw (main_row-root i a db root) (rw (root, master_of) refl)
  | inr (m, e) ↦
      let (c, hc) =
        row_of_master m db (delegator_of-has_row i m db.addresses db.delegations v.keys e) in
      rw
        (main_row-delegated i m a c db e hc
          (select_id-nonempty db.next_id m c db.addresses v.rows hc))
        (rw (e, master_of) refl)
]

-- The identity under which both act has the progress: the id of "to" where "to" alone existed, and
-- that of "from" where it existed.
abbrev pub KeepsProgress : (from to : String) → (before after : Db) → Type 0
KeepsProgress from to before after =
    (select_address from before.addresses ≡ none
      → select_address to before.addresses ≢ none
      → (main_of from after).id ≡ (main_of to before).id)
    × (select_address from before.addresses ≢ none
        → (main_of from after).id ≡ (main_of from before).id)

abbrev pub Unified : (from to : String) → (before after : Db) → Type 0
Unified from to before after =
    (main_of from after ≡ main_of to after) × KeepsProgress from to before after

module _ (from to : String) (w : Wallet) (v : IsValid w.db) (fs : from ≢ "") (ts : to ≢ "") where
  Unified-swap :
      (i : ℕ)
      → select_address from w.db.addresses ≡ none
      → select_address to w.db.addresses ≡ some (i, to)
      → Unified from to w.db (cmd_delegate from to w).1.db
  Unified-swap i hf ht =
      let (pf, pt) = share-swap from to w v fs ts i hf ht in
      let vs =
        swapped-IsValid from to w.db v (ne_of_select from to i w.db.addresses hf ht) fs ts hf in
      (
        pf ∙ sym pt,
        (
          λ _ _.
              ap (λ (x : WalletDelegate). x.id) pf
              ∙ main_row-id i from (swapped from to w.db) vs
              ∙ sym (
                  ap (λ (x : WalletDelegate). x.id) (main_of-row to i w.db ht)
                  ∙ main_row-id i to w.db v),
          λ ne. absurd (ne hf),
        ),
      )

  Unified-add_to :
      (i : ℕ)
      → select_address from w.db.addresses ≡ some (i, from)
      → select_address to w.db.addresses ≡ none
      → Unified from to w.db (cmd_delegate from to w).1.db
  Unified-add_to i hf ht =
      let (pf, pt) = share-add_to from to w v fs ts i hf ht in
      (
        pf ∙ sym pt,
        (
          λ _ ne. absurd (ne ht),
          λ _.
              ap (λ (x : WalletDelegate). x.id) pf
              ∙ main_row-id i from (inserted to w.db) (inserted-IsValid to w.db v ts ht)
              ∙ sym (
                  ap (λ (x : WalletDelegate). x.id) (main_of-row from i w.db hf)
                  ∙ main_row-id i from w.db v),
        ),
      )

  Unified-add_both :
      (cmd_delegate from to w).0 ≡ ok tt
      → select_address from w.db.addresses ≡ none
      → select_address to w.db.addresses ≡ none
      → Unified from to w.db (cmd_delegate from to w).1.db
  Unified-add_both done hf ht = elim (Bool-cases (str_eq from to)) [
    | inl same ↦ absurd (
        cc (
          done,
          (eq_iff from to).0 same,
          ap (λ (x : Result (Unit {0}) × Wallet). x.0) (cmd_delegate-same_new from w hf),
        ))
    | inr other ↦
        let ne : from ≢ to = λ e. cc (other, (eq_iff from to).1 e) in
        let (pf, pt) = share-add_both from to w v fs ts ne hf ht in
        (pf ∙ sym pt, ((λ _ n. absurd (n ht)), (λ n. absurd (n hf))))
  ]

  -- After a delegation that succeeds, on valid tables and for addresses that are not empty, both
  -- addresses have one main wallet; its id is that of "from" where "from" had one, and else that
  -- of "to" where "to" had one.
  pub cmd_delegate-Unified :
      (cmd_delegate from to w).0 ≡ ok tt → Unified from to w.db (cmd_delegate from to w).1.db
  cmd_delegate-Unified done = elim (row_cases from w.db.addresses) [
    | inl hf ↦ elim (row_cases to w.db.addresses) [
      | inl ht ↦ Unified-add_both done hf ht
      | inr (j, ht) ↦ Unified-swap j hf ht
    ]
    | inr (i, hf) ↦ elim (row_cases to w.db.addresses) [
      | inl ht ↦ Unified-add_to i hf ht
      | inr (j, ht) ↦ absurd (
          cc (
            done,
            ap (λ (x : Result (Unit {0}) × Wallet). x.0)
                (cmd_delegate-both_exist from to (i, from) (j, to) w hf ht),
          ))
    ]
  ]
