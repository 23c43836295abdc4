-- ===== src/Cde/Erc721/Transfers.antt =====
-- A transfer on each of its branches: an unknown token, a move, a burn, and a second burn.
use paima_engine.Base.{
  ℕ, String, ◌≡◌, refl, ◌∙◌, inl, inr, Bool, true, false, Option, none, some, List, [], ◌∷◌, ◌++◌,
  arith, if◌then◌else◌, Bool-cases, Option-cases,
}
use paima_engine.Machine.State.{Scheduled}
use paima_engine.Cde.Datum.{Erc721TransferDatum}
use paima_engine.Cde.Update.{Update, erc721_insert_owner, erc721_update_owner}
use paima_engine.Cde.Rows.{
  find, set_row, delete_where, find-delete_all, find-cons, find-same, find-set_known,
}
use paima_engine.Cde.Tables.{Tables, run_token_update, run_other_update, run_update, run_updates}
use paima_engine.Cde.Tables.Laws.{run_updates-cons, run_updates-append}
use paima_engine.Cde.Tables.Tokens.{run-erc721_insert}
use paima_engine.Cde.Host.{Host}
use paima_engine.Cde.Transition.Tokens.{burn_updates, process_erc721_transfer}
use paima_engine.Cde.Erc721.{
  token_key, is_burn, is_reburn, IsTransferred, burn_input, burn_input_runs, burns_run,
  burns_refused,
}

module _ {J : Type 0} (host : Host J) (decimal : ℕ → String)
    (starts_with : (base text : String) → Bool) (d : Erc721TransferDatum) (in_presync : Bool) where
  processed_as :
      (o : Option String) (t : Tables J)
      → find (token_key d) t.erc721 ≡ o
      → process_erc721_transfer host t.erc721 d in_presync ≡ elim o [
        | none ↦ some (erc721_insert_owner d.base.cde_name d.token_id (host.lower d.to) ∷ [])
        | some owner ↦
            (if is_burn host d
              then burn_input host decimal starts_with d in_presync owner
              else some (erc721_update_owner d.base.cde_name d.token_id (host.lower d.to) ∷ []))
      ]
  unfolding process_erc721_transfer burn_input
  processed_as o t e = rw (e, process_erc721_transfer) refl

  unknown_token :
      (t : Tables J) (schedule : List Scheduled)
      → find (token_key d) t.erc721 ≡ none
      → IsTransferred host decimal starts_with d in_presync t schedule
  unknown_token t schedule unknown = record {
    updates = erc721_insert_owner d.base.cde_name d.token_id (host.lower d.to) ∷ [];
    owners = (token_key d, host.lower d.to) ∷ t.erc721;
    burns = t.erc721_burn;
    next_id = t.next_id;
    schedule_after = schedule;
    processed = processed_as none t unknown;
    ran =
        run_updates-cons decimal starts_with
          (erc721_insert_owner d.base.cde_name d.token_id (host.lower d.to)) [] t
          (record t { erc721 = (token_key d, host.lower d.to) ∷ t.erc721 }) schedule schedule
          (run-erc721_insert decimal starts_with d.base.cde_name d.token_id (host.lower d.to) t
            schedule unknown)
        ∙ unfold run_updates in refl;
    owned = λ k. rw unknown (find-cons (token_key d) k (host.lower d.to) t.erc721);
    burnt = λ k. rw unknown (find-same (token_key d) k t.erc721_burn);
  }

  moved_token :
      (owner : String) (t : Tables J) (schedule : List Scheduled)
      → find (token_key d) t.erc721 ≡ some owner
      → is_burn host d ≡ false
      → IsTransferred host decimal starts_with d in_presync t schedule
  unfolding run_updates run_update run_token_update run_other_update
  moved_token owner t schedule known kept = record {
    updates = erc721_update_owner d.base.cde_name d.token_id (host.lower d.to) ∷ [];
    owners = set_row (token_key d) (host.lower d.to) t.erc721;
    burns = t.erc721_burn;
    next_id = t.next_id;
    schedule_after = schedule;
    processed = processed_as (some owner) t known ∙ rw kept refl;
    ran = refl;
    owned = λ k.
        rw (known, kept) (find-set_known (token_key d) k (host.lower d.to) owner t.erc721 known);
    burnt = λ k. rw (known, kept) (find-same (token_key d) k t.erc721_burn);
  }

  burnt_token :
      (owner : String) (t : Tables J) (schedule : List Scheduled)
      → find (token_key d) t.erc721 ≡ some owner
      → is_burn host d ≡ true
      → find (token_key d) t.erc721_burn ≡ none
      → IsTransferred host decimal starts_with d in_presync t schedule
  burnt_token owner t schedule known burn free =
      let (us, n, schedule', e, ran) =
        burn_input_runs host decimal starts_with d in_presync owner t schedule in
      let t1 : Tables J = record t { next_id = n } in
      record {
        updates = us ++ burn_updates d.base.cde_name d.token_id owner;
        owners = delete_where (token_key d) (λ _. true) t.erc721;
        burns = (token_key d, owner) ∷ t.erc721_burn;
        next_id = n;
        schedule_after = schedule';
        processed = processed_as (some owner) t known ∙ rw burn e;
        ran =
            run_updates-append decimal starts_with us
              (burn_updates d.base.cde_name d.token_id owner) t t1 schedule schedule' ran
            ∙ burns_run host decimal starts_with d in_presync owner t1 schedule' free;
        owned = λ k. rw (known, burn) (find-delete_all (token_key d) k t.erc721);
        burnt = λ k. rw (known, burn) (find-cons (token_key d) k owner t.erc721_burn);
      }

  -- Where it is no second burn of the token: the transfer makes the receiver the owner, or takes the
  -- token off the table where it was known and is burnt, with its owner kept in the record of burns; the
  -- other tokens are as they were.
  pub process_erc721_transfer-IsTransferred :
      (t : Tables J) (schedule : List Scheduled)
      → is_reburn host d t ≡ false
      → IsTransferred host decimal starts_with d in_presync t schedule
  process_erc721_transfer-IsTransferred t schedule once =
      elim (Option-cases (find (token_key d) t.erc721)) [
        | inl unknown ↦ unknown_token t schedule unknown
        | inr (owner, known) ↦ elim (Bool-cases (is_burn host d)) [
          | inl burn ↦ elim (Option-cases (find (token_key d) t.erc721_burn)) [
            | inl free ↦ burnt_token owner t schedule known burn free
            | inr (old, taken) ↦ absurd (cc (rw (burn, known, taken) at once))
          ]
          | inr kept ↦ moved_token owner t schedule known kept
        ]
      ]

  -- A second burn of a token that has an owner again gives rise to queries that break the constraint of
  -- the record of burns.
  pub process_erc721_transfer-reburn :
      (t : Tables J) (schedule : List Scheduled)
      → is_reburn host d t ≡ true
      → (updates : List (Update J)) × (process_erc721_transfer host t.erc721 d in_presync
          ≡ some updates)
        × (run_updates decimal starts_with updates t schedule ≡ none)
  process_erc721_transfer-reburn t schedule again =
      elim (Option-cases (find (token_key d) t.erc721)) [
        | inl unknown ↦ absurd (ground (arith, again, unknown))
        | inr (owner, known) ↦ elim (Bool-cases (is_burn host d)) [
          | inl burn ↦ elim (Option-cases (find (token_key d) t.erc721_burn)) [
            | inl free ↦ absurd (cc (rw (burn, known, free) at again))
            | inr (old, taken) ↦
                let (us, n, schedule', e, ran) =
                  burn_input_runs host decimal starts_with d in_presync owner t schedule in
                (
                  us ++ burn_updates d.base.cde_name d.token_id owner,
                  processed_as (some owner) t known ∙ rw burn e,
                  run_updates-append decimal starts_with us
                        (burn_updates d.base.cde_name d.token_id owner) t (record t { next_id = n })
                        schedule schedule' ran
                      ∙ burns_refused host decimal starts_with d in_presync owner old
                          (record t { next_id = n }) schedule' taken,
                )
          ]
          | inr kept ↦ absurd (ground (arith, again, kept))
        ]
      ]
