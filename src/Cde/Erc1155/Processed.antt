-- ===== src/Cde/Erc1155/Processed.antt =====
-- A whole transfer, with the inputs that it schedules.
use paima_engine.Base.{
  ℕ, String, ◌≡◌, refl, ◌∙◌, inl, inr, Bool, not, ◌&&◌, some, List, [], ◌++◌, str_eq, Bool-cases,
}
use paima_engine.Machine.State.{Scheduled}
use paima_engine.Cde.Datum.{Erc1155TransferDatum}
use paima_engine.Cde.Update.{Update, create_scheduled_data}
use paima_engine.Cde.Rows.{IsUnique}
use paima_engine.Cde.Tables.Laws.{run_updates-append}
use paima_engine.Cde.Tables.{Tables, run_update, run_updates}
use paima_engine.Cde.Host.{Host, is_burn_address}
use paima_engine.Cde.Transition.Tokens.{erc1155_loop, erc1155_scheduled, process_erc1155_transfer}
use paima_engine.Cde.Erc1155.{balance_at, ledger_after, burns_after, StartsWith}
use paima_engine.Cde.Erc1155.Posted.{erc1155_loop-IsPosted}

module _ {J : Type 0} (host : Host J) (decimal : ℕ → String) (starts_with : StartsWith) where
  -- The inputs that a transfer schedules change the schedule and its serial only.
  scheduled_runs :
      (d : Erc1155TransferDatum) (in_presync : Bool) (t : Tables J) (schedule : List Scheduled)
      → (us : List (Update J)) × (n : ℕ) × (schedule' : List Scheduled) × (erc1155_scheduled host d
            in_presync
          ≡ some us)
        × (run_updates decimal starts_with us t schedule
            ≡ some (record t { next_id = n }, schedule'))
  unfolding erc1155_scheduled create_scheduled_data run_updates run_update
  scheduled_runs d in_presync t schedule = elim (Bool-cases (str_eq d.scheduled_prefix "")) [
    | inl silent ↦
        elim (Bool-cases (is_burn_address d.to && not (str_eq d.burn_scheduled_prefix ""))) [
          | inl burn ↦ rw (silent, burn) (_, _, _, refl, refl)
          | inr quiet ↦ rw (silent, quiet) ([], t.next_id, schedule, refl, refl)
        ]
    | inr told ↦
        elim (Bool-cases (is_burn_address d.to && not (str_eq d.burn_scheduled_prefix ""))) [
          | inl burn ↦ rw (told, burn) (_, _, _, refl, refl)
          | inr quiet ↦ rw (told, quiet) (_, _, _, refl, refl)
        ]
  ]

  -- A transfer is processed, and its queries run.
  pub record IsProcessed (d : Erc1155TransferDatum) (in_presync : Bool) (t : Tables J)
      (schedule : List Scheduled) : Type 0 where
    pub updates : List (Update J)
    pub after : Tables J
    pub schedule_after : List Scheduled
    pub processed : process_erc1155_transfer host d in_presync ≡ some updates
    pub ran : run_updates decimal starts_with updates t schedule ≡ some (after, schedule_after)
    pub unique : IsUnique after.erc1155
    pub balances : balance_at after.erc1155 ≡ ledger_after host d d.items (balance_at t.erc1155)
    pub burns :
        balance_at after.erc1155_burn ≡ burns_after host d d.items (balance_at t.erc1155_burn)

  pub process_erc1155_transfer-IsProcessed :
      (d : Erc1155TransferDatum) (in_presync : Bool) (t : Tables J) (schedule : List Scheduled)
      → IsUnique t.erc1155
      → IsProcessed d in_presync t schedule
  unfolding process_erc1155_transfer
  process_erc1155_transfer-IsProcessed d in_presync t schedule u =
      let (us, n, schedule', e, ran) = scheduled_runs d in_presync t schedule in
      let t1 : Tables J = record t { next_id = n } in
      let p = erc1155_loop-IsPosted host decimal starts_with d d.items t1 schedule' u in
      record {
        updates = us ++ erc1155_loop host d d.items;
        after = p.after;
        schedule_after = schedule';
        processed = rw e refl;
        ran =
            run_updates-append decimal starts_with us (erc1155_loop host d d.items) t t1 schedule
              schedule' ran
            ∙ p.ran;
        unique = p.unique;
        balances = p.balances;
        burns = p.burns;
      }
