-- ===== src/Cde/Engine/Ledger.antt =====
-- The balances of ERC1155 tokens over any sequence of transfers that the state machine is given.
use paima_engine.Base.{String, ◌≡◌, refl, ap, ◌∙◌, Bool, List, [], ◌∷◌, map, ℤ}
use paima_engine.Machine.State.{Machine, Env, returned}
use paima_engine.Machine.Primitives.{cde_loop}
use paima_engine.Cde.Datum.{Erc1155TransferDatum, erc1155_transfer}
use paima_engine.Cde.Update.{Update}
use paima_engine.Cde.Rows.{Key, IsUnique}
use paima_engine.Cde.Tables.{Tables}
use paima_engine.Cde.Transition.{cde_transition_function}
use paima_engine.Cde.Host.{Host}
use paima_engine.Cde.Erc1155.{balance_at, ledger_after, burns_after, StartsWith}
use paima_engine.Cde.Erc1155.Processed.{process_erc1155_transfer-IsProcessed}
use paima_engine.Cde.Engine.{primitives, with_tables, cde_loop-cons}

module _ {J : Type 0} (host : Host J) where
  -- The transfers one after the other, on a ledger.
  unfoldable pub replay : List Erc1155TransferDatum → (Key → ℤ) → Key → ℤ
  replay [] ledger = ledger
  replay (d ∷ transfers) ledger = replay transfers (ledger_after host d d.items ledger)

  unfoldable pub replay_burns : List Erc1155TransferDatum → (Key → ℤ) → Key → ℤ
  replay_burns [] burns = burns
  replay_burns (d ∷ transfers) burns = replay_burns transfers (burns_after host d d.items burns)

module _ {J F R : Type 0} (host : Host J) (starts_with : StartsWith) (main_caip2 : String)
    (env : Env (Tables J) (Update J) F R) where
  -- Any transfers of ERC1155 tokens are processed without an error, and the table of balances, where its
  -- keys were unique, holds what a ledger of the transfers says, and the table of burns what a record of
  -- the burns says.
  pub cde_loop_refines :
      (in_presync : Bool) (transfers : List Erc1155TransferDatum) (m : Machine (Tables J) F R)
      → IsUnique m.game.erc1155
      → (after : Machine (Tables J) F R) × (cde_loop
            (with_tables host starts_with env)
            (primitives host main_caip2)
            in_presync
            (map erc1155_transfer transfers)
            m
          ≡ returned after)
        × IsUnique after.game.erc1155
        × (balance_at after.game.erc1155 ≡ replay host transfers (balance_at m.game.erc1155))
        × (balance_at after.game.erc1155_burn
            ≡ replay_burns host transfers (balance_at m.game.erc1155_burn))
  unfolding cde_loop replay replay_burns cde_transition_function
  cde_loop_refines in_presync [] m u = (m, refl, u, refl, refl)
  cde_loop_refines in_presync (d ∷ transfers) m u =
      let p =
        process_erc1155_transfer-IsProcessed host host.decimal starts_with d in_presync m.game
          m.schedule u in
      let next : Machine (Tables J) F R = record m {
        game = p.after;
        schedule = p.schedule_after;
      } in
      let (after, e, v, balances, burns) = cde_loop_refines in_presync transfers next p.unique in
      (
        after,
        cde_loop-cons host starts_with main_caip2 env in_presync (erc1155_transfer d)
              (map erc1155_transfer transfers) p.updates m p.after p.schedule_after p.processed
              p.ran
            ∙ e,
        v,
        balances ∙ ap (replay host transfers) p.balances,
        burns ∙ ap (replay_burns host transfers) p.burns,
      )
