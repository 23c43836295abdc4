-- ===== src/Cde/Engine.antt =====
-- The primitives in the state machine: `processCdeData` of packages/node-sdk/paima-sm/src/index.ts with
-- the processors and the tables of the primitives.
pub mod Ledger
pub mod Refused
use paima_engine.Base.{
  String, ◌≡◌, refl, ap, inl, inr, Bool, Option, none, some, List, [], ◌∷◌, map, arith,
  Option-cases,
}
use paima_engine.Machine.State.{Scheduled, Machine, Env}
use paima_engine.Machine.Events.{game_query, run_query, run_queries}
use paima_engine.Machine.Primitives.{Primitives, cde_loop}
use paima_engine.Cde.Datum.{
  DatumBase, Datum, erc20_transfer, erc721_transfer, erc721_mint, erc20_deposit, erc1155_transfer,
  generic, mina_event_generic, mina_action_generic, erc6551_registry, cardano_pool,
  cardano_projected_nft, cardano_asset_utxo, cardano_transfer, cardano_mint_burn,
  dynamic_evm_primitive, midnight_contract_state,
}
use paima_engine.Cde.Update.{Update}
use paima_engine.Cde.Tables.{Tables, run_update, run_updates}
use paima_engine.Cde.Transition.{cde_transition_function}
use paima_engine.Cde.Host.{Host}

abbrev pub base_of : {J : Type 0} → Datum J → DatumBase
base_of (erc20_transfer d) = d.base
base_of (erc721_transfer d) = d.base
base_of (erc721_mint d) = d.base
base_of (erc20_deposit d) = d.base
base_of (erc1155_transfer d) = d.base
base_of (generic d) = d.base
base_of (mina_event_generic d) = d.base
base_of (mina_action_generic d) = d.base
base_of (erc6551_registry d) = d.base
base_of (cardano_pool d) = d.base
base_of (cardano_projected_nft d) = d.base
base_of (cardano_asset_utxo d) = d.base
base_of (cardano_transfer d) = d.base
base_of (cardano_mint_burn d) = d.base
base_of (dynamic_evm_primitive d) = d.base
base_of (midnight_contract_state d) = d.base

abbrev pub StartsWith : Type 0
StartsWith = (base text : String) → Bool

abbrev pub primitives :
    {J : Type 0} → Host J → (main_caip2 : String) → Primitives (Tables J) (Update J) (Datum J)
primitives host main_caip2 = record {
  cde_transition = λ d in_presync t. cde_transition_function host t d in_presync;
  caip2_of = λ d. (base_of d).caip2;
  main_caip2 = main_caip2;
}

module _ {J F R : Type 0} (host : Host J) (starts_with : StartsWith) where
  -- The environment whose queries are those of the primitives.
  abbrev pub with_tables : Env (Tables J) (Update J) F R → Env (Tables J) (Update J) F R
  with_tables env = record env { run = run_update host.decimal starts_with }

  pub run_queries-run_updates :
      (env : Env (Tables J) (Update J) F R) (us : List (Update J)) (m : Machine (Tables J) F R)
      (t : Tables J) (schedule : List Scheduled)
      → run_updates host.decimal starts_with us m.game m.schedule ≡ some (t, schedule)
      → run_queries (with_tables env) (map game_query us) m
        ≡ some (record m { game = t; schedule = schedule })
  unfolding run_queries run_query run_updates
  run_queries-run_updates env [] m t schedule h =
      let put : Option (Tables J × List Scheduled) → Option (Machine (Tables J) F R) =
        λ o. elim o [ none ↦ none | some (g, s) ↦ some (record m { game = g; schedule = s }) ] in
      ap put h
  run_queries-run_updates env (u ∷ us) m t schedule h =
      elim (Option-cases (run_update host.decimal starts_with u m.game m.schedule)) [
        | inl e ↦ absurd (ground (arith, e))
        | inr ((t1, s1), e) ↦
            rw (e, run_queries, run_query)
              (run_queries-run_updates env us (record m { game = t1; schedule = s1 }) t schedule
                (rw (e, run_updates) at h))
      ]

  -- One turn of the loop over datums.
  pub cde_loop-cons :
      (main_caip2 : String) (env : Env (Tables J) (Update J) F R) (in_presync : Bool) (d : Datum J)
      (datums : List (Datum J)) (us : List (Update J)) (m : Machine (Tables J) F R) (t : Tables J)
      (schedule : List Scheduled)
      → cde_transition_function host m.game d in_presync ≡ some us
      → run_updates host.decimal starts_with us m.game m.schedule ≡ some (t, schedule)
      → cde_loop (with_tables env) (primitives host main_caip2) in_presync (d ∷ datums) m
        ≡ cde_loop
            (with_tables env)
            (primitives host main_caip2)
            in_presync
            datums
            (record m { game = t; schedule = schedule })
  unfolding cde_loop
  cde_loop-cons main_caip2 env in_presync d datums us m t schedule e ran =
      rw (e, cde_loop) (rw (run_queries-run_updates env us m t schedule ran) refl)
