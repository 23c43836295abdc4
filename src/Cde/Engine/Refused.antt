-- ===== src/Cde/Engine/Refused.antt =====
-- A datum whose queries break a constraint stops the processing of its block.
use paima_engine.Base.{
  String, ◌≡◌, refl, inl, inr, Bool, true, none, List, [], ◌∷◌, map, Option-cases,
}
use paima_engine.Machine.State.{Machine, abort, Env, thrown}
use paima_engine.Machine.Events.{game_query, run_query, run_queries}
use paima_engine.Machine.Primitives.{cde_loop}
use paima_engine.Cde.Datum.{Erc721TransferDatum, Datum, erc721_transfer}
use paima_engine.Cde.Update.{Update}
use paima_engine.Cde.Tables.{Tables, run_update, run_updates}
use paima_engine.Cde.Transition.{cde_transition_function}
use paima_engine.Cde.Host.{Host}
use paima_engine.Cde.Erc721.Transfers.{process_erc721_transfer-reburn}
use paima_engine.Cde.Erc721.{is_reburn}
use paima_engine.Cde.Engine.{StartsWith, primitives, with_tables}

module _ {J F R : Type 0} (host : Host J) (starts_with : StartsWith) where
  run_queries-refused :
      (env : Env (Tables J) (Update J) F R) (us : List (Update J)) (m : Machine (Tables J) F R)
      → run_updates host.decimal starts_with us m.game m.schedule ≡ none
      → run_queries (with_tables host starts_with env) (map game_query us) m ≡ none
  unfolding run_queries run_query run_updates
  run_queries-refused env [] m h = cc
  run_queries-refused env (u ∷ us) m h =
      elim (Option-cases (run_update host.decimal starts_with u m.game m.schedule)) [
        | inl e ↦ rw (e, run_queries, run_query) refl
        | inr ((t1, s1), e) ↦
            rw (e, run_queries, run_query)
              (run_queries-refused env us (record m { game = t1; schedule = s1 })
                (rw (e, run_updates) at h))
      ]

  -- Where a token that was burnt before, and has an owner again, is burnt once more, the loop over the
  -- datums throws at that datum, with the transaction aborted and nothing else changed, whatever datums
  -- follow.
  pub cde_loop-reburn :
      (main_caip2 : String) (env : Env (Tables J) (Update J) F R) (in_presync : Bool)
      (d : Erc721TransferDatum) (datums : List (Datum J)) (m : Machine (Tables J) F R)
      → is_reburn host d m.game ≡ true
      → cde_loop
          (with_tables host starts_with env)
          (primitives host main_caip2)
          in_presync
          (erc721_transfer d ∷ datums)
          m
        ≡ thrown (abort m)
  unfolding cde_loop cde_transition_function
  cde_loop-reburn main_caip2 env in_presync d datums m again =
      let (us, e, refused) =
        process_erc721_transfer-reburn host host.decimal starts_with d in_presync m.game m.schedule
          again in
      rw (e, cde_loop, cde_transition_function) (rw (run_queries-refused env us m refused) refl)
