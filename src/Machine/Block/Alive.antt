-- ===== src/Machine/Block/Alive.antt =====
-- A transaction that is not aborted, and what comes before the inputs of a block.
use paima_engine.Base.{
  ℕ, ◌*◌, String, ◌≡◌, ap, ◌∙◌, inl, inr, Bool, true, false, ◌||◌, Option, none, some, List, [],
  ◌∷◌, map, arith, str_eq, if◌then◌else◌, Option-cases,
}
use paima_engine.Chain.{
  InternalEvent, cardano_best_epoch, evm_last_block, avail_last_block, midnight_last_block,
  mina_last_timestamp, ChainData,
}
use paima_engine.Wallet.Lookup.{Wallet}
use paima_engine.Machine.State.{BlockRow, Machine, Env, Outcome, returned, Outcome-cases}
use paima_engine.Machine.Events.{game_query, run_queries}
use paima_engine.Machine.Primitives.{
  Primitives, mark_cde_processed, process_internal_event, internal_events_loop,
  process_internal_events, cde_loop, process_cde_data_base, process_cde_data,
}
use paima_engine.Machine.Inputs.Frame.{run_queries-Framed}
use paima_engine.Machine.Randomness.{Chance, get_seed}
use paima_engine.Machine.Block.{save_last_block, per_network, list_of, networks_loop, prepare}

abbrev pub IsAlive : {G F R : Type 0} → Machine G F R → Type 0
IsAlive m = m.wallet.aborted ≡ false

module _ {G F R : Type 0} where
  mark_cde_processed-IsAlive :
      (n : ℕ) (caip2 : String) (m m' : Machine G F R)
      → IsAlive m
      → mark_cde_processed n caip2 m ≡ returned m'
      → IsAlive m'
  unfolding mark_cde_processed
  mark_cde_processed-IsAlive n caip2 m m' alive h = ground arith

  mark_if-IsAlive :
      (marks : Bool) (n : ℕ) (caip2 : String) (m m' : Machine G F R)
      → IsAlive m
      → (if marks then mark_cde_processed n caip2 else returned) m ≡ returned m'
      → IsAlive m'
  mark_if-IsAlive true n caip2 m m' alive h = mark_cde_processed-IsAlive n caip2 m m' alive h
  mark_if-IsAlive false n caip2 m m' alive h = ground arith

  process_internal_event-IsAlive :
      (e : InternalEvent) (m m' : Machine G F R)
      → IsAlive m
      → process_internal_event e m ≡ returned m'
      → IsAlive m'
  unfolding process_internal_event
  process_internal_event-IsAlive (cardano_best_epoch epoch) m m' alive h = ground arith
  process_internal_event-IsAlive (evm_last_block block caip2) m m' alive h =
      mark_cde_processed-IsAlive block caip2 m m' alive h
  process_internal_event-IsAlive (avail_last_block block caip2) m m' alive h =
      mark_cde_processed-IsAlive block caip2 m m' alive h
  process_internal_event-IsAlive (mina_last_timestamp timestamp caip2) m m' alive h = ground arith
  process_internal_event-IsAlive (midnight_last_block block caip2) m m' alive h = ground arith

  internal_events_loop-IsAlive :
      (events : List InternalEvent) (m m' : Machine G F R)
      → IsAlive m
      → internal_events_loop events m ≡ returned m'
      → IsAlive m'
  unfolding internal_events_loop
  internal_events_loop-IsAlive [] m m' alive h = ground arith
  internal_events_loop-IsAlive (e ∷ events) m m' alive h =
      elim (Outcome-cases (process_internal_event e m)) [
        | inl (q, f) ↦
            internal_events_loop-IsAlive events q m' (process_internal_event-IsAlive e m q alive f)
              (ground arith)
        | inr (q, f) ↦ absurd (ground arith)
      ]

  process_internal_events-IsAlive :
      (events : Option (List InternalEvent)) (m m' : Machine G F R)
      → IsAlive m
      → process_internal_events events m ≡ returned m'
      → IsAlive m'
  unfolding process_internal_events
  process_internal_events-IsAlive none m m' alive h = ground arith
  process_internal_events-IsAlive (some events) m m' alive h =
      internal_events_loop-IsAlive events m m' alive h

module _ {G Q F R D : Type 0} (env : Env G Q F R) (prims : Primitives G Q D)
    (chance : Chance R) where
  cde_loop-IsAlive :
      (in_presync : Bool) (cde_data : List D) (m m' : Machine G F R)
      → IsAlive m
      → cde_loop env prims in_presync cde_data m ≡ returned m'
      → IsAlive m'
  unfolding cde_loop
  cde_loop-IsAlive in_presync [] m m' alive h = ground arith
  cde_loop-IsAlive in_presync (d ∷ cde_data) m m' alive h =
      elim (Option-cases (prims.cde_transition d in_presync m.game)) [
        | inl threw ↦ absurd (ground arith)
        | inr (queries, e) ↦ elim (Option-cases (run_queries env (map game_query queries) m)) [
          | inl failed ↦ absurd (ground arith)
          | inr (q, f) ↦
              let framed = run_queries-Framed env (map game_query queries) m q f in
              cde_loop-IsAlive in_presync cde_data q m'
                (ap (λ (w : Wallet). w.aborted) framed.wallet ∙ alive) (ground arith)
        ]
      ]

  process_cde_data_base-IsAlive :
      (in_presync : Bool) (cde_data : Option (List D))
      (mark : Machine G F R → Outcome (Machine G F R)) (m m' : Machine G F R) (k : ℕ)
      → IsAlive m
      → ((a b : Machine G F R) → IsAlive a → mark a ≡ returned b → IsAlive b)
      → process_cde_data_base env prims in_presync cde_data mark m ≡ returned (k, m')
      → IsAlive m'
  unfolding process_cde_data_base
  process_cde_data_base-IsAlive in_presync none mark m m' k alive step h = ground arith
  process_cde_data_base-IsAlive in_presync (some cde_data) mark m m' k alive step h =
      elim (Outcome-cases (cde_loop env prims in_presync cde_data m)) [
        | inr (q, e) ↦ absurd (ground arith)
        | inl (q, e) ↦ elim (Outcome-cases (mark q)) [
          | inl (r, f) ↦
              ground (arith, step q r (cde_loop-IsAlive in_presync cde_data m q alive e) f)
          | inr (r, f) ↦ absurd (ground arith)
        ]
      ]

  networks_loop-IsAlive :
      (block_height : ℕ) (networks : List (String × List D)) (m m' : Machine G F R)
      → IsAlive m
      → networks_loop env prims chance block_height networks m ≡ returned m'
      → IsAlive m'
  unfolding networks_loop process_cde_data
  networks_loop-IsAlive block_height [] m m' alive h = ground arith
  networks_loop-IsAlive block_height ((caip2, ds) ∷ networks) m m' alive h =
      let mark : Machine G F R → Outcome (Machine G F R) =
        if false || str_eq caip2 prims.main_caip2
        then mark_cde_processed block_height caip2
        else returned in
      elim (Outcome-cases (process_cde_data_base env prims false (some ds) mark m)) [
        | inl ((k, q), e) ↦
            networks_loop-IsAlive block_height networks q m'
              (process_cde_data_base-IsAlive false (some ds) mark m q k alive
                (λ a b there f.
                  mark_if-IsAlive (false || str_eq caip2 prims.main_caip2) block_height caip2 a b
                    there f)
                e)
              (ground arith)
        | inr ((k, q), e) ↦ absurd (ground arith)
      ]

  pub prepare-IsAlive :
      (c : ChainData D) (m m' : Machine G F R)
      → IsAlive m
      → prepare env prims chance c m ≡ returned m'
      → IsAlive m'
  unfolding prepare
  prepare-IsAlive c m m' alive h =
      let seed = get_seed chance c.block_hash c.submitted_data m.blocks in
      let row : BlockRow = record {
        block_height = c.block_number;
        main_chain_block_hash = env.strip0x c.block_hash;
        seed = seed;
        ms_timestamp = c.timestamp * 1000;
        paima_block_hash = none;
      } in
      let start : Machine G F R = record m {
        blocks = save_last_block row m.blocks;
        random = chance.seeded seed;
      } in
      let networks = per_network prims.caip2_of (list_of c.extension_datums) [] in
      elim (Outcome-cases (networks_loop env prims chance c.block_number networks start)) [
        | inl (q, e) ↦
            process_internal_events-IsAlive c.internal_events q m'
              (networks_loop-IsAlive c.block_number networks start q alive e) (ground arith)
        | inr (q, e) ↦ absurd (ground arith)
      ]
