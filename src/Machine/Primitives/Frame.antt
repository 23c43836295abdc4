-- ===== src/Machine/Primitives/Frame.antt =====
-- The datums and the internal events keep wallets, nonces and blocks.
use paima_engine.Base.{
  ℕ, String, ◌≡◌, refl, ap, inl, inr, Bool, ◌||◌, Option, none, some, List, [], ◌∷◌, map, arith,
  str_eq, Bool-cases, Option-cases,
}
use paima_engine.Chain.{
  InternalEvent, cardano_best_epoch, evm_last_block, avail_last_block, midnight_last_block,
  mina_last_timestamp,
}
use paima_engine.Wallet.Lookup.{Wallet}
use paima_engine.Machine.State.{Machine, Env, Outcome, returned, state_of, Outcome-cases}
use paima_engine.Machine.Kept.{Keeps, Keeps-refl, Keeps-trans, Keeps-abort}
use paima_engine.Machine.Events.{Query, game_query, run_queries}
use paima_engine.Machine.Inputs.Frame.{run_queries-Framed}
use paima_engine.Machine.Primitives.{
  Primitives, mark_cde_processed, process_internal_event, internal_events_loop,
  process_internal_events, cde_loop, process_cde_data_base, process_cde_data,
}

module _ {G F R : Type 0} where
  mark_cde_processed-Keeps :
      (n : ℕ) (caip2 : String) (m : Machine G F R)
      → Keeps m (state_of (mark_cde_processed n caip2 m))
  unfolding mark_cde_processed
  mark_cde_processed-Keeps n caip2 m = ground (arith, Keeps-refl m, Keeps-abort m)

  process_internal_event-Keeps :
      (e : InternalEvent) (m : Machine G F R) → Keeps m (state_of (process_internal_event e m))
  unfolding process_internal_event
  process_internal_event-Keeps (cardano_best_epoch epoch) m = record {
    db = refl;
    cache = refl;
    nonces = refl;
    blocks = refl;
  }
  process_internal_event-Keeps (evm_last_block block caip2) m =
      mark_cde_processed-Keeps block caip2 m
  process_internal_event-Keeps (avail_last_block block caip2) m =
      mark_cde_processed-Keeps block caip2 m
  process_internal_event-Keeps (mina_last_timestamp timestamp caip2) m = record {
    db = refl;
    cache = refl;
    nonces = refl;
    blocks = refl;
  }
  process_internal_event-Keeps (midnight_last_block block caip2) m = record {
    db = refl;
    cache = refl;
    nonces = refl;
    blocks = refl;
  }

  internal_events_loop-Keeps :
      (events : List InternalEvent) (m : Machine G F R)
      → Keeps m (state_of (internal_events_loop events m))
  unfolding internal_events_loop
  internal_events_loop-Keeps [] m = Keeps-refl m
  internal_events_loop-Keeps (e ∷ events) m =
      let kept = process_internal_event-Keeps e m in
      elim (Outcome-cases (process_internal_event e m)) [
        | inl (q, f) ↦
            rw (f, state_of)
              (Keeps-trans m q (state_of (internal_events_loop events q)) (rw f at kept)
                (internal_events_loop-Keeps events q))
        | inr (q, f) ↦ rw (f, state_of) (rw f at kept)
      ]

  pub process_internal_events-Keeps :
      (events : Option (List InternalEvent)) (m : Machine G F R)
      → Keeps m (state_of (process_internal_events events m))
  unfolding process_internal_events
  process_internal_events-Keeps none m = Keeps-refl m
  process_internal_events-Keeps (some events) m = internal_events_loop-Keeps events m

module _ {G Q F R D : Type 0} (env : Env G Q F R) (prims : Primitives G Q D) where
  run_queries-Keeps :
      (queries : List (Query Q F)) (m m' : Machine G F R)
      → run_queries env queries m ≡ some m'
      → Keeps m m'
  run_queries-Keeps queries m m' h =
      let f = run_queries-Framed env queries m m' h in
      record {
        db = ap (λ (w : Wallet). w.db) f.wallet;
        cache = ap (λ (w : Wallet). w.cache) f.wallet;
        nonces = f.nonces;
        blocks = f.blocks;
      }

  cde_loop-Keeps :
      (in_presync : Bool) (cde_data : List D) (m : Machine G F R)
      → Keeps m (state_of (cde_loop env prims in_presync cde_data m))
  unfolding cde_loop
  cde_loop-Keeps in_presync [] m = Keeps-refl m
  cde_loop-Keeps in_presync (d ∷ cde_data) m =
      elim (Option-cases (prims.cde_transition d in_presync m.game)) [
        | inl threw ↦ rw (threw, state_of) (Keeps-refl m)
        | inr (queries, e) ↦ elim (Option-cases (run_queries env (map game_query queries) m)) [
          | inl failed ↦ rw (e, failed, state_of) (Keeps-abort m)
          | inr (q, f) ↦
              rw (e, f, state_of)
                (Keeps-trans m q (state_of (cde_loop env prims in_presync cde_data q))
                  (run_queries-Keeps (map game_query queries) m q f)
                  (cde_loop-Keeps in_presync cde_data q))
        ]
      ]

  pub process_cde_data_base-Keeps :
      (in_presync : Bool) (cde_data : Option (List D))
      (mark : Machine G F R → Outcome (Machine G F R)) (m : Machine G F R)
      → ((n : Machine G F R) → Keeps n (state_of (mark n)))
      → Keeps m (state_of (process_cde_data_base env prims in_presync cde_data mark m)).1
  unfolding process_cde_data_base
  process_cde_data_base-Keeps in_presync none mark m h = Keeps-refl m
  process_cde_data_base-Keeps in_presync (some cde_data) mark m h =
      let kept = cde_loop-Keeps in_presync cde_data m in
      elim (Outcome-cases (cde_loop env prims in_presync cde_data m)) [
        | inr (q, e) ↦ rw (e, state_of) (rw e at kept)
        | inl (q, e) ↦
            let marked = h q in
            let first : Keeps m q = rw e at kept in
            elim (Outcome-cases (mark q)) [
              | inl (r, f) ↦ rw (e, f, state_of) (Keeps-trans m q r first (rw f at marked))
              | inr (r, f) ↦ rw (e, f, state_of) (Keeps-trans m q r first (rw f at marked))
            ]
      ]

  pub process_cde_data-Keeps :
      (block_height : ℕ) (caip2 : String) (cde_data : Option (List D)) (in_presync : Bool)
      (m : Machine G F R)
      → Keeps m (state_of (process_cde_data env prims block_height caip2 cde_data in_presync m)).1
  unfolding process_cde_data
  process_cde_data-Keeps block_height caip2 cde_data in_presync m =
      elim (Bool-cases (in_presync || str_eq caip2 prims.main_caip2)) [
        | inl marks ↦ rw marks (
            process_cde_data_base-Keeps in_presync cde_data (mark_cde_processed block_height caip2)
              m (mark_cde_processed-Keeps block_height caip2))
        | inr free ↦ rw free (process_cde_data_base-Keeps in_presync cde_data returned m Keeps-refl)
      ]
