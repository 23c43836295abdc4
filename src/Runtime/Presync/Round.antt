-- ===== src/Runtime/Presync/Round.antt =====
-- What a round of the presync leaves alone.
use paima_engine.Base.{String, inl, inr, true, some, List, [], ◌∷◌, Bool-cases}
use paima_engine.Machine.State.{Machine, Env, Outcome, state_of, Outcome-cases}
use paima_engine.Machine.Kept.{Keeps, Keeps-refl, Keeps-trans}
use paima_engine.Machine.Primitives.{
  Primitives, PresyncData, evm_presync, paginated, presync_process,
}
use paima_engine.Machine.Primitives.Frame.{process_cde_data_base-Keeps, process_cde_data-Keeps}
use paima_engine.Runtime.Presync.{
  Answer, Range, is_empty, every, keep_units, all_units, presync_loop, run_presync_round,
}

module _ {G Q F R D : Type 0} (env : Env G Q F R) (prims : Primitives G Q D)
    (update_cursor : Machine G F R → Outcome (Machine G F R))
    (cursor-Keeps : (m : Machine G F R) → Keeps m (state_of (update_cursor m))) where
  presync_process-Keeps :
      (u : PresyncData D) (m : Machine G F R)
      → Keeps m (state_of (presync_process env prims update_cursor u m)).1
  unfolding presync_process
  presync_process-Keeps (evm_presync n caip2 ds) m =
      process_cde_data-Keeps env prims n caip2 (some ds) true m
  presync_process-Keeps (paginated ds) m =
      process_cde_data_base-Keeps env prims true (some ds) update_cursor m cursor-Keeps

  presync_loop-Keeps :
      (us : List (PresyncData D)) (m : Machine G F R)
      → Keeps m (state_of (presync_loop env prims update_cursor us m))
  unfolding presync_loop
  presync_loop-Keeps [] m = Keeps-refl m
  presync_loop-Keeps (u ∷ us) m =
      let kept = presync_process-Keeps u m in
      elim (Outcome-cases (presync_process env prims update_cursor u m)) [
        | inl ((k, q), e) ↦
            rw (e, state_of)
              (Keeps-trans m q (state_of (presync_loop env prims update_cursor us q)) (rw e at kept)
                (presync_loop-Keeps us q))
        | inr ((k, q), e) ↦ rw (e, state_of) (rw e at kept)
      ]

  -- A round of the presync, whether it ends or throws, keeps the wallets' tables, the nonces and the
  -- blocks as they were, where the update of a chain's cursor does.
  pub run_presync_round-Keeps :
      (ranges : List Range) (answers : List (String × Answer D)) (m : Machine G F R)
      → Keeps m (state_of (run_presync_round env prims update_cursor ranges answers m)).1
  unfolding run_presync_round
  run_presync_round-Keeps ranges answers m =
      let us = keep_units (all_units answers) in
      let kept = presync_loop-Keeps us m in
      elim (Bool-cases (every is_empty answers)) [
        | inl nothing ↦ rw (nothing, state_of) (Keeps-refl m)
        | inr some_units ↦ elim (Outcome-cases (presync_loop env prims update_cursor us m)) [
          | inl (q, e) ↦ rw (some_units, e, state_of) (rw e at kept)
          | inr (q, e) ↦ rw (some_units, e, state_of) (rw e at kept)
        ]
      ]
