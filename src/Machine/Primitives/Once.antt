-- ===== src/Machine/Primitives/Once.antt =====
-- A block of a primitive's chain is applied at most once.
use paima_engine.Base.{
  ℕ, String, ◌≡◌, ap, ◌∙◌, inl, inr, Bool, true, false, some, List, [], ◌∷◌, map, arith, eq_iff,
  Bool-cases, Option-cases,
}
use paima_engine.Machine.State.{Checkpoints, Machine, Env, Outcome, returned, Outcome-cases}
use paima_engine.Machine.Events.{Query, game_query, insert_event, run_query, run_queries}
use paima_engine.Machine.Primitives.{
  Primitives, is_tracked, mark_cde_processed, cde_loop, process_cde_data_base, process_cde_data,
  evm_presync, presync_process,
}

module _ {G Q F R D : Type 0} (env : Env G Q F R) (prims : Primitives G Q D) where
  run_query-checkpoints :
      (q : Query Q F) (m m' : Machine G F R)
      → run_query env q m ≡ some m'
      → m'.checkpoints ≡ m.checkpoints
  unfolding run_query
  run_query-checkpoints (game_query q) m m' h = ground arith
  run_query-checkpoints (insert_event row) m m' h = ground arith

  run_queries-checkpoints :
      (queries : List (Query Q F)) (m m' : Machine G F R)
      → run_queries env queries m ≡ some m'
      → m'.checkpoints ≡ m.checkpoints
  unfolding run_queries
  run_queries-checkpoints [] m m' h = ground arith
  run_queries-checkpoints (q ∷ queries) m m' h = elim (Option-cases (run_query env q m)) [
    | inl failed ↦ absurd (ground arith)
    | inr (n, e) ↦
        run_queries-checkpoints queries n m' (ground arith) ∙ run_query-checkpoints q m n e
  ]

  cde_loop-checkpoints :
      (in_presync : Bool) (cde_data : List D) (m m' : Machine G F R)
      → cde_loop env prims in_presync cde_data m ≡ returned m'
      → m'.checkpoints ≡ m.checkpoints
  unfolding cde_loop
  cde_loop-checkpoints in_presync [] m m' h = ground arith
  cde_loop-checkpoints in_presync (d ∷ cde_data) m m' h =
      elim (Option-cases (prims.cde_transition d in_presync m.game)) [
        | inl threw ↦ absurd (ground arith)
        | inr (queries, e) ↦ elim (Option-cases (run_queries env (map game_query queries) m)) [
          | inl failed ↦ absurd (ground arith)
          | inr (n, f) ↦
              cde_loop-checkpoints in_presync cde_data n m' (ground arith)
              ∙ run_queries-checkpoints (map game_query queries) m n f
        ]
      ]

  abbrev pub IsMarked : (block_height : ℕ) (caip2 : String) → Machine G F R → Type 0
  IsMarked block_height caip2 m = is_tracked caip2 block_height m.checkpoints.cde_blocks ≡ true

  mark_cde_processed-IsMarked :
      (n : ℕ) (caip2 : String) (m m' : Machine G F R)
      → mark_cde_processed n caip2 m ≡ returned m'
      → IsMarked n caip2 m' × (is_tracked caip2 n m.checkpoints.cde_blocks ≡ false)
  unfolding mark_cde_processed is_tracked
  mark_cde_processed-IsMarked n caip2 m m' h =
      elim (Bool-cases (is_tracked caip2 n m.checkpoints.cde_blocks)) [
        | inl tracked ↦ absurd (ground arith)
        | inr fresh ↦ (ground (arith, eq_iff caip2 caip2), fresh)
      ]

  presync_lem :
      (n : ℕ) (caip2 : String) (ds : List D) (m m' : Machine G F R) (k : ℕ)
      → process_cde_data env prims n caip2 (some ds) true m ≡ returned (k, m')
      → IsMarked n caip2 m' × (is_tracked caip2 n m.checkpoints.cde_blocks ≡ false)
  unfolding process_cde_data process_cde_data_base
  presync_lem n caip2 ds m m' k h = elim (Outcome-cases (cde_loop env prims true ds m)) [
    | inr (q, e) ↦ absurd (ground arith)
    | inl (q, e) ↦ elim (Outcome-cases (mark_cde_processed n caip2 q)) [
      | inr (r, f) ↦ absurd (ground arith)
      | inl (r, f) ↦
          let (marked, fresh) = mark_cde_processed-IsMarked n caip2 q r f in
          (
            ground (arith, marked),
            rw
                (← ap (λ (c : Checkpoints). is_tracked caip2 n c.cde_blocks)
                  (cde_loop-checkpoints true ds m q e))
                fresh,
          )
    ]
  ]

  -- A presync block that was applied is marked, and it was not marked before: from a state where it is
  -- marked the call throws, whatever datums come with it.
  pub presync_process-once :
      (update_cursor : Machine G F R → Outcome (Machine G F R)) (n : ℕ) (caip2 : String)
      (ds : List D) (m m' : Machine G F R) (k : ℕ)
      → presync_process env prims update_cursor (evm_presync n caip2 ds) m ≡ returned (k, m')
      → IsMarked n caip2 m' × (¬ IsMarked n caip2 m)
  unfolding presync_process
  presync_process-once update_cursor n caip2 ds m m' k h =
      let (marked, fresh) = presync_lem n caip2 ds m m' k h in (marked, λ again. cc (again, fresh))
