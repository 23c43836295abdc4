-- ===== src/Machine/Block/Kept.antt =====
-- What comes before the inputs of a block, and its scheduled inputs, keep the engine's own tables, but
-- for the row of the block: `process` of packages/node-sdk/paima-sm/src/index.ts.
use paima_engine.Base.{ℕ, ◌*◌, String, inl, inr, false, none, some, List, [], ◌∷◌, ◌++◌}
use paima_engine.Chain.{ChainData}
use paima_engine.Machine.State.{BlockRow, Machine, Header, Env, state_of, Outcome-cases}
use paima_engine.Machine.Kept.{Keeps, Keeps-refl, Keeps-trans}
use paima_engine.Machine.Primitives.{Primitives, process_internal_events, process_cde_data}
use paima_engine.Machine.Primitives.Frame.{process_internal_events-Keeps, process_cde_data-Keeps}
use paima_engine.Machine.Scheduled.{
  future_by_max_timestamp, future_by_block_height, first_round, process_scheduled_data,
}
use paima_engine.Machine.Scheduled.Frame.{scheduled_loop-Keeps}
use paima_engine.Machine.Randomness.{Chance, get_seed}
use paima_engine.Machine.Block.{save_last_block, per_network, list_of, networks_loop, prepare}

module _ {G Q F R D : Type 0} (env : Env G Q F R) (prims : Primitives G Q D)
    (chance : Chance R) where
  networks_loop-Keeps :
      (block_height : ℕ) (networks : List (String × List D)) (m : Machine G F R)
      → Keeps m (state_of (networks_loop env prims chance block_height networks m))
  unfolding networks_loop
  networks_loop-Keeps block_height [] m = Keeps-refl m
  networks_loop-Keeps block_height ((caip2, ds) ∷ networks) m =
      let kept = process_cde_data-Keeps env prims block_height caip2 (some ds) false m in
      elim (Outcome-cases (process_cde_data env prims block_height caip2 (some ds) false m)) [
        | inl ((k, q), e) ↦
            rw (e, state_of)
              (Keeps-trans m q (state_of (networks_loop env prims chance block_height networks q))
                (rw e at kept) (networks_loop-Keeps block_height networks q))
        | inr ((k, q), e) ↦ rw (e, state_of) (rw e at kept)
      ]

  -- The row of a block that is not done yet.
  abbrev pub new_row : ChainData D → Machine G F R → BlockRow
  new_row c m = record {
    block_height = c.block_number;
    main_chain_block_hash = env.strip0x c.block_hash;
    seed = get_seed chance c.block_hash c.submitted_data m.blocks;
    ms_timestamp = c.timestamp * 1000;
    paima_block_hash = none;
  }

  abbrev pub saved : ChainData D → Machine G F R → Machine G F R
  saved c m = record m {
    blocks = save_last_block (new_row c m) m.blocks;
    random = chance.seeded (get_seed chance c.block_hash c.submitted_data m.blocks);
  }

  pub prepare-Keeps :
      (c : ChainData D) (m : Machine G F R)
      → Keeps (saved c m) (state_of (prepare env prims chance c m))
  unfolding prepare
  prepare-Keeps c m =
      let networks = per_network prims.caip2_of (list_of c.extension_datums) [] in
      let kept = networks_loop-Keeps c.block_number networks (saved c m) in
      elim (Outcome-cases (networks_loop env prims chance c.block_number networks (saved c m))) [
        | inl (q, e) ↦
            rw (e, state_of)
              (Keeps-trans (saved c m) q (state_of (process_internal_events c.internal_events q))
                (rw e at kept) (process_internal_events-Keeps c.internal_events q))
        | inr (q, e) ↦ rw (e, state_of) (rw e at kept)
      ]

  pub process_scheduled_data-Keeps :
      (header : Header) (m : Machine G F R)
      → Keeps m (state_of (process_scheduled_data env header m)).machine
  unfolding process_scheduled_data
  process_scheduled_data-Keeps header m =
      scheduled_loop-Keeps env header
        (future_by_max_timestamp header.ms_timestamp m.results m.schedule
          ++ future_by_block_height header.block_height m.schedule)
        (first_round env m)
