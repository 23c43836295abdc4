-- ===== src/Machine/Block/Linked.antt =====
-- A block that is processed becomes the latest one, linked to the one before; a block that throws does not.
use mathlib.Core.List.{reverse}
use paima_engine.Base.{
  ℕ, ◌+◌, ◌*◌, String, ◌≡◌, refl, sym, ap, ◌∙◌, inl, inr, Option, none, some, List, ◌++◌, arith,
  length, length-append, length-reverse,
}
use paima_engine.Chain.{ChainData}
use paima_engine.Chain.Hash.{gen_v1_block_header, hash_block_v1}
use paima_engine.Machine.State.{
  BlockRow, Machine, Env, Outcome, returned, thrown, state_of, Outcome-cases,
}
use paima_engine.Machine.Primitives.{Primitives}
use paima_engine.Machine.Inputs.{Verdict, Progress, process_user_inputs}
use paima_engine.Machine.Inputs.Frame.{process_user_inputs-blocks}
use paima_engine.Machine.Scheduled.{
  future_by_max_timestamp, future_by_block_height, Round, first_round, process_scheduled_data,
}
use paima_engine.Machine.Inputs.Log.{
  successes_of, failures_of, successes_of-append, failures_of-append, user_log,
  process_user_inputs-Logged,
}
use paima_engine.Machine.Scheduled.Log.{scheduled_log, scheduled_loop-Logged}
use paima_engine.Machine.Randomness.{Chance}
use paima_engine.Machine.Block.{
  latest_processed, prepare, prev_hash, header_of, first_progress, block_header, finish_block,
  process,
}
use paima_engine.Machine.Block.Table.{
  ProcessedBelow, latest_processed-save, save_last_block-ProcessedBelow, save_last_block-HasRow,
  IsLatest, block_height_done-IsLatest, block_height_done-ProcessedBelow,
}
use paima_engine.Machine.Block.Kept.{new_row, saved, prepare-Keeps, process_scheduled_data-Keeps}

module _ {G Q F R D : Type 0} (env : Env G Q F R) (prims : Primitives G Q D)
    (chance : Chance R) where
  -- The hash of a finished block: it is taken of the hash of the block before, and of the hashes of the
  -- inputs that succeeded and failed.
  abbrev pub linked_hash : ChainData D → List BlockRow → (successes failures : List String) → String
  linked_hash c blocks successes failures = hash_block_v1 env.keccak_256 env.decimal (
      gen_v1_block_header env.keccak_256 (env.strip0x c.block_hash) c.block_number
        (c.timestamp * 1000) (prev_hash env prims chance blocks) successes failures)

  -- How the inputs of a block ended, those that are due before those of users, from the state that
  -- the datums left and the scheduled inputs left.
  abbrev pub block_log :
      ChainData D → (prepared : Machine G F R) → (scheduled : Round G F R) → List (String × Verdict)
  block_log c prepared scheduled =
      let header = header_of env prims chance c prepared in
      let due =
        future_by_max_timestamp header.ms_timestamp prepared.results prepared.schedule
        ++ future_by_block_height header.block_height prepared.schedule in
      scheduled_log env header due (first_round env prepared)
      ++ user_log env header scheduled.emitted_logs_count c.submitted_data
          (first_progress env prims chance scheduled)

  -- The table of blocks after a block.
  abbrev pub Ends : ChainData D → Machine G F R → Outcome (ℕ × Machine G F R) → Type 0
  Ends c m (returned (k, m')) =
      (prepared : Machine G F R) × (scheduled : Round G F R) × (prepare env prims chance c m
        ≡ returned prepared)
      × (process_scheduled_data env (header_of env prims chance c prepared) prepared
          ≡ returned scheduled)
      × (k ≡ length (successes_of (block_log c prepared scheduled)))
      × IsLatest c.block_number
          (linked_hash c m.blocks (successes_of (block_log c prepared scheduled))
            (failures_of (block_log c prepared scheduled)))
          m'.blocks
      × ProcessedBelow (c.block_number + 1) m'.blocks
  Ends c m (thrown (k, m')) =
      (latest_processed m'.blocks ≡ latest_processed m.blocks)
      × ProcessedBelow c.block_number m'.blocks

  -- The hashes of the two loops, one after the other, are those of the block's log.
  hashes_lem :
      (c : ChainData D) (m1 : Machine G F R) (r : Round G F R) (p : Progress G F R)
      → process_scheduled_data env (header_of env prims chance c m1) m1 ≡ returned r
      → process_user_inputs env
          (header_of env prims chance c m1)
          r.emitted_logs_count
          c.submitted_data
          (first_progress env prims chance r)
        ≡ returned p
      → (reverse r.success_hashes ++ reverse p.success_hashes ≡ successes_of (block_log c m1 r))
        × (reverse r.failed_hashes ++ reverse p.failed_hashes ≡ failures_of (block_log c m1 r))
  unfolding process_scheduled_data
  hashes_lem c m1 r p f g =
      let header = header_of env prims chance c m1 in
      let due =
        future_by_max_timestamp header.ms_timestamp m1.results m1.schedule
        ++ future_by_block_height header.block_height m1.schedule in
      let (s, t) = scheduled_loop-Logged env header due (first_round env m1) r f in
      let (u, v) =
        process_user_inputs-Logged env header r.emitted_logs_count c.submitted_data
          (first_progress env prims chance r) p g in
      let before = scheduled_log env header due (first_round env m1) in
      let after =
        user_log env header r.emitted_logs_count c.submitted_data
          (first_progress env prims chance r) in
      (
        ap (λ l. l ++ reverse p.success_hashes) s
            ∙ ap (λ l. successes_of before ++ l) u
            ∙ sym (successes_of-append before after),
        ap (λ l. l ++ reverse p.failed_hashes) t
            ∙ ap (λ l. failures_of before ++ l) v
            ∙ sym (failures_of-append before after),
      )

  thrown-Ends :
      (c : ChainData D) (m m' : Machine G F R)
      → ProcessedBelow c.block_number m.blocks
      → m'.blocks ≡ (saved env prims chance c m).blocks
      → Ends c m (thrown (0, m'))
  thrown-Ends c m m' h e = rw e (
    latest_processed-save (new_row env prims chance c m) m.blocks refl h,
    save_last_block-ProcessedBelow c.block_number (new_row env prims chance c m) m.blocks refl h,
  )

  returned-Ends :
      (c : ChainData D) (m m1 : Machine G F R) (r : Round G F R) (p : Progress G F R)
      → ProcessedBelow c.block_number m.blocks
      → prepare env prims chance c m ≡ returned m1
      → m1.blocks ≡ (saved env prims chance c m).blocks
      → process_scheduled_data env (header_of env prims chance c m1) m1 ≡ returned r
      → process_user_inputs env
          (header_of env prims chance c m1)
          r.emitted_logs_count
          c.submitted_data
          (first_progress env prims chance r)
        ≡ returned p
      → p.machine.blocks ≡ (saved env prims chance c m).blocks
      → Ends c m (returned (finish_block env prims chance (header_of env prims chance c m1) r p))
  returned-Ends c m m1 r p h ready e due users f =
      let hash =
        hash_block_v1 env.keccak_256 env.decimal
          (block_header env prims chance (header_of env prims chance c m1) r p) in
      let below =
        save_last_block-ProcessedBelow c.block_number (new_row env prims chance c m) m.blocks refl
          h in
      let same : prev_hash env prims chance m1.blocks ≡ prev_hash env prims chance m.blocks = rw e (
        ap (λ (o : Option BlockRow). elim o [ none ↦ none | some b ↦ b.paima_block_hash ])
          (latest_processed-save (new_row env prims chance c m) m.blocks refl h)) in
      let (successes, failures) = hashes_lem c m1 r p due users in
      (
        m1,
        r,
        ready,
        due,
        rw (← successes) (
            omega (
              arith,
              length-append (reverse r.success_hashes) (reverse p.success_hashes),
              length-reverse r.success_hashes,
              length-reverse p.success_hashes,
            )),
        rw (← successes, ← failures, f, ← same)
            (block_height_done-IsLatest c.block_number hash (saved env prims chance c m).blocks
              below (save_last_block-HasRow (new_row env prims chance c m) m.blocks)),
        rw f (
            block_height_done-ProcessedBelow c.block_number hash (saved env prims chance c m).blocks
              below),
      )

  users-Ends :
      (c : ChainData D) (m m1 : Machine G F R) (r : Round G F R) (o : Outcome (Progress G F R))
      → ProcessedBelow c.block_number m.blocks
      → prepare env prims chance c m ≡ returned m1
      → m1.blocks ≡ (saved env prims chance c m).blocks
      → process_scheduled_data env (header_of env prims chance c m1) m1 ≡ returned r
      → process_user_inputs env
          (header_of env prims chance c m1)
          r.emitted_logs_count
          c.submitted_data
          (first_progress env prims chance r)
        ≡ o
      → (state_of o).machine.blocks ≡ (saved env prims chance c m).blocks
      → Ends c m (elim o [
        | thrown p ↦ thrown (0, p.machine)
        | returned p ↦
            returned (finish_block env prims chance (header_of env prims chance c m1) r p)
      ])
  users-Ends c m m1 r (returned p) h ready e due users f =
      returned-Ends c m m1 r p h ready e due users f
  users-Ends c m m1 r (thrown p) h ready e due users f = thrown-Ends c m p.machine h f

  process-unprepared :
      (c : ChainData D) (m m1 : Machine G F R)
      → prepare env prims chance c m ≡ thrown m1
      → process env prims chance c m ≡ thrown (0, m1)
  unfolding process
  process-unprepared c m m1 e = rw (e, process) refl

  process-unscheduled :
      (c : ChainData D) (m m1 : Machine G F R) (r : Round G F R)
      → prepare env prims chance c m ≡ returned m1
      → process_scheduled_data env (header_of env prims chance c m1) m1 ≡ thrown r
      → process env prims chance c m ≡ thrown (0, r.machine)
  unfolding process
  process-unscheduled c m m1 r e f = rw (e, process, f) refl

  process-users :
      (c : ChainData D) (m m1 : Machine G F R) (r : Round G F R)
      → prepare env prims chance c m ≡ returned m1
      → process_scheduled_data env (header_of env prims chance c m1) m1 ≡ returned r
      → process env prims chance c m
        ≡ elim (process_user_inputs env
            (header_of env prims chance c m1)
            r.emitted_logs_count
            c.submitted_data
            (first_progress env prims chance r)) [
              | thrown p ↦ thrown (0, p.machine)
              | returned p ↦
                  returned (finish_block env prims chance (header_of env prims chance c m1) r p)
            ]
  unfolding process
  process-users c m m1 r e f = rw (e, process, f) refl

  pub process-Ends :
      (c : ChainData D) (m : Machine G F R)
      → ProcessedBelow c.block_number m.blocks
      → Ends c m (process env prims chance c m)
  process-Ends c m h =
      let kept = prepare-Keeps env prims chance c m in
      elim (Outcome-cases (prepare env prims chance c m)) [
        | inr (m1, e) ↦
            rw (process-unprepared c m m1 e) (thrown-Ends c m m1 h (rw e at kept).blocks)
        | inl (m1, e) ↦
            let header = header_of env prims chance c m1 in
            let first : m1.blocks ≡ (saved env prims chance c m).blocks = (rw e at kept).blocks in
            let due = process_scheduled_data-Keeps env prims chance header m1 in
            elim (Outcome-cases (process_scheduled_data env header m1)) [
              | inr (r, f) ↦
                  rw (process-unscheduled c m m1 r e f)
                    (thrown-Ends c m r.machine h ((rw f at due).blocks ∙ first))
              | inl (r, f) ↦
                  let users =
                    process_user_inputs-blocks env header r.emitted_logs_count c.submitted_data
                      (first_progress env prims chance r) in
                  rw (process-users c m m1 r e f) (
                    users-Ends c m m1 r
                      (process_user_inputs env header r.emitted_logs_count c.submitted_data
                        (first_progress env prims chance r))
                      h e first f refl (users ∙ (rw f at due).blocks ∙ first))
            ]
      ]
