-- ===== src/Runtime/Presync/Whole.antt =====
-- The presync as a whole, `runPresync` of packages/node-sdk/paima-runtime/src/runtime-loops.ts: rounds,
-- each in a transaction, until no network is left.
use paima_engine.Base.{
  ℕ, zero, suc, ◌+◌, ◌-◌, ◌≤◌, String, ◌≡◌, refl, ap, inl, inr, true, false, List, [], ◌∷◌, arith,
  Bool-cases,
}
use paima_engine.Machine.State.{
  Machine, abort, Env, Outcome, returned, thrown, state_of, Outcome-cases,
}
use paima_engine.Machine.Kept.{Keeps, Keeps-refl, Keeps-trans, Keeps-abort}
use paima_engine.Machine.Primitives.{Primitives}
use paima_engine.Runtime.Presync.{
  Answer, Range, is_empty, is_finished, every, keep_units, all_units, next_heights, presync_loop,
  run_presync_round,
}
use paima_engine.Runtime.Presync.Round.{run_presync_round-Keeps}
use paima_engine.Wallet.Tables.{Db}
use paima_engine.Runtime.Sync.{commit}

-- The ranges of a round, from the heights and the step sizes of the networks.
unfoldable pub presync_ranges :
    (presync_step_size : String → ℕ) → (heights : List (String × ℕ)) → List Range
presync_ranges presync_step_size [] = []
presync_ranges presync_step_size ((caip2, h) ∷ heights) =
    record { caip2 = caip2; from = h; to = h + presync_step_size caip2 - 1 }
    ∷ presync_ranges presync_step_size heights

-- `funnel` is what the funnel answers in each round.
module _ {G Q F R D : Type 0} (env : Env G Q F R) (prims : Primitives G Q D)
    (update_cursor : Machine G F R → Outcome (Machine G F R)) (presync_step_size : String → ℕ)
    (funnel : ℕ → List Range → List (String × Answer D)) where
  -- The heights after a round, and the state. A round that throws is rolled back.
  unfoldable pub round_in_tx :
      (round : ℕ) → List (String × ℕ) → Machine G F R → Outcome (List (String × ℕ) × Machine G F R)
  round_in_tx round heights m =
      let ranges = presync_ranges presync_step_size heights in
      elim (run_presync_round env prims update_cursor ranges (funnel round ranges) m) [
        | thrown (_, m') ↦ thrown (heights, commit m (abort m'))
        | returned (heights', m') ↦ returned (heights', commit m m')
      ]

  -- On fuel. Heights that are left say that the loop has not ended.
  unfoldable pub run_presync :
      (fuel round : ℕ)
      → List (String × ℕ)
      → Machine G F R
      → Outcome (List (String × ℕ) × Machine G F R)
  run_presync zero round heights m = returned (heights, m)
  run_presync (suc fuel) round [] m = returned ([], m)
  run_presync (suc fuel) round (h ∷ heights) m = elim (round_in_tx round (h ∷ heights) m) [
    | thrown (heights', m') ↦ thrown (heights', m')
    | returned (heights', m') ↦ run_presync fuel (suc round) heights' m'
  ]

  -- An error ends the loop too.
  abbrev pub IsEnded : Outcome (List (String × ℕ) × Machine G F R) → Type 0
  IsEnded (thrown r) = Unit
  IsEnded (returned (heights, m)) = heights ≡ []

  -- In such a round the funnel says of each network that it is done, and of one at least.
  abbrev pub IsDone : ℕ → Type 0
  IsDone round =
      (ranges : List Range)
      → (every is_finished (funnel round ranges) ≡ true)
        × (every is_empty (funnel round ranges) ≡ false)

  done_round :
      (round : ℕ) (heights : List (String × ℕ)) (m : Machine G F R)
      → IsDone round
      → IsEnded (round_in_tx round heights m)
  unfolding round_in_tx run_presync_round
  done_round round heights m done =
      let ranges = presync_ranges presync_step_size heights in
      let answers = funnel round ranges in
      let (finished, some_units) = done ranges in
      rw (some_units, IsEnded)
        (elim (Outcome-cases
          (presync_loop env prims update_cursor (keep_units (all_units answers)) m)) [
            | inl (q, e) ↦ rw (e, finished, IsEnded) refl
            | inr (q, e) ↦ rw (e, IsEnded) tt
          ])

  run_presync-IsEnded :
      (more round : ℕ) (heights : List (String × ℕ)) (m : Machine G F R)
      → ((later : ℕ) → round + more ≤ later → IsDone later)
      → IsEnded (run_presync (suc more) round heights m)
  unfolding run_presync
  run_presync-IsEnded more round [] m done = refl
  run_presync-IsEnded zero round (h ∷ heights) m done =
      let ended = done_round round (h ∷ heights) m (done round (omega arith)) in
      elim (Outcome-cases (round_in_tx round (h ∷ heights) m)) [
        | inl ((heights', m'), e) ↦ rw (e, IsEnded) (rw e at ended)
        | inr (r, e) ↦ rw (e, IsEnded) tt
      ]
  run_presync-IsEnded (suc more) round (h ∷ heights) m done =
      elim (Outcome-cases (round_in_tx round (h ∷ heights) m)) [
        | inl ((heights', m'), e) ↦
            rw (e, IsEnded)
              (run_presync-IsEnded more (suc round) heights' m'
                (λ later. λ le. done later (omega (arith, le))))
        | inr (r, e) ↦ rw (e, IsEnded) tt
      ]

  module _ (cursor-Keeps : (m : Machine G F R) → Keeps m (state_of (update_cursor m))) where
    Keeps-commit : (m m' : Machine G F R) → Keeps m m' → Keeps m (commit m m')
    unfolding commit
    Keeps-commit m m' k = elim (Bool-cases m'.wallet.aborted) [
      | inl aborted ↦ rw aborted (record {
        db = ap (λ (d : Db). record m.wallet.db { next_id = d.next_id }) k.db;
        cache = k.cache;
        nonces = refl;
        blocks = refl;
      })
      | inr fine ↦
          rw fine (record { db = k.db; cache = k.cache; nonces = k.nonces; blocks = k.blocks })
    ]

    round_in_tx-Keeps :
        (round : ℕ) (heights : List (String × ℕ)) (m : Machine G F R)
        → Keeps m (state_of (round_in_tx round heights m)).1
    unfolding round_in_tx
    round_in_tx-Keeps round heights m =
        let ranges = presync_ranges presync_step_size heights in
        let answers = funnel round ranges in
        let kept = run_presync_round-Keeps env prims update_cursor cursor-Keeps ranges answers m in
        elim (Outcome-cases (run_presync_round env prims update_cursor ranges answers m)) [
          | inl ((next_heights, m'), e) ↦ rw (e, state_of) (Keeps-commit m m' (rw e at kept))
          | inr ((left_heights, m'), e) ↦
              rw (e, state_of)
                (Keeps-commit m (abort m')
                  (Keeps-trans m m' (abort m') (rw e at kept) (Keeps-abort m')))
        ]

    run_presync-Keeps :
        (fuel round : ℕ) (heights : List (String × ℕ)) (m : Machine G F R)
        → Keeps m (state_of (run_presync fuel round heights m)).1
    unfolding run_presync
    run_presync-Keeps zero round heights m = Keeps-refl m
    run_presync-Keeps (suc fuel) round [] m = Keeps-refl m
    run_presync-Keeps (suc fuel) round (h ∷ heights) m =
        let kept = round_in_tx-Keeps round (h ∷ heights) m in
        elim (Outcome-cases (round_in_tx round (h ∷ heights) m)) [
          | inl ((heights', m'), e) ↦
              rw (e, state_of)
                (Keeps-trans m m' (state_of (run_presync fuel (suc round) heights' m')).1
                  (rw e at kept) (run_presync-Keeps fuel (suc round) heights' m'))
          | inr ((heights', m'), e) ↦ rw (e, state_of) (rw e at kept)
        ]

    -- Where the funnel answers from some round on that every network is done, for one network at
    -- least, the loop of the presync ends after that round at the latest, with no network left or
    -- by an error; and it keeps the wallets' tables, the nonces and the blocks as they were, where
    -- the update of a chain's cursor does.
    pub run_presync_lem :
        (more : ℕ) (heights : List (String × ℕ)) (m : Machine G F R)
        → ((later : ℕ) → more ≤ later → IsDone later)
        → IsEnded (run_presync (suc more) 0 heights m)
          × Keeps m (state_of (run_presync (suc more) 0 heights m)).1
    run_presync_lem more heights m done = (
      run_presync-IsEnded more 0 heights m (λ later. λ le. done later (omega (arith, le))),
      run_presync-Keeps (suc more) 0 heights m,
    )
