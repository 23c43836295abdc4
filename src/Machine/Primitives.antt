-- ===== src/Machine/Primitives.antt =====
-- The primitives' datums and the points up to which other chains were read: `processCdeDataBase`,
-- `processCdeData`, `processPaginatedCdeData`, `processInternalEvents` and `presyncProcess` of
-- packages/node-sdk/paima-sm/src/index.ts.
pub mod Frame
pub mod Once
use paima_engine.Base.{
  ℕ, String, Bool, true, false, ◌&&◌, ◌||◌, Option, none, some, List, [], ◌∷◌, map, str_eq, leb,
  ◌==◌, if◌then◌else◌, length,
}
use paima_engine.Chain.{
  InternalEvent, cardano_best_epoch, evm_last_block, avail_last_block, midnight_last_block,
  mina_last_timestamp,
}
use paima_engine.Machine.State.{Checkpoints, Machine, abort, Env, Outcome, returned, thrown}
use paima_engine.Machine.Events.{game_query, run_queries}

-- What the primitives are: `cdeTransitionFunction`, which may throw, and the network of a datum.
pub record Primitives (G Q D : Type 0) : Type 0 where
  pub cde_transition : D → Bool → G → Option (List Q)
  pub caip2_of : D → String
  pub main_caip2 : String

-- A row of `cde_tracking` is there.
unfoldable pub is_tracked : (caip2 : String) → ℕ → List (String × ℕ) → Bool
is_tracked caip2 n [] = false
is_tracked caip2 n ((c, k) ∷ rows) = (str_eq c caip2 && k == n) || is_tracked caip2 n rows

-- getLatestProcessedCdeBlockheight, and 0 where there is none.
unfoldable pub get_presync_block_height : (caip2 : String) → List (String × ℕ) → ℕ
get_presync_block_height caip2 [] = 0
get_presync_block_height caip2 ((c, k) ∷ rows) =
    let rest = get_presync_block_height caip2 rows in
    if str_eq c caip2 then (if leb rest k then k else rest) else rest

-- An upsert on a key.
unfoldable pub upsert {ℓ} : {A : Type ℓ} → String → A → List (String × A) → List (String × A)
upsert key value [] = (key, value) ∷ []
upsert key value ((k, v) ∷ rows) =
    let rest = upsert key value rows in if str_eq k key then (k, value) ∷ rows else (k, v) ∷ rest

module _ {G F R : Type 0} where
  abbrev pub set_checkpoints : (Checkpoints → Checkpoints) → Machine G F R → Machine G F R
  set_checkpoints f m = record m { checkpoints = f m.checkpoints }

  -- markCdeBlockheightProcessed, under the key of the table.
  unfoldable pub mark_cde_processed : ℕ → (caip2 : String) → Machine G F R → Outcome (Machine G F R)
  mark_cde_processed n caip2 m =
      if is_tracked caip2 n m.checkpoints.cde_blocks
      then thrown (abort m)
      else returned (set_checkpoints (λ c. record c { cde_blocks = (caip2, n) ∷ c.cde_blocks }) m)

  unfoldable pub process_internal_event : InternalEvent → Machine G F R → Outcome (Machine G F R)
  unfolding mark_cde_processed
  process_internal_event (cardano_best_epoch epoch) m =
      returned (set_checkpoints (λ c. record c { cardano_epoch = some epoch }) m)
  process_internal_event (evm_last_block block caip2) m = mark_cde_processed block caip2 m
  process_internal_event (avail_last_block block caip2) m = mark_cde_processed block caip2 m
  process_internal_event (mina_last_timestamp timestamp caip2) m = returned (
      set_checkpoints (λ c. record c { mina_timestamps = upsert caip2 timestamp c.mina_timestamps })
        m)
  process_internal_event (midnight_last_block block caip2) m =
      returned (
        set_checkpoints (λ c. record c { midnight_blocks = upsert caip2 block c.midnight_blocks })
          m)

  unfoldable pub internal_events_loop : List InternalEvent → Machine G F R → Outcome (Machine G F R)
  internal_events_loop [] m = returned m
  internal_events_loop (e ∷ events) m = elim (process_internal_event e m) [
    | thrown m' ↦ thrown m'
    | returned m' ↦ internal_events_loop events m'
  ]

  unfoldable pub process_internal_events :
      Option (List InternalEvent) → Machine G F R → Outcome (Machine G F R)
  process_internal_events none m = returned m
  process_internal_events (some events) m = internal_events_loop events m

module _ {G Q F R D : Type 0} (env : Env G Q F R) (prims : Primitives G Q D) where
  unfoldable pub cde_loop : Bool → List D → Machine G F R → Outcome (Machine G F R)
  cde_loop in_presync [] m = returned m
  cde_loop in_presync (d ∷ cde_data) m = elim (prims.cde_transition d in_presync m.game) [
    | none ↦ thrown m
    | some queries ↦ elim (run_queries env (map game_query queries) m) [
      | none ↦ thrown (abort m)
      | some m' ↦ cde_loop in_presync cde_data m'
    ]
  ]

  -- The length of the data, and the state, after `markProcessed`.
  unfoldable pub process_cde_data_base :
      Bool
      → Option (List D)
      → (Machine G F R → Outcome (Machine G F R))
      → Machine G F R
      → Outcome (ℕ × Machine G F R)
  process_cde_data_base in_presync none mark_processed m = returned (0, m)
  process_cde_data_base in_presync (some cde_data) mark_processed m =
      elim (cde_loop in_presync cde_data m) [
        | thrown m' ↦ thrown (0, m')
        | returned m' ↦ elim (mark_processed m') [
          | thrown m'' ↦ thrown (0, m'')
          | returned m'' ↦ returned (length cde_data, m'')
        ]
      ]

  unfoldable pub process_cde_data :
      (block_height : ℕ) (caip2 : String)
      → Option (List D)
      → Bool
      → Machine G F R
      → Outcome (ℕ × Machine G F R)
  process_cde_data block_height caip2 cde_data in_presync =
      process_cde_data_base in_presync cde_data (
        if in_presync || str_eq caip2 prims.main_caip2
        then mark_cde_processed block_height caip2
        else returned)

-- `PresyncChainData`, but for the paginated chains' cursors, which the game's tables hold.
pub data PresyncData (D : Type 0) : Type 0 where
  evm_presync : (block_number : ℕ) (caip2 : String) → List D → PresyncData D
  paginated : List D → PresyncData D

-- `update_cursor` is updatePaginationCursor.
unfoldable pub presync_process :
    {G Q F R D : Type 0}
    → Env G Q F R
    → Primitives G Q D
    → (update_cursor : Machine G F R → Outcome (Machine G F R)) → PresyncData D
    → Machine G F R
    → Outcome (ℕ × Machine G F R)
presync_process env prims update_cursor (evm_presync block_number caip2 cde_data) m =
    process_cde_data env prims block_number caip2 (some cde_data) true m
presync_process env prims update_cursor (paginated cde_data) m =
    process_cde_data_base env prims true (some cde_data) update_cursor m
