-- ===== src/Machine/Inputs/Atomic.antt =====
-- An input counts as unsuccessful only if nothing of it stayed in the game's tables.
use paima_engine.Base.{
  ℕ, String, ◌≡◌, refl, inl, inr, false, some, List, [], ◌∷◌, ◌++◌, map, arith, Option-cases,
}
use paima_engine.Wallet.Commands.{create_address, Result-cases}
use paima_engine.Wallet.Process.{process}
use paima_engine.Machine.State.{Machine, StfInput, Header, Env}
use paima_engine.Machine.Events.{Query, game_query, run_queries, try_or_rollback, handle_events}
use paima_engine.Machine.Inputs.{apply_update, trigger_stf, attempt_input}

-- The game's own tables, its schedule and its events are as they were, and nothing was sent.
pub record Untouched {G F R : Type 0} (m m' : Machine G F R) : Type 0 where
  pub game : m'.game ≡ m.game
  pub schedule : m'.schedule ≡ m.schedule
  pub events : m'.events ≡ m.events
  pub sent : m'.sent ≡ m.sent

module _ {G Q F R : Type 0} (env : Env G Q F R) where
  apply_update-Untouched :
      (queries : List (Query Q F)) (messages : List (String × F)) (m : Machine G F R)
      → (apply_update env queries messages m).success ≡ false
      → Untouched m (apply_update env queries messages m).machine
  unfolding apply_update try_or_rollback
  apply_update-Untouched [] messages m h = record {
    game = refl;
    schedule = refl;
    events = refl;
    sent = refl;
  }
  apply_update-Untouched (q ∷ queries) messages m h =
      elim (Option-cases (run_queries env (q ∷ queries) m)) [
        | inl failed ↦ ground arith
        | inr (m1, e) ↦ ground arith
      ]

  trigger_stf-Untouched :
      (input : StfInput) (header : Header) (tx_index log_offset : ℕ) (m : Machine G F R)
      → (trigger_stf env input header tx_index log_offset m).success ≡ false
      → Untouched m (trigger_stf env input header tx_index log_offset m).machine
  unfolding trigger_stf
  trigger_stf-Untouched input header tx_index log_offset m h =
      elim (Option-cases (env.stf input header m.random m.game).1) [
        | inl threw ↦ ground arith
        | inr ((transitions, events), e) ↦
            elim (Option-cases (handle_events env tx_index header.block_height log_offset events)) [
              | inl undefined ↦ ground arith
              | inr ((queries, messages), f) ↦ ground (
                arith,
                apply_update-Untouched (map game_query transitions ++ queries) messages
                    (record m { random = (env.stf input header m.random m.game).0 }),
              )
            ]
      ]

  -- An input that does not count as a success, because its wallet command was refused, the state
  -- transition function threw, an event was not defined or a query failed, has left the game's tables,
  -- the schedule and the events as they were, and has sent nothing.
  pub attempt_input-Untouched :
      (input : StfInput) (header : Header) (tx_index log_offset : ℕ) (m : Machine G F R)
      → (attempt_input env input header tx_index log_offset m).success ≡ false
      → Untouched m (attempt_input env input header tx_index log_offset m).machine
  unfolding attempt_input
  attempt_input-Untouched input header tx_index log_offset m h =
      let (status, w) =
        process env.lower env.validators env.parse input.submitted.real_address input.user_address
          input.submitted.input_data m.wallet in
      let (created, w') = create_address input.user_address m.wallet in
      elim (Option-cases input.user_id) [
        | inl unknown ↦ elim (Result-cases created) [
          | inl ((i, a), e) ↦ ground (
            arith,
            trigger_stf-Untouched input header tx_index log_offset (record m { wallet = w }),
            trigger_stf-Untouched (record input { user_id = some i }) header tx_index log_offset
                (record m { wallet = w' }),
          )
          | inr (x, e) ↦ ground (
            arith,
            trigger_stf-Untouched input header tx_index log_offset (record m { wallet = w }),
          )
        ]
        | inr (id, e) ↦ ground (
          arith,
          trigger_stf-Untouched input header tx_index log_offset (record m { wallet = w }),
          trigger_stf-Untouched input header tx_index log_offset m,
        )
      ]
