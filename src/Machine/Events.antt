-- ===== src/Machine/Events.antt =====
-- Queries under a savepoint, the events of an input, and the index of an input in its transaction:
-- `tryOrRollback`, `handleEvents`, `sendEventsToBroker` and `indexForEventByTx` of
-- packages/node-sdk/paima-sm/src/index.ts.
use paima_engine.Base.{
  ℕ, ◌+◌, String, Bool, true, false, not, ◌&&◌, ◌||◌, Option, none, some, List, [], ◌∷◌, ◌++◌,
  str_eq, if◌then◌else◌,
}
use paima_engine.Machine.State.{EventRow, Machine, Event, Env}

-- A query of the game, or `insertEvent`.
pub data Query (Q F : Type 0) : Type 0 where
  game_query : Q → Query Q F
  insert_event : EventRow F → Query Q F

module _ {G Q F R : Type 0} (env : Env G Q F R) where
  unfoldable pub run_query : Query Q F → Machine G F R → Option (Machine G F R)
  run_query (game_query q) m = elim (env.run q m.game m.schedule) [
    | none ↦ none
    | some (g, s) ↦ some (record m { game = g; schedule = s })
  ]
  run_query (insert_event row) m = some (record m { events = row ∷ m.events })

  unfoldable pub run_queries : List (Query Q F) → Machine G F R → Option (Machine G F R)
  run_queries [] m = some m
  run_queries (q ∷ queries) m = elim (run_query q m) [
    | none ↦ none
    | some m' ↦ run_queries queries m'
  ]

  -- `tryOrRollback` of the queries: whether they all ran, and the state, which is that of the savepoint
  -- where one failed.
  unfoldable pub try_or_rollback : List (Query Q F) → Machine G F R → Bool × Machine G F R
  try_or_rollback queries m = elim (run_queries queries m) [
    | none ↦ (false, m)
    | some m' ↦ (true, m')
  ]

  -- Whether `eventDefinitions[name]` has the topic. An unknown name throws, as a missing definition
  -- does.
  unfoldable pub has_definition : (name topic : String) → List (String × String) → Bool
  has_definition name topic [] = false
  has_definition name topic ((n, t) ∷ definitions) =
      (str_eq n name && str_eq t topic) || has_definition name topic definitions

  -- `handleEvents`, from the log index that comes next: the queries and the messages, or nothing where
  -- it throws.
  unfoldable pub handle_events :
      (tx_index block_height log_index : ℕ)
      → List (Event F)
      → Option (List (Query Q F) × List (String × F))
  unfolding has_definition
  handle_events tx_index block_height log_index [] = some ([], [])
  handle_events tx_index block_height log_index (e ∷ events) =
      let row : EventRow F = record {
        topic = e.topic;
        address = e.address;
        fields = e.fields;
        tx_index = tx_index;
        log_index = log_index;
        block_height = block_height;
      } in
      if has_definition e.name e.topic env.definitions
      then elim (handle_events tx_index block_height (log_index + 1) events) [
        | none ↦ none
        | some (queries, messages) ↦
            some (insert_event row ∷ queries, (e.topic, e.fields) ∷ messages)
      ]
      else none

  -- `sendEventsToBroker`: whether it came back, and the state with what was sent.
  unfoldable pub send_events : List (String × F) → Machine G F R → Bool × Machine G F R
  send_events messages m =
      if not env.mqtt_broker
      then (true, m)
      else if env.deliver messages
      then (true, record m { sent = messages ++ m.sent })
      else (false, m)

-- `indexPerTx`, the newest binding first.
abbrev pub Indexes : Type 0
Indexes = List (String × ℕ)

unfoldable pub index_of : String → Indexes → Option ℕ
index_of tx [] = none
index_of tx ((t, i) ∷ indexes) = if str_eq t tx then some i else index_of tx indexes

-- `indexForEventByTx`
unfoldable pub index_for_event : String → Indexes → ℕ × Indexes
index_for_event tx indexes = elim (index_of tx indexes) [
  | none ↦ (0, (tx, 0) ∷ indexes)
  | some i ↦ (i + 1, (tx, i + 1) ∷ indexes)
]
