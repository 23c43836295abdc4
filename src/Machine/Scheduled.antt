-- ===== src/Machine/Scheduled.antt =====
-- The inputs that are due in a block: `processScheduledData` of
-- packages/node-sdk/paima-sm/src/index.ts, and the queries that it reads and writes
-- (packages/node-sdk/paima-db/src/sql/rollup_inputs.sql). The database may return inputs that are due
-- at the same time in any order; they come in that of the table here.
pub mod Frame
pub mod Log
pub mod Numbered
use paima_engine.Base.{
  ℕ, ◌+◌, String, Bool, true, false, not, ◌&&◌, ◌||◌, Option, none, some, List, [], ◌∷◌, ◌++◌,
  str_eq, leb, ◌==◌, if◌then◌else◌,
}
use paima_engine.Chain.Hash.{text_of, hash_rollup_input, hash_timer_data}
use paima_engine.Funnel.Grouping.{sort_by}
use paima_engine.Machine.State.{
  at_block, at_ms, Scheduled, InputResult, Machine, abort, StfInput, Header, Env, Outcome, returned,
  thrown,
}
use paima_engine.Machine.Events.{Indexes, index_for_event}
use paima_engine.Machine.Inputs.{
  Verdict, accepted, Attempt, note_success, note_failure, end_round, trigger_stf,
}

unfoldable pub has_result : ℕ → List InputResult → Bool
has_result k [] = false
has_result k (r ∷ results) =
    let rest = has_result k results in elim r.id [ none ↦ rest | some i ↦ i == k || rest ]

abbrev pub is_due_by : (max_timestamp : ℕ) → List InputResult → Scheduled → Bool
is_due_by max_timestamp results s = elim s.due [
  | at_block _ ↦ false
  | at_ms t ↦ leb t max_timestamp && not (has_result s.id results)
]

abbrev pub is_due_at : (block_height : ℕ) → Scheduled → Bool
is_due_at block_height s = elim s.due [ at_block n ↦ n == block_height | at_ms _ ↦ false ]

abbrev pub due_ms : Scheduled → ℕ
due_ms s = elim s.due [ at_block _ ↦ 0 | at_ms t ↦ t ]

abbrev pub scheduled_id : Scheduled → ℕ
scheduled_id s = s.id

unfoldable pub select : (Scheduled → Bool) → List Scheduled → List Scheduled
select p [] = []
select p (s ∷ schedule) = let rest = select p schedule in if p s then s ∷ rest else rest

-- getFutureGameInputByMaxTimestamp
abbrev pub future_by_max_timestamp :
    (max_timestamp : ℕ) → List InputResult → List Scheduled → List Scheduled
future_by_max_timestamp max_timestamp results schedule =
    sort_by due_ms (select (is_due_by max_timestamp results) schedule)

-- getFutureGameInputByBlockHeight
abbrev pub future_by_block_height : (block_height : ℕ) → List Scheduled → List Scheduled
future_by_block_height block_height schedule =
    sort_by scheduled_id (select (is_due_at block_height) schedule)

-- deleteScheduled
unfoldable pub delete_scheduled : ℕ → List Scheduled → List Scheduled
delete_scheduled k [] = []
delete_scheduled k (s ∷ schedule) =
    let rest = delete_scheduled k schedule in if s.id == k then rest else s ∷ rest

-- The variables of the loop. `timers` is `timerIndexRelativeToBlock + 1`.
pub record Round (G F R : Type 0) : Type 0 where
  pub machine : Machine G F R
  pub indexes : Indexes
  pub timers : ℕ
  pub tx_index : ℕ
  pub emitted_logs_count : ℕ
  pub success_hashes : List String
  pub failed_hashes : List String

-- `data.primitive_name && data.origin_tx_hash`: the transaction where both are there.
abbrev pub origin_of : Scheduled → Option String
origin_of s = elim s.primitive_name [
  | none ↦ none
  | some name ↦ if str_eq name "" then none else s.origin_tx_hash
]

module _ {G Q F R : Type 0} (env : Env G Q F R) where
  -- The hash of an input, the network that it keeps, and the counters.
  unfoldable pub identify : Header → Scheduled → Round G F R → String × Option String × Round G F R
  identify header s r = elim (origin_of s) [
    | some tx ↦
        let (index, indexes) = index_for_event tx r.indexes in
        (
          hash_rollup_input env.keccak_256 env.decimal (text_of s.caip2) tx index,
          s.caip2,
          record r { indexes = indexes },
        )
    | none ↦ (
      hash_timer_data env.keccak_256 env.decimal s.from_address (env.keccak_256 s.input_data)
          header.block_height r.timers,
      none,
      record r { timers = r.timers + 1 },
    )
  ]

  unfoldable pub scheduled_input : Scheduled → (hash : String) → (caip2 : Option String) → StfInput
  scheduled_input s hash caip2 = record {
    submitted = record {
      real_address = "0x0";
      input_data = s.input_data;
      input_nonce = "";
      supplied_value = 0;
      scheduled = true;
      origin = record {
        tx_hash = s.origin_tx_hash;
        caip2 = caip2;
        contract_address = s.contract_address;
        primitive_name = s.primitive_name;
        scheduled_at_ms = elim s.due [ at_block _ ↦ none | at_ms t ↦ some t ];
      };
    };
    user_address = s.from_address;
    user_id = some 0;
    paima_tx_hash = hash;
  }

  -- The query of the `finally` block: insertGameInputResult, whose key is the input's id, or
  -- deleteScheduled.
  unfoldable pub close_scheduled :
      Header
      → Scheduled
      → (hash : String) → (index : ℕ) → Bool
      → Machine G F R
      → Option (Machine G F R)
  close_scheduled header s hash index success m =
      let row : InputResult = record {
        id = some s.id;
        input_data = s.input_data;
        from_address = s.from_address;
        success = success;
        paima_tx_hash = hash;
        index_in_block = index;
        block_height = header.block_height;
      } in
      if env.store_historical
      then (if has_result s.id m.results
          then none
          else some (record m { results = row ∷ m.results }))
      else some (record m { schedule = delete_scheduled s.id m.schedule })

  abbrev pub count_emitted : Verdict → (emitted count : ℕ) → ℕ
  count_emitted accepted emitted count = emitted
  count_emitted _ emitted count = count

  -- The round once the `try` is over, with its `finally` block.
  unfoldable pub finish_scheduled :
      Header → Scheduled → (hash : String) → Round G F R → Attempt G F R → Outcome (Round G F R)
  finish_scheduled header s hash r a =
      let after : Round G F R = record r {
        machine = a.machine;
        emitted_logs_count = count_emitted a.verdict a.emitted r.emitted_logs_count;
        success_hashes = note_success a.verdict hash r.success_hashes;
        failed_hashes = note_failure a.verdict hash r.failed_hashes;
      } in
      elim (close_scheduled header s hash r.tx_index a.success a.machine) [
        | none ↦ thrown (record after { machine = abort a.machine })
        | some m ↦ end_round a.verdict (record after { machine = m; tx_index = r.tx_index + 1 })
      ]

  -- One round of the loop.
  unfoldable pub run_scheduled : Header → Scheduled → Round G F R → Outcome (Round G F R)
  run_scheduled header s before =
      let (hash, caip2, r) = identify header s before in
      finish_scheduled header s hash r (
        trigger_stf env (scheduled_input s hash caip2) header r.tx_index r.emitted_logs_count
          r.machine)

  unfoldable pub scheduled_loop : Header → List Scheduled → Round G F R → Outcome (Round G F R)
  scheduled_loop header [] r = returned r
  scheduled_loop header (s ∷ scheduled_data) r = elim (run_scheduled header s r) [
    | thrown r' ↦ thrown r'
    | returned r' ↦ scheduled_loop header scheduled_data r'
  ]

  abbrev pub first_round : Machine G F R → Round G F R
  first_round m = record {
    machine = m;
    indexes = [];
    timers = 0;
    tx_index = 0;
    emitted_logs_count = 0;
    success_hashes = [];
    failed_hashes = [];
  }

  unfoldable pub process_scheduled_data : Header → Machine G F R → Outcome (Round G F R)
  process_scheduled_data header m =
      scheduled_loop header
        (future_by_max_timestamp header.ms_timestamp m.results m.schedule
          ++ future_by_block_height header.block_height m.schedule)
        (first_round m)
