-- ===== src/Batcher/Limits.antt =====
-- How often an address may submit: authenticateUserAddress and evaluatePostingLimits of
-- packages/batcher/address-validator/src/index.ts with date-utils.ts beside it, and the queries on
-- `user_tracking` in packages/batcher/db/src/sql/queries.sql. A time is its number of milliseconds since
-- the epoch, and requests are taken one after the other. Errors of the database are left out.
pub mod Rows
pub mod Bound
use paima_engine.Base.{
  ℕ, ◌+◌, ◌/◌, ◌%◌, Bool, true, false, not, ◌&&◌, Option, none, some, List, ◌∷◌, ltb, ◌==◌,
  if◌then◌else◌,
}
use paima_engine.Batcher.Keyed.{find_key, update_key}
use paima_engine.Concise.Batch.{Text}

-- The date in UTC is told by the number of the day.
abbrev pub utc_day : ℕ → ℕ
utc_day t = t / 86400000

abbrev pub utc_hours : ℕ → ℕ
utc_hours t = t / 3600000 % 24

abbrev pub utc_minutes : ℕ → ℕ
utc_minutes t = t / 60000 % 60

unfoldable pub is_same_day : ℕ → ℕ → Bool
is_same_day t u = utc_day t == utc_day u

unfoldable pub is_same_minute : ℕ → ℕ → Bool
unfolding is_same_day
is_same_minute t u =
    is_same_day t u && (utc_hours t == utc_hours u && utc_minutes t == utc_minutes u)

pub record TrackingRow : Type 0 where
  pub user_address : Text
  pub latest_timestamp : ℕ
  pub inputs_minute : ℕ
  pub inputs_day : ℕ
  pub inputs_total : ℕ

-- MAX_USER_INPUTS_PER_MINUTE and MAX_USER_INPUTS_PER_DAY.
pub record Limits : Type 0 where
  pub max_user_inputs_per_minute : ℕ
  pub max_user_inputs_per_day : ℕ

-- The address is the key of the table.
abbrev pub get_user_tracking_entry : Text → List TrackingRow → Option TrackingRow
get_user_tracking_entry a rows = find_key (λ (r : TrackingRow). r.user_address) a rows

abbrev pub add_user_tracking_entry : Text → ℕ → List TrackingRow → List TrackingRow
add_user_tracking_entry a now rows =
    record {
      user_address = a;
      latest_timestamp = now;
      inputs_minute = 1;
      inputs_day = 1;
      inputs_total = 1;
    }
    ∷ rows

abbrev pub update_tracking :
    (TrackingRow → TrackingRow) → Text → List TrackingRow → List TrackingRow
update_tracking f a rows = update_key (λ (r : TrackingRow). r.user_address) f a rows

abbrev pub increment_same_minute : ℕ → TrackingRow → TrackingRow
increment_same_minute now row = record row {
  latest_timestamp = now;
  inputs_minute = row.inputs_minute + 1;
  inputs_day = row.inputs_day + 1;
  inputs_total = row.inputs_total + 1;
}

abbrev pub increment_same_day : ℕ → TrackingRow → TrackingRow
increment_same_day now row = record row {
  latest_timestamp = now;
  inputs_minute = 1;
  inputs_day = row.inputs_day + 1;
  inputs_total = row.inputs_total + 1;
}

abbrev pub increment_another_day : ℕ → TrackingRow → TrackingRow
increment_another_day now row = record row {
  latest_timestamp = now;
  inputs_minute = 1;
  inputs_day = 1;
  inputs_total = row.inputs_total + 1;
}

module _ (limits : Limits) where
  abbrev pub evaluate_posting_limits : (inputs_minute inputs_day inputs_total : ℕ) → Bool
  evaluate_posting_limits inputs_minute inputs_day inputs_total =
      ltb inputs_minute limits.max_user_inputs_per_minute
      && ltb inputs_day limits.max_user_inputs_per_day

  unfoldable pub authenticate_known :
      (now : ℕ) → Text → TrackingRow → List TrackingRow → Bool × List TrackingRow
  authenticate_known now a entry rows =
      if not (is_same_day entry.latest_timestamp now)
      then (if evaluate_posting_limits 0 0 entry.inputs_total
          then (true, update_tracking (increment_another_day now) a rows)
          else (false, rows))
      else if not (is_same_minute entry.latest_timestamp now)
      then (if evaluate_posting_limits 0 entry.inputs_day entry.inputs_total
          then (true, update_tracking (increment_same_day now) a rows)
          else (false, rows))
      else if evaluate_posting_limits entry.inputs_minute entry.inputs_day entry.inputs_total
      then (true, update_tracking (increment_same_minute now) a rows)
      else (false, rows)

  -- A user that is not known yet may submit, whatever the limits.
  unfoldable pub authenticate_entry :
      (now : ℕ) → Text → Option TrackingRow → List TrackingRow → Bool × List TrackingRow
  authenticate_entry now a none rows = (true, add_user_tracking_entry a now rows)
  authenticate_entry now a (some entry) rows = authenticate_known now a entry rows

  unfoldable pub authenticate_user_address :
      (now : ℕ) → Text → List TrackingRow → Bool × List TrackingRow
  authenticate_user_address now a rows =
      authenticate_entry now a (get_user_tracking_entry a rows) rows
