-- ===== src/Batcher/Limits/Rows.antt =====
-- The row of an address in `user_tracking` before and after a request: authenticateUserAddress of
-- packages/batcher/address-validator/src/index.ts.
use paima_engine.Base.{
  ℕ, ◌+◌, ◌/◌, ◌≤◌, ◌<◌, ◌≡◌, refl, ◌≢◌, ◌⊎◌, inl, inr, Bool, true, false, List, arith,
  if◌then◌else◌, Bool-cases,
}
use paima_engine.Batcher.Keyed.{KeepsKey}
use paima_engine.Concise.Batch.{Text}
use paima_engine.Batcher.Limits.{
  utc_day, is_same_day, is_same_minute, TrackingRow, Limits, update_tracking, increment_same_minute,
  increment_same_day, increment_another_day, evaluate_posting_limits, authenticate_known,
}

pub utc_day_le : (t u : ℕ) → t ≤ u → utc_day t ≤ utc_day u
utc_day_le t u h = omega arith

-- The minute since the epoch.
abbrev pub utc_minute : ℕ → ℕ
utc_minute t = t / 60000

pub utc_minute_le : (t u : ℕ) → t ≤ u → utc_minute t ≤ utc_minute u
utc_minute_le t u h = omega arith

pub is_same_day-true : (t u : ℕ) → is_same_day t u ≡ true → utc_day t ≡ utc_day u
unfolding is_same_day
is_same_day-true t u h = ground arith

pub is_same_day-false : (t u : ℕ) → is_same_day t u ≡ false → utc_day t ≢ utc_day u
unfolding is_same_day
is_same_day-false t u h = ground arith

pub is_same_minute-true : (t u : ℕ) → is_same_minute t u ≡ true → utc_minute t ≡ utc_minute u
unfolding is_same_minute is_same_day
is_same_minute-true t u h = ground arith

pub is_same_minute-false : (t u : ℕ) → is_same_minute t u ≡ false → utc_minute t ≢ utc_minute u
unfolding is_same_minute is_same_day
is_same_minute-false t u h = ground arith

abbrev pub address_of : TrackingRow → Text
address_of row = row.user_address

-- A request that is accepted counts in its period, up to a limit.
pub record IsCounted (period : ℕ → ℕ) (count : TrackingRow → ℕ) (limit now : ℕ) (e f : TrackingRow)
    : Type 0 where
  pub latest : f.latest_timestamp ≡ now
  pub counted :
      (period e.latest_timestamp ≡ period now) × (count f ≡ count e + 1) × (count e < limit)
      ⊎ (period e.latest_timestamp ≢ period now) × (count f ≡ 1)

-- What a request of an address with a row does.
pub record IsAccepted (limits : Limits) (now : ℕ) (a : Text) (e : TrackingRow)
    (rows after : List TrackingRow) : Type 0 where
  pub update : TrackingRow → TrackingRow
  pub keeps : KeepsKey address_of update
  pub updated : after ≡ update_tracking update a rows
  pub minute :
      IsCounted utc_minute (λ r. r.inputs_minute) limits.max_user_inputs_per_minute now e (update e)
  pub day : IsCounted utc_day (λ r. r.inputs_day) limits.max_user_inputs_per_day now e (update e)

module _ (limits : Limits) (now : ℕ) (a : Text) (e : TrackingRow) (rows : List TrackingRow) where
  abbrev pub KnownCases : Bool × List TrackingRow → Type 0
  KnownCases r = (r ≡ (false, rows)) ⊎ (r.0 ≡ true) × IsAccepted limits now a e rows r.1

  if_allowed :
      (allowed : Bool) (f : TrackingRow → TrackingRow)
      → KeepsKey address_of f
      → (allowed ≡ true
          → IsCounted utc_minute
              (λ r. r.inputs_minute)
              limits.max_user_inputs_per_minute
              now
              e
              (f e)
            × IsCounted utc_day (λ r. r.inputs_day) limits.max_user_inputs_per_day now e (f e))
      → KnownCases (if allowed then (true, update_tracking f a rows) else (false, rows))
  if_allowed false f k h = inl refl
  if_allowed true f k h = inr (
    refl,
    record { update = f; keeps = k; updated = refl; minute = (h refl).0; day = (h refl).1 },
  )

  pub authenticate_known-cases : KnownCases (authenticate_known limits now a e rows)
  unfolding authenticate_known
  authenticate_known-cases = elim (Bool-cases (is_same_day e.latest_timestamp now)) [
    | inr another ↦
        let days = is_same_day-false e.latest_timestamp now another in
        rw another (
          if_allowed (evaluate_posting_limits limits 0 0 e.inputs_total) (increment_another_day now)
            (λ r. refl)
            (λ h. (
              record { latest = refl; counted = inr (λ p. days (omega (arith, p)), refl) },
              record { latest = refl; counted = inr (days, refl) },
            )))
    | inl same ↦
        let days = is_same_day-true e.latest_timestamp now same in
        elim (Bool-cases (is_same_minute e.latest_timestamp now)) [
          | inr another ↦
              rw (same, another)
                (if_allowed (evaluate_posting_limits limits 0 e.inputs_day e.inputs_total)
                  (increment_same_day now) (λ r. refl)
                  (λ h. (
                    record {
                      latest = refl;
                      counted = inr (is_same_minute-false e.latest_timestamp now another, refl);
                    },
                    record { latest = refl; counted = inl (days, refl, ground (arith, h)) },
                  )))
          | inl again ↦
              rw (same, again)
                (if_allowed
                  (evaluate_posting_limits limits e.inputs_minute e.inputs_day e.inputs_total)
                  (increment_same_minute now) (λ r. refl)
                  (λ h. (
                    record {
                      latest = refl;
                      counted = inl (
                        is_same_minute-true e.latest_timestamp now again,
                        refl,
                        ground (arith, h),
                      );
                    },
                    record { latest = refl; counted = inl (days, refl, ground (arith, h)) },
                  )))
        ]
  ]
