-- ===== src/Batcher/Limits/Bound.antt =====
-- No address submits more often than the limits say: authenticateUserAddress of
-- packages/batcher/address-validator/src/index.ts, over any sequence of requests.
use paima_engine.Base.{
  ℕ, suc, ◌+◌, ◌≤◌, ◌<◌, ◌≡◌, refl, ap, ◌∙◌, ◌⊎◌, inl, inr, Bool, true, false, ◌&&◌, Option, none,
  some, List, [], ◌∷◌, arith, ◌==◌, if◌then◌else◌, Bool-cases, Option-cases,
}
use paima_engine.Batcher.Keyed.{find_key, find_key-update_key, find_key-update_key_other}
use paima_engine.Concise.Batch.{Text, text_eq}
use paima_engine.Concise.Split.{text_eq_sound, text_eq-same}
use paima_engine.Batcher.Limits.{
  utc_day, TrackingRow, Limits, get_user_tracking_entry, add_user_tracking_entry,
  authenticate_entry, authenticate_user_address,
}
use paima_engine.Batcher.Limits.Rows.{
  utc_day_le, utc_minute, utc_minute_le, address_of, IsCounted, IsAccepted,
  authenticate_known-cases,
}

-- The times at which an address was allowed to submit; a request is its time and its address.
unfoldable pub allowed_times : Limits → Text → List (ℕ × Text) → List TrackingRow → List ℕ
allowed_times limits a [] rows = []
allowed_times limits a ((now, b) ∷ requests) rows =
    let r = authenticate_user_address limits now b rows in
    let rest = allowed_times limits a requests r.1 in
    if r.0 && text_eq b a then now ∷ rest else rest

-- The clock does not go back.
abbrev pub IsOrdered : ℕ → List (ℕ × Text) → Type 0
IsOrdered t [] = Unit
IsOrdered t ((now, b) ∷ requests) = (t ≤ now) × IsOrdered now requests

-- How many of the times fall in a period.
unfoldable pub count_in : (ℕ → ℕ) → ℕ → List ℕ → ℕ
count_in period p [] = 0
count_in period p (t ∷ times) =
    let rest = count_in period p times in if period t == p then suc rest else rest

abbrev pub at_least_one : ℕ → ℕ
at_least_one n = if n == 0 then 1 else n

at_least_one_pos : (n : ℕ) → 1 ≤ at_least_one n
at_least_one_pos n = ground arith

at_least_one_le : (n : ℕ) → n ≤ at_least_one n
at_least_one_le n = ground arith

module _ (limits : Limits) (a : Text) where
  allowed-step :
      (now : ℕ) (b : Text) (requests : List (ℕ × Text)) (rows after : List TrackingRow) (ok : Bool)
      → (authenticate_user_address limits now b rows).0 && text_eq b a ≡ ok
      → (authenticate_user_address limits now b rows).1 ≡ after
      → allowed_times limits a ((now, b) ∷ requests) rows ≡ (
          if ok
          then now ∷ allowed_times limits a requests after
          else allowed_times limits a requests after)
  unfolding allowed_times
  allowed-step now b requests rows after ok h e = rw (h, e) refl

  -- What holds of the row of the address at a time.
  abbrev RowFits : (count : TrackingRow → ℕ) (bound t : ℕ) → Option TrackingRow → Type 0
  RowFits count bound t none = Unit
  RowFits count bound t (some e) = (e.latest_timestamp ≤ t) × (count e ≤ bound)

  -- What the row says of a period.
  carry : (period : ℕ → ℕ) (count : TrackingRow → ℕ) (p : ℕ) → Option TrackingRow → ℕ
  carry period count p none = 0
  carry period count p (some e) = if period e.latest_timestamp == p then count e else 0

  another_kept :
      (now : ℕ) (b : Text) (rows : List TrackingRow)
      → text_eq b a ≡ false
      → get_user_tracking_entry a (authenticate_user_address limits now b rows).1
        ≡ get_user_tracking_entry a rows
  unfolding authenticate_user_address authenticate_entry
  another_kept now b rows h = elim (Option-cases (get_user_tracking_entry b rows)) [
    | inl new ↦ rw new (unfold find_key in rw h refl)
    | inr (e, found) ↦ rw found (elim (authenticate_known-cases limits now b e rows) [
      | inl refused ↦ rw refused refl
      | inr (_, accepted) ↦
          rw (accepted.updated)
            (find_key-update_key_other address_of accepted.update a b rows accepted.keeps h)
    ])
  ]

  module _ (period : ℕ → ℕ) (grows : (t u : ℕ) → t ≤ u → period t ≤ period u) where
    none_before :
        (requests : List (ℕ × Text)) (rows : List TrackingRow) (t p : ℕ)
        → IsOrdered t requests
        → p < period t
        → count_in period p (allowed_times limits a requests rows) ≡ 0
    unfolding count_in allowed_times
    none_before [] rows t p o h = refl
    none_before ((now, b) ∷ requests) rows t p o h =
        let later =
          none_before requests (authenticate_user_address limits now b rows).1 now p o.1
            (omega (arith, h, grows t now o.0)) in
        ground (arith, later, h, grows t now o.0)

    abbrev new_row : ℕ → TrackingRow
    new_row now = record {
      user_address = a;
      latest_timestamp = now;
      inputs_minute = 1;
      inputs_day = 1;
      inputs_total = 1;
    }

    module _ (count : TrackingRow → ℕ) (limit : ℕ)
        (counted : (now : ℕ) (e : TrackingRow) (rows after : List TrackingRow)
            (accepted : IsAccepted limits now a e rows after)
          → IsCounted period count limit now e (accepted.update e))
        (new_count : (now : ℕ) → count (new_row now) ≡ 1) (most : ℕ) (one_le : 1 ≤ most)
        (limit_le : limit ≤ most) where
      -- The row that an accepted request leaves counts that request.
      record IsNext (now : ℕ) (before after : Option TrackingRow) : Type 0 where
        row : TrackingRow
        found : after ≡ some row
        fits : RowFits count most now (some row)
        carries :
            (p x : ℕ)
            → x + carry period count p (some row) ≤ most
            → (p < period now → x ≡ 0)
            → (if period now == p then suc x else x) + carry period count p before ≤ most

      known-IsNext :
          (t now : ℕ) (e f : TrackingRow) (after : Option TrackingRow)
          → t ≤ now
          → RowFits count most t (some e)
          → IsCounted period count limit now e f
          → after ≡ some f
          → IsNext now (some e) after
      known-IsNext t now e f after le h c found = record {
        row = f;
        found = found;
        fits = (
          omega (arith, c.latest),
          elim c.counted [
            | inl (_, n, l) ↦ omega (arith, n, l, limit_le)
            | inr (_, n) ↦ omega (arith, n, one_le)
          ],
        );
        carries = λ p x. λ s z. elim c.counted [
          | inl (same, n, l) ↦ unfold carry in ground (arith, c.latest, same, n, l, s, z, h)
          | inr (apart, n) ↦
              unfold carry in
              ground (
                arith,
                c.latest,
                apart,
                n,
                s,
                z,
                h.1,
                grows e.latest_timestamp now (omega (arith, h.0)),
              )
        ];
      }

      new-IsNext : (now : ℕ) (rows : List TrackingRow) → IsNext now none (some (new_row now))
      new-IsNext now rows = record {
        row = new_row now;
        found = refl;
        fits = (omega arith, omega (arith, new_count now, one_le));
        carries = λ p x. λ s z. unfold carry in ground (arith, new_count now, s, z);
      }

      first_row :
          (now : ℕ) (rows : List TrackingRow)
          → get_user_tracking_entry a (add_user_tracking_entry a now rows) ≡ some (new_row now)
      unfolding find_key
      first_row now rows = rw (text_eq-same a) refl

      own_step :
          (t now : ℕ) (rows : List TrackingRow)
          → t ≤ now
          → RowFits count most t (get_user_tracking_entry a rows)
          → let r = authenticate_user_address limits now a rows in
            (r.0 ≡ false) × (get_user_tracking_entry a r.1 ≡ get_user_tracking_entry a rows)
            ⊎ (r.0 ≡ true)
              × IsNext now (get_user_tracking_entry a rows) (get_user_tracking_entry a r.1)
      unfolding authenticate_user_address authenticate_entry
      own_step t now rows le h = elim (Option-cases (get_user_tracking_entry a rows)) [
        | inl new ↦ rw new (inr (refl, rw (first_row now rows) (new-IsNext now rows)))
        | inr (e, found) ↦ rw found (elim (authenticate_known-cases limits now a e rows) [
          | inl refused ↦ rw refused (inl (refl, found))
          | inr (allowed, accepted) ↦ inr (
            allowed,
            known-IsNext t now e (accepted.update e) _ le (rw found at h)
                (counted now e rows _ accepted)
                (ap (get_user_tracking_entry a) accepted.updated
                  ∙ find_key-update_key address_of accepted.update a rows e accepted.keeps found),
          )
        ])
      ]

      count-step :
          (p now : ℕ) (times : List ℕ)
          → count_in period p (now ∷ times)
            ≡ (if period now == p then suc (count_in period p times) else count_in period p times)
      unfolding count_in
      count-step p now times = refl

      RowFits-later :
          (t now : ℕ) (o : Option TrackingRow)
          → t ≤ now
          → RowFits count most t o
          → RowFits count most now o
      RowFits-later t now none le h = tt
      RowFits-later t now (some e) le h = (omega (arith, le, h.0), h.1)

      carry_le :
          (t p : ℕ) (o : Option TrackingRow)
          → RowFits count most t o
          → carry period count p o ≤ most
      unfolding carry
      carry_le t p none h = omega arith
      carry_le t p (some e) h = ground (arith, h.1)

      -- A bound on what follows bounds what the request adds.
      own_in_period :
          (now : ℕ) (requests : List (ℕ × Text)) (rows : List TrackingRow) (t p : ℕ)
          → IsOrdered now requests
          → t ≤ now
          → RowFits count most t (get_user_tracking_entry a rows)
          → ((after : List TrackingRow)
              → RowFits count most now (get_user_tracking_entry a after)
              → count_in period p (allowed_times limits a requests after)
                  + carry period count p (get_user_tracking_entry a after)
                ≤ most)
          → count_in period p (allowed_times limits a ((now, a) ∷ requests) rows)
              + carry period count p (get_user_tracking_entry a rows)
            ≤ most
      own_in_period now requests rows t p o le h rest =
          let after = (authenticate_user_address limits now a rows).1 in
          elim (own_step t now rows le h) [
            | inl (refused, kept) ↦
                rw (allowed-step now a requests rows after false (ground (arith, refused)) refl)
                  (rw (← kept) (rest after (rw kept (RowFits-later t now _ le h))))
            | inr (accepted, next) ↦
                rw
                  (
                    allowed-step now a requests rows after true
                        (ground (arith, accepted, text_eq-same a)) refl,
                    count-step p now (allowed_times limits a requests after),
                  )
                  (next.carries p _ (rw (← next.found) (rest after (rw next.found next.fits)))
                    (none_before requests after now p o))
          ]

      in_period :
          (requests : List (ℕ × Text)) (rows : List TrackingRow) (t p : ℕ)
          → IsOrdered t requests
          → RowFits count most t (get_user_tracking_entry a rows)
          → count_in period p (allowed_times limits a requests rows)
              + carry period count p (get_user_tracking_entry a rows)
            ≤ most
      in_period [] rows t p o h =
          unfold count_in allowed_times in
          omega (arith, carry_le t p (get_user_tracking_entry a rows) h)
      in_period ((now, b) ∷ requests) rows t p o h = elim (Bool-cases (text_eq b a)) [
        | inl own ↦ rw (text_eq_sound b a own) (
            own_in_period now requests rows t p o.1 o.0 h
              (λ after. λ fits. in_period requests after now p o.1 fits))
        | inr another ↦
            let after = (authenticate_user_address limits now b rows).1 in
            let kept = another_kept now b rows another in
            rw (allowed-step now b requests rows after false (ground (arith, another)) refl) (
              rw (← kept)
                (in_period requests after now p o.1 (rw kept (RowFits-later t now _ o.0 h))))
      ]

  -- Over any requests in the order of their times, from an empty table on, an address is allowed
  -- to submit in each minute at most as often as the limit for a minute says, and in each day as
  -- the limit for a day says; once, where a limit is 0.
  pub allowed_times_bounded :
      (requests : List (ℕ × Text)) (minute day : ℕ)
      → IsOrdered 0 requests
      → (count_in utc_minute minute (allowed_times limits a requests [])
          ≤ at_least_one limits.max_user_inputs_per_minute)
        × (count_in utc_day day (allowed_times limits a requests [])
            ≤ at_least_one limits.max_user_inputs_per_day)
  unfolding find_key
  allowed_times_bounded requests minute day o = (
    omega (
      arith,
      in_period utc_minute utc_minute_le (λ r. r.inputs_minute) limits.max_user_inputs_per_minute
          (λ now e rows after. λ accepted. accepted.minute) (λ now. refl)
          (at_least_one limits.max_user_inputs_per_minute)
          (at_least_one_pos limits.max_user_inputs_per_minute)
          (at_least_one_le limits.max_user_inputs_per_minute) requests [] 0 minute o tt,
    ),
    omega (
      arith,
      in_period utc_day utc_day_le (λ r. r.inputs_day) limits.max_user_inputs_per_day
          (λ now e rows after. λ accepted. accepted.day) (λ now. refl)
          (at_least_one limits.max_user_inputs_per_day)
          (at_least_one_pos limits.max_user_inputs_per_day)
          (at_least_one_le limits.max_user_inputs_per_day) requests [] 0 day o tt,
    ),
  )
