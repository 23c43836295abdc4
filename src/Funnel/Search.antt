-- ===== src/Funnel/Search.antt =====
-- Searching blocks by timestamp: `findBlockByTimestamp` and `getUpperBoundBlock` of
-- packages/node-sdk/paima-funnel/src/utils.ts.
use native.Mathlib.Decide.{dec_lt}
use native.Mathlib.Nat.{le_trans}
use mathlib.Core.List.{reverse, reverse-append, append_assoc, append-nil}
use paima_engine.Base.{
  ℕ, zero, suc, ◌+◌, ◌-◌, ◌/◌, ◌≤◌, ◌<◌, ◌≡◌, refl, sym, ◌∙◌, inl, inr, Bool, true, false, Option,
  none, some, List, [], ◌∷◌, ◌++◌, arith, ltb, leb, if◌then◌else◌, ltb→lt, Bool-cases, All,
  All-append,
}

-- The loop of `findBlockByTimestamp`; `ts` is `getTimestampForBlock` and `requests` counts its calls.
-- `none` means that the fuel ran out.
find_loop : (ts : ℕ → ℕ) (target : ℕ) → ℕ → ℕ → ℕ → ℕ → Option (ℕ × ℕ)
find_loop ts target zero low high requests = none
find_loop ts target (suc fuel) low high requests =
    let right = find_loop ts target fuel ((low + high) / 2 + 1) high (requests + 1) in
    let left = find_loop ts target fuel low ((low + high) / 2) (requests + 1) in
    if ltb low high
    then (if leb (ts ((low + high) / 2)) target then right else left)
    else some (low, requests)

-- Fuel for a range: the range at least halves in each round.
pub find_block_by_timestamp : (low high target : ℕ) (ts : ℕ → ℕ) → Option (ℕ × ℕ)
unfolding find_loop
find_block_by_timestamp low high target ts = find_loop ts target (suc (high - low)) low high 0

-- Timestamps never fall along the searched range, whose end is not asked for.
abbrev pub Monotone : (ts : ℕ → ℕ) (low high : ℕ) → Type 0
Monotone ts low high = (a b : ℕ) → low ≤ a → a ≤ b → b < high → ts a ≤ ts b

-- The result lies in the range; every block of the range below it is at most the target, and every
-- block from it up to the end is above the target.
abbrev pub IsFirstAfter : (ts : ℕ → ℕ) (target low high : ℕ) → ℕ → Type 0
IsFirstAfter ts target low high r =
    (low ≤ r)
    × (r ≤ high)
    × ((a : ℕ) → low ≤ a → a < r → ts a ≤ target)
    × ((a : ℕ) → r ≤ a → a < high → target < ts a)

module _ (ts : ℕ → ℕ) (target low high : ℕ) (mono : Monotone ts low high) where
  abbrev middle : ℕ
  middle = (low + high) / 2

  IsFirstAfter-right :
      (r : ℕ)
      → low < high
      → ts middle ≤ target
      → IsFirstAfter ts target (middle + 1) high r
      → IsFirstAfter ts target low high r
  IsFirstAfter-right r lt below (lo, hi, before, after) = (
    omega arith,
    hi,
    λ a h k. elim (dec_lt middle a) [
      | yes past ↦ before a (omega arith) k
      | no early ↦ le_trans (mono a middle h (omega arith) (omega arith)) below
    ],
    after,
  )

  IsFirstAfter-left :
      (r : ℕ)
      → low < high
      → target < ts middle
      → IsFirstAfter ts target low middle r
      → IsFirstAfter ts target low high r
  IsFirstAfter-left r lt above (lo, hi, before, after) = (
    lo,
    omega arith,
    before,
    λ a h k. elim (dec_lt a middle) [
      | yes early ↦ after a h early
      | no late ↦ le_trans above (mono middle a (omega arith) (omega arith) k)
    ],
  )

find_loop_lem :
    (ts : ℕ → ℕ) (target fuel low high requests : ℕ)
    → Monotone ts low high
    → low ≤ high
    → high - low < fuel
    → (r : ℕ) × (q : ℕ) × (find_loop ts target fuel low high requests ≡ some (r, q))
      × IsFirstAfter ts target low high r
unfolding find_loop
find_loop_lem ts target zero low high requests mono le enough = absurd (omega arith)
find_loop_lem ts target (suc fuel) low high requests mono le enough =
    elim (Bool-cases (ltb low high)) [
      | inl more ↦
          let more_lt = ltb→lt low high more in
          elim (Bool-cases (leb (ts ((low + high) / 2)) target)) [
            | inl below ↦
                let (r, q, e, p) =
                  find_loop_lem ts target fuel ((low + high) / 2 + 1) high (requests + 1)
                    (λ a b l m h. mono a b (omega (arith, l, more_lt)) m h) (ground arith)
                    (ground arith) in
                (
                  r,
                  q,
                  rw (more, below) e,
                  IsFirstAfter-right ts target low high mono r (ground arith) (ground arith) p,
                )
            | inr above ↦
                let (r, q, e, p) =
                  find_loop_lem ts target fuel low ((low + high) / 2) (requests + 1)
                    (λ a b l m h. mono a b l m (omega (arith, h, more_lt))) (ground arith)
                    (ground arith) in
                (
                  r,
                  q,
                  rw (more, above) e,
                  IsFirstAfter-left ts target low high mono r (ground arith) (ground arith) p,
                )
          ]
      | inr done ↦ (
        low,
        requests,
        rw done refl,
        (omega arith, le, λ a h k. absurd (omega arith), λ a h k. absurd (ground arith)),
      )
    ]

-- On a range where timestamps never fall, the search returns a block, and it is the first of the
-- range whose timestamp is above the target, or the end of the range where none is.
pub find_block_by_timestamp_lem :
    (low high target : ℕ) (ts : ℕ → ℕ)
    → Monotone ts low high
    → low ≤ high
    → (r : ℕ) × (q : ℕ) × (find_block_by_timestamp low high target ts ≡ some (r, q))
      × IsFirstAfter ts target low high r
unfolding find_block_by_timestamp
find_block_by_timestamp_lem low high target ts mono le =
    find_loop_lem ts target (suc (high - low)) low high 0 mono le (omega arith)

-- The loop of `getUpperBoundBlock`, over the pairs from the last to the first.
scan_back : List (ℕ × ℕ) → ℕ → Option ℕ
scan_back [] max_timestamp = none
scan_back ((ts, block) ∷ earlier) max_timestamp =
    if leb ts max_timestamp then some block else scan_back earlier max_timestamp

unfoldable pub get_upper_bound_block : List (ℕ × ℕ) → ℕ → Option ℕ
unfolding scan_back
get_upper_bound_block timestamp_to_block_number max_timestamp =
    scan_back (reverse timestamp_to_block_number) max_timestamp

abbrev pub IsAfter : ℕ → ℕ × ℕ → Type 0
IsAfter m p = m < p.0

scan_back-skip :
    (l rest : List (ℕ × ℕ)) (m : ℕ) → All (IsAfter m) l → scan_back (l ++ rest) m ≡ scan_back rest m
unfolding scan_back
scan_back-skip [] rest m h = refl
scan_back-skip ((ts, block) ∷ l) rest m h = ground (arith, scan_back-skip l rest m h.1)

All-reverse {ℓ κ} : {A : Type ℓ} (P : A → Type κ) (l : List A) → All P l → All P (reverse l)
All-reverse P [] h = tt
All-reverse P (x ∷ l) h =
    rw (reverse-append (x ∷ []) l)
      (All-append P (reverse l) (x ∷ []) (All-reverse P l h.1) (h.0, tt))

-- Where the pairs behind one that is not after the limit are all after it, the block of that pair is
-- the result, whatever stands before it.
pub get_upper_bound_block-last :
    (early late : List (ℕ × ℕ)) (ts block m : ℕ)
    → ts ≤ m
    → All (IsAfter m) late
    → get_upper_bound_block (early ++ (ts, block) ∷ late) m ≡ some block
unfolding get_upper_bound_block
get_upper_bound_block-last early late ts block m le h =
    rw (reverse-append early ((ts, block) ∷ late)) (
      rw (reverse-append ((ts, block) ∷ []) late) (
        rw (append_assoc (reverse late) ((ts, block) ∷ []) (reverse early))
          (rw (scan_back-skip (reverse late) _ m (All-reverse (IsAfter m) late h)) (ground arith))))

-- Where every pair is after the limit there is no result.
pub get_upper_bound_block-none :
    (late : List (ℕ × ℕ)) (m : ℕ) → All (IsAfter m) late → get_upper_bound_block late m ≡ none
unfolding get_upper_bound_block
get_upper_bound_block-none late m h =
    rw (← append-nil (reverse late))
      (scan_back-skip (reverse late) [] m (All-reverse (IsAfter m) late h))

-- The last block that is not after the limit, from the first pair to the last.
abbrev pub last_upto : List (ℕ × ℕ) → (max_timestamp : ℕ) → (found : Option ℕ) → Option ℕ
last_upto [] max_timestamp found = found
last_upto ((ts, block) ∷ later) max_timestamp found =
    last_upto later max_timestamp (if leb ts max_timestamp then some block else found)

abbrev or_else : Option ℕ → Option ℕ → Option ℕ
or_else none o = o
or_else (some n) o = some n

scan_back-append :
    (l rest : List (ℕ × ℕ)) (m : ℕ)
    → scan_back (l ++ rest) m ≡ or_else (scan_back l m) (scan_back rest m)
unfolding scan_back
scan_back-append [] rest m = refl
scan_back-append ((ts, block) ∷ l) rest m = ground (arith, scan_back-append l rest m)

or_else_test :
    (o : Option ℕ) (b : Bool) (n : ℕ) (found : Option ℕ)
    → or_else (or_else o (if b then some n else none)) found
      ≡ or_else o (if b then some n else found)
or_else_test none true n found = refl
or_else_test none false n found = refl
or_else_test (some k) b n found = refl

last_upto-scan_back :
    (l : List (ℕ × ℕ)) (m : ℕ) (found : Option ℕ)
    → last_upto l m found ≡ or_else (scan_back (reverse l) m) found
unfolding scan_back
last_upto-scan_back [] m found = refl
last_upto-scan_back ((ts, block) ∷ l) m found = rw (reverse-append ((ts, block) ∷ []) l) (
    rw (scan_back-append (reverse l) ((ts, block) ∷ []) m) (
      last_upto-scan_back l m (if leb ts m then some block else found)
      ∙ sym (or_else_test (scan_back (reverse l) m) (leb ts m) block found)))

or_else-none : (o : Option ℕ) → or_else o none ≡ o
or_else-none none = refl
or_else-none (some n) = refl

-- The search from the back finds the last pair that is not after the limit, whatever the order of the
-- pairs, and nothing where there is none.
pub get_upper_bound_block-eq-last_upto :
    (l : List (ℕ × ℕ)) (m : ℕ) → get_upper_bound_block l m ≡ last_upto l m none
unfolding get_upper_bound_block
get_upper_bound_block-eq-last_upto l m =
    sym (last_upto-scan_back l m none ∙ or_else-none (scan_back (reverse l) m))
