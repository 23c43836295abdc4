-- ===== src/Funnel/Grouping/Reference.antt =====
-- The grouping loop against its reference: every block of the range gets the datums of its number,
-- whatever stream they come from.
use paima_engine.Base.{
  ℕ, zero, suc, ◌+◌, ◌-◌, ◌≤◌, ◌<◌, String, ◌≡◌, refl, List, [], ◌∷◌, ◌++◌, arith, ◌==◌,
  if◌then◌else◌, All,
}
use paima_engine.Funnel.Grouping.{PresyncBlock, shift_block, shift_all, group_loop, group_cde_data}

module _ {T : Type 0} (number : T → ℕ) where
  -- The datums of one block, by a plain filter.
  abbrev pub of_block : ℕ → List T → List T
  of_block n [] = []
  of_block n (d ∷ l) = if number d == n then d ∷ of_block n l else of_block n l

  abbrev pub of_block_all : ℕ → List (List T) → List T
  of_block_all n [] = []
  of_block_all n (s ∷ streams) = of_block n s ++ of_block_all n streams

  -- A stream that rises by block number and begins at `n` or later.
  abbrev pub RisesFrom : ℕ → List T → Type 0
  RisesFrom n [] = Unit
  RisesFrom n (d ∷ l) = (n ≤ number d) × RisesFrom (number d) l

  abbrev pub AllRiseFrom : ℕ → List (List T) → Type 0
  AllRiseFrom n = All (RisesFrom n)

  RisesFrom-mono : (m n : ℕ) (l : List T) → m ≤ n → RisesFrom n l → RisesFrom m l
  RisesFrom-mono m n [] le h = tt
  RisesFrom-mono m n (d ∷ l) le h = (omega arith, h.1)

  of_block-none : (n m : ℕ) (l : List T) → n < m → RisesFrom m l → of_block n l ≡ []
  of_block-none n m [] lt h = refl
  of_block-none n m (d ∷ l) lt h = ground (arith, of_block-none n (number d) l)

  shift_block-taken :
      (n : ℕ) (l : List T) → RisesFrom n l → (shift_block number n l).0 ≡ of_block n l
  unfolding shift_block
  shift_block-taken n [] h = refl
  shift_block-taken n (d ∷ l) h =
      ground
        (arith, shift_block-taken n l, RisesFrom-mono n (number d) l, of_block-none n (number d) l)

  shift_block-rest_rises :
      (n : ℕ) (l : List T) → RisesFrom n l → RisesFrom (n + 1) (shift_block number n l).1
  unfolding shift_block
  shift_block-rest_rises n [] h = tt
  shift_block-rest_rises n (d ∷ l) h =
      ground (arith, shift_block-rest_rises n l, RisesFrom-mono n (number d) l)

  shift_block-rest_keeps :
      (n m : ℕ) (l : List T) → n < m → of_block m (shift_block number n l).1 ≡ of_block m l
  unfolding shift_block
  shift_block-rest_keeps n m [] lt = refl
  shift_block-rest_keeps n m (d ∷ l) lt = ground (arith, shift_block-rest_keeps n m l lt)

  shift_all-taken :
      (n : ℕ) (streams : List (List T))
      → AllRiseFrom n streams
      → (shift_all number n streams).0 ≡ of_block_all n streams
  unfolding shift_all
  shift_all-taken n [] h = refl
  shift_all-taken n (s ∷ streams) h = cc (shift_block-taken n s h.0, shift_all-taken n streams h.1)

  shift_all-rests_rise :
      (n : ℕ) (streams : List (List T))
      → AllRiseFrom n streams
      → AllRiseFrom (n + 1) (shift_all number n streams).1
  unfolding shift_all
  shift_all-rests_rise n [] h = tt
  shift_all-rests_rise n (s ∷ streams) h =
      (shift_block-rest_rises n s h.0, shift_all-rests_rise n streams h.1)

  shift_all-rests_keep :
      (n m : ℕ) (streams : List (List T))
      → n < m
      → of_block_all m (shift_all number n streams).1 ≡ of_block_all m streams
  unfolding shift_all
  shift_all-rests_keep n m [] lt = refl
  shift_all-rests_keep n m (s ∷ streams) lt =
      cc (shift_block-rest_keeps n m s lt, shift_all-rests_keep n m streams lt)

  -- The reference: one block for each number of the range.
  unfoldable pub reference_blocks :
      (caip2 : String) (post : List T → List T) → ℕ → ℕ → List (List T) → List (PresyncBlock T)
  reference_blocks caip2 post zero n streams = []
  reference_blocks caip2 post (suc count) n streams =
      record { caip2 = caip2; block_number = n; extension_datums = post (of_block_all n streams) }
      ∷ reference_blocks caip2 post count (n + 1) streams

  -- The reference sees of the streams only the blocks from `n` on.
  reference_blocks-ext :
      (caip2 : String) (post : List T → List T) (count n : ℕ) (s t : List (List T))
      → ((m : ℕ) → n ≤ m → of_block_all m s ≡ of_block_all m t)
      → reference_blocks caip2 post count n s ≡ reference_blocks caip2 post count n t
  unfolding reference_blocks
  reference_blocks-ext caip2 post zero n s t h = refl
  reference_blocks-ext caip2 post (suc count) n s t h = cc (
    h n (omega arith),
    reference_blocks-ext caip2 post count (n + 1) s t (λ m le. h m (omega arith)),
  )

  group_loop-eq-reference :
      (caip2 : String) (post : List T → List T) (count n : ℕ) (streams : List (List T))
      → AllRiseFrom n streams
      → group_loop number caip2 post count n streams ≡ reference_blocks caip2 post count n streams
  unfolding group_loop reference_blocks
  group_loop-eq-reference caip2 post zero n streams h = refl
  group_loop-eq-reference caip2 post (suc count) n streams h =
      let rests = (shift_all number n streams).1 in
      cc (
        shift_all-taken n streams h,
        group_loop-eq-reference caip2 post count (n + 1) rests (shift_all-rests_rise n streams h),
        reference_blocks-ext caip2 post count (n + 1) rests streams
            (λ m le. shift_all-rests_keep n m streams (omega arith)),
      )

  -- Where each stream rises by block number and begins in the range, the blocks are exactly those of
  -- the range, in order, each once, and a block has all the datums of its number and no other, in the
  -- order of the streams, after the caller's post-processing.
  pub group_cde_data-eq-reference :
      (caip2 : String) (from_block to_block : ℕ) (streams : List (List T)) (post : List T → List T)
      → AllRiseFrom from_block streams
      → group_cde_data number caip2 from_block to_block streams post
        ≡ reference_blocks caip2 post (to_block + 1 - from_block) from_block streams
  unfolding group_cde_data
  group_cde_data-eq-reference caip2 from_block to_block streams post h =
      group_loop-eq-reference caip2 post (to_block + 1 - from_block) from_block streams h

  -- A stream whose first datum is older than the range is never read: its later datums are lost to
  -- every block.
  group_loop-stuck :
      (caip2 : String) (post : List T → List T) (count n : ℕ) (d : T) (s : List T)
      (streams : List (List T))
      → number d < n
      → group_loop number caip2 post count n ((d ∷ s) ∷ streams)
        ≡ group_loop number caip2 post count n streams
  unfolding group_loop shift_all shift_block
  group_loop-stuck caip2 post zero n d s streams lt = refl
  group_loop-stuck caip2 post (suc count) n d s streams lt =
      ground (arith, group_loop-stuck caip2 post count (n + 1) d s (shift_all number n streams).1)
