-- ===== src/Funnel/Grouping/Sorted.antt =====
-- The order of the datums inside a block of an EVM chain.
use mathlib.Core.List.{Perm}
use mathlib.Core.List.Perm
use paima_engine.Base.{
  ℕ, zero, suc, ◌+◌, ◌-◌, ◌≤◌, String, Bool, true, false, List, [], ◌∷◌, arith, leb, if◌then◌else◌,
  All,
}
use paima_engine.Funnel.Grouping.{PresyncBlock, insert_by, sort_by, group_evm_cde_data}
use paima_engine.Funnel.Grouping.Reference.{
  of_block_all, AllRiseFrom, reference_blocks, group_cde_data-eq-reference,
}

module _ {T : Type 0} (key : T → ℕ) where
  abbrev pub IsSortedBy : List T → Type 0
  IsSortedBy [] = Unit
  IsSortedBy (x ∷ l) = All (λ y. key x ≤ key y) l × IsSortedBy l

  insert_by-All :
      (n : ℕ) (x : T) (l : List T)
      → n ≤ key x
      → All (λ y. n ≤ key y) l
      → All (λ y. n ≤ key y) (insert_by key x l)
  unfolding insert_by
  insert_by-All n x [] le h = (le, tt)
  insert_by-All n x (y ∷ l) le h = ground (arith, insert_by-All n x l le h.1)

  All-le_trans : (m n : ℕ) (l : List T) → m ≤ n → All (λ y. n ≤ key y) l → All (λ y. m ≤ key y) l
  All-le_trans m n [] le h = tt
  All-le_trans m n (y ∷ l) le h = (omega arith, All-le_trans m n l le h.1)

  insert_by-IsSortedBy : (x : T) (l : List T) → IsSortedBy l → IsSortedBy (insert_by key x l)
  unfolding insert_by
  insert_by-IsSortedBy x [] h = (tt, tt)
  insert_by-IsSortedBy x (y ∷ l) h = ground (
    arith,
    insert_by-IsSortedBy x l h.1,
    insert_by-All (key y) x l,
    All-le_trans (key x) (key y) l,
  )

  pub sort_by-IsSortedBy : (l : List T) → IsSortedBy (sort_by key l)
  unfolding sort_by
  sort_by-IsSortedBy [] = tt
  sort_by-IsSortedBy (x ∷ l) = insert_by-IsSortedBy x (sort_by key l) (sort_by-IsSortedBy l)

  Perm-if :
      {l : List T} (b : Bool) (xs ys : List T)
      → Perm xs l
      → Perm ys l
      → Perm (if b then xs else ys) l
  Perm-if true xs ys p q = p
  Perm-if false xs ys p q = q

  insert_by-perm : (x : T) (l : List T) → Perm (insert_by key x l) (x ∷ l)
  unfolding insert_by
  insert_by-perm x [] = Perm.refl (x ∷ [])
  insert_by-perm x (y ∷ l) =
      Perm-if (leb (key x) (key y)) (x ∷ y ∷ l) (y ∷ insert_by key x l) (Perm.refl (x ∷ y ∷ l))
        (Perm.trans (Perm.cons y (insert_by-perm x l)) (Perm.swap x y l))

  pub sort_by-perm : (l : List T) → Perm (sort_by key l) l
  unfolding sort_by
  sort_by-perm [] = Perm.refl []
  sort_by-perm (x ∷ l) =
      Perm.trans (insert_by-perm x (sort_by key l)) (Perm.cons x (sort_by-perm l))

module _ {T : Type 0} (number log_index : T → ℕ) where
  -- A block holds the datums of its number, in the order of their log indexes.
  abbrev pub IsBlockOf : List (List T) → PresyncBlock T → Type 0
  IsBlockOf streams b =
      Perm b.extension_datums (of_block_all number b.block_number streams)
      × IsSortedBy log_index b.extension_datums

  reference-IsBlockOf :
      (caip2 : String) (count n : ℕ) (streams : List (List T))
      → All (IsBlockOf streams) (reference_blocks number caip2 (sort_by log_index) count n streams)
  unfolding reference_blocks
  reference-IsBlockOf caip2 zero n streams = tt
  reference-IsBlockOf caip2 (suc count) n streams = (
    (
      sort_by-perm log_index (of_block_all number n streams),
      sort_by-IsSortedBy log_index (of_block_all number n streams),
    ),
    reference-IsBlockOf caip2 count (n + 1) streams,
  )

  -- Where each stream rises by block number and begins in the range, every block holds a
  -- permutation of the datums of its number, in the order of their log indexes.
  pub group_evm_cde_data_sorted :
      (caip2 : String) (from_block to_block : ℕ) (streams : List (List T))
      → AllRiseFrom number from_block streams
      → All
          (IsBlockOf streams)
          (group_evm_cde_data number log_index caip2 from_block to_block streams)
  unfolding group_evm_cde_data
  group_evm_cde_data_sorted caip2 from_block to_block streams h =
      rw
        (group_cde_data-eq-reference number caip2 from_block to_block streams (sort_by log_index) h)
        (reference-IsBlockOf caip2 (to_block + 1 - from_block) from_block streams)
