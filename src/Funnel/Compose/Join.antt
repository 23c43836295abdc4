-- ===== src/Funnel/Compose/Join.antt =====
-- The join puts every datum into the block of its number.
use mathlib.Core.List.{append-nil}
use paima_engine.Base.{
  ℕ, ◌+◌, ◌≤◌, ◌<◌, ◌≡◌, refl, sym, ap, ◌∙◌, ◌⊎◌, inl, inr, Option, none, some, List, [], ◌∷◌, ◌++◌,
  arith, ◌==◌, if◌then◌else◌, Bool-cases,
}
use paima_engine.Chain.{SubmittedData, ChainData}
use paima_engine.Funnel.Compose.{
  CdeBlock, find_block, push_all, append_all, compose_block, compose_chain_data,
}

abbrev pub or_empty {ℓ} : {A : Type ℓ} → Option (List A) → List A
or_empty none = []
or_empty (some l) = l

push_all-or_empty :
    {A : Type 0} (l m : Option (List A)) → or_empty (push_all l m) ≡ or_empty l ++ or_empty m
push_all-or_empty (some l) (some m) = refl
push_all-or_empty (some l) none = sym (append-nil l)
push_all-or_empty none (some m) = refl
push_all-or_empty none none = refl

append_all-or_empty :
    {A : Type 0} (l : List A) (m : Option (List A)) → append_all l m ≡ l ++ or_empty m
append_all-or_empty l none = sym (append-nil l)
append_all-or_empty l (some m) = refl

module _ {D : Type 0} where
  -- All the datums and inputs of one block number, over a whole list.
  abbrev pub datums_at : ℕ → List (ChainData D) → List D × List SubmittedData
  datums_at n [] = ([], [])
  datums_at n (c ∷ chain) =
      let (datums, inputs) = datums_at n chain in
      if c.block_number == n
      then (or_empty c.extension_datums ++ datums, c.submitted_data ++ inputs)
      else (datums, inputs)

  abbrev pub cde_at : ℕ → List (CdeBlock D) → List D × List SubmittedData
  cde_at n [] = ([], [])
  cde_at n (b ∷ blocks) =
      let (datums, inputs) = cde_at n blocks in
      if b.block_number == n
      then (or_empty b.extension_datums ++ datums, or_empty b.submitted_data ++ inputs)
      else (datums, inputs)

  abbrev pub both :
      List D × List SubmittedData → List D × List SubmittedData → List D × List SubmittedData
  both (d, s) (e, t) = (d ++ e, s ++ t)

  -- The numbers rise, so that no two blocks share one.
  abbrev pub CdeRises : ℕ → List (CdeBlock D) → Type 0
  CdeRises n [] = Unit
  CdeRises n (b ∷ blocks) = (n ≤ b.block_number) × CdeRises (b.block_number + 1) blocks

  abbrev pub ChainRises : ℕ → List (ChainData D) → Type 0
  ChainRises n [] = Unit
  ChainRises n (c ∷ chain) = (n ≤ c.block_number) × ChainRises (c.block_number + 1) chain

  cde_at-later :
      (n k : ℕ) (blocks : List (CdeBlock D))
      → n < k
      → CdeRises k blocks
      → cde_at n blocks ≡ ([], [])
  cde_at-later n k [] lt h = refl
  cde_at-later n k (b ∷ blocks) lt h =
      ground (arith, h.0, cde_at-later n (b.block_number + 1) blocks (omega (arith, h.0)) h.1)

  datums_at-later :
      (n k : ℕ) (chain : List (ChainData D))
      → n < k
      → ChainRises k chain
      → datums_at n chain ≡ ([], [])
  datums_at-later n k [] lt h = refl
  datums_at-later n k (c ∷ chain) lt h =
      ground (arith, h.0, datums_at-later n (c.block_number + 1) chain (omega (arith, h.0)) h.1)

  compose_block-number :
      (o : Option (CdeBlock D)) (c : ChainData D)
      → (compose_block o c).block_number ≡ c.block_number
  unfolding compose_block
  compose_block-number none c = refl
  compose_block-number (some b) c = refl

  ChainRises-compose :
      (k : ℕ) (chain : List (ChainData D)) (cde_data : List (CdeBlock D))
      → ChainRises k chain
      → ChainRises k (compose_chain_data chain cde_data)
  unfolding compose_chain_data
  ChainRises-compose k [] cde_data h = tt
  ChainRises-compose k (c ∷ chain) cde_data h =
      rw (compose_block-number (find_block c.block_number cde_data) c)
        (h.0, ChainRises-compose (c.block_number + 1) chain cde_data h.1)

  -- The datums and inputs of a block, and those of what is joined to it.
  abbrev pub own : ChainData D → List D × List SubmittedData
  own c = (or_empty c.extension_datums, c.submitted_data)

  abbrev pub found_data : Option (CdeBlock D) → List D × List SubmittedData
  found_data none = ([], [])
  found_data (some b) = (or_empty b.extension_datums, or_empty b.submitted_data)

  compose_block-own :
      (o : Option (CdeBlock D)) (c : ChainData D)
      → own (compose_block o c) ≡ both (own c) (found_data o)
  unfolding compose_block
  compose_block-own none c =
      cc (append-nil (or_empty c.extension_datums), append-nil c.submitted_data)
  compose_block-own (some b) c = cc (
    push_all-or_empty c.extension_datums b.extension_datums,
    append_all-or_empty c.submitted_data b.submitted_data,
  )

  find_block-cde_at :
      (n k : ℕ) (blocks : List (CdeBlock D))
      → CdeRises k blocks
      → found_data (find_block n blocks) ≡ cde_at n blocks
  unfolding find_block
  find_block-cde_at n k [] h = refl
  find_block-cde_at n k (b ∷ blocks) h = elim (Bool-cases (b.block_number == n)) [
    | inl same ↦
        let last = cde_at-later n (b.block_number + 1) blocks (ground arith) h.1 in
        rw (same, last)
          (cc (append-nil (or_empty b.extension_datums), append-nil (or_empty b.submitted_data)))
    | inr other ↦ rw other (find_block-cde_at n (b.block_number + 1) blocks h.1)
  ]

  -- A block of this number is there.
  abbrev pub HasBlock : ℕ → List (ChainData D) → Type 0
  HasBlock n [] = ⊥
  HasBlock n (c ∷ chain) = (c.block_number ≡ n) ⊎ HasBlock n chain

  both_nil : (p : List D × List SubmittedData) → both p ([], []) ≡ p
  both_nil (d, s) = cc (append-nil d, append-nil s)

  -- Where the numbers of the chain's blocks rise, and those of the primitives' blocks do: the composed
  -- chain has at each of its numbers the datums and inputs that the chain had there, followed by those of
  -- the primitives for that number, and nothing else.
  pub compose_chain_data-at :
      (n k j : ℕ) (chain : List (ChainData D)) (cde_data : List (CdeBlock D))
      → ChainRises k chain
      → CdeRises j cde_data
      → HasBlock n chain
      → datums_at n (compose_chain_data chain cde_data)
        ≡ both (datums_at n chain) (cde_at n cde_data)
  unfolding compose_chain_data
  compose_chain_data-at n k j [] cde_data h g here = absurd here
  compose_chain_data-at n k j (c ∷ chain) cde_data h g here =
      elim (Bool-cases (c.block_number == n)) [
        | inl same ↦
            let number : c.block_number ≡ n = ground arith in
            let joined = compose_block (find_block c.block_number cde_data) c in
            let found : found_data (find_block c.block_number cde_data) ≡ cde_at n cde_data =
              rw number (find_block-cde_at n j cde_data g) in
            let none_later =
              datums_at-later n (c.block_number + 1) (compose_chain_data chain cde_data)
                (omega (arith, number))
                (ChainRises-compose (c.block_number + 1) chain cde_data h.1) in
            let none_left =
              datums_at-later n (c.block_number + 1) chain (omega (arith, number)) h.1 in
            rw
              (
                compose_block-number (find_block c.block_number cde_data) c,
                same,
                none_later,
                none_left,
              )
              (both_nil (own joined)
                ∙ (compose_block-own (find_block c.block_number cde_data) c
                    ∙ (ap (both (own c)) found
                        ∙ ap (λ p. both p (cde_at n cde_data)) (sym (both_nil (own c))))))
        | inr other ↦
            rw (compose_block-number (find_block c.block_number cde_data) c, other)
              (compose_chain_data-at n (c.block_number + 1) j chain cde_data h.1 g
                (ground (arith, here)))
      ]
