-- ===== src/Funnel/Mapping/Reference.antt =====
-- The two-pointer loop of `buildParallelBlockMappings` against a search from the start for each block.
use paima_engine.Base.{
  ℕ, ◌≤◌, ◌≡◌, refl, ◌∙◌, Option, none, some, List, [], ◌∷◌, arith, leb, if◌then◌else◌, All,
}
use paima_engine.Chain.{ChainData}
use paima_engine.Funnel.Mapping.{
  Mappings, no_mappings, assign_both, advance, assign_head, mapping_loop,
  build_parallel_block_mappings,
}

-- The parallel blocks rise by timestamp.
abbrev pub RisesByTime : List (ℕ × ℕ) → Type 0
RisesByTime [] = Unit
RisesByTime ((ts, number) ∷ blocks) = All (λ (p : ℕ × ℕ). ts ≤ p.0) blocks × RisesByTime blocks

abbrev pub assign_found : (parallel : ℕ) → Option ℕ → Mappings → Mappings
assign_found parallel none m = m
assign_found parallel (some main) m = assign_both parallel main m

module _ {D : Type 0} (apply_delay : ℕ → ℕ) where
  -- The first block of the main chain whose delayed timestamp reaches `ts`.
  abbrev pub first_reaching : ℕ → List (ChainData D) → Option ℕ
  first_reaching ts [] = none
  first_reaching ts (c ∷ chain) =
      if leb ts (apply_delay c.timestamp) then some c.block_number else first_reaching ts chain

  -- The reference: each parallel block is searched for in the whole chain.
  abbrev pub reference_mappings : List (ChainData D) → List (ℕ × ℕ) → Mappings → Mappings
  reference_mappings chain [] m = m
  reference_mappings chain ((ts, number) ∷ blocks) m =
      reference_mappings chain blocks (assign_found number (first_reaching ts chain) m)

  first_reaching-advance :
      (s t : ℕ) (chain : List (ChainData D))
      → s ≤ t
      → first_reaching t (advance apply_delay s chain) ≡ first_reaching t chain
  unfolding advance
  first_reaching-advance s t [] le = refl
  first_reaching-advance s t (c ∷ chain) le = ground (arith, first_reaching-advance s t chain le)

  assign_head-eq-found :
      (ts number : ℕ) (chain : List (ChainData D)) (m : Mappings)
      → assign_head apply_delay number (advance apply_delay ts chain) m
        ≡ assign_found number (first_reaching ts chain) m
  unfolding advance assign_head
  assign_head-eq-found ts number [] m = refl
  assign_head-eq-found ts number (c ∷ chain) m =
      ground (arith, assign_head-eq-found ts number chain m)

  reference-advance :
      (s : ℕ) (chain : List (ChainData D)) (blocks : List (ℕ × ℕ)) (m : Mappings)
      → All (λ (p : ℕ × ℕ). s ≤ p.0) blocks
      → reference_mappings (advance apply_delay s chain) blocks m
        ≡ reference_mappings chain blocks m
  reference-advance s chain [] m h = refl
  reference-advance s chain ((ts, number) ∷ blocks) m h =
      rw (first_reaching-advance s ts chain h.0)
        (reference-advance s chain blocks (assign_found number (first_reaching ts chain) m) h.1)

  mapping_loop-eq-reference :
      (chain : List (ChainData D)) (blocks : List (ℕ × ℕ)) (m : Mappings)
      → RisesByTime blocks
      → mapping_loop apply_delay chain blocks m ≡ reference_mappings chain blocks m
  unfolding mapping_loop
  mapping_loop-eq-reference chain [] m h = refl
  mapping_loop-eq-reference chain ((ts, number) ∷ blocks) m h =
      mapping_loop-eq-reference (advance apply_delay ts chain) blocks
        (assign_head apply_delay number (advance apply_delay ts chain) m) h.1
      ∙ (rw (assign_head-eq-found ts number chain m)
          (reference-advance ts chain blocks (assign_found number (first_reaching ts chain) m) h.0))

  -- Where the parallel blocks rise by timestamp, the single pass assigns to each of them the first
  -- block of the main chain whose delayed timestamp reaches its own, as a search of the whole chain
  -- for each would, and leaves out those that no block of the chain reaches.
  pub build_parallel_block_mappings-eq-reference :
      (chain : List (ChainData D)) (blocks : List (ℕ × ℕ))
      → RisesByTime blocks
      → build_parallel_block_mappings apply_delay chain blocks
        ≡ reference_mappings chain blocks no_mappings
  unfolding build_parallel_block_mappings
  build_parallel_block_mappings-eq-reference chain blocks h =
      mapping_loop-eq-reference chain blocks no_mappings h
