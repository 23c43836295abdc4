-- ===== src/Machine/Randomness.antt =====
-- The seed of a block: packages/node-sdk/paima-sm/src/randomness.ts and the query getBlockSeeds of
-- packages/node-sdk/paima-db/src/sql/block-heights.sql.
use mathlib.Core.List.{reverse}
use paima_engine.Base.{
  ℕ, zero, suc, String, Bool, none, some, List, [], ◌∷◌, ◌++◌, map, if◌then◌else◌, length,
  get_elem?,
}
use paima_engine.Chain.{SubmittedData}
use paima_engine.Funnel.Grouping.{sort_by}
use paima_engine.Machine.State.{BlockRow}

unfoldable pub is_processed : List BlockRow → List BlockRow
is_processed [] = []
is_processed (b ∷ blocks) =
    let rest = is_processed blocks in elim b.paima_block_hash [ none ↦ rest | some _ ↦ b ∷ rest ]

abbrev pub take {ℓ} : {A : Type ℓ} → ℕ → List A → List A
take zero xs = []
take (suc n) [] = []
take (suc n) (x ∷ xs) = x ∷ take n xs

abbrev pub block_height_of : BlockRow → ℕ
block_height_of b = b.block_height

abbrev pub seed_of : BlockRow → String
seed_of b = b.seed

-- getBlockSeeds
abbrev pub get_block_seeds : List BlockRow → List String
get_block_seeds blocks =
    map seed_of (take 25 (reverse (sort_by block_height_of (is_processed blocks))))

-- Prando and `hashTogether`: `flip` is `Math.round(prando.next()) === 1`, `pick n` is
-- `Math.floor(prando.next() * n)`; `values_of` is the concise parser's.
pub record Chance (R : Type 0) : Type 0 where
  pub seeded : String → R
  pub flip : R → Bool × R
  pub pick : ℕ → R → ℕ × R
  pub hash_together : List String → String
  pub values_of : String → List String

module _ {R : Type 0} (chance : Chance R) where
  unfoldable pub choose_values : List String → R → List String × R
  choose_values [] r = ([], r)
  choose_values (v ∷ values) r =
      let (chosen, r') = chance.flip r in
      let (rest, r'') = choose_values values r' in (if chosen then v ∷ rest else rest, r'')

  unfoldable pub choose_chunks : List SubmittedData → R → List String × R
  unfolding choose_values
  choose_chunks [] r = ([], r)
  choose_chunks (d ∷ submitted) r =
      let (chosen, r') =
        choose_values (d.input_nonce ∷ d.real_address ∷ chance.values_of d.input_data) r in
      let (rest, r'') = choose_chunks submitted r' in (chosen ++ rest, r'')

  -- A random attribute of a random input, in case nothing was picked.
  abbrev pub force_value : List SubmittedData → R → List String
  force_value submitted r =
      let (i, r') = chance.pick (length submitted) r in
      elim (get_elem? submitted i) [
        | none ↦ []
        | some d ↦
            let (j, _) = chance.pick 3 r' in
            elim (get_elem? (d.input_nonce ∷ d.real_address ∷ d.input_data ∷ []) j) [
              | none ↦ []
              | some v ↦ v ∷ []
            ]
      ]

  unfoldable pub choose_data : List SubmittedData → (seed : String) → List String
  unfolding choose_chunks
  choose_data submitted seed =
      let (chosen, r) = choose_chunks submitted (chance.seeded seed) in
      elim chosen [
        | v ∷ values ↦ v ∷ values
        | [] ↦ elim submitted [ [] ↦ [] | d ∷ ds ↦ force_value (d ∷ ds) r ]
      ]

  -- `getSeed1`
  unfoldable pub get_seed : (block_hash : String) → List SubmittedData → List BlockRow → String
  get_seed block_hash submitted blocks =
      let block_seeds = get_block_seeds blocks in
      chance.hash_together (
        choose_data submitted (chance.hash_together (block_hash ∷ block_seeds))
        ++ block_hash ∷ block_seeds)
