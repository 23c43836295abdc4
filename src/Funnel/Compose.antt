-- ===== src/Funnel/Compose.antt =====
-- Joining the data of the primitives to the chain's blocks: `composeChainData` of
-- packages/node-sdk/paima-funnel/src/utils.ts.
pub mod Join
use paima_engine.Base.{ℕ, Option, none, some, List, [], ◌∷◌, ◌++◌, ◌==◌, if◌then◌else◌}
use paima_engine.Chain.{SubmittedData, InternalEvent, ChainData}

-- An element of `cdeData`.
pub record CdeBlock (D : Type 0) : Type 0 where
  pub block_number : ℕ
  pub extension_datums : Option (List D)
  pub internal_events : Option (List InternalEvent)
  pub submitted_data : Option (List SubmittedData)

-- `cdeData.find`
unfoldable pub find_block : {D : Type 0} → ℕ → List (CdeBlock D) → Option (CdeBlock D)
find_block n [] = none
find_block n (b ∷ blocks) = if b.block_number == n then some b else find_block n blocks

-- A list that may be missing, with what is pushed to it.
abbrev pub push_all {ℓ} : {A : Type ℓ} → Option (List A) → Option (List A) → Option (List A)
push_all (some l) (some m) = some (l ++ m)
push_all (some l) none = some l
push_all none more = more

abbrev pub append_all {ℓ} : {A : Type ℓ} → List A → Option (List A) → List A
append_all l none = l
append_all l (some m) = l ++ m

unfoldable pub compose_block : {D : Type 0} → Option (CdeBlock D) → ChainData D → ChainData D
compose_block none c = c
compose_block (some b) c = record c {
  extension_datums = push_all c.extension_datums b.extension_datums;
  internal_events = push_all c.internal_events b.internal_events;
  submitted_data = append_all c.submitted_data b.submitted_data;
}

unfoldable pub compose_chain_data :
    {D : Type 0} → List (ChainData D) → List (CdeBlock D) → List (ChainData D)
compose_chain_data [] cde_data = []
compose_chain_data (c ∷ chain) cde_data =
    compose_block (find_block c.block_number cde_data) c ∷ compose_chain_data chain cde_data
