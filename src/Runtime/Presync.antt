-- ===== src/Runtime/Presync.antt =====
-- The presync, which reads the primitives' history before the first block:
-- `getPresyncStartBlockheight` and `runPresyncRound` of
-- packages/node-sdk/paima-runtime/src/runtime-loops.ts, and `getEarliestStartBlockheight` of
-- cde-config/utils.ts beside it.
pub mod Start
pub mod Round
pub mod Whole
use paima_engine.Base.{
  ℕ, ◌+◌, String, Bool, true, false, ◌&&◌, Option, none, some, List, [], ◌∷◌, ◌++◌, str_eq, ltb,
  leb, if◌then◌else◌,
}
use paima_engine.Machine.State.{Machine, Env, Outcome, returned, thrown}
use paima_engine.Machine.Primitives.{
  Primitives, get_presync_block_height, upsert, PresyncData, evm_presync, paginated,
  presync_process,
}

pub data NetworkType : Type 0 where
  evm_main evm_other cardano mina avail_main midnight : NetworkType

-- An entry of the configuration of networks; `caip2` is what `caip2PrefixFor` makes of it.
pub record Network : Type 0 where
  pub name : String
  pub kind : NetworkType
  pub caip2 : String

-- A primitive of the configuration: its network, and the height from which it is read where it has one.
pub record Extension : Type 0 where
  pub network : String
  pub start_block_height : Option ℕ

abbrev pub min_of : ℕ → Option ℕ → ℕ
min_of a none = a
min_of a (some b) = if leb a b then a else b

-- `getEarliestStartBlockheight`; none is -1.
unfoldable pub get_earliest_start_blockheight : List Extension → (network : String) → Option ℕ
get_earliest_start_blockheight [] network = none
get_earliest_start_blockheight (e ∷ config) network =
    let rest = get_earliest_start_blockheight config network in
    elim e.start_block_height [
      | none ↦ rest
      | some h ↦ if str_eq e.network network then some (min_of h rest) else rest
    ]

-- The height of a presync that starts afresh: Avail has no extensions.
abbrev pub fresh_start : NetworkType → (maximum_presync_blockheight : ℕ) → Option ℕ → ℕ
fresh_start avail_main maximum earliest = 1
fresh_start kind maximum none = maximum + 1
fresh_start kind maximum (some h) = h

-- Where the height that `getPresyncBlockHeight` finds is 0, the presync starts afresh. The name of the
-- network is what that is asked for.
unfoldable pub presync_start :
    List Extension → (maximum_presync_blockheight : ℕ) → (rows : List (String × ℕ)) → Network → ℕ
presync_start config maximum_presync_blockheight rows network =
    let latest = get_presync_block_height network.name rows in
    if ltb 0 latest
    then latest + 1
    else fresh_start network.kind maximum_presync_blockheight
        (get_earliest_start_blockheight config network.name)

unfoldable pub get_presync_start_blockheight :
    List Extension
    → (maximum_presync_blockheight : ℕ) → (rows : List (String × ℕ)) → List Network
    → List (String × ℕ)
    → List (String × ℕ)
get_presync_start_blockheight config maximum rows [] result = result
get_presync_start_blockheight config maximum rows (network ∷ networks) result =
    let skipped = get_presync_start_blockheight config maximum rows networks result in
    let added =
      get_presync_start_blockheight config maximum rows networks
        (upsert network.caip2 (presync_start config maximum rows network) result) in
    elim network.kind [ cardano ↦ skipped | mina ↦ skipped | _ ↦ added ]

-- What the funnel answers for a network.
pub data Answer (D : Type 0) : Type 0 where
  presync_finished : Answer D
  units : List (PresyncData D) → Answer D

-- A range that was asked for.
pub record Range : Type 0 where
  pub caip2 : String
  pub from : ℕ
  pub to : ℕ

-- The text that stands for an end is not empty, as a list is that has no units.
abbrev pub is_empty : {D : Type 0} → Answer D → Bool
is_empty presync_finished = false
is_empty (units []) = true
is_empty (units (u ∷ us)) = false

abbrev pub is_finished : {D : Type 0} → Answer D → Bool
is_finished presync_finished = true
is_finished (units us) = false

unfoldable pub every : {D : Type 0} → (Answer D → Bool) → List (String × Answer D) → Bool
every p [] = true
every p ((c, a) ∷ answers) = p a && every p answers

unfoldable pub answer_of : {D : Type 0} → String → List (String × Answer D) → Option (Answer D)
answer_of caip2 [] = none
answer_of caip2 ((c, a) ∷ answers) = if str_eq c caip2 then some a else answer_of caip2 answers

-- An EVM unit without datums is left out.
unfoldable pub keep_units : {D : Type 0} → List (PresyncData D) → List (PresyncData D)
keep_units [] = []
keep_units (evm_presync n caip2 [] ∷ us) = keep_units us
keep_units (evm_presync n caip2 (d ∷ ds) ∷ us) = evm_presync n caip2 (d ∷ ds) ∷ keep_units us
keep_units (paginated ds ∷ us) = paginated ds ∷ keep_units us

unfoldable pub all_units : {D : Type 0} → List (String × Answer D) → List (PresyncData D)
all_units [] = []
all_units ((c, presync_finished) ∷ answers) = all_units answers
all_units ((c, units us) ∷ answers) = us ++ all_units answers

abbrev pub max_safe_integer : ℕ
max_safe_integer = 9007199254740991

unfoldable pub next_height : {D : Type 0} → List (String × Answer D) → Range → ℕ
next_height answers r = elim (answer_of r.caip2 answers) [
  | none ↦ r.to + 1
  | some presync_finished ↦ max_safe_integer
  | some (units us) ↦ r.to + 1
]

unfoldable pub next_heights :
    {D : Type 0} → List (String × Answer D) → List Range → List (String × ℕ)
next_heights answers [] = []
next_heights answers (r ∷ ranges) = (r.caip2, next_height answers r) ∷ next_heights answers ranges

unfoldable pub same_heights : List Range → List (String × ℕ)
same_heights [] = []
same_heights (r ∷ ranges) = (r.caip2, r.from) ∷ same_heights ranges

module _ {G Q F R D : Type 0} (env : Env G Q F R) (prims : Primitives G Q D)
    (update_cursor : Machine G F R → Outcome (Machine G F R)) where
  unfoldable pub presync_loop : List (PresyncData D) → Machine G F R → Outcome (Machine G F R)
  presync_loop [] m = returned m
  presync_loop (u ∷ us) m = elim (presync_process env prims update_cursor u m) [
    | thrown (_, m') ↦ thrown m'
    | returned (_, m') ↦ presync_loop us m'
  ]

  -- The heights of the next round, and the state.
  unfoldable pub run_presync_round :
      List Range
      → List (String × Answer D)
      → Machine G F R
      → Outcome (List (String × ℕ) × Machine G F R)
  run_presync_round ranges answers m =
      if every is_empty answers
      then returned (same_heights ranges, m)
      else elim (presync_loop (keep_units (all_units answers)) m) [
        | thrown m' ↦ thrown ([], m')
        | returned m' ↦
            returned ((if every is_finished answers then [] else next_heights answers ranges), m')
      ]
