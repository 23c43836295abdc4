-- ===== src/Runtime/Presync/Start.antt =====
-- Where the presync starts.
use paima_engine.Base.{
  ℕ, ◌+◌, ◌≤◌, ◌<◌, String, ◌≡◌, refl, sym, ◌∙◌, ◌≢◌, ◌⊎◌, inl, inr, Bool, true, false, ◌&&◌,
  Option, none, some, List, [], ◌∷◌, arith, str_eq, eq_iff, ltb, leb, if◌then◌else◌, ltb→lt, leb→le,
  Bool-cases, Option-cases,
}
use paima_engine.Machine.Primitives.{get_presync_block_height}
use paima_engine.Runtime.Presync.{
  NetworkType, evm_main, evm_other, cardano, mina, avail_main, midnight, Network, Extension,
  get_earliest_start_blockheight, fresh_start, presync_start,
}

-- No primitive of the network is read from a lower height.
abbrev pub BeforeAll : ℕ → (network : String) → List Extension → Type 0
BeforeAll h network [] = Unit
BeforeAll h network (e ∷ config) =
    (e.network ≡ network → (k : ℕ) → e.start_block_height ≡ some k → h ≤ k)
    × BeforeAll h network config

BeforeAll-mono :
    (a b : ℕ) (network : String) (config : List Extension)
    → a ≤ b
    → BeforeAll b network config
    → BeforeAll a network config
BeforeAll-mono a b network [] le h = tt
BeforeAll-mono a b network (e ∷ config) le h =
    (λ same k f. omega (arith, h.0 same k f), BeforeAll-mono a b network config le h.1)

earliest_none :
    (h : ℕ) (config : List Extension) (network : String)
    → get_earliest_start_blockheight config network ≡ none
    → BeforeAll h network config
unfolding get_earliest_start_blockheight
earliest_none h [] network e = tt
earliest_none h (x ∷ config) network e = elim (Option-cases x.start_block_height) [
  | inl slots ↦ (λ same k f. absurd (cc (slots, f)), earliest_none h config network (ground arith))
  | inr (s, g) ↦ elim (Bool-cases (str_eq x.network network)) [
    | inl same ↦ absurd (ground arith)
    | inr other ↦ (
      λ same k f. absurd (cc (other, (eq_iff x.network network).1 same)),
      earliest_none h config network (ground arith),
    )
  ]
]

earliest_first :
    (h : ℕ) (config : List Extension) (network : String)
    → get_earliest_start_blockheight config network ≡ some h
    → BeforeAll h network config
unfolding get_earliest_start_blockheight
earliest_first h [] network e = tt
earliest_first h (x ∷ config) network e = elim (Option-cases x.start_block_height) [
  | inl slots ↦ (λ same k f. absurd (cc (slots, f)), earliest_first h config network (ground arith))
  | inr (s, g) ↦ elim (Bool-cases (str_eq x.network network)) [
    | inr other ↦ (
      λ same k f. absurd (cc (other, (eq_iff x.network network).1 same)),
      earliest_first h config network (ground arith),
    )
    | inl same ↦ elim (Option-cases (get_earliest_start_blockheight config network)) [
      | inl first ↦ (λ named k f. ground (arith, g, f), earliest_none h config network first)
      | inr (b, r) ↦ (
        λ named k f. ground (arith, g, f),
        BeforeAll-mono h b network config (ground arith) (earliest_first b config network r),
      )
    ]
  ]
]

earliest_lem :
    (kind : NetworkType) (maximum : ℕ) (config : List Extension) (network : String)
    (earliest : Option ℕ)
    → kind ≢ avail_main
    → get_earliest_start_blockheight config network ≡ earliest
    → BeforeAll (fresh_start kind maximum earliest) network config
earliest_lem evm_main maximum config network none other e =
    earliest_none (maximum + 1) config network e
earliest_lem evm_main maximum config network (some h) other e = earliest_first h config network e
earliest_lem evm_other maximum config network none other e =
    earliest_none (maximum + 1) config network e
earliest_lem evm_other maximum config network (some h) other e = earliest_first h config network e
earliest_lem cardano maximum config network none other e =
    earliest_none (maximum + 1) config network e
earliest_lem cardano maximum config network (some h) other e = earliest_first h config network e
earliest_lem mina maximum config network none other e = earliest_none (maximum + 1) config network e
earliest_lem mina maximum config network (some h) other e = earliest_first h config network e
earliest_lem midnight maximum config network none other e =
    earliest_none (maximum + 1) config network e
earliest_lem midnight maximum config network (some h) other e = earliest_first h config network e
earliest_lem avail_main maximum config network earliest other e = absurd (other refl)

-- Every row of the network is at most this height.
abbrev pub NoneHigher : (height : ℕ) (name : String) → List (String × ℕ) → Type 0
NoneHigher height name [] = Unit
NoneHigher height name ((c, k) ∷ rows) = (c ≡ name → k ≤ height) × NoneHigher height name rows

abbrev pub IsRecorded : (height : ℕ) (name : String) → List (String × ℕ) → Type 0
IsRecorded height name [] = ⊥
IsRecorded height name ((c, k) ∷ rows) = (c ≡ name) × (k ≡ height) ⊎ IsRecorded height name rows

NoneHigher-le :
    (a b : ℕ) (name : String) (rows : List (String × ℕ))
    → a ≤ b
    → NoneHigher a name rows
    → NoneHigher b name rows
NoneHigher-le a b name [] le h = tt
NoneHigher-le a b name ((c, k) ∷ rows) le h =
    (λ same. omega (arith, h.0 same, le), NoneHigher-le a b name rows le h.1)

height-cons :
    (name c : String) (k : ℕ) (rows : List (String × ℕ)) (same up : Bool)
    → str_eq c name ≡ same
    → leb (get_presync_block_height name rows) k ≡ up
    → get_presync_block_height name ((c, k) ∷ rows)
      ≡ (if same && up then k else get_presync_block_height name rows)
unfolding get_presync_block_height
height-cons name c k rows same up h g = ground (arith, h, g)

height-NoneHigher :
    (name : String) (rows : List (String × ℕ)) (h : ℕ)
    → get_presync_block_height name rows ≡ h
    → NoneHigher h name rows
height-NoneHigher name [] h e = tt
height-NoneHigher name ((c, k) ∷ rows) h e =
    let rest = get_presync_block_height name rows in
    let above = height-NoneHigher name rows rest refl in
    elim (Bool-cases (str_eq c name)) [
      | inr other ↦
          let step = sym (height-cons name c k rows false (leb rest k) other refl) ∙ e in
          (λ same. absurd (cc (other, (eq_iff c name).1 same)), height-NoneHigher name rows h step)
      | inl same ↦ elim (Bool-cases (leb rest k)) [
        | inl up ↦
            let step = sym (height-cons name c k rows true true same up) ∙ e in
            let le = leb→le rest k up in
            (
              λ _. omega (arith, step),
              NoneHigher-le rest h name rows (omega (arith, step, le)) above,
            )
        | inr down ↦
            let step = sym (height-cons name c k rows true false same down) ∙ e in
            (λ _. ground (arith, down, step), height-NoneHigher name rows h step)
      ]
    ]

height-IsRecorded :
    (name : String) (rows : List (String × ℕ)) (h : ℕ)
    → get_presync_block_height name rows ≡ h
    → 0 < h
    → IsRecorded h name rows
height-IsRecorded name [] h e up = absurd (unfold get_presync_block_height in omega (arith, e, up))
height-IsRecorded name ((c, k) ∷ rows) h e some_height =
    let rest = get_presync_block_height name rows in
    elim (Bool-cases (str_eq c name)) [
      | inr other ↦
          let step = sym (height-cons name c k rows false (leb rest k) other refl) ∙ e in
          inr (height-IsRecorded name rows h step some_height)
      | inl same ↦ elim (Bool-cases (leb rest k)) [
        | inl up ↦
            let step = sym (height-cons name c k rows true true same up) ∙ e in
            inl ((eq_iff c name).0 same, step)
        | inr down ↦
            let step = sym (height-cons name c k rows true false same down) ∙ e in
            inr (height-IsRecorded name rows h step some_height)
      ]
    ]

fresh-BeforeAll :
    (kind : NetworkType) (maximum : ℕ) (config : List Extension) (network : String)
    → let start = fresh_start kind maximum (get_earliest_start_blockheight config network) in
      (kind ≡ avail_main) × (start ≡ 1) ⊎ BeforeAll start network config
fresh-BeforeAll avail_main maximum config network = inl (refl, refl)
fresh-BeforeAll evm_main maximum config network =
    inr (earliest_lem evm_main maximum config network _ (λ p. absurd (cc p)) refl)
fresh-BeforeAll evm_other maximum config network =
    inr (earliest_lem evm_other maximum config network _ (λ p. absurd (cc p)) refl)
fresh-BeforeAll cardano maximum config network =
    inr (earliest_lem cardano maximum config network _ (λ p. absurd (cc p)) refl)
fresh-BeforeAll mina maximum config network =
    inr (earliest_lem mina maximum config network _ (λ p. absurd (cc p)) refl)
fresh-BeforeAll midnight maximum config network =
    inr (earliest_lem midnight maximum config network _ (λ p. absurd (cc p)) refl)

-- Where a block above 0 is recorded under the name of a network, the presync goes on right behind
-- the highest of those that are; where none is, it starts at 1 on Avail, and on any other network
-- at or below the start of every primitive of that network, so that nothing of their history is
-- left out.
pub presync_start_lem :
    (config : List Extension) (maximum : ℕ) (rows : List (String × ℕ)) (network : Network)
    → let start = presync_start config maximum rows network in
      ((h : ℕ) × IsRecorded h network.name rows
        × NoneHigher h network.name rows
        × (0 < h)
        × (start ≡ h + 1))
      ⊎ (NoneHigher 0 network.name rows
          × ((network.kind ≡ avail_main) × (start ≡ 1) ⊎ BeforeAll start network.name config))
unfolding presync_start
presync_start_lem config maximum rows network =
    let latest = get_presync_block_height network.name rows in
    let above = height-NoneHigher network.name rows latest refl in
    elim (Bool-cases (ltb 0 latest)) [
      | inl recorded ↦
          let up = ltb→lt 0 latest recorded in
          rw recorded
            (inl (latest, height-IsRecorded network.name rows latest refl up, above, up, refl))
      | inr none_recorded ↦ rw none_recorded (
          inr (
            NoneHigher-le latest 0 network.name rows (ground (arith, none_recorded)) above,
            fresh-BeforeAll network.kind maximum config network.name,
          ))
    ]
