-- ===== src/Funnel/Namespaces/Highest.antt =====
-- The entry of a height is the highest that has begun.
use paima_engine.Base.{
  ℕ, ◌≤◌, ◌<◌, String, ◌≡◌, refl, sym, ◌⊎◌, inl, inr, ◌&&◌, none, some, List, [], ◌∷◌, arith, ltb,
  leb, Bool-cases, All,
}
use paima_engine.Funnel.Namespaces.{highest_entry}

-- The entry stands in the list, has begun, and none that has begun is higher.
abbrev pub InEntries : ℕ × List String → List (ℕ × List String) → Type 0
InEntries e [] = ⊥
InEntries e (f ∷ entries) = (f ≡ e) ⊎ InEntries e entries

abbrev pub AtMost : (block_height limit : ℕ) → List (ℕ × List String) → Type 0
AtMost block_height limit entries =
    All (λ (e : ℕ × List String). e.0 ≤ block_height → e.0 ≤ limit) entries

abbrev pub NoneBegun : (block_height : ℕ) → List (ℕ × List String) → Type 0
NoneBegun block_height entries = All (λ (e : ℕ × List String). block_height < e.0) entries

highest_entry-some :
    (block_height b : ℕ) (prefix : List String) (entries : List (ℕ × List String))
    → b ≤ block_height
    → (e : ℕ × List String) × (highest_entry block_height (some (b, prefix)) entries ≡ some e)
      × ((e ≡ (b, prefix)) ⊎ InEntries e entries)
      × ((b ≤ e.0) × (e.0 ≤ block_height) × AtMost block_height e.0 entries)
unfolding highest_entry
highest_entry-some block_height b prefix [] le =
    ((b, prefix), refl, inl refl, (omega arith, le, tt))
highest_entry-some block_height b prefix ((h, p) ∷ entries) le =
    elim (Bool-cases (ltb b h && leb h block_height)) [
      | inl better ↦
          let (e, found, place, (up, begun, top)) =
            highest_entry-some block_height h p entries (ground arith) in
          (
            e,
            rw better found,
            inr (elim place [ inl same ↦ inl (sym same) | inr later ↦ inr later ]),
            (ground (arith, up), begun, (λ k. ground (arith, up), top)),
          )
      | inr worse ↦
          let (e, found, place, (up, begun, top)) =
            highest_entry-some block_height b prefix entries le in
          (
            e,
            rw worse found,
            elim place [ inl same ↦ inl same | inr later ↦ inr (inr later) ],
            (up, begun, (λ k. ground (arith, up), top)),
          )
    ]

-- Either an entry has begun, and the one found is the highest of those; or none has, and none is found.
pub highest_entry-IsHighest :
    (block_height : ℕ) (entries : List (ℕ × List String))
    → ((e : ℕ × List String) × (highest_entry block_height none entries ≡ some e)
        × InEntries e entries
        × ((e.0 ≤ block_height) × AtMost block_height e.0 entries))
      ⊎ ((highest_entry block_height none entries ≡ none) × NoneBegun block_height entries)
unfolding highest_entry
highest_entry-IsHighest block_height [] = inr (refl, tt)
highest_entry-IsHighest block_height ((h, p) ∷ entries) = elim (Bool-cases (leb h block_height)) [
  | inl begun ↦
      let (e, found, place, (up, ok, top)) =
        highest_entry-some block_height h p entries (ground arith) in
      inl (
        e,
        rw begun found,
        elim place [ inl same ↦ inl (sym same) | inr later ↦ inr later ],
        (ok, (λ k. up, top)),
      )
  | inr future ↦ elim (highest_entry-IsHighest block_height entries) [
    | inl (e, found, place, (ok, top)) ↦
        inl (e, rw future found, inr place, (ok, (λ k. absurd (ground arith), top)))
    | inr (missing, none_begun) ↦ inr (rw future missing, (ground arith, none_begun))
  ]
]
