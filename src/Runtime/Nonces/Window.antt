-- ===== src/Runtime/Nonces/Window.antt =====
-- The time for which a nonce protects from a replay.
use paima_engine.Base.{
  ℕ, ◌+◌, ◌-◌, ◌≤◌, ◌<◌, String, ◌≡◌, ◌⊎◌, inl, inr, Bool, true, List, [], ◌∷◌, arith, eq_iff,
}
use paima_engine.Machine.Inputs.{has_nonce}
use paima_engine.Runtime.Nonces.{
  delete_nonces, nonce_gc_interval, nonce_gc_lifetime, clean_nonces_if_time,
}

-- The nonce was used at this height.
abbrev pub UsedAt : String → ℕ → List (String × ℕ) → Type 0
UsedAt nonce n [] = ⊥
UsedAt nonce n ((m, k) ∷ nonces) = ((m ≡ nonce) × (k ≡ n)) ⊎ UsedAt nonce n nonces

UsedAt-has_nonce :
    (nonce : String) (n : ℕ) (nonces : List (String × ℕ))
    → UsedAt nonce n nonces
    → has_nonce nonce nonces ≡ true
unfolding has_nonce
UsedAt-has_nonce nonce n [] used = absurd used
UsedAt-has_nonce nonce n ((m, k) ∷ nonces) (inl (same, at)) = ground (arith, eq_iff m nonce)
UsedAt-has_nonce nonce n ((m, k) ∷ nonces) (inr later) =
    ground (arith, UsedAt-has_nonce nonce n nonces later)

delete_nonces-keeps :
    (limit n : ℕ) (nonce : String) (nonces : List (String × ℕ))
    → limit < n
    → UsedAt nonce n nonces
    → UsedAt nonce n (delete_nonces limit nonces)
unfolding delete_nonces
delete_nonces-keeps limit n nonce [] lt used = absurd used
delete_nonces-keeps limit n nonce ((m, k) ∷ nonces) lt (inl (same, at)) = ground arith
delete_nonces-keeps limit n nonce ((m, k) ∷ nonces) lt (inr later) =
    ground (arith, delete_nonces-keeps limit n nonce nonces lt later)

-- A clean-up keeps every nonce that was used, above block 0, in the last week's blocks, so that
-- its input is still refused; and the next clean-up comes no earlier than a whole interval after
-- this height.
pub clean_nonces_if_time_lem :
    (block_time : ℕ) (fails : Bool) (height trigger : ℕ) (nonce : String) (n : ℕ)
    (nonces : List (String × ℕ))
    → UsedAt nonce n nonces
    → 0 < n
    → height < n + nonce_gc_lifetime block_time
    → let (next, left) = clean_nonces_if_time block_time fails height trigger nonces in
      (has_nonce nonce left ≡ true) × ((trigger ≤ height) → height + nonce_gc_interval ≤ next)
unfolding clean_nonces_if_time
clean_nonces_if_time_lem block_time fails height trigger nonce n nonces used pos young =
    let limit = height - nonce_gc_lifetime block_time in
    let kept =
      UsedAt-has_nonce nonce n (delete_nonces limit nonces)
        (delete_nonces-keeps limit n nonce nonces (omega arith) used) in
    (ground (arith, kept, UsedAt-has_nonce nonce n nonces used), λ due. ground arith)
