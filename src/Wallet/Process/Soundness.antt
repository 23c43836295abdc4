-- ===== src/Wallet/Process/Soundness.antt =====
-- What the checks before a wallet command establish.
use paima_engine.Base.{String, ◌≡◌, refl, sym, ap, ◌∙◌, ◌≢◌, ◌⊎◌, true, List, arith, eq_iff}
use paima_engine.Wallet.Lookup.{Wallet}
use paima_engine.Wallet.Commands.{Error, Result, ok, err, Command, ◌>>=◌, ◌>>◌}
use paima_engine.Wallet.Process.{
  Validator, any_accepts, validate_sender, generate_message, verify_signature, authorise,
}

-- A step that writes nothing, and leaves `P` where it succeeds.
abbrev pub Checks : Command (Unit {0}) → Type 0 → Type 0
Checks m P = (w : Wallet) → ((m w).1 ≡ w) × ((m w).0 ≡ ok tt → P)

pub then-ok :
    (m k : Command (Unit {0})) (w : Wallet) → (m w).0 ≡ ok tt → (m w).1 ≡ w → (m >> k) w ≡ k w
then-ok m k w e s = rw (e, ◌>>=◌) (ap k s)

pub then-err :
    (m k : Command (Unit {0})) (w : Wallet) (x : Error)
    → (m w).0 ≡ err x
    → (m w).1 ≡ w
    → (m >> k) w ≡ (err x, w)
then-err m k w x e s = rw (e, ◌>>=◌) (ap (λ (v : Wallet). (err x, v)) s)

pub Checks-then :
    {P Q : Type 0} (m k : Command (Unit {0})) → Checks m P → Checks k Q → Checks (m >> k) (P × Q)
Checks-then {P} {Q} m k hm hk w = go (m w).0 refl
  where
    go :
        (r : Result (Unit {0}))
        → (m w).0 ≡ r
        → (((m >> k) w).1 ≡ w) × (((m >> k) w).0 ≡ ok tt → P × Q)
    go (ok _) e = rw (then-ok m k w e (hm w).0) ((hk w).0, λ h. ((hm w).1 e, (hk w).1 h))
    go (err x) e = rw (then-err m k w x e (hm w).0) (refl, λ h. cc h)

-- Where the whole succeeds the checks have, and the rest ran from the same state.
pub Checks-run :
    (m k : Command (Unit {0})) {P : Type 0} (w : Wallet)
    → Checks m P
    → ((m >> k) w).0 ≡ ok tt
    → P × ((k w).0 ≡ ok tt) × ((m >> k) w ≡ k w)
Checks-run m k {P} w checks done = go (m w).0 refl
  where
    go : (r : Result (Unit {0})) → (m w).0 ≡ r → P × ((k w).0 ≡ ok tt) × ((m >> k) w ≡ k w)
    go (ok _) e =
        let ran = then-ok m k w e (checks w).0 in
        ((checks w).1 e, sym (ap (λ (x : Result (Unit {0}) × Wallet). x.0) ran) ∙ done, ran)
    go (err x) e =
        absurd (
          cc (done, ap (λ (x : Result (Unit {0}) × Wallet). x.0) (then-err m k w x e (checks w).0)))

validate_sender-Checks :
    (to from real_address : String)
    → Checks
        (validate_sender to from real_address)
        ((from ≢ to) × ((to ≡ real_address) ⊎ (from ≡ real_address)))
unfolding validate_sender
validate_sender-Checks to from real_address w = (
  ground arith,
  λ h. ground (arith, eq_iff to from, eq_iff to real_address, eq_iff from real_address),
)

module _ (lower : String → String) (validators : List Validator) where
  -- The wallet is named and a signature scheme accepts its signature of the message.
  abbrev pub Signed : (wallet_address message signature : String) → Type 0
  Signed wallet_address message signature =
      (wallet_address ≢ "") × (any_accepts wallet_address message signature validators ≡ true)

  -- The wallets differ, the sender is one of them, and each has signed a message that names the other.
  abbrev pub Authorised : (real_address from to from_signature to_signature : String) → Type 0
  Authorised real_address from to from_signature to_signature =
      ((from ≢ to) × ((to ≡ real_address) ⊎ (from ≡ real_address)))
      × (Signed from (generate_message lower to) from_signature
          × Signed to (generate_message lower from) to_signature)

  verify_signature-Checks :
      (wallet_address message signature : String)
      → Checks
          (verify_signature lower validators wallet_address message signature)
          (Signed wallet_address message signature)
  unfolding verify_signature
  verify_signature-Checks wallet_address message signature w =
      (ground arith, λ h. ground (arith, eq_iff wallet_address ""))

  pub authorise-Checks :
      (real_address from to from_signature to_signature : String)
      → Checks
          (authorise lower validators real_address from to from_signature to_signature)
          (Authorised real_address from to from_signature to_signature)
  unfolding authorise
  authorise-Checks real_address from to from_signature to_signature w =
      Checks-then (validate_sender to from real_address)
        (verify_signature lower validators from (generate_message lower to) from_signature
          >> verify_signature lower validators to (generate_message lower from) to_signature)
        (validate_sender-Checks to from real_address)
        (Checks-then
          (verify_signature lower validators from (generate_message lower to) from_signature)
          (verify_signature lower validators to (generate_message lower from) to_signature)
          (verify_signature-Checks from (generate_message lower to) from_signature)
          (verify_signature-Checks to (generate_message lower from) to_signature))
        w
