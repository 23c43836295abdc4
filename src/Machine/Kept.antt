-- ===== src/Machine/Kept.antt =====
-- What a step of a block keeps: the wallets, the nonces and the table of blocks.
use paima_engine.Base.{◌≡◌, refl, ap, ◌∙◌}
use paima_engine.Machine.State.{Machine, abort}

-- Blocks and nonces are as they were, and so are the wallets, but that the transaction may be aborted.
pub record Keeps {G F R : Type 0} (m m' : Machine G F R) : Type 0 where
  pub db : m'.wallet.db ≡ m.wallet.db
  pub cache : m'.wallet.cache ≡ m.wallet.cache
  pub nonces : m'.nonces ≡ m.nonces
  pub blocks : m'.blocks ≡ m.blocks

pub Keeps-refl : {G F R : Type 0} (m : Machine G F R) → Keeps m m
Keeps-refl m = record { db = refl; cache = refl; nonces = refl; blocks = refl }

pub Keeps-trans : {G F R : Type 0} (a b c : Machine G F R) → Keeps a b → Keeps b c → Keeps a c
Keeps-trans a b c p q = record {
  db = q.db ∙ p.db;
  cache = q.cache ∙ p.cache;
  nonces = q.nonces ∙ p.nonces;
  blocks = q.blocks ∙ p.blocks;
}

pub Keeps-from : {G F R : Type 0} (a b c : Machine G F R) → b ≡ a → Keeps b c → Keeps a c
Keeps-from {G} {F} {R} a b c e k = record {
  db = k.db ∙ ap (λ (m : Machine G F R). m.wallet.db) e;
  cache = k.cache ∙ ap (λ (m : Machine G F R). m.wallet.cache) e;
  nonces = k.nonces ∙ ap (λ (m : Machine G F R). m.nonces) e;
  blocks = k.blocks ∙ ap (λ (m : Machine G F R). m.blocks) e;
}

-- An aborted transaction keeps them too.
pub Keeps-abort : {G F R : Type 0} (m : Machine G F R) → Keeps m (abort m)
Keeps-abort m = record { db = refl; cache = refl; nonces = refl; blocks = refl }
