-- ===== src/Concise/Split.antt =====
-- Texts without a divider, and `split` on a text that is made of such.
use paima_engine.Base.{ℕ, ◌≡◌, refl, ◌≢◌, true, [], ◌∷◌, ◌++◌, arith}
use paima_engine.Concise.Batch.{Text, text_eq, split}

-- The text does not have the code unit.
abbrev pub Free : ℕ → Text → Type 0
Free d [] = Unit
Free d (c ∷ t) = (c ≢ d) × Free d t

pub split-Free : (d : ℕ) (w : Text) → Free d w → split d w ≡ w ∷ []
unfolding split
split-Free d [] f = refl
split-Free d (c ∷ w) f = rw (split-Free d w f.1) (ground arith)

pub split-divided : (d : ℕ) (w t : Text) → Free d w → split d (w ++ (d ∷ t)) ≡ w ∷ split d t
unfolding split
split-divided d [] t f = ground arith
split-divided d (c ∷ w) t f = rw (split-divided d w t f.1) (ground arith)

pub text_eq_sound : (t u : Text) → text_eq t u ≡ true → t ≡ u
text_eq_sound [] [] h = refl
text_eq_sound [] (d ∷ u) h = absurd (ground arith)
text_eq_sound (c ∷ t) [] h = absurd (ground arith)
text_eq_sound (c ∷ t) (d ∷ u) h = ground (arith, text_eq_sound t u)

pub text_eq-same : (t : Text) → text_eq t t ≡ true
text_eq-same [] = refl
text_eq-same (c ∷ t) = ground (arith, text_eq-same t)
