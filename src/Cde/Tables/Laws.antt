-- ===== src/Cde/Tables/Laws.antt =====
-- Running queries one after the other.
use paima_engine.Base.{
  ℕ, String, ◌≡◌, refl, inl, inr, Bool, some, List, [], ◌∷◌, ◌++◌, arith, Option-cases,
}
use paima_engine.Machine.State.{Scheduled}
use paima_engine.Cde.Update.{Update}
use paima_engine.Cde.Tables.{Tables, run_update, run_updates}

module _ {J : Type 0} (decimal : ℕ → String) (starts_with : (base text : String) → Bool) where
  pub run_updates-cons :
      (u : Update J) (us : List (Update J)) (t t' : Tables J) (schedule schedule' : List Scheduled)
      → run_update decimal starts_with u t schedule ≡ some (t', schedule')
      → run_updates decimal starts_with (u ∷ us) t schedule
        ≡ run_updates decimal starts_with us t' schedule'
  unfolding run_updates
  run_updates-cons u us t t' schedule schedule' h = rw (h, run_updates) refl

  pub run_updates-append :
      (us vs : List (Update J)) (t t' : Tables J) (schedule schedule' : List Scheduled)
      → run_updates decimal starts_with us t schedule ≡ some (t', schedule')
      → run_updates decimal starts_with (us ++ vs) t schedule
        ≡ run_updates decimal starts_with vs t' schedule'
  unfolding run_updates
  run_updates-append [] vs t t' schedule schedule' h = cc
  run_updates-append (u ∷ us) vs t t' schedule schedule' h =
      elim (Option-cases (run_update decimal starts_with u t schedule)) [
        | inl e ↦ absurd (ground (arith, e))
        | inr ((t1, s1), e) ↦
            rw (e, run_updates)
              (run_updates-append us vs t1 t' s1 schedule' (rw (e, run_updates) at h))
      ]
