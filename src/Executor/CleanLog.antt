-- ===== src/Executor/CleanLog.antt =====
-- The log of a change in src/changes/executor.js, and whether every step in it exited 0.
use grouvi_nox.Prelude.{
  Bool, List, Result, String, [], all, arith, eqb, err, false, ok, refl, true, ℕ, ◌&&◌, ◌++◌, ◌∙◌,
  ◌∷◌, ◌≡◌,
}
use grouvi_nox.Executor.Change.{Step, Stage, is_done, Ctx, log}
use grouvi_nox.Executor.Host.{Host}

unfoldable pub clean : List Step → Bool
clean steps = all (λ s. eqb s.code 0) steps

clean-append :
    (steps : List Step) (s : Step) → clean (steps ++ s ∷ []) ≡ (clean steps && eqb s.code 0)
unfolding clean
clean-append [] s = ground arith
clean-append (t ∷ ts) s = ground (arith, clean-append ts s)

module _ {H : Host} where
  abbrev pub clean_in : Ctx H → Bool
  clean_in c = clean c.change.steps

  -- A test says exactly whether the log is still clean, and does not throw.
  abbrev pub Reports : Result Bool × Ctx H → Type 0
  Reports (ok b, c) = clean_in c ≡ b
  Reports (err e, c) = ⊥

  -- A stage that does not throw is done exactly if the log is still clean.
  abbrev pub StageReports : Result Stage × Ctx H → Type 0
  StageReports (ok s, c) = clean_in c ≡ is_done s
  StageReports (err e, c) = Unit {0}

  pub clean-log :
      (name : String) (code : ℕ) (out : String) (c : Ctx H)
      → clean_in (log name code out c).1 ≡ (clean_in c && eqb code 0)
  unfolding log
  clean-log name code out c =
      clean-append c.change.steps (record { name = name; code = code; out = out })

  pub step_clean :
      (name : String) (code : ℕ) (out : String) (c : Ctx H)
      → clean_in c ≡ true
      → clean_in (log name code out c).1 ≡ eqb code 0
  step_clean name code out c h = clean-log name code out c ∙ (rw h refl)

  -- A log that is not clean stays so.
  pub step_dirty :
      (name : String) (code : ℕ) (out : String) (c : Ctx H)
      → clean_in c ≡ false
      → clean_in (log name code out c).1 ≡ false
  step_dirty name code out c h = clean-log name code out c ∙ (rw h refl)
