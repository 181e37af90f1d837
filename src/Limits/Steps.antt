-- ===== src/Limits/Steps.antt =====
-- One call under a limit of src/changes/broker.js, and sequences of such calls.
use grouvi_nox.Prelude.{
  Bool, List, [], arith, false, if◌then◌else◌, length, true, ℕ, ◌<◌, ◌∷◌, ◌≡◌, ◌≤◌,
}
use grouvi_nox.Limits.{shift_old, push}
use grouvi_nox.Limits.Window.{Covers, Covers-shift, Covers-push, count_in}

-- What one call at time `n` does to the kept times: nothing, a shift, or a shift and a push with
-- room below the limit. A call that is let through pushes.
pub data WindowStep (w limit n : ℕ) (s s' : List ℕ) (through : Bool) : Type 0 where
  kept : s' ≡ s → through ≡ false → WindowStep w limit n s s' through
  shifted : s' ≡ shift_old w n s → through ≡ false → WindowStep w limit n s s' through
  pushed :
      s' ≡ push n (shift_old w n s)
      → length (shift_old w n s) < limit
      → WindowStep w limit n s s' through

module _ (w limit now n : ℕ) (seen s : List ℕ) (c : Covers w limit now seen s) (le : now ≤ n) where
  Covers-later : Covers w limit n seen s
  Covers-later = record {
    fits = c.fits;
    bounded = c.bounded;
    covers = λ t h. c.covers t (omega arith);
  }

  -- A push that is not counted only makes the kept times cover more.
  Covers-push_unseen :
      length (shift_old w n s) < limit → Covers w limit n seen (push n (shift_old w n s))
  Covers-push_unseen room =
      let p = Covers-push w limit now n seen s c le room in
      record {
        fits = p.fits;
        bounded = c.bounded;
        covers = λ t h. omega (arith, p.covers t h, count_grows t);
      }
    where
      count_grows : (t : ℕ) → count_in w t seen ≤ count_in w t (n ∷ seen)
      count_grows t = unfold count_in in omega arith

  pub Covers-step :
      (s' : List ℕ) (through : Bool)
      → WindowStep w limit n s s' through
      → Covers w limit n (if through then n ∷ seen else seen) s'
  Covers-step s' through (kept e f) = rw (e, f) Covers-later
  Covers-step s' through (shifted e f) = rw (e, f) (Covers-shift w limit now n seen s c le)
  Covers-step s' true (pushed e room) = rw e (Covers-push w limit now n seen s c le room)
  Covers-step s' false (pushed e room) = rw e (Covers-push_unseen room)

-- A machine whose every step is such a call keeps its windows bounded.
module _ {Call S : Type 0} (w limit : ℕ) (time : Call → ℕ) (step : S → Call → S)
    (times : S → List ℕ) (through : S → Call → Bool) where
  unfoldable pub passed : List ℕ → S → List Call → List ℕ
  passed seen st [] = seen
  passed seen st (c ∷ cs) = passed (if through st c then time c ∷ seen else seen) (step st c) cs

  abbrev pub Ordered : ℕ → List Call → Type 0
  Ordered now [] = Unit
  Ordered now (c ∷ cs) = (now ≤ time c) × Ordered (time c) cs

  pub passed-bounded :
      ((st : S) (c : Call)
        → WindowStep w limit (time c) (times st) (times (step st c)) (through st c))
      → (now : ℕ) (seen : List ℕ) (st : S) (cs : List Call) → Covers w limit now seen (times st)
      → Ordered now cs
      → (t : ℕ) → count_in w t (passed seen st cs) ≤ limit
  unfolding passed
  passed-bounded law now seen st [] c m t = c.bounded t
  passed-bounded law now seen st (x ∷ xs) c m t =
      passed-bounded law (time x) (if through st x then time x ∷ seen else seen) (step st x) xs
        (Covers-step w limit now (time x) seen (times st) c m.0 (times (step st x)) (through st x)
          (law st x))
        m.1 t
