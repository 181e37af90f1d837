-- ===== src/Regex/Exact.antt =====
-- The matcher answers exactly where a pattern matches, in every place of a text.
use grouvi_nox.Prelude.{
  Bool, Option, Option-cases, [], ap, arith, false, inl, inr, length, none, refl, some, sym, true,
  ◌∙◌, ◌∷◌, ◌≡◌,
}
use grouvi_nox.Regex.{
  Regex, never, empty, set, seq, alt, star, first, last, edge, unless, Pos, run, at_first, at_last,
  at_edge,
}
use grouvi_nox.Regex.Meaning.{
  Matches, Matches-Moves, Sound, Complete, none-some, rounds-Sound, rounds-Complete,
}

-- An end that only has to pass a test.
passes-Sound :
    {A : Type 0} (b : Bool) (p : Pos) (k : Pos → Option A) (a : A)
    → elim b as (λ _. Option A) [ true ↦ k p | false ↦ none ] ≡ some a
    → (b ≡ true) × (k p ≡ some a)
passes-Sound true p k a h = (refl, h)
passes-Sound false p k a h = absurd (none-some h)

passes-Complete :
    {A : Type 0} (b : Bool) (p q : Pos) (k : Pos → Option A) (a : A)
    → (b ≡ true) × (p ≡ q)
    → k q ≡ some a
    → (c : A) × (elim b as (λ _. Option A) [ true ↦ k p | false ↦ none ] ≡ some c)
passes-Complete b p q k a (t, e) h = (a, rw t (ap k e ∙ h))

mutual
  unfolding Matches run

  pub run-Sound : (A : Type 0) (r : Regex) → Sound A (run r) (Matches r)
  run-Sound A never p k a h = absurd (none-some h)
  run-Sound A empty p k a h = (p, refl, h)
  run-Sound A (set f) (b, []) k a h = absurd (none-some h)
  run-Sound A (set f) (b, c ∷ s) k a h =
      let (t, e) = passes-Sound (f c) (some c, s) k a h in ((some c, s), (t, refl), e)
  run-Sound A (seq r s) p k a h =
      let (m, d, g) = run-Sound A r p (λ q. run s q k) a h in
      let (q, e, z) = run-Sound A s m k a g in (q, (m, d, e), z)
  run-Sound A (alt r s) p k a h = elim (Option-cases (run r p k)) [
    | inl e ↦ let (q, d, z) = run-Sound A s p k a (rw (run, e) at h) in (q, inr d, z)
    | inr (b, e) ↦ let (q, d, z) = run-Sound A r p k b e in (q, inl d, z ∙ (rw (run, e) at h))
  ]
  run-Sound A (star greedy r) p k a h =
      rounds-Sound (run r) (Matches r) (length p.1) greedy (run-Sound A r) p k a h
  run-Sound A first p k a h = let (t, e) = passes-Sound (at_first p) p k a h in (p, (t, refl), e)
  run-Sound A last p k a h = let (t, e) = passes-Sound (at_last p) p k a h in (p, (t, refl), e)
  run-Sound A edge p k a h = let (t, e) = passes-Sound (at_edge p) p k a h in (p, (t, refl), e)
  run-Sound A (unless r) p k a h = elim (Option-cases (run r p (λ q. some q))) [
    | inl e ↦ (
      p,
      (λ t d. none-some (sym e ∙ (run-Complete Pos r p t (λ q. some q) t d refl).1), refl),
      rw (run, e) at h,
    )
    | inr (b, e) ↦ absurd (none-some (rw (run, e) at h))
  ]

  pub run-Complete : (A : Type 0) (r : Regex) → Complete A (run r) (Matches r)
  run-Complete A never p q k a d h = absurd d
  run-Complete A empty p q k a d h = (a, ap k d ∙ h)
  run-Complete A (set f) (b, []) q k a d h = absurd d
  run-Complete A (set f) (b, c ∷ s) q k a d h = passes-Complete (f c) (some c, s) q k a d h
  run-Complete A (seq r s) p q k a (m, d, e) h =
      let (b, g) = run-Complete A s m q k a e h in run-Complete A r p m (λ t. run s t k) b d g
  run-Complete A (alt r s) p q k a d h = elim (Option-cases (run r p k)) [
    | inr (b, e) ↦ (b, rw (run, e) refl)
    | inl e ↦ elim d [
      | inl l ↦ absurd (none-some (sym e ∙ (run-Complete A r p q k a l h).1))
      | inr l ↦ let (b, g) = run-Complete A s p q k a l h in (b, rw (run, e) g)
    ]
  ]
  run-Complete A (star greedy r) p q k a d h =
      rounds-Complete (run r) (Matches r) (length p.1) greedy p q k a (run-Complete A r)
        (Matches-Moves r) d h (omega arith)
  run-Complete A first p q k a d h = passes-Complete (at_first p) p q k a d h
  run-Complete A last p q k a d h = passes-Complete (at_last p) p q k a d h
  run-Complete A edge p q k a d h = passes-Complete (at_edge p) p q k a d h
  run-Complete A (unless r) p q k a (no', e) h = elim (Option-cases (run r p (λ t. some t))) [
    | inl f ↦ (a, rw (run, f) (ap k e ∙ h))
    | inr (b, f) ↦ let (t, d, z) = run-Sound Pos r p (λ t. some t) b f in absurd (no' t d)
  ]
