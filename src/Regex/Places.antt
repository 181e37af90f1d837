-- ===== src/Regex/Places.antt =====
-- `test` on a whole text: a pattern is found exactly if it matches from some place in the text on.
use grouvi_nox.Prelude.{
  List, Option, Option-cases, [], arith, inl, inr, none, refl, some, true, ℕ, ◌↔◌, ◌∙◌, ◌∷◌, ◌≡◌,
}
use grouvi_nox.Regex.{Regex, Pos, run, scan, test, found}
use grouvi_nox.Regex.Meaning.{Matches}
use grouvi_nox.Regex.Exact.{run-Sound, run-Complete}

-- The places behind a position, itself included.
pub data Reaches : Pos → Pos → Type 0 where
  here : {p : Pos} → Reaches p p
  later :
      {b : Option ℕ} {c : ℕ} {s : List ℕ} {q : Pos} → Reaches (some c, s) q → Reaches (b, c ∷ s) q

-- The pattern matches somewhere in the text.
abbrev pub Occurs : Regex → List ℕ → Type 0
Occurs r s = (p : Pos) × (q : Pos) × Reaches (none, s) p × Matches r p q

scan-Sound :
    {A : Type 0} (r : Regex) (k : Pos → Option A) (b : Option ℕ) (s : List ℕ) (a : A)
    → scan r k b s ≡ some a
    → (p : Pos) × (q : Pos) × Reaches (b, s) p × Matches r p q × (k q ≡ some a)
unfolding scan
scan-Sound r k b [] a h = let (q, d, z) = run-Sound _ r (b, []) k a h in ((b, []), q, here, d, z)
scan-Sound r k b (c ∷ s) a h = elim (Option-cases (run r (b, c ∷ s) k)) [
  | inl e ↦
      let (p, q, w, d, z) = scan-Sound r k (some c) s a (rw (scan, e) at h) in (p, q, later w, d, z)
  | inr (x, e) ↦
      let (q, d, z) = run-Sound _ r (b, c ∷ s) k x e in
      ((b, c ∷ s), q, here, d, z ∙ (rw (scan, e) at h))
]

scan-here :
    {A : Type 0} (r : Regex) (k : Pos → Option A) (b : Option ℕ) (s : List ℕ) (a : A)
    → run r (b, s) k ≡ some a
    → (x : A) × (scan r k b s ≡ some x)
unfolding scan
scan-here r k b [] a h = (a, h)
scan-here r k b (c ∷ s) a h = (a, rw (scan, h) refl)

scan-Complete :
    {A : Type 0} (r : Regex) (k : Pos → Option A) (b : Option ℕ) (s : List ℕ) (p q : Pos) (a : A)
    → Reaches (b, s) p
    → Matches r p q
    → k q ≡ some a
    → (x : A) × (scan r k b s ≡ some x)
unfolding scan
scan-Complete r k b s p q a here d h =
    let (x, e) = run-Complete _ r (b, s) q k a d h in scan-here r k b s x e
scan-Complete r k b (c ∷ s) p q a (later w) d h = elim (Option-cases (run r (b, c ∷ s) k)) [
  | inl e ↦ let (x, f) = scan-Complete r k (some c) s p q a w d h in (x, rw (scan, e) f)
  | inr (x, e) ↦ (x, rw (scan, e) refl)
]

pub test-Occurs : (r : Regex) (s : List ℕ) → (test r s ≡ true) ↔ Occurs r s
unfolding test
test-Occurs r s = (sound, complete)
  where
    sound : found (scan r (λ q. some q) none s) ≡ true → Occurs r s
    sound h = elim (Option-cases (scan r (λ q. some q) none s)) [
      | inl e ↦ absurd (ground (arith, (rw e at h)))
      | inr (x, e) ↦ let (p, q, w, d, z) = scan-Sound r (λ t. some t) none s x e in (p, q, w, d)
    ]

    complete : Occurs r s → found (scan r (λ q. some q) none s) ≡ true
    complete (p, q, w, d) =
        let (x, e) = scan-Complete r (λ t. some t) none s p q q w d refl in rw e refl
