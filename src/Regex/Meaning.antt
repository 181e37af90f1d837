-- ===== src/Regex/Meaning.antt =====
-- What a pattern of src/changes/policy.js means, apart from the order of backtracking, and that the
-- matcher finds a match exactly where there is one.
use grouvi_nox.Prelude.{
  Bool, Bool-cases, Option, Option-cases, [], arith, false, inl, inr, length, none, refl, some,
  subst, suc, sym, true, zero, ℕ, ◌<◌, ◌∙◌, ◌∷◌, ◌≡◌, ◌≤◌, ◌⊎◌,
}
use grouvi_nox.Regex.{
  Regex, never, empty, set, seq, alt, star, first, last, edge, unless, Pos, Run, shorter, rounds,
  at_first, at_last, at_edge,
}

-- Any number of steps of a relation between positions.
pub data Rounds (R : Pos → Pos → Type 0) : Pos → Pos → Type 0 where
  stop : {p : Pos} → Rounds R p p
  more : {p q t : Pos} → R p q → Rounds R q t → Rounds R p t

abbrev TakesOne : (ℕ → Bool) → Pos → Pos → Type 0
TakesOne f (b, []) q = ⊥
TakesOne f (b, c ∷ s) q = (f c ≡ true) × (◌≡◌ {A = Pos} (some c, s) q)

-- The pattern matches the text from one position to another.
unfoldable pub Matches : Regex → Pos → Pos → Type 0
Matches never p q = ⊥
Matches empty p q = p ≡ q
Matches (set f) p q = TakesOne f p q
Matches (seq r s) p q = (m : Pos) × Matches r p m × Matches s m q
Matches (alt r s) p q = Matches r p q ⊎ Matches s p q
Matches (star greedy r) p q = Rounds (Matches r) p q
Matches first p q = (at_first p ≡ true) × (p ≡ q)
Matches last p q = (at_last p ≡ true) × (p ≡ q)
Matches edge p q = (at_edge p ≡ true) × (p ≡ q)
Matches (unless r) p q = ((t : Pos) → ¬ Matches r p t) × (p ≡ q)

-- A step stays where it is or leaves less of the text.
abbrev pub Moves : Pos → Pos → Type 0
Moves p q = (p ≡ q) ⊎ (length q.1 < length p.1)

Moves-trans : {p q t : Pos} → Moves p q → Moves q t → Moves p t
Moves-trans {p} {q} {t} (inl e) m = subst (λ x. Moves x t) (sym e) m
Moves-trans {p} {q} {t} (inr l) (inl e) = inr (subst (λ x. length x.1 < length p.1) e l)
Moves-trans {p} {q} {t} (inr l) (inr m) = inr (omega arith)

Rounds-Moves :
    {R : Pos → Pos → Type 0} {p q : Pos}
    → ((p q : Pos) → R p q → Moves p q)
    → Rounds R p q
    → Moves p q
Rounds-Moves h stop = inl refl
Rounds-Moves {p} {q} h (more {q = m} r d) = Moves-trans (h p m r) (Rounds-Moves h d)

pub Matches-Moves : (r : Regex) (p q : Pos) → Matches r p q → Moves p q
unfolding Matches
Matches-Moves never p q d = absurd d
Matches-Moves empty p q d = inl d
Matches-Moves (set f) (b, []) q d = absurd d
Matches-Moves (set f) (b, c ∷ s) q (h, e) =
    inr (subst (λ x. length x.1 < length (c ∷ s)) e (omega arith))
Matches-Moves (seq r s) p q (m, d, e) = Moves-trans (Matches-Moves r p m d) (Matches-Moves s m q e)
Matches-Moves (alt r s) p q (inl d) = Matches-Moves r p q d
Matches-Moves (alt r s) p q (inr d) = Matches-Moves s p q d
Matches-Moves (star greedy r) p q d = Rounds-Moves (Matches-Moves r) d
Matches-Moves first p q (h, e) = inl e
Matches-Moves last p q (h, e) = inl e
Matches-Moves edge p q (h, e) = inl e
Matches-Moves (unless r) p q (h, e) = inl e

-- A run answers only from an end that a relation allows, or from some end that it allows.
abbrev pub Sound : (A : Type 0) → Run A → (Pos → Pos → Type 0) → Type 0
Sound A m R =
    (p : Pos) (k : Pos → Option A) (a : A) → m p k ≡ some a → (q : Pos) × R p q × (k q ≡ some a)

abbrev pub Complete : (A : Type 0) → Run A → (Pos → Pos → Type 0) → Type 0
Complete A m R =
    (p q : Pos) (k : Pos → Option A) (a : A) → R p q → k q ≡ some a → (b : A) × (m p k ≡ some b)

pub none-some : {A : Type 0} {a : A} → none ≡ some a → ⊥
none-some h = ground arith

module _ {A : Type 0} (m : Run A) (R : Pos → Pos → Type 0) where
  -- The rest of the rounds behind one that began at `p`.
  abbrev onward : ℕ → Bool → Pos → (Pos → Option A) → Pos → Option A
  onward n greedy p k q = elim (shorter q p) [ true ↦ rounds n greedy m q k | false ↦ none ]

  onward-Sound :
      (n : ℕ) (greedy : Bool) (p : Pos) (k : Pos → Option A) (a : A)
      → Sound A m R
      → Sound A (rounds n greedy m) (Rounds R)
      → m p (onward n greedy p k) ≡ some a
      → (q : Pos) × Rounds R p q × (k q ≡ some a)
  onward-Sound n greedy p k a s rest h =
      let (q, r, g) = s p (onward n greedy p k) a h in
      elim (Bool-cases (shorter q p)) [
        | inl less ↦ let (t, d, z) = rest q k a (rw (onward, less) at g) in (t, more r d, z)
        | inr same ↦ absurd (none-some (rw (onward, same) at g))
      ]

  pub rounds-Sound : (n : ℕ) (greedy : Bool) → Sound A m R → Sound A (rounds n greedy m) (Rounds R)
  unfolding rounds
  rounds-Sound zero greedy s p k a h = (p, stop, h)
  rounds-Sound (suc n) true s p k a h = elim (Option-cases (m p (onward n true p k))) [
    | inl e ↦ (p, stop, rw (rounds, e) at h)
    | inr (b, e) ↦ onward-Sound n true p k a s (rounds-Sound n true s) (e ∙ (rw (rounds, e) at h))
  ]
  rounds-Sound (suc n) false s p k a h = elim (Option-cases (k p)) [
    | inr (b, e) ↦ (p, stop, e ∙ (rw (rounds, e) at h))
    | inl e ↦ onward-Sound n false p k a s (rounds-Sound n false s) (rw (rounds, e) at h)
  ]

  stop-Complete :
      (n : ℕ) (greedy : Bool) (p : Pos) (k : Pos → Option A) (a : A)
      → k p ≡ some a
      → (b : A) × (rounds n greedy m p k ≡ some b)
  unfolding rounds
  stop-Complete zero greedy p k a h = (a, h)
  stop-Complete (suc n) true p k a h = elim (Option-cases (m p (onward n true p k))) [
    | inl e ↦ (a, rw (rounds, e, h) refl)
    | inr (b, e) ↦ (b, rw (rounds, e) refl)
  ]
  stop-Complete (suc n) false p k a h = (a, rw (rounds, h) refl)

  round-Complete :
      (n : ℕ) (greedy : Bool) (p : Pos) (k : Pos → Option A) (b : A)
      → m p (onward n greedy p k) ≡ some b
      → (c : A) × (rounds (suc n) greedy m p k ≡ some c)
  unfolding rounds
  round-Complete n true p k b e = (b, rw (rounds, e) refl)
  round-Complete n false p k b e = elim (Option-cases (k p)) [
    | inl f ↦ (b, rw (rounds, f, e) refl)
    | inr (c, f) ↦ (c, rw (rounds, f) refl)
  ]

  stay :
      (n : ℕ) (greedy : Bool) (p t : Pos) (k : Pos → Option A)
      → p ≡ t
      → (b : A) × (rounds n greedy m t k ≡ some b)
      → (b : A) × (rounds n greedy m p k ≡ some b)
  stay n greedy p t k e h = subst (λ x. (b : A) × (rounds n greedy m x k ≡ some b)) (sym e) h

  shorter_is : (p t : Pos) → length t.1 < length p.1 → shorter t p ≡ true
  shorter_is (b, s) (c, t) h = ground arith

  pub rounds-Complete :
      (n : ℕ) (greedy : Bool) (p q : Pos) (k : Pos → Option A) (a : A)
      → Complete A m R
      → ((p q : Pos) → R p q → Moves p q)
      → Rounds R p q
      → k q ≡ some a
      → length p.1 ≤ n
      → (b : A) × (rounds n greedy m p k ≡ some b)
  rounds-Complete n greedy p q k a c moves stop h le = stop-Complete n greedy p k a h
  rounds-Complete zero greedy p q k a c moves (more {q = t} r d) h le = elim (moves p t r) [
    | inl e ↦
        stay zero greedy p t k e
          (rounds-Complete zero greedy t q k a c moves d h (subst (λ x. length x.1 ≤ zero) e le))
    | inr less ↦ absurd (omega arith)
  ]
  rounds-Complete (suc n) greedy p q k a c moves (more {q = t} r d) h le = elim (moves p t r) [
    | inl e ↦
        stay (suc n) greedy p t k e (
          rounds-Complete (suc n) greedy t q k a c moves d h (subst (λ x. length x.1 ≤ suc n) e le))
    | inr less ↦
        let (b, z) = rounds-Complete n greedy t q k a c moves d h (omega arith) in
        let on : onward n greedy p k t ≡ some b = rw (onward, shorter_is p t less) z in
        let (b', y) = c p t (onward n greedy p k) b r on in round-Complete n greedy p k b' y
  ]
