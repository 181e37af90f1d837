-- ===== src/Policy/Lines.antt =====
-- The search for `rm -r` in src/changes/policy.js goes line by line.
use grouvi_nox.Prelude.{
  Bool, Bool-cases, List, [], any, ap, arith, eqb, false, inl, inr, map, not, refl, reverse, select,
  subst, sym, true, ℕ, ◌++◌, ◌||◌, ◌∙◌, ◌∷◌, ◌≡◌,
}
use grouvi_nox.Policy.Texts.{Text, trim, is_blank}
use grouvi_nox.Policy.Scripts.{
  separator, pieces, segments, unsafe_tokens, tokens, recursive_rm_unsafe,
}

-- Before a line's end a code unit separates as it does at the end of the text, and never with it.
separator_line : (c : ℕ) → separator c b'\n' ≡ separator c 0
unfolding separator
separator_line c = ground arith

separator_not_two : (c : ℕ) → eqb (separator c b'\n') 2 ≡ false
unfolding separator
separator_not_two c = ground arith

module _ (acc : Text) (c d : ℕ) (s : Text) where
  pieces_on : eqb (separator c d) 0 ≡ true → pieces acc (c ∷ d ∷ s) ≡ pieces (c ∷ acc) (d ∷ s)
  unfolding pieces
  pieces_on h = rw (pieces, h) refl

  pieces_two :
      eqb (separator c d) 0 ≡ false
      → eqb (separator c d) 2 ≡ true
      → pieces acc (c ∷ d ∷ s) ≡ reverse acc ∷ pieces [] s
  unfolding pieces
  pieces_two h k = rw (pieces, h, k) refl

  pieces_one :
      eqb (separator c d) 0 ≡ false
      → eqb (separator c d) 2 ≡ false
      → pieces acc (c ∷ d ∷ s) ≡ reverse acc ∷ pieces [] (d ∷ s)
  unfolding pieces
  pieces_one h k = rw (pieces, h, k) refl

-- The end of a line ends a piece.
pieces_end : (acc b : Text) → pieces acc (b'\n' ∷ b) ≡ reverse acc ∷ pieces [] b
unfolding pieces separator
pieces_end acc [] = refl
pieces_end acc (d ∷ b) = refl

pieces_last_on :
    (acc : Text) (c : ℕ)
    → eqb (separator c 0) 0 ≡ true
    → pieces acc (c ∷ []) ≡ reverse (c ∷ acc) ∷ []
unfolding pieces
pieces_last_on acc c h = rw (pieces, h) refl

pieces_last_one :
    (acc : Text) (c : ℕ)
    → eqb (separator c 0) 0 ≡ false
    → pieces acc (c ∷ []) ≡ reverse acc ∷ ([] ∷ [])
unfolding pieces
pieces_last_one acc c h = rw (pieces, h) refl

pieces_line : (acc a b : Text) → pieces acc (a ++ b'\n' ∷ b) ≡ pieces acc a ++ pieces [] b
pieces_line acc [] b = pieces_end acc b ∙ unfold pieces in refl
pieces_line acc (c ∷ []) b = elim (Bool-cases (eqb (separator c b'\n') 0)) [
  | inl on ↦
      pieces_on acc c b'\n' b on
      ∙ pieces_end (c ∷ acc) b
      ∙ ap (λ ps. ps ++ pieces [] b)
          (sym (pieces_last_on acc c (subst (λ n. eqb n 0 ≡ true) (separator_line c) on)))
  | inr cut ↦
      pieces_one acc c b'\n' b cut (separator_not_two c)
      ∙ ap (λ ps. reverse acc ∷ ps) (pieces_end [] b)
      ∙ ap (λ ps. ps ++ pieces [] b)
          (sym (pieces_last_one acc c (subst (λ n. eqb n 0 ≡ false) (separator_line c) cut)))
]
pieces_line acc (c ∷ d ∷ s) b = elim (Bool-cases (eqb (separator c d) 0)) [
  | inl on ↦
      pieces_on acc c d (s ++ b'\n' ∷ b) on
      ∙ pieces_line (c ∷ acc) (d ∷ s) b
      ∙ ap (λ ps. ps ++ pieces [] b) (sym (pieces_on acc c d s on))
  | inr cut ↦ elim (Bool-cases (eqb (separator c d) 2)) [
    | inl two ↦
        pieces_two acc c d (s ++ b'\n' ∷ b) cut two
        ∙ ap (λ ps. reverse acc ∷ ps) (pieces_line [] s b)
        ∙ ap (λ ps. ps ++ pieces [] b) (sym (pieces_two acc c d s cut two))
    | inr one ↦
        pieces_one acc c d (s ++ b'\n' ∷ b) cut one
        ∙ ap (λ ps. reverse acc ∷ ps) (pieces_line [] (d ∷ s) b)
        ∙ ap (λ ps. ps ++ pieces [] b) (sym (pieces_one acc c d s cut one))
  ]
]

select-append :
    (p : Text → Bool) (xs ys : List Text) → select p (xs ++ ys) ≡ select p xs ++ select p ys
select-append p [] ys = refl
select-append p (x ∷ xs) ys = elim (Bool-cases (p x)) [
  | inl t ↦ rw t (ap (λ zs. x ∷ zs) (select-append p xs ys))
  | inr f ↦ rw f (select-append p xs ys)
]

map-append : (f : Text → Text) (xs ys : List Text) → map f (xs ++ ys) ≡ map f xs ++ map f ys
map-append f [] ys = refl
map-append f (x ∷ xs) ys = ap (λ zs. f x ∷ zs) (map-append f xs ys)

any-append : (p : Text → Bool) (xs ys : List Text) → any p (xs ++ ys) ≡ (any p xs || any p ys)
any-append p [] ys = refl
any-append p (x ∷ xs) ys = elim (Bool-cases (p x)) [
  | inl t ↦ rw t refl
  | inr f ↦ rw f (any-append p xs ys)
]

-- A script of several lines holds a recursive delete exactly if one of its lines does: no line before
-- or behind it, however it ends or begins, hides one.
pub recursive_rm_lines :
    (a b : Text)
    → recursive_rm_unsafe (a ++ b'\n' ∷ b) ≡ (recursive_rm_unsafe a || recursive_rm_unsafe b)
unfolding recursive_rm_unsafe segments
recursive_rm_lines a b =
    let full = λ (s : Text). not (is_blank s) in
    ap (λ ps. any (λ s. unsafe_tokens (tokens s)) (select full (map trim ps))) (pieces_line [] a b)
    ∙ ap (λ ps. any (λ s. unsafe_tokens (tokens s)) (select full ps))
        (map-append trim (pieces [] a) (pieces [] b))
    ∙ ap (any (λ s. unsafe_tokens (tokens s)))
        (select-append full (map trim (pieces [] a)) (map trim (pieces [] b)))
    ∙ any-append (λ s. unsafe_tokens (tokens s)) (select full (map trim (pieces [] a)))
        (select full (map trim (pieces [] b)))
