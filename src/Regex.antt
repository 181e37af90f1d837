-- ===== src/Regex.antt =====
-- The regular expressions of JavaScript, as far as the program uses them: what `test`, `exec` and
-- `replace` do with a pattern on a text of UTF-16 code units. Patterns come from Regex/Syntax.
pub mod Syntax
pub mod Meaning
pub mod Exact
pub mod Places
mod Samples
use grouvi_nox.Prelude.{
  Bool, List, Option, [], eqb, false, is_digit, leb, length, ltb, none, not, some, suc, true, zero,
  ℕ, ◌&&◌, ◌||◌, ◌∷◌,
}

pub data Regex : Type 0 where
  never : Regex
  empty : Regex
  set : (ℕ → Bool) → Regex
  seq : Regex → Regex → Regex
  alt : Regex → Regex → Regex
  star : Bool → Regex → Regex  -- greedy, or else lazy
  first last edge : Regex  -- ^ $ \b
  unless : Regex → Regex  -- (?! )

-- A position: the code unit before it, and the text behind it.
abbrev pub Pos : Type 0
Pos = Option ℕ × List ℕ

unfoldable pub is_word : ℕ → Bool
is_word c = is_digit c || (leb b'A' c && leb c b'Z') || (leb b'a' c && leb c b'z') || eqb c b'_'

unfoldable pub at_first : Pos → Bool
at_first (none, s) = true
at_first (some c, s) = false

unfoldable pub at_last : Pos → Bool
at_last (b, []) = true
at_last (b, c ∷ s) = false

abbrev pub word_before : Option ℕ → Bool
word_before none = false
word_before (some c) = is_word c

abbrev pub word_behind : List ℕ → Bool
word_behind [] = false
word_behind (c ∷ s) = is_word c

abbrev pub differs : Bool → Bool → Bool
differs true b = not b
differs false b = b

unfoldable pub at_edge : Pos → Bool
at_edge (b, s) = differs (word_before b) (word_behind s)

-- A pattern's run: it offers its ends to the rest of the pattern, in the order of backtracking,
-- and returns the first answer.
abbrev pub Run : Type 0 → Type 0
Run A = Pos → (Pos → Option A) → Option A

abbrev pub shorter : Pos → Pos → Bool
shorter (b, s) (c, t) = ltb (length s) (length t)

-- Rounds of a repetition. One that takes nothing does not count.
unfoldable pub rounds : {A : Type 0} → ℕ → Bool → Run A → Run A
rounds zero greedy m p k = k p
rounds (suc n) true m p k =
    elim (m p (λ q. elim (shorter q p) [ true ↦ rounds n true m q k | false ↦ none ])) [
      | some a ↦ some a
      | none ↦ k p
    ]
rounds (suc n) false m p k = elim (k p) [
  | some a ↦ some a
  | none ↦ m p (λ q. elim (shorter q p) [ true ↦ rounds n false m q k | false ↦ none ])
]

abbrev one_unit : {A : Type 0} → (ℕ → Bool) → Run A
one_unit f (b, []) k = none
one_unit f (b, c ∷ s) k = elim (f c) [ true ↦ k (some c, s) | false ↦ none ]

unfoldable pub run : {A : Type 0} → Regex → Run A
run never p k = none
run empty p k = k p
run (set f) p k = one_unit f p k
run (seq r s) p k = run r p (λ q. run s q k)
run (alt r s) p k = elim (run r p k) [ some a ↦ some a | none ↦ run s p k ]
run (star greedy r) p k = rounds (length p.1) greedy (run r) p k
run first p k = elim (at_first p) [ true ↦ k p | false ↦ none ]
run last p k = elim (at_last p) [ true ↦ k p | false ↦ none ]
run edge p k = elim (at_edge p) [ true ↦ k p | false ↦ none ]
run (unless r) p k = elim (run r p (λ q. some q)) [ some q ↦ none | none ↦ k p ]

-- The first place from `p` on where the pattern matches.
unfoldable pub scan : {A : Type 0} → Regex → (Pos → Option A) → Option ℕ → List ℕ → Option A
scan r k b [] = run r (b, []) k
scan r k b (c ∷ s) = elim (run r (b, c ∷ s) k) [ some a ↦ some a | none ↦ scan r k (some c) s ]

abbrev pub found : {A : Type 0} → Option A → Bool
found none = false
found (some a) = true

-- `pattern.test(text)`
unfoldable pub test : Regex → List ℕ → Bool
test r s = found (scan r (λ q. some q) none s)
