-- ===== src/Policy/Texts.antt =====
-- JavaScript's string methods, on texts as lists of UTF-16 code units, as src/changes/policy.js
-- calls them.
use Prim.Native.Char
use grouvi_nox.Prelude.{
  Bool, List, String, [], eqb, false, if◌then◌else◌, ltb, map, none, reverse, some, starts, true, ℕ,
  ◌%◌, ◌&&◌, ◌++◌, ◌+◌, ◌-◌, ◌/◌, ◌||◌, ◌∷◌,
}
use grouvi_nox.Regex.{Regex, run}
use grouvi_nox.Regex.Syntax.{is_space}

abbrev pub Text : Type 0
Text = List ℕ

-- The code units of a string.
unfoldable pub utf16 : String → Text
utf16 String.[] = []
utf16 (String.◌∷◌ c s) =
    let rest = utf16 s in
    let n = Char.code c in
    if ltb n 65536
    then n ∷ rest
    else (55296 + (n - 65536) / 1024) ∷ (56320 + (n - 65536) % 1024) ∷ rest

-- s === t
unfoldable pub same : Text → Text → Bool
same [] [] = true
same (c ∷ s) (d ∷ t) = eqb c d && same s t
same _ _ = false

abbrev pub is_blank : Text → Bool
is_blank [] = true
is_blank (c ∷ s) = false

-- list.includes(s)
unfoldable pub among : List Text → Text → Bool
among [] s = false
among (t ∷ ts) s = same t s || among ts s

-- s.includes(t)
unfoldable pub contains : Text → Text → Bool
contains [] t = starts t []
contains (c ∷ s) t = starts t (c ∷ s) || contains s t

unfoldable pub ends_with_unit : ℕ → Text → Bool
ends_with_unit d [] = false
ends_with_unit d (c ∷ []) = eqb c d
ends_with_unit d (c ∷ e ∷ s) = ends_with_unit d (e ∷ s)

unfoldable pub trim_start : Text → Text
trim_start [] = []
trim_start (c ∷ s) = elim (is_space c) [ true ↦ trim_start s | false ↦ c ∷ s ]

-- A code unit before what is kept of the rest.
unfoldable pub keep_before : ℕ → Text → Text
keep_before c [] = if is_space c then [] else c ∷ []
keep_before c (d ∷ t) = c ∷ d ∷ t

-- The text without the white space at its end.
unfoldable pub trim_end : Text → Text
trim_end [] = []
trim_end (c ∷ s) = keep_before c (trim_end s)

unfoldable pub trim : Text → Text
trim s = trim_end (trim_start s)

-- s.split(d) for one character; what was read of the piece comes last first.
unfoldable pub split_from : ℕ → Text → Text → List Text
split_from d acc [] = reverse acc ∷ []
split_from d acc (c ∷ s) = elim (eqb c d) [
  | true ↦ reverse acc ∷ split_from d [] s
  | false ↦ split_from d (c ∷ acc) s
]

unfoldable pub split : ℕ → Text → List Text
split d s = split_from d [] s

-- pieces.join(d) for one character
unfoldable pub join : ℕ → List Text → Text
join d [] = []
join d (t ∷ []) = t
join d (t ∷ u ∷ ts) = t ++ d ∷ join d (u ∷ ts)

unfoldable pub join_all : List Text → Text
join_all [] = []
join_all (t ∷ ts) = t ++ join_all ts

-- s.split(/\s+/), from inside a piece or from inside white space
unfoldable pub words_from : Bool → Text → Text → List Text
words_from spaces acc [] = reverse acc ∷ []
words_from true acc (c ∷ s) = elim (is_space c) [
  | true ↦ words_from true [] s
  | false ↦ words_from false (c ∷ []) s
]
words_from false acc (c ∷ s) = elim (is_space c) [
  | true ↦ reverse acc ∷ words_from true [] s
  | false ↦ words_from false (c ∷ acc) s
]

unfoldable pub words : Text → List Text
words s = words_from false [] s

-- s.replace(pattern, '') for a pattern that begins with ^
unfoldable pub without_start : Regex → Text → Text
without_start r s = elim (run r (none, s) (λ q. some q.1)) [ some t ↦ t | none ↦ s ]

-- s.replace(/c/g, d) for one character
unfoldable pub swap_units : ℕ → ℕ → Text → Text
swap_units c d s = map (λ e. if eqb e c then d else e) s
