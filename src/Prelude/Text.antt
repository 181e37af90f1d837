-- ===== src/Prelude/Text.antt =====
-- Strings as JavaScript reads them: by their characters' codes.
use Prim.Native.Nat.{ℕ, ◌+◌}
use Prim.Native.Char.{code}
use Prim.Native.String.{String}
use mathlib.Core.Bool.{Bool, true, false, ◌&&◌, ◌||◌}
use mathlib.Core.List.{List, [], ◌∷◌}
use grouvi_nox.Prelude.Tests.{ltb, leb, eqb, ◌==◌, if◌then◌else◌}
use grouvi_nox.Prelude.Lists.{length, any}

-- The code points of a text. `String` has its own `[]` and `∷`.
abbrev pub codes : String → List ℕ
codes String.[] = []
codes (String.◌∷◌ c s) = code c ∷ codes s

-- `s.length`: a character beyond the basic plane takes two code units.
abbrev pub units : List ℕ → ℕ
units [] = 0
units (c ∷ s) = (if ltb c 65536 then 1 else 2) + units s

abbrev pub js_length : String → ℕ
js_length s = units (codes s)

-- `s.includes(c)` for one character
abbrev pub has_char : ℕ → String → Bool
has_char c s = any (λ d. eqb d c) (codes s)

abbrev pub starts : List ℕ → List ℕ → Bool
starts [] s = true
starts (p ∷ ps) [] = false
starts (p ∷ ps) (c ∷ s) = eqb p c && starts ps s

-- `s.startsWith(p)`
abbrev pub starts_with : String → String → Bool
starts_with s p = starts (codes p) (codes s)

-- `list.includes(s)` and `set.has(s)`
abbrev pub one_of : List String → String → Bool
one_of xs s = any (λ x. x == s) xs

abbrev pub is_digit : ℕ → Bool
is_digit c = leb b'0' c && leb c b'9'

-- One character of `[0-9a-f]`.
abbrev pub is_hex : ℕ → Bool
is_hex c = is_digit c || (leb b'a' c && leb c b'f')

abbrev pub all_codes : (ℕ → Bool) → List ℕ → Bool
all_codes p [] = true
all_codes p (c ∷ s) = p c && all_codes p s

-- `/^[0-9a-f]{n}$/.test(s)`
abbrev pub is_hex_of_length : ℕ → String → Bool
is_hex_of_length n s = eqb (length (codes s)) n && all_codes is_hex (codes s)
