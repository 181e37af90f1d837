-- ===== src/ProbeOutput.antt =====
-- `shapeProbeOutput` of src/changes/broker.js: a long output is cut in the middle. Texts are lists
-- of UTF-16 code units, which is what `length` and `slice` count.
use mathlib.Core.List.{append_assoc}
use grouvi_nox.Prelude.{
  Bool, List, [], ap, arith, codes, drop, eqb, false, if◌then◌else◌, leb, length, length-append,
  length-drop, length-take, ltb, refl, subst, suc, take, take_last, true, zero, ℕ, ◌%◌, ◌++◌, ◌+◌,
  ◌-◌, ◌/◌, ◌<◌, ◌∷◌, ◌≡◌, ◌≤◌,
}

abbrev pub probe_output_cap : ℕ
probe_output_cap = 20000

abbrev pub probe_head : ℕ
probe_head = 4000

-- The decimal digits of a number, the last digits first into `acc`. One unit of fuel for a digit.
unfoldable pub decimal_from : ℕ → ℕ → List ℕ → List ℕ
decimal_from zero n acc = acc
decimal_from (suc fuel) n acc =
    let rest = decimal_from fuel (n / 10) ((b'0' + n % 10) ∷ acc) in
    if ltb n 10 then (b'0' + n) ∷ acc else rest

-- The number as a template literal prints it.
unfoldable pub decimal : ℕ → List ℕ
unfolding decimal_from
decimal n = decimal_from (n + 1) n []

unfoldable pub note : ℕ → List ℕ
unfolding decimal
note omitted =
    codes "\n[... "
    ++ (decimal omitted
        ++ codes
            " characters omitted. Do not widen the read: ask for less, e.g. tail -n 100, grep -m 5 -A 5 PATTERN, journalctl -n 100 --since \"1 hour ago\" ...]\n")

pub record Shaped : Type 0 where
  pub out : List ℕ
  pub truncated : Bool

-- `out.slice(-(cap - head))` is the whole text where `cap` and `head` are equal.
abbrev pub slice_last : ℕ → List ℕ → List ℕ
slice_last n out = if eqb n 0 then out else take_last n out

unfoldable pub shape : ℕ → ℕ → List ℕ → Shaped
shape cap head out =
    if leb (length out) cap then record { out = out; truncated = false } else record {
      out = take head out ++ (note (length out - cap) ++ slice_last (cap - head) out);
      truncated = true;
    }

unfoldable pub shape_probe_output : List ℕ → Shaped
shape_probe_output = shape probe_output_cap probe_head

take-append {ℓ} : {A : Type ℓ} (xs ys : List A) → take (length xs) (xs ++ ys) ≡ xs
take-append [] ys = refl
take-append (x ∷ xs) ys = ap (λ l. x ∷ l) (take-append xs ys)

drop-append {ℓ} : {A : Type ℓ} (xs ys : List A) → drop (length xs) (xs ++ ys) ≡ ys
drop-append [] ys = refl
drop-append (x ∷ xs) ys = drop-append xs ys

take-append_of {ℓ} : {A : Type ℓ} (n : ℕ) (xs ys : List A) → length xs ≡ n → take n (xs ++ ys) ≡ xs
take-append_of n xs ys e = subst (λ k. take k (xs ++ ys) ≡ xs) e (take-append xs ys)

drop-append_of {ℓ} :
    {A : Type ℓ} (n : ℕ) (xs ys zs : List A)
    → length (xs ++ ys) ≡ n
    → drop n (xs ++ (ys ++ zs)) ≡ zs
drop-append_of n xs ys zs e =
    rw (← append_assoc xs ys zs)
      (subst (λ k. drop k ((xs ++ ys) ++ zs) ≡ zs) e (drop-append (xs ++ ys) zs))

-- A short output passes unchanged. A long one keeps its first `head` and its last `cap - head`
-- units, in order, round the note with the number of the units left out; so it has `cap` units and
-- those of the note.
pub shape_long :
    (cap head : ℕ) (out : List ℕ)
    → head < cap
    → cap < length out
    → let s = shape cap head out in
      (s.truncated ≡ true)
      × (take head s.out ≡ take head out)
      × (drop (length s.out - (cap - head)) s.out ≡ take_last (cap - head) out)
      × (length s.out ≡ cap + length (note (length out - cap)))
unfolding shape
shape_long cap head out h long =
    let first = take head out in
    let middle = note (length out - cap) in
    let last = take_last (cap - head) out in
    let long_out : leb (length out) cap ≡ false = ground arith in
    let some_left : eqb (cap - head) 0 ≡ false = ground arith in
    let len_first : length first ≡ head = length-take head out (omega arith) in
    let len_last : length last ≡ cap - head =
      omega (arith, length-drop (length out - (cap - head)) out) in
    let len_all : length (first ++ (middle ++ last)) ≡ cap + length middle =
      omega (arith, length-append first (middle ++ last), length-append middle last) in
    rw (long_out, some_left)
      (
        refl,
        take-append_of head first (middle ++ last) len_first,
        drop-append_of _ first middle last (omega (arith, length-append first middle)),
        len_all,
      )

pub shape_short :
    (cap head : ℕ) (out : List ℕ)
    → length out ≤ cap
    → shape cap head out ≡ record { out = out; truncated = false }
unfolding shape
shape_short cap head out h = let short : leb (length out) cap ≡ true = ground arith in rw short refl

decimal_test : decimal 20417 ≡ codes "20417"
unfolding decimal
decimal_test = refl
