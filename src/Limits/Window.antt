-- ===== src/Limits/Window.antt =====
-- A sliding window of src/changes/broker.js lets at most its limit through in any window of time.
use grouvi_nox.Prelude.{
  Bool, Bool-cases, List, [], ap, arith, false, if◌then◌else◌, inl, inr, leb, length, length-append,
  ltb, refl, select, sym, true, ℕ, ◌&&◌, ◌+◌, ◌-◌, ◌<◌, ◌∷◌, ◌≡◌, ◌≤◌, ◌⊎◌,
}
use grouvi_nox.Limits.{shift_old, push, locked, failure_window_ms, failure_limit}

-- How many of the times lie in the window that ends at `t`.
abbrev pub in_window : ℕ → ℕ → ℕ → Bool
in_window window t s = leb s t && leb (t - s) window

unfoldable pub count_in : ℕ → ℕ → List ℕ → ℕ
count_in window t [] = 0
count_in window t (s ∷ ss) = (if in_window window t s then 1 else 0) + count_in window t ss

-- The clock does not go back.
abbrev pub IsMonotone : ℕ → List ℕ → Type 0
IsMonotone t [] = Unit
IsMonotone t (s ∷ ss) = (t ≤ s) × IsMonotone s ss

count_in-le : (w t : ℕ) (ss : List ℕ) → count_in w t ss ≤ length ss
unfolding count_in
count_in-le w t [] = omega arith
count_in-le w t (s ∷ ss) = ground (arith, count_in-le w t ss)

count_in-push : (w t now : ℕ) (ss : List ℕ) → count_in w t (push now ss) ≡ count_in w t (now ∷ ss)
unfolding count_in push
count_in-push w t now [] = refl
count_in-push w t now (s ∷ ss) = omega (arith, count_in-push w t now ss)

count_in-shift :
    (w t now : ℕ) (ss : List ℕ) → now ≤ t → count_in w t ss ≤ count_in w t (shift_old w now ss)
unfolding count_in shift_old
count_in-shift w t now [] h = omega arith
count_in-shift w t now (s ∷ ss) h = ground (arith, count_in-shift w t now ss)

length-push : (now : ℕ) (ss : List ℕ) → length (push now ss) ≡ length ss + 1
unfolding push
length-push now ss = length-append ss (now ∷ [])

length-shift : (w now : ℕ) (ss : List ℕ) → length (shift_old w now ss) ≤ length ss
unfolding shift_old
length-shift w now [] = omega arith
length-shift w now (s ∷ ss) = ground (arith, length-shift w now ss)

-- `seen` are all the times at which a call was let through, `times` those still kept: no window
-- holds more than the limit, and the kept times stand for all that a window ending later sees.
pub record Covers (w limit now : ℕ) (seen times : List ℕ) : Type 0 where
  pub fits : length times ≤ limit
  pub bounded : (t : ℕ) → count_in w t seen ≤ limit
  pub covers : (t : ℕ) → now ≤ t → count_in w t seen ≤ count_in w t times

pub Covers-nil : (w limit : ℕ) → Covers w limit 0 [] []
Covers-nil w limit = record {
  fits = omega arith;
  bounded = λ t. unfold count_in in omega arith;
  covers = λ t h. unfold count_in in omega arith;
}

module _ (w limit now n : ℕ) (seen times : List ℕ) (c : Covers w limit now seen times)
    (le : now ≤ n) where
  pub Covers-shift : Covers w limit n seen (shift_old w n times)
  Covers-shift = record {
    fits = omega (arith, length-shift w n times, c.fits);
    bounded = c.bounded;
    covers = λ t h. omega (arith, c.covers t (omega arith), count_in-shift w t n times h);
  }

  kept_covers :
      (t : ℕ) → n ≤ t → count_in w t (n ∷ seen) ≤ count_in w t (push n (shift_old w n times))
  kept_covers t h =
      rw (count_in-push w t n (shift_old w n times))
        (unfold count_in in omega (arith, Covers-shift.covers t h))

  grow_bounded :
      length (shift_old w n times) < limit
      → (t : ℕ) → (n ≤ t) ⊎ (t < n)
      → count_in w t (n ∷ seen) ≤ limit
  grow_bounded room t (inl h) = omega (
    arith,
    kept_covers t h,
    count_in-le w t (push n (shift_old w n times)),
    length-push n (shift_old w n times),
  )
  grow_bounded room t (inr h) = unfold count_in in ground (arith, c.bounded t)

  pub Covers-push :
      length (shift_old w n times) < limit
      → Covers w limit n (n ∷ seen) (push n (shift_old w n times))
  Covers-push room = record {
    fits = omega (arith, length-push n (shift_old w n times));
    bounded = λ t. grow_bounded room t (omega arith);
    covers = kept_covers;
  }

-- With a clock that does not go back, `shift_old` keeps exactly the times of the last `w`
-- milliseconds: the loop stops at the first of them.
abbrev pub IsAscending : List ℕ → Type 0
IsAscending [] = Unit
IsAscending (s ∷ ss) = IsMonotone s ss × IsAscending ss

select_all :
    (w now s : ℕ) (ss : List ℕ)
    → now ≤ s + w
    → IsMonotone s ss
    → select (λ t. leb (now - t) w) ss ≡ ss
select_all w now s [] h m = refl
select_all w now s (t ∷ ts) h m = ground (arith, select_all w now t ts)

pub shift_old-eq-select :
    (w now : ℕ) (ss : List ℕ)
    → IsAscending ss
    → shift_old w now ss ≡ select (λ t. leb (now - t) w) ss
unfolding shift_old
shift_old-eq-select w now [] m = refl
shift_old-eq-select w now (s ∷ ss) m = elim (Bool-cases (ltb w (now - s))) [
  | inl old ↦
      let gone : leb (now - s) w ≡ false = ground arith in
      rw (old, gone) (shift_old-eq-select w now ss m.1)
  | inr recent ↦
      let kept : leb (now - s) w ≡ true = ground arith in
      rw (recent, kept) (ap (λ l. s ∷ l) (sym (select_all w now s ss (ground arith) m.0)))
]

-- If the times of the failures ascend, as a clock that does not go back gives them, the lock is on
-- exactly if six of them or more lie in the last ten minutes.
pub locked_exact :
    (now : ℕ) (failures : List ℕ)
    → IsAscending failures
    → (locked now failures).1
      ≡ leb failure_limit (length (select (λ t. leb (now - t) failure_window_ms) failures))
unfolding locked
locked_exact now failures m = rw (shift_old-eq-select failure_window_ms now failures m) refl
