-- ===== src/Dashboard/Rejections.antt =====
-- The rejections that src/routes/api/changes.js keeps.
use grouvi_nox.Prelude.{
  Bool-cases, List, Option, [], arith, eqb, false, inl, inr, leb, length, none, refl, some, suc,
  take, true, zero, ℕ, ◌<◌, ◌∷◌, ◌≡◌, ◌≤◌,
}
use grouvi_nox.Policy.Texts.{Text, same}
use grouvi_nox.Policy.Proposals.{Proposal, Url}
use grouvi_nox.Dashboard.{
  Files, Past, Rejections, insert_newest, sort_newest, put_rejection, write_rejections, rejected_at,
  change_of, status_of, load_proposal,
}
use grouvi_nox.Dashboard.Decisions.{reject}

abbrev time_of : Text × ℕ → ℕ
time_of e = e.1

-- Every entry is older than `now`.
abbrev pub Earlier : ℕ → Rejections → Type 0
Earlier now [] = Unit {0}
Earlier now ((k, at) ∷ more) = (at < now) × Earlier now more

same_refl : (s : Text) → same s s ≡ true
unfolding same
same_refl [] = refl
same_refl (c ∷ s) = ground (arith, same_refl s)

-- The newest entry comes to the front.
insert_newest_front :
    (x y : Text × ℕ) (ys : Rejections)
    → y.1 < x.1
    → insert_newest time_of y (x ∷ ys) ≡ x ∷ insert_newest time_of y ys
unfolding insert_newest
insert_newest_front x y ys h = let older : leb x.1 y.1 ≡ false = ground (arith, h) in rw older refl

insert_newest_first :
    (x : Text × ℕ) (ys : Rejections) → Earlier x.1 ys → insert_newest time_of x ys ≡ x ∷ ys
unfolding insert_newest
insert_newest_first x [] h = refl
insert_newest_first x ((k, at) ∷ ys) (lt, h) =
    let older : leb at x.1 ≡ true = ground (arith, lt) in rw older refl

insert_newest-Earlier :
    (now : ℕ) (x : Text × ℕ) (ys : Rejections)
    → x.1 < now
    → Earlier now ys
    → Earlier now (insert_newest time_of x ys)
unfolding insert_newest
insert_newest-Earlier now x [] lt h = (lt, tt)
insert_newest-Earlier now x ((k, at) ∷ ys) lt (le, h) =
    let rest = insert_newest-Earlier now x ys lt h in
    elim (Bool-cases (leb at x.1)) [
      | inl first ↦ rw first (lt, (le, h))
      | inr later ↦ rw later (le, rest)
    ]

sort_newest-Earlier :
    (now : ℕ) (m : Rejections) → Earlier now m → Earlier now (sort_newest time_of m)
unfolding sort_newest
sort_newest-Earlier now [] h = tt
sort_newest-Earlier now ((k, at) ∷ more) (lt, h) =
    insert_newest-Earlier now (k, at) (sort_newest time_of more) lt (sort_newest-Earlier now more h)

-- A rejection that is later than all others is the first after sorting.
put_sorted :
    (m : Rejections) (id : Text) (now : ℕ)
    → Earlier now m
    → (k : Text) × (rest : Rejections) × (sort_newest time_of (put_rejection m id now)
        ≡ (k, now) ∷ rest)
      × (same k id ≡ true)
unfolding put_rejection sort_newest insert_newest
put_sorted [] id now h = (id, [], refl, same_refl id)
put_sorted ((k, at) ∷ more) id now (lt, h) = elim (Bool-cases (same k id)) [
  | inl own ↦ (
    k,
    sort_newest time_of more,
    (rw own
        (insert_newest_first (k, now) (sort_newest time_of more) (sort_newest-Earlier now more h))),
    own,
  )
  | inr other ↦
      let (k', rest, sorted, own) = put_sorted more id now h in
      (
        k',
        insert_newest time_of (k, at) rest,
        (rw (other, sorted) (insert_newest_front (k', now) (k, at) rest lt)),
        own,
      )
]

length-take-le_all {ℓ} : {A : Type ℓ} (n : ℕ) (xs : List A) → length (take n xs) ≤ n
length-take-le_all zero xs = omega arith
length-take-le_all (suc n) [] = omega arith
length-take-le_all (suc n) (x ∷ xs) = omega (arith, length-take-le_all n xs)

rejected_at_first :
    (k id : Text) (now : ℕ) (rest : Rejections)
    → same k id ≡ true
    → rejected_at id ((k, now) ∷ rest) ≡ some now
unfolding rejected_at
rejected_at_first k id now rest own = rw own refl

written :
    (m : Rejections) (id : Text) (now : ℕ)
    → Earlier now m
    → rejected_at id (write_rejections (put_rejection m id now)) ≡ some now
unfolding write_rejections
written m id now h =
    let (k, rest, sorted, own) = put_sorted m id now h in
    rw sorted (rejected_at_first k id now (take 299 rest) own)

-- A proposal that is stored and has no change shows as rejected once it is rejected, at a time later
-- than the rejections before; and at most 300 rejections are kept.
pub reject_shows :
    (Assertion : Type 0) (parse_url : Text → Option Url) (now : ℕ) (files : Files) (id : Text)
    (p : Proposal) (m : Rejections) (history : List Past)
    → load_proposal parse_url files id ≡ some p
    → 0 < now
    → Earlier now m
    → change_of p.id history ≡ none
    → (status_of p.id (reject {Assertion = Assertion} parse_url now files id m).0 history
        ≡ ("rejected", none))
      × (length (reject {Assertion = Assertion} parse_url now files id m).0 ≤ 300)
unfolding reject status_of write_rejections
reject_shows Assertion parse_url now files id p m history found later h no_change =
    let kept = written m p.id now h in
    let not_zero : eqb now 0 ≡ false = ground (arith, later) in
    rw (reject, found)
      (
        (rw (status_of, no_change, kept, not_zero) refl),
        length-take-le_all 300 (sort_newest time_of (put_rejection m p.id now)),
      )
