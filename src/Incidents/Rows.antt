-- ===== src/Incidents/Rows.antt =====
-- The table of incidents under its updates (src/db/incidents.js).
use grouvi_nox.Prelude.{
  some-injective, Bool, Bool-cases, List, Memᴰ, Option-cases, String, [], any, ap, arith, eqb,
  false, if◌then◌else◌, inl, inr, length, ltb, none, refl, some, subst, sym, true, ℕ, ◌&&◌, ◌++◌,
  ◌+◌, ◌<◌, ◌==◌, ◌||◌, ◌∙◌, ◌∷◌, ◌≡◌, ◌≤◌,
}
use grouvi_nox.Incidents.{Incident, is_active, row_of, latest_active, update_row}

-- Whether a row of the table has this id.
abbrev pub has_id : ℕ → List Incident → Bool
has_id id rows = any (λ r. eqb r.id id) rows

-- No id is given twice, and the next one is larger than all.
abbrev pub Distinct : List Incident → Type 0
Distinct [] = Unit {0}
Distinct (r ∷ rs) = (has_id r.id rs ≡ false) × Distinct rs

abbrev pub Below : ℕ → List Incident → Type 0
Below n [] = Unit {0}
Below n (r ∷ rs) = (r.id < n) × Below n rs

abbrev pub has_active : String → List Incident → Bool
has_active k rows = any (λ r. is_active r && r.key == k) rows

abbrev pub tally : (Incident → Bool) → List Incident → ℕ
tally q [] = 0
tally q (r ∷ rs) = (if q r then 1 else 0) + tally q rs

-- How many incidents of a key are not resolved.
abbrev pub count_active : String → List Incident → ℕ
count_active k rows = tally (λ r. is_active r && r.key == k) rows

pub row_of-id : (id : ℕ) (rows : List Incident) (r : Incident) → row_of id rows ≡ some r → r.id ≡ id
unfolding row_of
row_of-id id [] r h = cc
row_of-id id (x ∷ xs) r h = elim (Bool-cases (eqb x.id id)) [
  | inl here ↦
      let e : x ≡ r = some-injective x r (rw here at h) in
      subst (λ y. y.id ≡ id) e (ground (arith, here))
  | inr other ↦ row_of-id id xs r (rw other at h)
]

pub latest_active-some :
    (k : String) (rows : List Incident) (r : Incident)
    → latest_active k rows ≡ some r
    → Memᴰ r rows × (is_active r && r.key == k ≡ true)
unfolding latest_active
latest_active-some k [] r h = cc
latest_active-some k (x ∷ xs) r h = elim (Option-cases (latest_active k xs)) [
  | inr (later, found) ↦
      let e : later ≡ r = some-injective later r (rw (latest_active, found) at h) in
      let (m, fits) = latest_active-some k xs later found in
      (
        subst (λ y. Memᴰ y (x ∷ xs)) e (Memᴰ.tail m),
        subst (λ y. is_active y && y.key == k ≡ true) e fits,
      )
  | inl nothing ↦ elim (Bool-cases (is_active x && x.key == k)) [
    | inl fits ↦
        let e : x ≡ r = some-injective x r (rw (latest_active, nothing, fits) at h) in
        (Memᴰ.head (sym e), subst (λ y. is_active y && y.key == k ≡ true) e fits)
    | inr other ↦
        let h' : none ≡ some r = rw (latest_active, nothing, other) at h in
        absurd (ground (arith, h'))
  ]
]

pub latest_active-none :
    (k : String) (rows : List Incident) → latest_active k rows ≡ none → count_active k rows ≡ 0
unfolding latest_active
latest_active-none k [] h = refl
latest_active-none k (x ∷ xs) h = elim (Option-cases (latest_active k xs)) [
  | inr (later, found) ↦
      let h' : some later ≡ none = rw (latest_active, found) at h in absurd (ground (arith, h'))
  | inl nothing ↦ elim (Bool-cases (is_active x && x.key == k)) [
    | inl fits ↦
        let h' : some x ≡ none = rw (latest_active, nothing, fits) at h in
        absurd (ground (arith, h'))
    | inr other ↦ rw other (omega (arith, latest_active-none k xs nothing))
  ]
]

has_id-Memᴰ : (r : Incident) (rows : List Incident) → Memᴰ r rows → has_id r.id rows ≡ true
has_id-Memᴰ r [] m = elim m [ ]
has_id-Memᴰ r (x ∷ xs) (Memᴰ.head e) = rw e (ground arith)
has_id-Memᴰ r (x ∷ xs) (Memᴰ.tail m) = ground (arith, has_id-Memᴰ r xs m)

-- Two rows with one id are one row.
pub same_row :
    (r s : Incident) (rows : List Incident)
    → Distinct rows
    → Memᴰ r rows
    → Memᴰ s rows
    → r.id ≡ s.id
    → r ≡ s
same_row r s [] d m n e = elim m [ ]
same_row r s (x ∷ xs) d (Memᴰ.head p) (Memᴰ.head q) e = p ∙ sym q
same_row r s (x ∷ xs) (new, d) (Memᴰ.head p) (Memᴰ.tail n) e =
    let there : has_id x.id xs ≡ true =
      subst (λ i. has_id i xs ≡ true) (sym e ∙ ap (λ (y : Incident). y.id) p)
        (has_id-Memᴰ s xs n) in
    absurd (ground (arith, there))
same_row r s (x ∷ xs) (new, d) (Memᴰ.tail m) (Memᴰ.head q) e =
    let there : has_id x.id xs ≡ true =
      subst (λ i. has_id i xs ≡ true) (e ∙ ap (λ (y : Incident). y.id) q) (has_id-Memᴰ r xs m) in
    absurd (ground (arith, there))
same_row r s (x ∷ xs) (new, d) (Memᴰ.tail m) (Memᴰ.tail n) e = same_row r s xs d m n e

-- An update that leaves a test as it was on the rows with the id leaves it so on the table.
pub tally-update_row :
    (q : Incident → Bool) (id : ℕ) (set : Incident → Incident) (rows : List Incident)
    → ((r : Incident) → Memᴰ r rows → r.id ≡ id → q (set r) ≡ q r)
    → tally q (update_row id set rows) ≡ tally q rows
unfolding update_row
tally-update_row q id set [] h = refl
tally-update_row q id set (x ∷ xs) h =
    let rest = tally-update_row q id set xs (λ r m e. h r (Memᴰ.tail m) e) in
    elim (Bool-cases (eqb x.id id)) [
      | inl here ↦ rw (here, h x (Memᴰ.head refl) (ground (arith, here))) (omega (arith, rest))
      | inr other ↦ rw other (omega (arith, rest))
    ]

pub any-tally : (q : Incident → Bool) (rows : List Incident) → any q rows ≡ ltb 0 (tally q rows)
any-tally q [] = ground arith
any-tally q (x ∷ xs) = ground (arith, any-tally q xs)

pub any-update_row :
    (q : Incident → Bool) (id : ℕ) (set : Incident → Incident) (rows : List Incident)
    → ((r : Incident) → Memᴰ r rows → r.id ≡ id → q (set r) ≡ q r)
    → any q (update_row id set rows) ≡ any q rows
any-update_row q id set rows h =
    any-tally q (update_row id set rows)
    ∙ ap (λ n. ltb 0 n) (tally-update_row q id set rows h)
    ∙ sym (any-tally q rows)

-- An update to rows that fail a test does not raise its count.
pub tally-update_row-le :
    (q : Incident → Bool) (id : ℕ) (set : Incident → Incident) (rows : List Incident)
    → ((r : Incident) → Memᴰ r rows → r.id ≡ id → q (set r) ≡ true → q r ≡ true)
    → tally q (update_row id set rows) ≤ tally q rows
unfolding update_row
tally-update_row-le q id set [] h = omega arith
tally-update_row-le q id set (x ∷ xs) h =
    let rest = tally-update_row-le q id set xs (λ r m e. h r (Memᴰ.tail m) e) in
    elim (Bool-cases (eqb x.id id)) [
      | inr other ↦ rw other (omega (arith, rest))
      | inl here ↦ elim (Bool-cases (q (set x))) [
        | inr fails ↦ rw (here, fails) (omega (arith, rest))
        | inl holds ↦
            rw (here, holds, h x (Memᴰ.head refl) (ground (arith, here)) holds)
              (omega (arith, rest))
      ]
    ]

pub tally-append :
    (q : Incident → Bool) (xs ys : List Incident) → tally q (xs ++ ys) ≡ tally q xs + tally q ys
tally-append q [] ys = omega arith
tally-append q (x ∷ xs) ys = omega (arith, tally-append q xs ys)

has_id-update_row :
    (i id : ℕ) (set : Incident → Incident) (rows : List Incident)
    → ((r : Incident) → (set r).id ≡ r.id)
    → has_id i (update_row id set rows) ≡ has_id i rows
has_id-update_row i id set rows keeps =
    any-update_row (λ r. eqb r.id i) id set rows (λ r m e. ap (λ n. eqb n i) (keeps r))

pub update_row-Distinct :
    (id : ℕ) (set : Incident → Incident) (rows : List Incident)
    → ((r : Incident) → (set r).id ≡ r.id)
    → Distinct rows
    → Distinct (update_row id set rows)
unfolding update_row
update_row-Distinct id set [] keeps d = tt
update_row-Distinct id set (x ∷ xs) keeps (new, d) =
    let rest = update_row-Distinct id set xs keeps d in
    elim (Bool-cases (eqb x.id id)) [
      | inl here ↦ rw here ((rw (keeps x) (has_id-update_row x.id id set xs keeps ∙ new)), rest)
      | inr other ↦ rw other ((has_id-update_row x.id id set xs keeps ∙ new), rest)
    ]

pub update_row-Below :
    (n id : ℕ) (set : Incident → Incident) (rows : List Incident)
    → ((r : Incident) → (set r).id ≡ r.id)
    → Below n rows
    → Below n (update_row id set rows)
unfolding update_row
update_row-Below n id set [] keeps b = tt
update_row-Below n id set (x ∷ xs) keeps (lt, b) =
    let rest = update_row-Below n id set xs keeps b in
    elim (Bool-cases (eqb x.id id)) [
      | inl here ↦ rw here ((rw (keeps x) lt), rest)
      | inr other ↦ rw other (lt, rest)
    ]

-- What an INSERT keeps.
pub append-Distinct :
    (rows : List Incident) (new : Incident)
    → Distinct rows
    → Below new.id rows
    → Distinct (rows ++ new ∷ [])
append-Distinct [] new d b = (refl, tt)
append-Distinct (x ∷ xs) new (other, d) (lt, b) = (not_there xs other, append-Distinct xs new d b)
  where
    not_there : (ys : List Incident) → has_id x.id ys ≡ false → has_id x.id (ys ++ new ∷ []) ≡ false
    not_there [] h = ground (arith, lt)
    not_there (y ∷ ys) h = ground (arith, not_there ys, h)

pub append-Below :
    (n : ℕ) (rows : List Incident) (new : Incident)
    → Below n rows
    → new.id ≡ n
    → Below (n + 1) (rows ++ new ∷ [])
append-Below n [] new b e = (omega arith, tt)
append-Below n (x ∷ xs) new (lt, b) e = (omega arith, append-Below n xs new b e)

pub row_of-Memᴰ :
    (id : ℕ) (rows : List Incident) (r : Incident) → row_of id rows ≡ some r → Memᴰ r rows
unfolding row_of
row_of-Memᴰ id [] r h = cc
row_of-Memᴰ id (x ∷ xs) r h = elim (Bool-cases (eqb x.id id)) [
  | inl here ↦ Memᴰ.head (sym (some-injective x r (rw here at h)))
  | inr other ↦ Memᴰ.tail (row_of-Memᴰ id xs r (rw other at h))
]

pub tally-le : (q : Incident → Bool) (rows : List Incident) → tally q rows ≤ length rows
tally-le q [] = omega arith
tally-le q (x ∷ xs) = ground (arith, tally-le q xs)

pub update_row-absent :
    (id : ℕ) (set : Incident → Incident) (rows : List Incident)
    → has_id id rows ≡ false
    → update_row id set rows ≡ rows
unfolding update_row
update_row-absent id set [] h = refl
update_row-absent id set (x ∷ xs) h =
    let (here, rest) = neither (eqb x.id id) (has_id id xs) h in
    rw (here, update_row-absent id set xs rest) refl
  where
    neither : (a b : Bool) → (a || b) ≡ false → (a ≡ false) × (b ≡ false)
    neither a b e = ground (arith, e)
