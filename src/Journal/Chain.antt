-- ===== src/Journal/Chain.antt =====
-- What `append` writes, `verify` accepts (src/changes/journal.js).
use Prim.Native.String
use grouvi_nox.Prelude.{
  ◌∙◌, Bool-cases, List, Option, String, [], ap, arith, eq_iff, err, false, get_last?, inl, inr,
  length, none, ok, plain_error, refl, some, suc, true, ℕ, ◌++◌, ◌+◌, ◌-◌, ◌==◌, ◌∷◌, ◌≡◌, ◌≤◌,
}
use grouvi_nox.Journal.{
  Fields, Row, Line, blank, unreadable, parsed, Record, corrupt, row, intact, broken, JournalEnv,
  genesis, read, last_hash, last_seq, is_seq, reserved_in, line_hash, new_row, append, mismatch,
  verify_from, verify, is_marked,
}

read-append : (file : List Line) (r : Row) → read (file ++ parsed r ∷ []) ≡ read file ++ row r ∷ []
unfolding read
read-append [] r = refl
read-append (blank ∷ ls) r = read-append ls r
read-append (unreadable ∷ ls) r = ap (λ t. corrupt ∷ t) (read-append ls r)
read-append (parsed q ∷ ls) r = ap (λ t. row q ∷ t) (read-append ls r)

pub intact-injective : (a b : ℕ) (x y : String) → intact a x ≡ intact b y → (a ≡ b) × (x ≡ y)
intact-injective a b x y h = ground arith

pub broken-ne-intact : (a b : ℕ) (x y : String) → broken a x ≡ intact b y → ⊥
broken-ne-intact a b x y h = cc

module _ (env : JournalEnv) where
  -- A row that passes the test of the loop.
  pub record Fits (prev : String) (expected : ℕ) (r : Row) : Type 0 where
    pub follows : r.prev ≡ prev
    pub digest : r.hash ≡ line_hash env prev r.body
    pub numbered : r.body.seq ≡ some expected

  is_seq-eq : (o : Option ℕ) (n : ℕ) → is_seq o n ≡ true → o ≡ some n
  is_seq-eq none n h = cc
  is_seq-eq (some s) n h = ground arith

  pub mismatch-Fits :
      (prev : String) (expected : ℕ) (r : Row)
      → mismatch env prev expected r ≡ false
      → Fits prev expected r
  unfolding mismatch
  mismatch-Fits prev expected r h = record {
    follows = (eq_iff r.prev prev).0 (ground arith);
    digest = (eq_iff r.hash (line_hash env prev r.body)).0 (ground arith);
    numbered = is_seq-eq r.body.seq expected (ground arith);
  }

  pub Fits-mismatch :
      (prev : String) (expected : ℕ) (r : Row)
      → Fits prev expected r
      → mismatch env prev expected r ≡ false
  unfolding mismatch
  Fits-mismatch prev expected r f =
      rw
        (
          (eq_iff r.prev prev).1 f.follows,
          (eq_iff r.hash (line_hash env prev r.body)).1 f.digest,
          f.numbered,
        )
        (ground arith)

  -- A row that the loop passes is not marked as corrupt and fits.
  pub row-passes :
      (prev : String) (k n : ℕ) (h : String) (r : Row) (xs : List Record)
      → verify_from env prev k (row r ∷ xs) ≡ intact n h
      → (is_marked r.body.entry ≡ false)
        × (mismatch env prev k r ≡ false)
        × (verify_from env r.hash (k + 1) xs ≡ intact n h)
  unfolding verify_from
  row-passes prev k n h r xs q = elim (Bool-cases (is_marked r.body.entry)) [
    | inl marked ↦ absurd (broken-ne-intact _ _ _ _ (rw marked at q))
    | inr free ↦ elim (Bool-cases (mismatch env prev k r)) [
      | inl bad ↦ absurd (broken-ne-intact _ _ _ _ (rw (free, bad) at q))
      | inr good ↦ (free, good, (rw (free, good) at q))
    ]
  ]

  pub row-passed :
      (prev : String) (k : ℕ) (r : Row) (xs : List Record)
      → is_marked r.body.entry ≡ false
      → mismatch env prev k r ≡ false
      → verify_from env prev k (row r ∷ xs) ≡ verify_from env r.hash (k + 1) xs
  unfolding verify_from
  row-passed prev k r xs free good = rw (free, good) refl

  -- A verified prefix hands its head and its count to the rest of the loop.
  pub verify_from-append :
      (prev : String) (k n : ℕ) (h : String) (xs ys : List Record)
      → 1 ≤ k
      → verify_from env prev k xs ≡ intact n h
      → verify_from env prev k (xs ++ ys) ≡ verify_from env h (n + 1) ys
  unfolding verify_from
  verify_from-append prev k n h [] ys le q =
      let (a, b) = intact-injective (k - 1) n prev h q in
      let e : k ≡ n + 1 = omega arith in rw (b, e)
  verify_from-append prev k n h (corrupt ∷ xs) ys le q = cc
  verify_from-append prev k n h (row r ∷ xs) ys le q =
      let (free, good, rest) = row-passes prev k n h r xs q in
      row-passed prev k r (xs ++ ys) free good
      ∙ verify_from-append r.hash (k + 1) n h xs ys (omega arith) rest

  nonempty : (prev : String) (k : ℕ) (r : Row) → Fits prev k r → (r.hash == "") ≡ false
  unfolding line_hash
  nonempty prev k r f = rw f.digest (env.sha256_nonempty _)

  -- An intact record ends in a row that carries the head and the count.
  ends_in :
      (prev : String) (k n : ℕ) (h : String) (x : Record) (xs : List Record)
      → 1 ≤ k
      → verify_from env prev k (x ∷ xs) ≡ intact n h
      → (r : Row) × (get_last? (x ∷ xs) ≡ some (row r))
        × (r.body.seq ≡ some n)
        × (r.hash ≡ h)
        × ((r.hash == "") ≡ false)
  unfolding verify_from
  ends_in prev k n h corrupt xs le q = cc
  ends_in prev k n h (row r) [] le q =
      let (free, good, rest) = row-passes prev k n h r [] q in
      let f = mismatch-Fits prev k r good in
      let (a, b) = intact-injective (k + 1 - 1) n r.hash h rest in
      let e : n ≡ k = omega arith in (r, refl, rw e f.numbered, b, nonempty prev k r f)
  ends_in prev k n h (row r) (y ∷ ys) le q =
      let (free, good, rest) = row-passes prev k n h r (y ∷ ys) q in
      ends_in r.hash (k + 1) n h y ys (omega arith) rest

  -- What `append` takes from the last row is what `verify` expects next.
  next_of :
      (n : ℕ) (h : String) (xs : List Record)
      → verify_from env genesis 1 xs ≡ intact n h
      → (last_hash (get_last? xs) ≡ h) × (last_seq (get_last? xs) ≡ n)
  unfolding last_hash last_seq
  next_of n h [] q = unfold verify_from in ground arith
  next_of n h (x ∷ xs) q =
      let (r, e, s, t, u) = ends_in genesis 1 n h x xs (omega arith) q in rw (e, s, u) (t, refl)

  new_row-Fits :
      (n now : ℕ) (h : String) (entry : Fields) (file : List Line)
      → verify env file ≡ intact n h
      → Fits h (n + 1) (new_row env now entry (get_last? (read file)))
  unfolding verify new_row
  new_row-Fits n now h entry file q =
      let (a, b) = next_of n h (read file) q in
      record {
        follows = a;
        digest = ap (λ x. line_hash env x (new_row env now entry (get_last? (read file))).body) a;
        numbered = rw b refl;
      }

  body_eq :
      (n : ℕ) (h : String) (now : ℕ) (entry : Fields) (file : List Line)
      → verify env file ≡ intact n h
      → (new_row env now entry (get_last? (read file))).body
        ≡ record { seq = some (n + 1); ts = now; entry = entry }
  unfolding verify new_row
  body_eq n h now entry file q = rw ((next_of n h (read file) q).1) refl

  verify-row :
      (n : ℕ) (h : String) (file : List Line) (r : Row)
      → verify env file ≡ intact n h
      → is_marked r.body.entry ≡ false
      → Fits h (n + 1) r
      → verify env (file ++ parsed r ∷ []) ≡ intact (n + 1) r.hash
  unfolding verify verify_from
  verify-row n h file r q free f =
      rw
        (
          read-append file r,
          verify_from-append genesis 1 n h (read file) (row r ∷ []) (omega arith) q,
        )
        (row-passed h (n + 1) r [] free (Fits-mismatch h (n + 1) r f) ∙ ground arith)

  -- Appending an entry with no reserved key, and none that marks it as corrupt, to an intact file gives an intact file of one entry
  -- more, whose head is the new row's hash; and the row holds the entry.
  pub append-intact :
      (n now : ℕ) (h : String) (entry : Fields) (file : List Line)
      → verify env file ≡ intact n h
      → reserved_in entry ≡ none
      → is_marked entry ≡ false
      → (r : Row) × (append env now entry file ≡ (file ++ parsed r ∷ [], ok r))
        × (verify env (append env now entry file).0 ≡ intact (n + 1) r.hash)
        × (r.body ≡ record { seq = some (n + 1); ts = now; entry = entry })
        × (r.prev ≡ h)
  append-intact n now h entry file q free unmarked =
      let r = new_row env now entry (get_last? (read file)) in
      let e : append env now entry file ≡ (file ++ parsed r ∷ [], ok r) =
        unfold append in rw free refl in
      let f = new_row-Fits n now h entry file q in
      (
        r,
        e,
        rw e (verify-row n h file r q (unfold new_row in unmarked) f),
        body_eq n h now entry file q,
        f.follows,
      )

  -- An entry that uses a reserved key is refused by name, and nothing is written.
  pub append_reserved :
      (now : ℕ) (entry : Fields) (file : List Line) (key : String)
      → reserved_in entry ≡ some key
      → append env now entry file
        ≡ (file, err (plain_error (String.◌++◌ "journal_reserved_key_" key)))
  unfolding append
  append_reserved now entry file key h = rw h refl

  -- A whole record written by `append`, one entry after the other.
  unfoldable pub append_all : List (ℕ × Fields) → List Line → List Line
  append_all [] file = file
  append_all ((now, entry) ∷ es) file = append_all es (append env now entry file).0

  abbrev pub NoneReserved : List (ℕ × Fields) → Type 0
  NoneReserved [] = Unit
  NoneReserved ((now, entry) ∷ es) =
      (reserved_in entry ≡ none) × (is_marked entry ≡ false) × NoneReserved es

  append_all-intact_from :
      (n : ℕ) (h : String) (file : List Line) (es : List (ℕ × Fields))
      → verify env file ≡ intact n h
      → NoneReserved es
      → (head : String) × (verify env (append_all es file) ≡ intact (n + length es) head)
  unfolding append_all
  append_all-intact_from n h file [] q free = (h, rw q (ground arith))
  append_all-intact_from n h file ((now, entry) ∷ es) q free =
      let (r, e, v, b, p) = append-intact n now h entry file q free.0 free.1 in
      let (head, done) =
        append_all-intact_from (n + 1) r.hash (append env now entry file).0 es v free.2 in
      let sum : n + 1 + length es ≡ n + suc (length es) = omega arith in (head, rw sum at done)

  -- Whatever is appended to a new journal, at any times, `verify` accepts it and counts every entry;
  -- if no entry uses a reserved key, which `append` refuses, or holds a value other than null, false,
  -- 0 and "" under the key `corrupt`, which `append` writes and `verify` takes for a damaged line.
  pub append_all-intact :
      (es : List (ℕ × Fields))
      → NoneReserved es
      → (head : String) × (verify env (append_all es []) ≡ intact (length es) head)
  append_all-intact es free =
      let (head, done) = append_all-intact_from 0 genesis [] es (unfold verify read in refl) free in
      let sum : 0 + length es ≡ length es = omega arith in (head, rw sum at done)
