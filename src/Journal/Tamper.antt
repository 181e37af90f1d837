-- ===== src/Journal/Tamper.antt =====
-- Edits of the file that src/changes/journal.js finds: two intact records with one head and one
-- count are equal, or exhibit a collision of the digest.
use native.Mathlib.Decide.{ℕ_discrete}
use mathlib.Core.Path.{ap₂}
use grouvi_nox.Prelude.{
  Bool-cases, List, String, [], ap, arith, eq_iff, false, inl, inr, length, refl, sym, ℕ, ◌++◌, ◌+◌,
  ◌-◌, ◌==◌, ◌∙◌, ◌∷◌, ◌≡◌, ◌≢◌, ◌≤◌, ◌⊎◌,
}
use grouvi_nox.Journal.{
  Body, Row, Line, blank, unreadable, parsed, Record, corrupt, row, intact, broken, JournalEnv,
  genesis, read, is_marked, seq_or, line_hash, mismatch, verify_from, verify,
}
use grouvi_nox.Journal.Chain.{Fits, row-passes, mismatch-Fits, verify_from-append, intact-injective}

String-discrete : Discrete String
String-discrete s t = elim (Bool-cases (s == t)) [
  | inl same ↦ yes ((eq_iff s t).0 same)
  | inr other ↦ no (λ e. cc ((eq_iff s t).1 e))
]

Link-discrete : Discrete (String × Body)
Link-discrete = hlevel (String-discrete, ℕ_discrete)

module _ (env : JournalEnv) where
  -- Two different lines that hash alike.
  pub record Collision : Type 0 where
    pub first : String × Body
    pub second : String × Body
    pub distinct : first ≢ second
    pub collide : line_hash env first.0 first.1 ≡ line_hash env second.0 second.1

  count-le :
      (prev : String) (k n : ℕ) (h : String) (xs : List Record)
      → 1 ≤ k
      → verify_from env prev k xs ≡ intact n h
      → n + 1 ≡ k + length xs
  unfolding verify_from
  count-le prev k n h [] le q = ground (arith, intact-injective (k - 1) n prev h q)
  count-le prev k n h (corrupt ∷ xs) le q = cc
  count-le prev k n h (row r ∷ xs) le q =
      let (free, good, rest) = row-passes env prev k n h r xs q in
      omega (arith, count-le r.hash (k + 1) n h xs (omega arith) rest)

  abbrev Agree : String → String → List Record → List Record → Type 0
  Agree p p' xs ys = ((p ≡ p') × (xs ≡ ys)) ⊎ Collision

  row_step :
      (p p' : String) (k : ℕ) (r r' : Row) (xs ys : List Record)
      → Fits env p k r
      → Fits env p' k r'
      → Agree r.hash r'.hash xs ys
      → Agree p p' (row r ∷ xs) (row r' ∷ ys)
  row_step p p' k r r' xs ys f f' (inr c) = inr c
  row_step p p' k r r' xs ys f f' (inl (e, t)) = go (Link-discrete (p, r.body) (p', r'.body))
    where
      row_eq : p ≡ p' → r.body ≡ r'.body → r ≡ r'
      row_eq e1 e2 =
          λ i. record { body = e2 i; prev = (f.follows ∙ e1 ∙ sym f'.follows) i; hash = e i }

      go :
          Dec (◌≡◌ {A = String × Body} (p, r.body) (p', r'.body))
          → Agree p p' (row r ∷ xs) (row r' ∷ ys)
      go (yes same) =
          let e1 : p ≡ p' = ap (λ (l : String × Body). l.0) same in
          let e2 : r.body ≡ r'.body = ap (λ (l : String × Body). l.1) same in
          inl (e1, ap₂ (λ a l. row a ∷ l) (row_eq e1 e2) t)
      go (no other) = inr (record {
        first = (p, r.body);
        second = (p', r'.body);
        distinct = other;
        collide = sym f.digest ∙ e ∙ f'.digest;
      })

  records_from :
      (p p' : String) (k n : ℕ) (h : String) (xs ys : List Record)
      → 1 ≤ k
      → verify_from env p k xs ≡ intact n h
      → verify_from env p' k ys ≡ intact n h
      → Agree p p' xs ys
  unfolding verify_from
  records_from p p' k n h [] [] le q q' =
      inl ((intact-injective (k - 1) n p h q).1 ∙ sym (intact-injective (k - 1) n p' h q').1, refl)
  records_from p p' k n h [] (y ∷ ys) le q q' =
      absurd (omega (arith, count-le p k n h [] le q, count-le p' k n h (y ∷ ys) le q'))
  records_from p p' k n h (corrupt ∷ xs) ys le q q' = cc
  records_from p p' k n h (row r ∷ xs) [] le q q' =
      absurd (omega (arith, count-le p k n h (row r ∷ xs) le q, count-le p' k n h [] le q'))
  records_from p p' k n h (row r ∷ xs) (corrupt ∷ ys) le q q' = cc
  records_from p p' k n h (row r ∷ xs) (row r' ∷ ys) le q q' =
      let (free, good, rest) = row-passes env p k n h r xs q in
      let (free', good', rest') = row-passes env p' k n h r' ys q' in
      row_step p p' k r r' xs ys (mismatch-Fits env p k r good) (mismatch-Fits env p' k r' good')
        (records_from r.hash r'.hash (k + 1) n h xs ys (omega arith) rest rest')

  -- Two files that `verify` accepts with one head and one count hold the same rows, or a collision
  -- of the line hash is at hand.
  pub tamper_evident :
      (n : ℕ) (h : String) (file edited : List Line)
      → verify env file ≡ intact n h
      → verify env edited ≡ intact n h
      → (read file ≡ read edited) ⊎ Collision
  unfolding verify
  tamper_evident n h file edited q q' =
      elim (records_from genesis genesis 1 n h (read file) (read edited) (omega arith) q q') [
        | inl (_, e) ↦ inl e
        | inr c ↦ inr c
      ]

  read-append : (file rest : List Line) → read (file ++ rest) ≡ read file ++ read rest
  unfolding read
  read-append [] rest = refl
  read-append (blank ∷ ls) rest = read-append ls rest
  read-append (unreadable ∷ ls) rest = ap (λ t. corrupt ∷ t) (read-append ls rest)
  read-append (parsed q ∷ ls) rest = ap (λ t. row q ∷ t) (read-append ls rest)

  after_intact :
      (n : ℕ) (h : String) (file rest : List Line)
      → verify env file ≡ intact n h
      → verify env (file ++ rest) ≡ verify_from env h (n + 1) (read rest)
  unfolding verify
  after_intact n h file rest q =
      rw (read-append file rest)
        (verify_from-append env genesis 1 n h (read file) (read rest) (omega arith) q)

  -- After an intact prefix of `n` rows, a line that is not JSON is reported at place `n + 1`.
  pub unreadable_at :
      (n : ℕ) (h : String) (file rest : List Line)
      → verify env file ≡ intact n h
      → verify env (file ++ unreadable ∷ rest) ≡ broken (n + 1) "unreadable_line"
  unreadable_at n h file rest q =
      after_intact n h file (unreadable ∷ rest) q ∙ (unfold read verify_from in refl)

  -- After an intact prefix of `n` rows with the head `h`, an unmarked row that does not carry on from
  -- `h`, is not its own digest, or is not numbered `n + 1`, is reported as a mismatch, under its own
  -- number if it has one and else under `n + 1`; whatever follows it.
  pub mismatch_at :
      (n : ℕ) (h : String) (file rest : List Line) (r : Row)
      → verify env file ≡ intact n h
      → is_marked r.body.entry ≡ false
      → ¬ Fits env h (n + 1) r
      → verify env (file ++ parsed r ∷ rest) ≡ broken (seq_or r.body.seq (n + 1)) "chain_mismatch"
  mismatch_at n h file rest r q free unfit = elim (Bool-cases (mismatch env h (n + 1) r)) [
    | inl bad ↦
        after_intact n h file (parsed r ∷ rest) q ∙ (unfold read verify_from in rw (free, bad) refl)
    | inr good ↦ absurd (unfit (mismatch-Fits env h (n + 1) r good))
  ]
