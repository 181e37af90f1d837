-- ===== src/Policy/Reported.antt =====
-- What `classifyProposal` of src/changes/policy.js is sure to report.
use grouvi_nox.Prelude.{
  Bool-cases, List, Memᴰ, String, [], any, ap, arith, eq_iff, if◌then◌else◌, inl, inr, one_of, refl,
  subst, sym, true, ◌++◌, ◌==◌, ◌∷◌, ◌≡◌,
}
use grouvi_nox.Regex.{test}
use grouvi_nox.Regex.Places.{Occurs, test-Occurs}
use grouvi_nox.Policy.Texts.{Text, swap_units}
use grouvi_nox.Policy.Scripts.{
  Rule, rule_regex, reasons_of, dangerous_script, sensitive_path, classify_script, classify_path,
  has_hidden_characters,
}
use grouvi_nox.Policy.Proposals.{Proposal}
use grouvi_nox.Policy.Classify.{
  dangerous, scripts, visible, paths, add_reasons, add_all, reasons, tier, classify_proposal,
}

Memᴰ-append_left : {A : Type 0} {x : A} (xs ys : List A) → Memᴰ x xs → Memᴰ x (xs ++ ys)
Memᴰ-append_left [] ys m = elim m [ ]
Memᴰ-append_left (y ∷ xs) ys (Memᴰ.head e) = Memᴰ.head e
Memᴰ-append_left (y ∷ xs) ys (Memᴰ.tail m) = Memᴰ.tail (Memᴰ-append_left xs ys m)

Memᴰ-append_right : {A : Type 0} {x : A} (xs ys : List A) → Memᴰ x ys → Memᴰ x (xs ++ ys)
Memᴰ-append_right [] ys m = m
Memᴰ-append_right (y ∷ xs) ys m = Memᴰ.tail (Memᴰ-append_right xs ys m)

Memᴰ-one_of : (xs : List String) (s : String) → one_of xs s ≡ true → Memᴰ s xs
Memᴰ-one_of [] s h = absurd (ground (arith, h))
Memᴰ-one_of (x ∷ xs) s h = elim (Bool-cases (x == s)) [
  | inl same ↦ Memᴰ.head (sym ((eq_iff x s).0 same))
  | inr other ↦ Memᴰ.tail (Memᴰ-one_of xs s (rw other at h))
]

add_reasons_keeps : {x : String} (acc rs : List String) → Memᴰ x acc → Memᴰ x (add_reasons acc rs)
unfolding add_reasons
add_reasons_keeps acc [] m = m
add_reasons_keeps acc (r ∷ rs) m = elim (Bool-cases (one_of acc r)) [
  | inl there ↦ rw there (add_reasons_keeps acc rs m)
  | inr new ↦ rw new (add_reasons_keeps (acc ++ r ∷ []) rs (Memᴰ-append_left acc (r ∷ []) m))
]

add_reasons_adds : {x : String} (acc rs : List String) → Memᴰ x rs → Memᴰ x (add_reasons acc rs)
unfolding add_reasons
add_reasons_adds acc [] m = elim m [ ]
add_reasons_adds acc (r ∷ rs) (Memᴰ.tail m) =
    add_reasons_adds (if one_of acc r then acc else acc ++ r ∷ []) rs m
add_reasons_adds {x} acc (r ∷ rs) (Memᴰ.head e) = elim (Bool-cases (one_of acc r)) [
  | inl there ↦
      rw there
        (add_reasons_keeps acc rs (subst (λ y. Memᴰ y acc) (sym e) (Memᴰ-one_of acc r there)))
  | inr new ↦
      rw new (add_reasons_keeps (acc ++ r ∷ []) rs (Memᴰ-append_right acc (r ∷ []) (Memᴰ.head e)))
]

module _ (f : Text → List String) where
  add_all_keeps :
      {x : String} (acc : List String) (ts : List Text) → Memᴰ x acc → Memᴰ x (add_all f acc ts)
  unfolding add_all
  add_all_keeps acc [] m = m
  add_all_keeps acc (t ∷ ts) m =
      add_all_keeps (add_reasons acc (f t)) ts (add_reasons_keeps acc (f t) m)

  add_all_adds :
      {x : String} {t : Text} (acc : List String) (ts : List Text)
      → Memᴰ t ts
      → Memᴰ x (f t)
      → Memᴰ x (add_all f acc ts)
  unfolding add_all
  add_all_adds acc [] m h = elim m [ ]
  add_all_adds acc (u ∷ ts) (Memᴰ.tail m) h = add_all_adds (add_reasons acc (f u)) ts m h
  add_all_adds {x} acc (u ∷ ts) (Memᴰ.head e) h =
      add_all_keeps (add_reasons acc (f u)) ts
        (add_reasons_adds acc (f u) (subst (λ t. Memᴰ x (f t)) e h))

reasons_of_found :
    (r : Rule) (rs : List Rule) (s : Text)
    → Memᴰ r rs
    → Occurs (rule_regex r) s
    → Memᴰ r.reason (reasons_of rs s)
unfolding reasons_of
reasons_of_found r [] s m o = elim m [ ]
reasons_of_found r (q ∷ rs) s (Memᴰ.head e) o =
    let hit : test (rule_regex q) s ≡ true =
      subst (λ x. test (rule_regex x) s ≡ true) e ((test-Occurs (rule_regex r) s).1 o) in
    rw hit (Memᴰ.head (ap (λ x. x.reason) e))
reasons_of_found r (q ∷ rs) s (Memᴰ.tail m) o = elim (Bool-cases (test (rule_regex q) s)) [
  | inl hit ↦ rw hit (Memᴰ.tail (reasons_of_found r rs s m o))
  | inr miss ↦ rw miss (reasons_of_found r rs s m o)
]

-- A reason makes the proposal dangerous.
Memᴰ-tier : {x : String} (rs : List String) → Memᴰ x rs → tier rs ≡ dangerous
unfolding tier
Memᴰ-tier [] m = elim m [ ]
Memᴰ-tier (r ∷ rs) m = refl

-- If a pattern of the table of dangerous scripts matches anywhere in a script that the proposal
-- would run, whatever else the script holds, its reason is reported and the proposal is dangerous.
pub dangerous_reported :
    (p : Proposal) (r : Rule) (s : Text)
    → Memᴰ r dangerous_script
    → Memᴰ s (scripts p)
    → Occurs (rule_regex r) s
    → Memᴰ r.reason (classify_proposal p).1 × ((classify_proposal p).0 ≡ dangerous)
unfolding classify_proposal reasons
dangerous_reported p r s known runs o =
    let hidden =
      if any has_hidden_characters (visible p)
      then "contains hidden control characters" ∷ []
      else [] in
    let m : Memᴰ r.reason (reasons p) =
      add_all_keeps classify_path (add_all classify_script hidden (scripts p)) (paths p.action) (
        add_all_adds classify_script hidden (scripts p) runs (
          unfold classify_script in
          Memᴰ-append_left (reasons_of dangerous_script s) _
            (reasons_of_found r dangerous_script s known o))) in
    (m, Memᴰ-tier (reasons p) m)

-- The same of the table of sensitive paths and a path that the proposal writes, read with slashes.
pub sensitive_reported :
    (p : Proposal) (r : Rule) (f : Text)
    → Memᴰ r sensitive_path
    → Memᴰ f (paths p.action)
    → Occurs (rule_regex r) (swap_units b'\\' b'/' f)
    → Memᴰ r.reason (classify_proposal p).1 × ((classify_proposal p).0 ≡ dangerous)
unfolding classify_proposal reasons
sensitive_reported p r f known writes o =
    let hidden =
      if any has_hidden_characters (visible p)
      then "contains hidden control characters" ∷ []
      else [] in
    let m : Memᴰ r.reason (reasons p) =
      add_all_adds classify_path (add_all classify_script hidden (scripts p)) (paths p.action)
        writes
        (unfold classify_path in
          Memᴰ-append_left (reasons_of sensitive_path (swap_units b'\\' b'/' f)) _
            (reasons_of_found r sensitive_path (swap_units b'\\' b'/' f) known o)) in
    (m, Memᴰ-tier (reasons p) m)
