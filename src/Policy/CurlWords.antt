-- ===== src/Policy/CurlWords.antt =====
-- The arguments of curl as src/changes/policy.js reads them in `probeAllowed`: one argument at a time.
use grouvi_nox.Prelude.{
  Bool, Bool-cases, List, String, [], ap, arith, eq_iff, false, if◌then◌else◌, inl, inr, not,
  one_of, refl, select, subst, sym, true, ◌&&◌, ◌++◌, ◌==◌, ◌||◌, ◌∷◌, ◌≡◌, ◌⊎◌,
}
use grouvi_nox.Regex.{test, run, scan, rounds, at_first, at_last, at_edge, is_word}
use grouvi_nox.Regex.Syntax.{regex, regex_i, is_space}
use grouvi_nox.Policy.Texts.{utf16}
use grouvi_nox.Policy.Probes.{is_option, fits, fits_i}
use grouvi_nox.Policy.Allowed.{CurlArgs, curl_value_flags, curl_allowed, curl_option, is_credential}

-- An option that makes the request a HEAD.
abbrev pub asks_head : String → Bool
asks_head a = is_option a && fits "^-[A-Za-z]*I[A-Za-z]*$|^--head$" a

-- The arguments as curl reads them: the options with their values, and the others.
unfoldable pub with_values : List String → List (String × String)
with_values [] = []
with_values (a ∷ []) = if one_of curl_value_flags a then (a, "") ∷ [] else []
with_values (a ∷ b ∷ rest) = elim (one_of curl_value_flags a) [
  | true ↦ (a, b) ∷ with_values rest
  | false ↦ with_values (b ∷ rest)
]

unfoldable pub without_values : List String → List String
without_values [] = []
without_values (a ∷ []) = if one_of curl_value_flags a then [] else a ∷ []
without_values (a ∷ b ∷ rest) = elim (one_of curl_value_flags a) [
  | true ↦ without_values rest
  | false ↦ a ∷ without_values (b ∷ rest)
]

-- No header among the options carries a credential.
abbrev pub is_harmless : String × String → Bool
is_harmless (a, value) =
    not (a == "-H" || a == "--header")
    || not (test (regex_i "^(?:authorization|cookie|proxy-authorization)\\s*:") (utf16 value))

pub append_nil : (xs : List String) → xs ++ [] ≡ xs
append_nil [] = refl
append_nil (x ∷ xs) = ap (λ t. x ∷ t) (append_nil xs)

pub append_snoc :
    (xs : List String) (a : String) (ys : List String) → (xs ++ a ∷ []) ++ ys ≡ xs ++ a ∷ ys
append_snoc [] a ys = refl
append_snoc (x ∷ xs) a ys = ap (λ t. x ∷ t) (append_snoc xs a ys)

pub inl-inr {ℓ κ} : {A : Type ℓ} {B : Type κ} {a : A} {b : B} → inl a ≡ inr b → ⊥
inl-inr h = cc

-- What one argument that takes no value adds.
pub record IsAdded (a : String) (found more : CurlArgs) : Type 0 where
  pub urls_added : more.urls ≡ found.urls ++ select (λ x. not (is_option x)) (a ∷ [])
  pub head_added : more.head ≡ true → (found.head ≡ true) ⊎ (asks_head a ≡ true)

same-IsAdded :
    (a : String) (found result more : CurlArgs)
    → IsAdded a found result
    → ◌≡◌ {A = String ⊎ CurlArgs} (inr result) (inr more)
    → IsAdded a found more
same-IsAdded a found result more from e =
    let same : result ≡ more = cc in subst (λ r. IsAdded a found r) same from

pub option-IsAdded :
    (a : String) (found more : CurlArgs) → curl_option a found ≡ inr more → IsAdded a found more
unfolding curl_option
option-IsAdded a found more h = elim (Bool-cases (is_option a)) [
  | inr word ↦
      same-IsAdded a found (record found { urls = found.urls ++ a ∷ [] }) more
        (record { urls_added = rw word refl; head_added = λ e. inl e })
        (rw (curl_option, word) at h)
  | inl option ↦ elim (Bool-cases (one_of curl_allowed a)) [
    | inr other ↦ absurd (inl-inr (rw (curl_option, option, other) at h))
    | inl allowed ↦ elim (Bool-cases (fits "^-[A-Za-z]*I[A-Za-z]*$|^--head$" a)) [
      | inl head ↦
          same-IsAdded a found (record found { head = true }) more
            (record {
              urls_added = rw option (sym (append_nil found.urls));
              head_added = λ e. inr (rw (option, head) refl);
            })
            (rw (curl_option, option, allowed, head) at h)
      | inr plain ↦
          same-IsAdded a found found more
            (record {
              urls_added = rw option (sym (append_nil found.urls));
              head_added = λ e. inl e;
            })
            (rw (curl_option, option, allowed, plain) at h)
    ]
  ]
]

header_flags : (fits "^(?:-H|--header)$" "-H" ≡ true) × (fits "^(?:-H|--header)$" "--header" ≡ true)
unfolding fits test scan run rounds at_first at_last regex is_space is_word at_edge utf16
header_flags = (refl, refl)

pub credential_lem : (a b : String) → is_credential a b ≡ false → is_harmless (a, b) ≡ true
unfolding is_credential fits_i
credential_lem a b h = elim (Bool-cases (a == "-H" || a == "--header")) [
  | inr other ↦ rw other refl
  | inl header ↦
      plain (fits "^(?:-H|--header)$" a)
        (test (regex_i "^(?:authorization|cookie|proxy-authorization)\\s*:") (utf16 b))
        (a == "-H" || a == "--header") (flag a header) h
]
  where
    second : (p q : Bool) → p ≡ false → (p || q) ≡ true → q ≡ true
    second p q e1 e2 = ground (arith, e1, e2)

    flag : (x : String) → (x == "-H" || x == "--header") ≡ true → fits "^(?:-H|--header)$" x ≡ true
    flag x e = elim (Bool-cases (x == "-H")) [
      | inl short ↦ rw ((eq_iff x "-H").0 short) header_flags.0
      | inr other ↦
          let long : (x == "--header") ≡ true = second (x == "-H") (x == "--header") other e in
          rw ((eq_iff x "--header").0 long) header_flags.1
    ]

    plain : (p q r : Bool) → p ≡ true → (p && q) ≡ false → (not r || not q) ≡ true
    plain p q r e1 e2 = ground (arith, e1, e2)

pub valued_lem :
    (a b : String) (rest : List String)
    → one_of curl_value_flags a ≡ true
    → (with_values (a ∷ b ∷ rest) ≡ (a, b) ∷ with_values rest)
      × (without_values (a ∷ b ∷ rest) ≡ without_values rest)
unfolding with_values without_values
valued_lem a b rest h = (rw (with_values, h) refl, rw (without_values, h) refl)

pub bare_lem :
    (a b : String) (rest : List String)
    → one_of curl_value_flags a ≡ false
    → (with_values (a ∷ b ∷ rest) ≡ with_values (b ∷ rest))
      × (without_values (a ∷ b ∷ rest) ≡ a ∷ without_values (b ∷ rest))
unfolding with_values without_values
bare_lem a b rest h = (rw (with_values, h) refl, rw (without_values, h) refl)
