-- ===== src/Policy/CurlArgs.antt =====
-- The loop over the arguments of curl in `probeAllowed` of src/changes/policy.js.
use grouvi_nox.Prelude.{
  Bool-cases, List, String, [], all, any, arith, inl, inr, not, one_of, refl, select, subst, sym,
  true, ◌++◌, ◌∙◌, ◌∷◌, ◌≡◌, ◌⊎◌,
}
use grouvi_nox.Policy.Probes.{is_option}
use grouvi_nox.Policy.Allowed.{CurlArgs, curl_value_flags, curl_option, is_credential, curl_args}
use grouvi_nox.Policy.CurlWords.{
  asks_head, with_values, without_values, is_harmless, append_nil, append_snoc, inl-inr,
  option-IsAdded, credential_lem, valued_lem, bare_lem,
}

-- What a loop over `args` has found, behind what was found before.
pub record IsFrom (found : CurlArgs) (args : List String) (result : CurlArgs) : Type 0 where
  pub urls_from : result.urls ≡ found.urls ++ select (λ a. not (is_option a)) (without_values args)
  pub head_from :
      result.head ≡ true → (found.head ≡ true) ⊎ (any asks_head (without_values args) ≡ true)
  pub all_harmless : all is_harmless (with_values args) ≡ true

inr-IsFrom :
    {found : CurlArgs} {args : List String} (result more : CurlArgs)
    → IsFrom found args result
    → ◌≡◌ {A = String ⊎ CurlArgs} (inr result) (inr more)
    → IsFrom found args more
inr-IsFrom {found} {args} result more from e =
    let same : result ≡ more = cc in subst (λ r. IsFrom found args r) same from

pub curl_args-IsFrom :
    (args : List String) (found result : CurlArgs)
    → curl_args args found ≡ inr result
    → IsFrom found args result
unfolding curl_args with_values without_values
curl_args-IsFrom [] found result h =
    inr-IsFrom found result
      (record {
        urls_from = sym (append_nil found.urls);
        head_from = λ e. inl e;
        all_harmless = refl;
      })
      h
curl_args-IsFrom (a ∷ []) found result h = elim (Bool-cases (one_of curl_value_flags a)) [
  | inr other ↦
      let added = option-IsAdded a found result (rw (curl_args, other) at h) in
      record {
        urls_from = rw other added.urls_added;
        head_from = λ e. elim (added.head_added e) [
          | inl before ↦ inl before
          | inr asked ↦ inr (rw (other, asked) refl)
        ];
        all_harmless = rw other refl;
      }
  | inl valued ↦ elim (Bool-cases (is_credential a "")) [
    | inl secret ↦ absurd (inl-inr (rw (curl_args, valued, secret) at h))
    | inr harmless ↦
        inr-IsFrom found result
          (record {
            urls_from = rw valued (sym (append_nil found.urls));
            head_from = λ e. inl e;
            all_harmless = rw (valued, credential_lem a "" harmless) refl;
          })
          (rw (curl_args, valued, harmless) at h)
  ]
]
curl_args-IsFrom (a ∷ b ∷ rest) found result h = elim (Bool-cases (one_of curl_value_flags a)) [
  | inl valued ↦ elim (Bool-cases (is_credential a b)) [
    | inl secret ↦ absurd (inl-inr (rw (curl_args, valued, secret) at h))
    | inr harmless ↦
        let from = curl_args-IsFrom rest found result (rw (curl_args, valued, harmless) at h) in
        let (pairs, words) = valued_lem a b rest valued in
        record {
          urls_from = rw words from.urls_from;
          head_from = λ e. rw words (from.head_from e);
          all_harmless = rw (pairs, credential_lem a b harmless) from.all_harmless;
        }
  ]
  | inr other ↦ elim (option_cases (curl_option a found)) [
    | inl (reason, bad) ↦ absurd (inl-inr (rw (curl_args, other, bad) at h))
    | inr (more, good) ↦
        let added = option-IsAdded a found more good in
        let from = curl_args-IsFrom (b ∷ rest) more result (rw (curl_args, other, good) at h) in
        let (pairs, words) = bare_lem a b rest other in
        record {
          urls_from = rw words (from.urls_from ∙ joined_urls found more added.urls_added);
          head_from = λ e. rw words (
              joined_head found more (without_values (b ∷ rest)) (from.head_from e)
                added.head_added);
          all_harmless = rw pairs from.all_harmless;
        }
  ]
]
  where
    option_cases :
        (o : String ⊎ CurlArgs)
        → ((reason : String) × (o ≡ inl reason)) ⊎ ((more : CurlArgs) × (o ≡ inr more))
    option_cases (inl reason) = inl (reason, refl)
    option_cases (inr more) = inr (more, refl)

    joined_urls :
        (f g : CurlArgs)
        → g.urls ≡ f.urls ++ select (λ x. not (is_option x)) (a ∷ [])
        → g.urls ++ select (λ x. not (is_option x)) (without_values (b ∷ rest))
          ≡ f.urls ++ select (λ x. not (is_option x)) (a ∷ without_values (b ∷ rest))
    joined_urls f g e = elim (Bool-cases (is_option a)) [
      | inl option ↦
          let e' : g.urls ≡ f.urls ++ [] = rw option at e in rw (e', append_nil f.urls, option) refl
      | inr word ↦
          let e' : g.urls ≡ f.urls ++ a ∷ [] = rw word at e in
          rw (e', word) (append_snoc f.urls a _)
    ]

    joined_head :
        (f g : CurlArgs) (l : List String)
        → (g.head ≡ true) ⊎ (any asks_head l ≡ true)
        → (g.head ≡ true → (f.head ≡ true) ⊎ (asks_head a ≡ true))
        → (f.head ≡ true) ⊎ (any asks_head (a ∷ l) ≡ true)
    joined_head f g l (inr later) before = inr (ground (arith, later))
    joined_head f g l (inl there) before = elim (before there) [
      | inl first ↦ inl first
      | inr asked ↦ inr (rw asked refl)
    ]
