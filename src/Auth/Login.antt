-- ===== src/Auth/Login.antt =====
-- Who is signed in by src/routes/auth.js, and that a challenge is good for one attempt.
use grouvi_nox.Prelude.{
  ltb→le, some-injective, Bool, Bool-cases, Memᴰ, Memᴰ-find?, Option, Option-cases, String, ap,
  arith, eq_refl, false, find?, if◌then◌else◌, inl, inr, none, not, refl, some, subst, true, ℕ,
  ◌||◌, ◌∙◌, ◌≡◌, ◌≤◌, suc, zero, ◌<◌, ◌⊎◌,
}
use grouvi_nox.Prelude.JsMap
use grouvi_nox.Prelude.JsMap.{get-remove}
use grouvi_nox.Auth.{
  AuthEnv, Challenge, Challenges, Credential, Kind, login_kind, register_kind, same_kind,
  take_challenge,
}
use grouvi_nox.Auth.Routes.{
  Assertion, WebAuthn, Server, Answer, refused, signed_in, with_id, or_counter, is_regression,
  sign_in, login_counted, login_asserted, login_known, login_verify,
}

abbrev pub is_signed_in : Answer → Bool
is_signed_in (signed_in token) = true
is_signed_in _ = false

-- A passkey of the store has signed a challenge that was put for a sign-in, in time.
pub record IsProven (wa : WebAuthn) (now : ℕ) (chid : Option String) (response : wa.Response)
    (sv : Server) : Type 0 where
  pub name : String
  pub has_name : chid ≡ some name
  pub challenge : Challenge
  pub was_put : JsMap.get sv.challenges name ≡ some challenge
  pub for_login : challenge.kind ≡ login_kind
  pub in_time : now ≤ challenge.expires_at
  pub credential : Credential
  pub enrolled : Memᴰ credential sv.store.credentials
  pub own_id : with_id (wa.response_id response) credential ≡ true
  pub assertion : Assertion
  pub checked : wa.authenticate response challenge.challenge credential ≡ some assertion
  pub verified : assertion.verified ≡ true
  pub counter_grows :
      (credential.counter ≡ 0)
      ⊎ ((assertion.new_counter ≡ some 0)
          ⊎ ((new : ℕ) × (assertion.new_counter ≡ some new) × (credential.counter < new)))

-- Of two counters above 0 the new one is larger; a missing one reads as the old one.
counter_lem :
    (old : ℕ) (o : Option ℕ)
    → is_regression old (or_counter o old) ≡ false
    → (old ≡ 0) ⊎ ((o ≡ some 0) ⊎ ((new : ℕ) × (o ≡ some new) × (old < new)))
counter_lem zero o h = inl refl
counter_lem (suc old) none h = absurd (ground (arith, h))
counter_lem (suc old) (some zero) h = inr (inl refl)
counter_lem (suc old) (some (suc new)) h = inr (inr (suc new, refl, ground (arith, h)))

same_kind-login : (k : Kind) → same_kind k login_kind ≡ true → k ≡ login_kind
same_kind-login login_kind h = refl
same_kind-login register_kind h = absurd (ground arith)

in_use :
    (b : Bool) (d c : Challenge) → (if b then none else some d) ≡ some c → (b ≡ false) × (d ≡ c)
in_use true d c h = absurd (ground (arith, h))
in_use false d c h = (refl, some-injective d c h)

neither : (a b : Bool) → (not a || b) ≡ false → (a ≡ true) × (b ≡ false)
neither a b h = ground arith

taken :
    (now : ℕ) (chid : Option String) (kind : Kind) (cs : Challenges) (c : Challenge)
    → (take_challenge now chid kind cs).1 ≡ some c
    → (name : String) × (chid ≡ some name)
      × (JsMap.get cs name ≡ some c)
      × (same_kind c.kind kind ≡ true)
      × (now ≤ c.expires_at)
unfolding take_challenge
taken now none kind cs c h = absurd (ground (arith, h))
taken now (some name) kind cs c h = elim (Option-cases (JsMap.get cs name)) [
  | inl gone ↦
      let h' : none ≡ some c = rw (take_challenge, gone) at h in absurd (ground (arith, h'))
  | inr (d, found) ↦
      let (fits, e) = in_use _ d c (rw (take_challenge, found) at h) in
      let (same, young) = neither _ _ fits in
      (
        name,
        refl,
        (found ∙ ap some e),
        subst (λ x. same_kind x.kind kind ≡ true) e same,
        subst (λ x. now ≤ x.expires_at) e (ltb→le d.expires_at now young),
      )
]

module _ (env : AuthEnv) (wa : WebAuthn) (sid ip : String) (now : ℕ) where
  asserted :
      (cred : Credential) (o : Option Assertion) (sv : Server)
      → is_signed_in (login_asserted env wa sid ip now cred o sv).1 ≡ true
      → (a : Assertion) × (o ≡ some a)
        × (a.verified ≡ true)
        × (is_regression cred.counter (or_counter a.new_counter cred.counter) ≡ false)
  unfolding login_asserted login_counted
  asserted cred none sv h = absurd (ground (arith, h))
  asserted cred (some a) sv h = elim (Bool-cases a.verified) [
    | inr wrong ↦
        let h' : false ≡ true = rw (login_asserted, wrong) at h in absurd (ground (arith, h'))
    | inl valid ↦
        elim (Bool-cases (is_regression cred.counter (or_counter a.new_counter cred.counter))) [
          | inl back ↦
              let h' : false ≡ true = rw (login_asserted, login_counted, valid, back) at h in
              absurd (ground (arith, h'))
          | inr grows ↦ (a, refl, valid, grows)
        ]
  ]

  known :
      (response : wa.Response) (c : Challenge) (sv : Server)
      → is_signed_in (login_known env wa sid ip now response c sv).1 ≡ true
      → (cred : Credential) × (find? (with_id (wa.response_id response)) sv.store.credentials
          ≡ some cred)
        × (is_signed_in
              (login_asserted env wa sid ip now cred
                (wa.authenticate response c.challenge cred)
                sv).1
            ≡ true)
  unfolding login_known
  known response c sv h =
      elim (Option-cases (find? (with_id (wa.response_id response)) sv.store.credentials)) [
        | inl nobody ↦
            let h' : false ≡ true = rw (login_known, nobody) at h in absurd (ground (arith, h'))
        | inr (cred, found) ↦ (cred, found, (rw (login_known, found) at h))
      ]

  with_challenge :
      (chid : Option String) (response : wa.Response) (sv : Server)
      → is_signed_in (login_verify env wa sid ip now chid response sv).1 ≡ true
      → (c : Challenge) × ((take_challenge now chid login_kind sv.challenges).1 ≡ some c)
        × (is_signed_in
              (login_known env wa sid ip now response c
                (record sv { challenges = (take_challenge now chid login_kind sv.challenges).0 })).1
            ≡ true)
  unfolding login_verify
  with_challenge chid response sv h =
      elim (Option-cases ((take_challenge now chid login_kind sv.challenges).1)) [
        | inl over ↦
            let h' : false ≡ true = rw (login_verify, over) at h in absurd (ground (arith, h'))
        | inr (c, got) ↦ (c, got, (rw (login_verify, got) at h))
      ]

  -- A session is given at a sign-in only if the challenge of the browser's cookie was put for a
  -- sign-in and is not over, and a passkey of the store that the response names has signed it,
  -- with a counter that is larger than the stored one, unless the stored or the new one is 0.
  pub login_verify-IsProven :
      (chid : Option String) (response : wa.Response) (sv : Server)
      → is_signed_in (login_verify env wa sid ip now chid response sv).1 ≡ true
      → IsProven wa now chid response sv
  login_verify-IsProven chid response sv h =
      let (c, got, h1) = with_challenge chid response sv h in
      let (name, has_name, was_put, same, in_time) =
        taken now chid login_kind sv.challenges c got in
      let (cred, found, h2) = known response c _ h1 in
      let (a, checked, valid, grows) = asserted cred _ _ h2 in
      let (enrolled, own_id) = Memᴰ-find? _ sv.store.credentials cred found in
      record {
        name = name;
        has_name = has_name;
        challenge = c;
        was_put = was_put;
        for_login = same_kind-login c.kind same;
        in_time = in_time;
        credential = cred;
        enrolled = enrolled;
        own_id = own_id;
        assertion = a;
        checked = checked;
        verified = valid;
        counter_grows = counter_lem cred.counter a.new_counter grows;
      }

spent_challenge :
    (now : ℕ) (name : String) (kind : Kind) (cs : Challenges)
    → JsMap.get (take_challenge now (some name) kind cs).0 name ≡ none
unfolding take_challenge
spent_challenge now name kind cs = elim (Option-cases (JsMap.get cs name)) [
  | inl gone ↦ rw (take_challenge, gone) gone
  | inr (c, found) ↦ rw (take_challenge, found) (get-remove cs name name ∙ (rw (eq_refl name) refl))
]

module _ (env : AuthEnv) (wa : WebAuthn) (sid ip : String) where
  asserted-challenges :
      (now : ℕ) (cred : Credential) (o : Option Assertion) (sv : Server)
      → (login_asserted env wa sid ip now cred o sv).0.challenges ≡ sv.challenges
  unfolding login_asserted login_counted sign_in
  asserted-challenges now cred none sv = refl
  asserted-challenges now cred (some a) sv = elim (Bool-cases a.verified) [
    | inr wrong ↦ rw wrong refl
    | inl valid ↦
        elim (Bool-cases (is_regression cred.counter (or_counter a.new_counter cred.counter))) [
          | inl back ↦ rw (valid, back) refl
          | inr grows ↦ rw (valid, grows) refl
        ]
  ]

  known-challenges :
      (now : ℕ) (response : wa.Response) (c : Challenge) (sv : Server)
      → (login_known env wa sid ip now response c sv).0.challenges ≡ sv.challenges
  unfolding login_known
  known-challenges now response c sv =
      elim (Option-cases (find? (with_id (wa.response_id response)) sv.store.credentials)) [
        | inl nobody ↦ rw (login_known, nobody) refl
        | inr (cred, found) ↦ rw (login_known, found) (asserted-challenges now cred _ sv)
      ]

  login-challenges :
      (now : ℕ) (chid : Option String) (response : wa.Response) (sv : Server)
      → (login_verify env wa sid ip now chid response sv).0.challenges
        ≡ (take_challenge now chid login_kind sv.challenges).0
  unfolding login_verify
  login-challenges now chid response sv =
      elim (Option-cases ((take_challenge now chid login_kind sv.challenges).1)) [
        | inl over ↦ rw (login_verify, over) refl
        | inr (c, got) ↦ rw (login_verify, got) (known-challenges now response c _)
      ]

  login_verify-absent :
      (now : ℕ) (name : String) (response : wa.Response) (sv : Server)
      → JsMap.get sv.challenges name ≡ none
      → (login_verify env wa sid ip now (some name) response sv).1 ≡ refused 400 "challenge_expired"
  unfolding login_verify take_challenge
  login_verify-absent now name response sv gone = rw (login_verify, take_challenge, gone) refl

  -- A challenge is good for one attempt to sign in: whatever the first attempt was answered, a
  -- second one with the same cookie is refused, at any time and with any response.
  pub login_verify_once :
      (now later : ℕ) (name : String) (first second : wa.Response) (sv : Server)
      → (login_verify env wa sid ip later
          (some name)
          second
          (login_verify env wa sid ip now (some name) first sv).0).1
        ≡ refused 400 "challenge_expired"
  login_verify_once now later name first second sv = login_verify-absent later name second _ (
      ap (λ cs. JsMap.get cs name) (login-challenges now (some name) first sv)
      ∙ spent_challenge now name login_kind sv.challenges)
