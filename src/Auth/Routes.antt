-- ===== src/Auth/Routes.antt =====
-- The handlers of src/routes/auth.js behind their limiters: signing in with a passkey, enrolling one
-- and asking for an enrolment token with a recovery code.
use grouvi_nox.Prelude.{
  Bool, Option, String, any, eqb, false, find?, if◌then◌else◌, leb, length, ltb, none, not, some, ℕ,
  ◌&&◌, ◌==◌,
}
use grouvi_nox.Policy.Texts.{Text}
use grouvi_nox.Auth.{
  AuthEnv, Challenges, Challenge, Credential, EnrollToken, login_kind, register_kind, Store,
  take_challenge, put_challenge, create_session, find_enroll_token, consume_enroll_token,
  create_enroll_token, add_credential, touch_credential, use_recovery_code, destroy_session,
}

-- What `verifyAuthenticationResponse` of @simplewebauthn/server answers with.
pub record Assertion : Type 0 where
  pub verified : Bool
  pub new_counter : Option ℕ

-- The browser's responses, and the library that checks them; `none` where it throws. The answer to
-- a registration is the new credential, or none if it is not verified.
pub record WebAuthn : Type 1 where
  pub Response : Type 0
  pub response_id : Response → Option String
  pub authenticate : Response → String → Credential → Option Assertion
  pub register : Response → String → Option (Option Credential)

pub record Server : Type 0 where
  pub store : Store
  pub challenges : Challenges

-- An answer: an error, `{ ok: true }` with a session's cookie or an enrolment token, or the options
-- with the challenge's cookie.
pub data Answer : Type 0 where
  refused : ℕ → String → Answer
  signed_in : String → Answer
  token_issued : String → Answer
  options_sent : String → Answer
  signed_out : Answer

abbrev pub with_id : Option String → Credential → Bool
with_id none c = false
with_id (some id) c = c.id == id

abbrev pub or_counter : Option ℕ → ℕ → ℕ
or_counter none n = n
or_counter (some m) n = m

-- cred.counter > 0 && newCounter > 0 && newCounter <= cred.counter
abbrev pub is_regression : ℕ → ℕ → Bool
is_regression old new = ltb 0 old && ltb 0 new && leb new old

unfoldable pub login_options : AuthEnv → String → String → ℕ → Server → Server × Answer
login_options env chid challenge now sv =
    if eqb (length sv.store.credentials) 0 then (sv, refused 409 "no_credentials_enrolled") else (
      record sv { challenges = put_challenge env chid now login_kind challenge none sv.challenges },
      options_sent chid,
    )

unfoldable pub register_options : AuthEnv → String → String → String → ℕ → Server → Server × Answer
register_options env raw chid challenge now sv = elim (find_enroll_token env raw now sv.store) [
  | none ↦ (sv, refused 403 "invalid_enrollment_token")
  | some token ↦ (
    record sv {
      challenges = put_challenge env chid now register_kind challenge (some token.id) sv.challenges;
    },
    options_sent chid,
  )
]

unfoldable pub recover : AuthEnv → Text → String → String → ℕ → Server → Server × Answer
recover env input id raw now sv =
    let (store, found) = use_recovery_code env input now sv.store in
    if not found then (record sv { store = store }, refused 403 "invalid_code") else (
      record sv { store = create_enroll_token env id raw now "issued via recovery code" store },
      token_issued raw,
    )

unfoldable pub logout : AuthEnv → String → ℕ → Server → Server × Answer
logout env token now sv = (record sv { store = destroy_session env now token sv.store }, signed_out)

-- The cookie of a new session.
unfoldable pub sign_in : AuthEnv → String → String → ℕ → String → Server → Server × Answer
sign_in env sid ip now credential_id sv =
    let (store, token) = create_session env sid now ip (some credential_id) sv.store in
    (record sv { store = store }, signed_in token)

module _ (env : AuthEnv) (wa : WebAuthn) (sid ip : String) (now : ℕ) where
  unfoldable pub login_counted : Credential → ℕ → Server → Server × Answer
  login_counted cred counter sv =
      if is_regression cred.counter counter
      then (sv, refused 403 "counter_regression")
      else sign_in env sid ip now cred.id
          (record sv { store = touch_credential cred.id counter now sv.store })

  unfoldable pub login_asserted : Credential → Option Assertion → Server → Server × Answer
  login_asserted cred none sv = (sv, refused 500 "internal_error")
  login_asserted cred (some a) sv =
      if not a.verified
      then (sv, refused 403 "verification_failed")
      else login_counted cred (or_counter a.new_counter cred.counter) sv

  unfoldable pub login_known : wa.Response → Challenge → Server → Server × Answer
  login_known response stored sv =
      elim (find? (with_id (wa.response_id response)) sv.store.credentials) [
        | none ↦ (sv, refused 403 "unknown_credential")
        | some cred ↦ login_asserted cred (wa.authenticate response stored.challenge cred) sv
      ]

  unfoldable pub login_verify : Option String → wa.Response → Server → Server × Answer
  login_verify chid response sv =
      let (challenges, stored) = take_challenge now chid login_kind sv.challenges in
      let sv' = record sv { challenges = challenges } in
      elim stored [
        | none ↦ (sv', refused 400 "challenge_expired")
        | some c ↦ login_known response c sv'
      ]

  unfoldable pub register_new : EnrollToken → Credential → Server → Server × Answer
  register_new token cred sv =
      if any (λ c. c.id == cred.id) sv.store.credentials
      then (sv, refused 409 "credential_already_registered")
      else sign_in env sid ip now cred.id
          (record sv { store = consume_enroll_token token.id now (add_credential cred sv.store) })

  unfoldable pub register_attested :
      EnrollToken → Option (Option Credential) → Server → Server × Answer
  register_attested token none sv = (sv, refused 500 "internal_error")
  register_attested token (some none) sv = (sv, refused 400 "verification_failed")
  register_attested token (some (some cred)) sv = register_new token cred sv

  abbrev pub is_bound : Option String → EnrollToken → Bool
  is_bound none token = false
  is_bound (some id) token = token.id == id

  unfoldable pub register_stored : String → wa.Response → Challenge → Server → Server × Answer
  register_stored raw response stored sv = elim (find_enroll_token env raw now sv.store) [
    | none ↦ (sv, refused 403 "invalid_enrollment_token")
    | some token ↦
        if not (is_bound stored.token_id token)
        then (sv, refused 403 "invalid_enrollment_token")
        else register_attested token (wa.register response stored.challenge) sv
  ]

  unfoldable pub register_verify : Option String → String → wa.Response → Server → Server × Answer
  register_verify chid raw response sv =
      let (challenges, stored) = take_challenge now chid register_kind sv.challenges in
      let sv' = record sv { challenges = challenges } in
      elim stored [
        | none ↦ (sv', refused 400 "challenge_expired")
        | some c ↦ register_stored raw response c sv'
      ]
