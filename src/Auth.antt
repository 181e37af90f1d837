-- ===== src/Auth.antt =====
-- Authentication of the dashboard, src/auth.js: the challenges in memory, and the sessions, the
-- enrolment tokens, the recovery codes and the credentials in the store. Child `Routes` has the
-- handlers of src/routes/auth.js; `Codes`, `Sessions` and `Login` prove, `Examples`
-- holds the runs. Times, also those that are stored in the ISO format, are milliseconds; the
-- user agent of a session, which is only shown, is left out.
pub mod Routes
pub mod Codes
pub mod Sessions
pub mod Login
mod Examples
use Prim.Native.Char
use Prim.Native.String
use grouvi_nox.Prelude.{
  Bool, List, Option, String, [], codes, eqb, false, find?, if◌then◌else◌, js_length, length, ltb,
  map, none, not, select, some, true, ℕ, ◌&&◌, ◌++◌, ◌+◌, ◌==◌, ◌||◌, ◌∷◌,
}
use grouvi_nox.Prelude.JsMap
use grouvi_nox.Prelude.JsMap.{JsMap}
use grouvi_nox.Policy.Texts.{Text, trim}

pub data Kind : Type 0 where
  login_kind : Kind
  register_kind : Kind

abbrev pub same_kind : Kind → Kind → Bool
same_kind login_kind login_kind = true
same_kind register_kind register_kind = true
same_kind _ _ = false

pub record Challenge : Type 0 where
  pub challenge : String
  pub kind : Kind
  pub expires_at : ℕ
  pub token_id : Option String

abbrev pub Challenges : Type 0
Challenges = JsMap Challenge

pub record Session : Type 0 where
  pub created_at : ℕ
  pub last_seen_at : ℕ
  pub ip : String
  pub credential_id : Option String
  pub revoked : Bool

pub record EnrollToken : Type 0 where
  pub id : String
  pub hash : String
  pub expires_at : ℕ
  pub used_at : Option ℕ
  pub note : String

pub record RecoveryCode : Type 0 where
  pub hash : String
  pub salt : String
  pub used_at : Option ℕ

pub record Credential : Type 0 where
  pub id : String
  pub public_key : String
  pub counter : ℕ
  pub label : String
  pub last_used_at : Option ℕ

-- The part of the store (`get()`) that the file works on.
pub record Store : Type 0 where
  pub sessions : JsMap Session
  pub enroll_tokens : List EnrollToken
  pub recovery_codes : List RecoveryCode
  pub credentials : List Credential

-- What a session token says: the name of the session and its end, "" or 0 where it is missing.
pub record Payload : Type 0 where
  pub sid : String
  pub iat : ℕ
  pub exp : ℕ

-- What the file takes from the platform and from its settings: `encode` is JSON.stringify with
-- base64url, `decode` its reverse (`none` where it throws).
pub record AuthEnv : Type 0 where
  pub hmac : String → String → String
  pub sha256 : String → String
  pub scrypt : Text → String → String
  pub encode : Payload → String
  pub decode : String → Option Payload
  pub to_upper : Text → Text
  pub session_secret : String
  pub challenge_ttl_ms : ℕ
  pub session_ttl_ms : ℕ
  pub enroll_token_ttl_ms : ℕ

-- setInterval: the challenges that are over are dropped.
unfoldable pub sweep_challenges : ℕ → Challenges → Challenges
sweep_challenges now cs = select (λ e. not (ltb e.1.expires_at now)) cs

abbrev pub is_used : Option ℕ → Bool
is_used none = false
is_used (some t) = not (eqb t 0)

-- (body, mac) at the last dot of a token
unfoldable pub at_last_dot : String → Option (String × String)
at_last_dot String.[] = none
at_last_dot (String.◌∷◌ c s) =
    let rest = at_last_dot s in
    elim rest [
      | some (body, mac) ↦ some (String.◌∷◌ c body, mac)
      | none ↦ if eqb (Char.code c) b'.' then some ("", s) else none
    ]

unfoldable pub take_challenge :
    ℕ → Option String → Kind → Challenges → Challenges × Option Challenge
take_challenge now none kind cs = (cs, none)
take_challenge now (some chid) kind cs = elim (JsMap.get cs chid) [
  | none ↦ (cs, none)
  | some c ↦ (
    JsMap.remove cs chid,
    if not (same_kind c.kind kind) || ltb c.expires_at now then none else some c,
  )
]

unfoldable pub find_session : ℕ → JsMap Session → Payload → Option (Payload × Session)
find_session now sessions p =
    if p.sid == "" || eqb p.exp 0 || ltb p.exp now then none else elim (JsMap.get sessions p.sid) [
      | none ↦ none
      | some s ↦ if s.revoked then none else some (p, s)
    ]

module _ (env : AuthEnv) where
  unfoldable pub put_challenge :
      String → ℕ → Kind → String → Option String → Challenges → Challenges
  put_challenge chid now kind challenge token_id cs = JsMap.put cs chid (record {
    challenge = challenge;
    kind = kind;
    expires_at = now + env.challenge_ttl_ms;
    token_id = token_id;
  })

  unfoldable pub sign_payload : Payload → String
  sign_payload p =
      let body = env.encode p in
      String.◌++◌ body (String.◌++◌ "." (env.hmac env.session_secret body))

  unfoldable pub decode_session : ℕ → JsMap Session → String → Option (Payload × Session)
  decode_session now sessions body = elim (env.decode body) [
    | none ↦ none
    | some p ↦ find_session now sessions p
  ]

  unfoldable pub verify_session_token : ℕ → JsMap Session → String → Option (Payload × Session)
  verify_session_token now sessions token = elim (at_last_dot token) [
    | none ↦ none
    | some (body, mac) ↦
        if body == ""
        then none
        else if not (mac == env.hmac env.session_secret body)
        then none
        else decode_session now sessions body
  ]

  unfoldable pub create_session : String → ℕ → String → Option String → Store → Store × String
  create_session sid now ip credential_id st = (
    record st {
      sessions = JsMap.put st.sessions sid (record {
        created_at = now;
        last_seen_at = now;
        ip = ip;
        credential_id = credential_id;
        revoked = false;
      });
    },
    sign_payload (record { sid = sid; iat = now; exp = now + env.session_ttl_ms }),
  )

  unfoldable pub destroy_session : ℕ → String → Store → Store
  destroy_session now token st = elim (verify_session_token now st.sessions token) [
    | none ↦ st
    | some (p, s) ↦ record st { sessions = JsMap.remove st.sessions p.sid }
  ]

  -- The middleware `requireAuth`: `none` is the answer 401.
  unfoldable pub require_auth : ℕ → String → Store → Store × Option Payload
  require_auth now token st = elim (verify_session_token now st.sessions token) [
    | none ↦ (st, none)
    | some (p, s) ↦ (
      if ltb (s.last_seen_at + 60000) now
          then record st {
            sessions = JsMap.put st.sessions p.sid (record s { last_seen_at = now });
          }
          else st,
      some p,
    )
  ]

  unfoldable pub create_enroll_token : String → String → ℕ → String → Store → Store
  create_enroll_token id raw now note st = record st {
    enroll_tokens =
        st.enroll_tokens
        ++ record {
          id = id;
          hash = env.sha256 raw;
          expires_at = now + env.enroll_token_ttl_ms;
          used_at = none;
          note = note;
        }
          ∷ [];
  }

  unfoldable pub find_enroll_token : String → ℕ → Store → Option EnrollToken
  find_enroll_token raw now st =
      if raw == "" || ltb 200 (js_length raw)
      then none
      else find? (λ t. not (is_used t.used_at) && ltb now t.expires_at && t.hash == env.sha256 raw)
          st.enroll_tokens

  -- The codes are drawn outside: each with its salt.
  unfoldable pub generate_recovery_codes : List (Text × String) → Store → Store
  generate_recovery_codes drawn st = record st {
    recovery_codes =
        map (λ d. record { hash = env.scrypt d.0 d.1; salt = d.1; used_at = none }) drawn;
  }

  -- The first code that fits is spent.
  unfoldable pub spend_code : Text → ℕ → List RecoveryCode → List RecoveryCode × Bool
  spend_code code now [] = ([], false)
  spend_code code now (rc ∷ rest) =
      let (rest', found) = spend_code code now rest in
      if not (is_used rc.used_at) && rc.hash == env.scrypt code rc.salt
      then (record rc { used_at = some now } ∷ rest, true)
      else (rc ∷ rest', found)

  unfoldable pub use_recovery_code : Text → ℕ → Store → Store × Bool
  use_recovery_code input now st =
      if eqb (length input) 0 || ltb 32 (length input)
      then (st, false)
      else let (codes, found) = spend_code (env.to_upper (trim input)) now st.recovery_codes in
        (record st { recovery_codes = codes }, found)

-- A token record is the one with its id.
unfoldable pub consume_enroll_token : String → ℕ → Store → Store
consume_enroll_token id now st = record st {
  enroll_tokens =
      map (λ t. if t.id == id then record t { used_at = some now } else t) st.enroll_tokens;
}

unfoldable pub add_credential : Credential → Store → Store
add_credential cred st = record st { credentials = st.credentials ++ cred ∷ [] }

abbrev pub touched : ℕ → ℕ → Credential → Credential
touched counter now c = record c { counter = counter; last_used_at = some now }

-- The first credential with the id.
unfoldable pub touch_first : String → ℕ → ℕ → List Credential → List Credential
touch_first id counter now [] = []
touch_first id counter now (c ∷ cs) =
    if c.id == id then touched counter now c ∷ cs else c ∷ touch_first id counter now cs

unfoldable pub touch_credential : String → ℕ → ℕ → Store → Store
touch_credential id counter now st = record st {
  credentials = touch_first id counter now st.credentials;
}
