-- ===== src/Auth/Examples.antt =====
-- Signing in and out, and recovering, at concrete values.
use grouvi_nox.Prelude.{
  List, String, [], arith, eq_iff, eqb, false, if◌then◌else◌, length, none, refl, some, true, ℕ,
  ◌==◌, ◌∷◌, ◌≡◌, ◌≢◌, ◌≤◌,
}
use grouvi_nox.Prelude.JsMap
use grouvi_nox.Regex.Syntax.{is_space}
use grouvi_nox.Policy.Texts.{Text, trim, trim_start, trim_end, keep_before}
use grouvi_nox.Auth.{
  AuthEnv, Payload, Session, Store, Credential, login_kind, take_challenge, touch_first,
  touch_credential, sign_payload, create_session, find_session, decode_session,
  verify_session_token, at_last_dot, generate_recovery_codes, spend_code, use_recovery_code,
  destroy_session,
}
use grouvi_nox.Auth.Routes.{
  WebAuthn, Server, refused, login_verify, login_known, login_asserted, login_counted, sign_in,
}
use grouvi_nox.Auth.Codes.{AfterStart, recoveries, recoveries_bounded}
use grouvi_nox.Auth.Login.{is_signed_in, IsProven, login_verify-IsProven, login_verify_once}
use grouvi_nox.Auth.Sessions.{
  SessionEvent, created, ended, visited, NotCreated, session_run, signed_out_for_good,
}

abbrev toy : AuthEnv
toy = record {
  hmac = λ secret body. secret;
  sha256 = λ s. s;
  scrypt = λ code salt. if eqb (length code) 3 then salt else "";
  encode = λ p. p.sid;
  decode = λ body. some (record { sid = body; iat = 0; exp = 1000 });
  to_upper = λ s. s;
  session_secret = "key";
  challenge_ttl_ms = 120;
  session_ttl_ms = 900;
  enroll_token_ttl_ms = 200;
}

-- An authenticator whose response is the challenge that it signed.
abbrev passkeys : WebAuthn
passkeys = record {
  Response = String;
  response_id = λ r. some "c1";
  authenticate =
      λ r challenge cred. some (record { verified = r == challenge; new_counter = some 8 });
  register = λ r challenge. none;
}

abbrev a_credential : Credential
a_credential = record {
  id = "c1";
  public_key = "pk";
  counter = 7;
  label = "Phone";
  last_used_at = none;
}

abbrev a_session : Session
a_session = record {
  created_at = 1;
  last_seen_at = 1;
  ip = "10.0.0.1";
  credential_id = some "c1";
  revoked = false;
}

abbrev a_store : Store
a_store = record {
  sessions = ("s1", a_session) ∷ [];
  enroll_tokens = [];
  recovery_codes = [];
  credentials = a_credential ∷ [];
}

abbrev a_server : Server
a_server = record {
  store = a_store;
  challenges =
      ("ch", record { challenge = "xyz"; kind = login_kind; expires_at = 130; token_id = none })
      ∷ [];
}

gets_in :
    is_signed_in (login_verify toy passkeys "s2" "10.0.0.1" 50 (some "ch") "xyz" a_server).1 ≡ true
unfolding login_verify login_known login_asserted login_counted sign_in create_session
    take_challenge sign_payload touch_credential touch_first JsMap.get JsMap.put JsMap.remove
gets_in = refl

-- The same response to another challenge, and after the challenge is over.
stays_out :
    ((login_verify toy passkeys "s2" "10.0.0.1" 50 (some "ch") "abc" a_server).1
      ≡ refused 403 "verification_failed")
    × ((login_verify toy passkeys "s2" "10.0.0.1" 131 (some "ch") "xyz" a_server).1
        ≡ refused 400 "challenge_expired")
unfolding login_verify login_known login_asserted login_counted sign_in create_session
    take_challenge sign_payload touch_credential touch_first JsMap.get JsMap.put JsMap.remove
stays_out = (refl, refl)

login_verify-IsProven_example : IsProven passkeys 50 (some "ch") "xyz" a_server
login_verify-IsProven_example =
    login_verify-IsProven toy passkeys "s2" "10.0.0.1" 50 (some "ch") "xyz" a_server gets_in

login_verify_once_example :
    (login_verify toy passkeys "s2" "10.0.0.1" 60
      (some "ch")
      "xyz"
      (login_verify toy passkeys "s2" "10.0.0.1" 50 (some "ch") "xyz" a_server).0).1
    ≡ refused 400 "challenge_expired"
login_verify_once_example =
    login_verify_once toy passkeys "s2" "10.0.0.1" 50 60 "ch" "xyz" "xyz" a_server

abbrev a_payload : Payload
a_payload = record { sid = "s1"; iat = 0; exp = 1000 }

is_good : verify_session_token toy 50 a_store.sessions "s1.key" ≡ some (a_payload, a_session)
unfolding verify_session_token decode_session find_session at_last_dot JsMap.get
is_good = refl

abbrev some_events : List SessionEvent
some_events = created "s2" 60 "10.0.0.1" (some "c1") ∷ visited 70 "s2.key" ∷ ended 80 "s2.key" ∷ []

not_created : NotCreated "s1" some_events
unfolding NotCreated
not_created = (other, tt)
  where
    other : ◌≢◌ {A = String} "s2" "s1"
    other e = let same : false ≡ true = (eq_iff "s2" "s1").1 e in ground (arith, same)

signed_out_for_good_example :
    verify_session_token toy 90
      (session_run toy (destroy_session toy 50 "s1.key" a_store) some_events).sessions
      "s1.key"
    ≡ none
signed_out_for_good_example =
    signed_out_for_good toy 50 90 "s1.key" a_store a_payload a_session some_events is_good
      not_created

abbrev two_codes : List (Text × String)
two_codes = (b'A' ∷ b'B' ∷ b'C' ∷ [], "p") ∷ (b'D' ∷ b'E' ∷ b'F' ∷ [], "q") ∷ []

abbrev three_attempts : List (ℕ × Text)
three_attempts =
    (5, b'A' ∷ b'B' ∷ b'C' ∷ [])
    ∷ (6, b'A' ∷ b'B' ∷ [])
    ∷ (7, b' ' ∷ b'D' ∷ b'E' ∷ b'F' ∷ [])
    ∷ (8, b'A' ∷ b'B' ∷ b'C' ∷ [])
    ∷ []

two_recoveries : recoveries toy three_attempts (generate_recovery_codes toy two_codes a_store) ≡ 2
unfolding recoveries use_recovery_code spend_code generate_recovery_codes trim trim_start trim_end
    keep_before is_space
two_recoveries = refl

after_start : AfterStart three_attempts
unfolding AfterStart
after_start = omega arith

recoveries_bounded_example :
    recoveries toy three_attempts (generate_recovery_codes toy two_codes a_store) ≤ 2
recoveries_bounded_example = recoveries_bounded toy two_codes three_attempts a_store after_start
