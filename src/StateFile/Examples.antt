-- ===== src/StateFile/Examples.antt =====
-- Runs on a state with an old session, and on a small state file.
use grouvi_nox.Prelude.{
  Bool, Option, String, [], ap, arith, eqb, false, length, none, not, refl, some, sym, true, ℕ, ◌∷◌,
  ◌≡◌,
}
use grouvi_nox.Prelude.JsMap
use grouvi_nox.Auth.{AuthEnv, Store, Session, Payload, verify_session_token, find_enroll_token}
use grouvi_nox.StateFile.{Fields, Process, save, get, ensure_fresh, refreshed, prune}
use grouvi_nox.StateFile.Pruned.{Unique, EndsInTime, prune_unseen}

-- A token is the name of its session, a dot and the key.
abbrev toy : AuthEnv
toy = record {
  hmac = λ secret body. secret;
  sha256 = λ s. s;
  scrypt = λ code salt. salt;
  encode = λ p. p.sid;
  decode = λ body. some (record { sid = body; iat = 0; exp = 900 });
  to_upper = λ s. s;
  session_secret = "key";
  challenge_ttl_ms = 120;
  session_ttl_ms = 900;
  enroll_token_ttl_ms = 200;
}

abbrev session_from : ℕ → Bool → Session
session_from at revoked = record {
  created_at = at;
  last_seen_at = at;
  ip = "10.0.0.1";
  credential_id = none;
  revoked = revoked;
}

abbrev a_store : Store
a_store = record {
  sessions =
      ("s1", session_from 0 false)
      ∷ ("s2", session_from 500 false)
      ∷ ("s3", session_from 600 true)
      ∷ [];
  enroll_tokens =
      record { id = "t1"; hash = "one"; expires_at = 100; used_at = none; note = "" }
      ∷ record { id = "t2"; hash = "two"; expires_at = 5000; used_at = none; note = "" }
      ∷ [];
  recovery_codes = [];
  credentials = [];
}

-- At 1000 the first session, the revoked one and the first token go.
dropped :
    ((prune 900 1000 a_store).sessions ≡ ("s2", session_from 500 false) ∷ [])
    × (length (prune 900 1000 a_store).enroll_tokens ≡ 1)
unfolding prune
dropped = (refl, refl)

names_once : Unique a_store.sessions
unfolding JsMap.get
names_once = (refl, (refl, (refl, tt)))

ends_at_900 :
    (body : String) (p : Payload)
    → some (record { sid = body; iat = 0; exp = 900 }) ≡ some p
    → p.exp ≡ 900
ends_at_900 body p e = sym (ap (λ (o : Option Payload). elim o [ none ↦ 900 | some q ↦ q.exp ]) e)

ends_in_time : EndsInTime toy "s2.key" a_store.sessions
ends_in_time body mac p parts signed read s found = omega (arith, ends_at_900 body p read)

prune_unseen_example :
    (verify_session_token toy 1000 (prune 900 1000 a_store).sessions "s2.key"
      ≡ verify_session_token toy 1000 a_store.sessions "s2.key")
    × (find_enroll_token toy "two" 1000 (prune 900 1000 a_store)
        ≡ find_enroll_token toy "two" 1000 a_store)
prune_unseen_example =
    prune_unseen toy 1000 1000 a_store "s2.key" "two" names_once (omega arith) ends_in_time

-- A state is a number, 0 where it has no secret.
abbrev numbers : Fields ℕ
numbers = record {
  defaults = 7;
  normalise = λ n. (n, false);
  has_secret = λ n. not (eqb n 0);
  with_secret_of = λ old n. old;
}

abbrev service : Process ℕ
service = record { state = some 3; known_mtime = 10; last_checked_at = 20 }

-- What a process saved it reads back.
read_back :
    (get numbers 290 (save numbers 40 5 service).0 (save numbers 40 5 service).1).0.state ≡ some 5
unfolding get save ensure_fresh
read_back = refl

-- Within 250 ms of its last look a process still has the old state.
not_yet_seen : (get numbers 260 service (save numbers 40 5 service).1).0.state ≡ some 3
unfolding get save ensure_fresh
not_yet_seen = refl

-- Later than that it has the new one, with its own secret.
seen_later :
    (get numbers 290 service (save numbers 40 5 service).1).0.state ≡ some (refreshed numbers 3 5)
unfolding get save ensure_fresh
seen_later = refl
