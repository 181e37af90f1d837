-- ===== src/StateFile/Pruned.antt =====
-- `prune` of src/store.js drops only what is of no use any more.
use grouvi_nox.Prelude.{
  Bool, Bool-cases, List, Option, Option-cases, String, [], ap, arith, eq_iff, eqb, false, find?,
  if◌then◌else◌, inl, inr, js_length, ltb, none, not, refl, select, some, sym, true, ℕ, ◌&&◌, ◌+◌,
  ◌==◌, ◌||◌, ◌∙◌, ◌∷◌, ◌≡◌, ◌≤◌,
}
use grouvi_nox.Prelude.JsMap
use grouvi_nox.Prelude.JsMap.{JsMap}
use grouvi_nox.Auth.{
  AuthEnv, Store, Session, Payload, EnrollToken, is_used, at_last_dot, find_session, decode_session,
  verify_session_token, find_enroll_token,
}
use grouvi_nox.StateFile.{is_live, is_open, prune}

-- One entry for a key, as a Map has.
abbrev pub Unique : JsMap Session → Type 0
Unique [] = Unit {0}
Unique ((k, s) ∷ more) = (JsMap.get more k ≡ none) × Unique more

abbrev kept : (Session → Bool) → Option Session → Option Session
kept live none = none
kept live (some s) = if live s then some s else none

get-select :
    (live : Session → Bool) (m : JsMap Session) (k : String)
    → Unique m
    → JsMap.get (select (λ e. live e.1) m) k ≡ kept live (JsMap.get m k)
unfolding JsMap.get
get-select live [] k u = refl
get-select live ((j, s) ∷ more) k (alone, u) =
    let rest = get-select live more k u in
    elim (Bool-cases (j == k)) [
      | inr other ↦ elim (Bool-cases (live s)) [
        | inl lives ↦ rw (lives, other) rest
        | inr ended ↦ rw (ended, other) rest
      ]
      | inl same ↦ elim (Bool-cases (live s)) [
        | inl lives ↦ rw (lives, same, lives) refl
        | inr ended ↦
            let absent : JsMap.get more k ≡ none =
              ap (JsMap.get more) (sym ((eq_iff j k).0 same)) ∙ alone in
            rw (ended, same, ended) (rest ∙ ap (kept live) absent)
      ]
    ]

-- No session outlives its token: what `createSession` writes into a token is not past its end.
abbrev pub InTime : ℕ → JsMap Session → Payload → Type 0
InTime ttl_ms m p = (s : Session) → JsMap.get m p.sid ≡ some s → p.exp ≤ s.created_at + ttl_ms

find_session-select :
    (ttl_ms now later : ℕ) (m : JsMap Session) (p : Payload)
    → Unique m
    → now ≤ later
    → InTime ttl_ms m p
    → find_session later (select (λ e. is_live ttl_ms now e.1) m) p ≡ find_session later m p
unfolding find_session
find_session-select ttl_ms now later m p u le in_time =
    elim (Bool-cases (p.sid == "" || eqb p.exp 0 || ltb p.exp later)) [
      | inl refused ↦ rw (find_session, refused) refl
      | inr running ↦ elim (Option-cases (JsMap.get m p.sid)) [
        | inl absent ↦
            rw (find_session, running, get-select (is_live ttl_ms now) m p.sid u, absent) refl
        | inr (s, found) ↦
            let same = get-select (is_live ttl_ms now) m p.sid u in
            elim (Bool-cases s.revoked) [
              | inl revoked ↦ rw (find_session, running, same, found, revoked) refl
              | inr active ↦
                  let young : ltb (s.created_at + ttl_ms) now ≡ false =
                    not_past (p.sid == "") (eqb p.exp 0) running (in_time s found) in
                  rw (find_session, running, same, found, active, young) refl
            ]
      ]
    ]
  where
    not_past :
        (a b : Bool) {created : ℕ}
        → (a || b || ltb p.exp later) ≡ false
        → p.exp ≤ created
        → ltb created now ≡ false
    not_past a b h e = ground (arith, h, e, le)

find?-select {ℓ} :
    {A : Type ℓ} (p q : A → Bool) (xs : List A)
    → ((x : A) → p x ≡ true → q x ≡ true)
    → find? p (select q xs) ≡ find? p xs
find?-select p q [] h = refl
find?-select p q (x ∷ xs) h =
    let rest = find?-select p q xs h in
    elim (Bool-cases (p x)) [
      | inl fits ↦ rw (h x fits, fits) refl
      | inr other ↦ elim (Bool-cases (q x)) [
        | inl kept_x ↦ rw (kept_x, other) rest
        | inr dropped ↦ rw (dropped, other) rest
      ]
    ]

module _ (env : AuthEnv) where
  -- What the token says, if it is one that the server signed, ends with its session.
  abbrev pub EndsInTime : String → JsMap Session → Type 0
  EndsInTime token m =
      (body mac : String) (p : Payload)
      → at_last_dot token ≡ some (body, mac)
      → (mac == env.hmac env.session_secret body) ≡ true
      → env.decode body ≡ some p
      → InTime env.session_ttl_ms m p

  decode-select :
      (now later : ℕ) (m : JsMap Session) (body : String)
      → Unique m
      → now ≤ later
      → ((p : Payload) → env.decode body ≡ some p → InTime env.session_ttl_ms m p)
      → decode_session env later (select (λ e. is_live env.session_ttl_ms now e.1) m) body
        ≡ decode_session env later m body
  unfolding decode_session
  decode-select now later m body u le in_time = elim (Option-cases (env.decode body)) [
    | inl odd ↦ rw (decode_session, odd) refl
    | inr (p, read) ↦
        rw (decode_session, read)
          (find_session-select env.session_ttl_ms now later m p u le (in_time p read))
  ]

  verify-select :
      (now later : ℕ) (m : JsMap Session) (token : String)
      → Unique m
      → now ≤ later
      → EndsInTime token m
      → verify_session_token env later (select (λ e. is_live env.session_ttl_ms now e.1) m) token
        ≡ verify_session_token env later m token
  unfolding verify_session_token
  verify-select now later m token u le in_time = elim (Option-cases (at_last_dot token)) [
    | inl bare ↦ rw (verify_session_token, bare) refl
    | inr ((body, mac), parts) ↦ elim (Bool-cases (mac == env.hmac env.session_secret body)) [
      | inr forged ↦ rw (verify_session_token, parts, forged) refl
      | inl signed ↦
          rw (verify_session_token, parts, signed)
            (ap (λ o. if body == "" then none else o)
              (decode-select now later m body u le (λ p. in_time body mac p parts signed)))
    ]
  ]

  -- Pruning the state at `now` changes no answer from then on: a session token is accepted or
  -- refused as before, and an enrolment token is found or not as before; if what the server signed
  -- into the token is not past its session's end, and a session's name stands once.
  pub prune_unseen :
      (now later : ℕ) (st : Store) (token raw : String)
      → Unique st.sessions
      → now ≤ later
      → EndsInTime token st.sessions
      → (verify_session_token env later (prune env.session_ttl_ms now st).sessions token
          ≡ verify_session_token env later st.sessions token)
        × (find_enroll_token env raw later (prune env.session_ttl_ms now st)
            ≡ find_enroll_token env raw later st)
  unfolding prune find_enroll_token
  prune_unseen now later st token raw u le in_time = (
    verify-select now later st.sessions token u le in_time,
    ap (λ o. if raw == "" || ltb 200 (js_length raw) then none else o)
        (find?-select _ (is_open now) st.enroll_tokens (λ t. still_open t)),
  )
    where
      still_open :
          (t : EnrollToken)
          → (not (is_used t.used_at) && ltb later t.expires_at && t.hash == env.sha256 raw) ≡ true
          → is_open now t ≡ true
      still_open t h = ground (arith, h, le)
