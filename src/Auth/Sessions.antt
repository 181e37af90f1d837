-- ===== src/Auth/Sessions.antt =====
-- The sessions of src/auth.js: what a new session's cookie is good for, and that nothing brings a
-- session back that was signed out.
use grouvi_nox.Prelude.{
  some-injective, Bool, Bool-cases, List, Option, Option-cases, String, [], ap, arith, eq_iff,
  eq_refl, eqb, false, if◌then◌else◌, inl, inr, ltb, none, refl, some, subst, sym, true, ℕ, ◌+◌,
  ◌==◌, ◌||◌, ◌∙◌, ◌∷◌, ◌≡◌, ◌≢◌,
}
use grouvi_nox.Prelude.JsMap
use grouvi_nox.Prelude.JsMap.{JsMap, get-put, get-remove}
use grouvi_nox.Auth.{
  AuthEnv, Payload, Session, Store, at_last_dot, find_session, decode_session, verify_session_token,
  create_session, destroy_session, require_auth,
}

-- What changes the sessions: a sign-in, a sign-out, and a request with a session's cookie.
pub data SessionEvent : Type 0 where
  created : String → ℕ → String → Option String → SessionEvent
  ended : ℕ → String → SessionEvent
  visited : ℕ → String → SessionEvent

-- None of the new sessions has the name `sid`.
unfoldable pub NotCreated : String → List SessionEvent → Type 0
NotCreated sid [] = Unit {0}
NotCreated sid (created s now ip cred ∷ rest) = (s ≢ sid) × NotCreated sid rest
NotCreated sid (ended now token ∷ rest) = NotCreated sid rest
NotCreated sid (visited now token ∷ rest) = NotCreated sid rest

if_some {ℓ} :
    {A : Type ℓ} (b : Bool) (o : Option A) (a : A)
    → (if b then none else o) ≡ some a
    → (b ≡ false) × (o ≡ some a)
if_some true o a h = absurd (ground (arith, h))
if_some false o a h = (refl, h)

if_none {ℓ} : {A : Type ℓ} (b : Bool) (o : Option A) → o ≡ none → (if b then none else o) ≡ none
if_none true o h = refl
if_none false o h = h

found_session :
    (now : ℕ) (sessions : JsMap Session) (q p : Payload) (s : Session)
    → find_session now sessions q ≡ some (p, s)
    → (q ≡ p) × (JsMap.get sessions p.sid ≡ some s)
unfolding find_session
found_session now sessions q p s h = elim (Option-cases (JsMap.get sessions q.sid)) [
  | inl gone ↦
      let (_, h') =
        if_some (q.sid == "" || eqb q.exp 0 || ltb q.exp now) none (p, s)
          (rw (find_session, gone) at h) in
      absurd (ground (arith, h'))
  | inr (t, found) ↦
      let (_, h') = if_some _ _ (p, s) (rw (find_session, found) at h) in
      let (_, e) = if_some t.revoked (some (q, t)) (p, s) h' in
      let pair = some-injective (q, t) (p, s) e in
      let same = ap (λ (x : Payload × Session). x.0) pair in
      (
        same,
        subst (λ x. JsMap.get sessions x.sid ≡ some s) same
            (found ∙ ap (λ (x : Payload × Session). some x.1) pair),
      )
]

absent_session :
    (now : ℕ) (sessions : JsMap Session) (p : Payload)
    → JsMap.get sessions p.sid ≡ none
    → find_session now sessions p ≡ none
unfolding find_session
absent_session now sessions p gone = rw (find_session, gone) (if_none _ none refl)

module _ (env : AuthEnv) where
  unfoldable pub session_step : Store → SessionEvent → Store
  session_step st (created sid now ip cred) = (create_session env sid now ip cred st).0
  session_step st (ended now token) = destroy_session env now token st
  session_step st (visited now token) = (require_auth env now token st).0

  unfoldable pub session_run : Store → List SessionEvent → Store
  session_run st [] = st
  session_run st (e ∷ rest) = session_run (session_step st e) rest

  decoded_session :
      (now : ℕ) (sessions : JsMap Session) (body : String) (p : Payload) (s : Session)
      → decode_session env now sessions body ≡ some (p, s)
      → (q : Payload) × (env.decode body ≡ some q) × (find_session now sessions q ≡ some (p, s))
  unfolding decode_session
  decoded_session now sessions body p s h = elim (Option-cases (env.decode body)) [
    | inl nothing ↦
        let h' : none ≡ some (p, s) = rw (decode_session, nothing) at h in
        absurd (ground (arith, h'))
    | inr (q, decoded) ↦ (q, decoded, (rw (decode_session, decoded) at h))
  ]

  absent_decoded :
      (now : ℕ) (sessions : JsMap Session) (body : String) (q : Payload)
      → env.decode body ≡ some q
      → JsMap.get sessions q.sid ≡ none
      → decode_session env now sessions body ≡ none
  unfolding decode_session
  absent_decoded now sessions body q decoded gone =
      rw (decode_session, decoded) (absent_session now sessions q gone)

  -- A token that is accepted names a session of the store, and names it at all times.
  verified :
      (now : ℕ) (sessions : JsMap Session) (token : String) (p : Payload) (s : Session)
      → verify_session_token env now sessions token ≡ some (p, s)
      → (JsMap.get sessions p.sid ≡ some s)
        × ((later : ℕ) (others : JsMap Session)
            → JsMap.get others p.sid ≡ none
            → verify_session_token env later others token ≡ none)
  unfolding verify_session_token decode_session find_session
  verified now sessions token p s h = elim (Option-cases (at_last_dot token)) [
    | inl nothing ↦
        let h' : none ≡ some (p, s) = rw (verify_session_token, nothing) at h in
        absurd (ground (arith, h'))
    | inr ((body, mac), split) ↦
        let (_, h1) = if_some _ _ (p, s) (rw (verify_session_token, split) at h) in
        let (_, h2) = if_some _ _ (p, s) h1 in
        let (q, decoded, found) = decoded_session now sessions body p s h2 in
        let (same, has) = found_session now sessions q p s found in
        (
          has,
          λ later others gone.
              rw (verify_session_token, split)
                (if_none _ _ (
                  if_none _ _ (
                    absent_decoded later others body q decoded
                      (subst (λ x. JsMap.get others x.sid ≡ none) (sym same) gone)))),
        )
  ]

  absent_verified :
      (now : ℕ) (sid token : String) (st : Store) (p : Payload) (s : Session)
      → verify_session_token env now st.sessions token ≡ some (p, s)
      → JsMap.get st.sessions sid ≡ none
      → (p.sid == sid) ≡ false
  absent_verified now sid token st p s h gone = elim (Bool-cases (p.sid == sid)) [
    | inr differs ↦ differs
    | inl same ↦
        let (has, _) = verified now st.sessions token p s h in
        let bad : none ≡ some s =
          sym gone
          ∙ subst (λ x. JsMap.get st.sessions x ≡ some s) ((eq_iff p.sid sid).0 same) has in
        absurd (ground (arith, bad))
  ]

  step-absent :
      (sid : String) (st : Store) (e : SessionEvent) (rest : List SessionEvent)
      → NotCreated sid (e ∷ rest)
      → JsMap.get st.sessions sid ≡ none
      → (JsMap.get (session_step st e).sessions sid ≡ none) × NotCreated sid rest
  unfolding NotCreated session_step create_session destroy_session require_auth
  step-absent sid st (created name now ip cred) rest (other, h) gone =
      elim (Bool-cases (name == sid)) [
        | inl same ↦ absurd (other ((eq_iff name sid).0 same))
        | inr differs ↦ (get-put st.sessions name sid _ ∙ (rw differs gone), h)
      ]
  step-absent sid st (ended now token) rest h gone =
      elim (Option-cases (verify_session_token env now st.sessions token)) [
        | inl bad ↦ ((rw (destroy_session, bad) gone), h)
        | inr ((p, s), good) ↦
            let differs = absent_verified now sid token st p s good gone in
            ((rw (destroy_session, good) (get-remove st.sessions p.sid sid ∙ (rw differs gone))), h)
      ]
  step-absent sid st (visited now token) rest h gone =
      elim (Option-cases (verify_session_token env now st.sessions token)) [
        | inl bad ↦ ((rw (session_step, require_auth, bad) gone), h)
        | inr ((p, s), good) ↦
            let differs = absent_verified now sid token st p s good gone in
            elim (Bool-cases (ltb (s.last_seen_at + 60000) now)) [
              | inl long ↦ (
                (rw (session_step, require_auth, good, long)
                    (get-put st.sessions p.sid sid _ ∙ (rw differs gone))),
                h,
              )
              | inr short ↦ ((rw (session_step, require_auth, good, short) gone), h)
            ]
      ]

  run-absent :
      (sid : String) (st : Store) (events : List SessionEvent)
      → NotCreated sid events
      → JsMap.get st.sessions sid ≡ none
      → JsMap.get (session_run st events).sessions sid ≡ none
  unfolding session_run
  run-absent sid st [] h gone = gone
  run-absent sid st (e ∷ rest) h gone =
      let (gone', h') = step-absent sid st e rest h gone in
      run-absent sid (session_step st e) rest h' gone'

  destroyed :
      (now : ℕ) (token : String) (st : Store) (p : Payload) (s : Session)
      → verify_session_token env now st.sessions token ≡ some (p, s)
      → JsMap.get (destroy_session env now token st).sessions p.sid ≡ none
  unfolding destroy_session
  destroyed now token st p s good =
      rw (destroy_session, good) (get-remove st.sessions p.sid p.sid ∙ (rw (eq_refl p.sid) refl))

  -- Once the session of a token that was accepted has been signed out, the token is refused for
  -- good, after every sequence of sign-ins under other names, sign-outs and requests.
  pub signed_out_for_good :
      (now later : ℕ) (token : String) (st : Store) (p : Payload) (s : Session)
      (events : List SessionEvent)
      → verify_session_token env now st.sessions token ≡ some (p, s)
      → NotCreated p.sid events
      → verify_session_token env later
          (session_run (destroy_session env now token st) events).sessions
          token
        ≡ none
  signed_out_for_good now later token st p s events good h =
      let (_, refuses) = verified now st.sessions token p s good in
      refuses later _ (
        run-absent p.sid (destroy_session env now token st) events h
          (destroyed now token st p s good))
