-- ===== src/FleetLink/Calls.antt =====
-- The hub's side of src/changes/fleet-link.js, `createControlClient`: a signed call of a node, and a
-- long operation that is started there and asked for until it has ended.
use Prim.Native.String
use grouvi_nox.Prelude.{
  Bool, Bool-cases, Failure, Option, Result, String, arith, eqb, err, failure, false, if◌then◌else◌,
  inl, inr, leb, ltb, none, ok, refl, some, suc, true, zero, ℕ, ◌<◌, ◌&&◌, ◌*◌, ◌+◌, ◌==◌, ◌||◌,
  ◌≡◌, ◌≤◌,
}
use grouvi_nox.FleetLink.{LinkEnv, Request, control_request}

pub record Reply (Json : Type 0) : Type 0 where
  pub status : ℕ
  pub content : Json

-- What the client takes from elsewhere: `lookup` with the node's address and secret, `fetch` by the
-- number of the call (none where it throws), the clock and the random nonce of each call, the time
-- at the top of each round of the loop, JSON and encodeURIComponent, and the fields of an answer.
pub record HubEnv (Json : Type 0) : Type 0 where
  pub lookup : String → Option (String × String)
  pub fetch : ℕ → String → Request → Option (Reply Json)
  pub own_ip : String
  pub sent_at : ℕ → ℕ
  pub nonce : ℕ → String
  pub round_at : ℕ → ℕ
  pub stringify : Json → String
  pub encode : String → String
  pub error_of : Json → String
  pub job_id : Json → String
  pub is_running : Json → Bool
  pub result_of : Json → Json

-- url.replace(/\/$/, '')
unfoldable pub without_slash : String → String
without_slash String.[] = ""
without_slash (String.◌∷◌ c s) =
    let rest = without_slash s in if String.◌∷◌ c s == "/" then "" else String.◌∷◌ c rest

module _ (env : LinkEnv) (hub : HubEnv env.Json) where
  unfoldable pub body_of : Option env.Json → String
  body_of none = ""
  body_of (some payload) = hub.stringify payload

  unfoldable pub answer_of : Option (Reply env.Json) → Result env.Json
  answer_of none = err (failure 502 "node_unreachable")
  answer_of (some r) =
      if leb 200 r.status && ltb r.status 300
      then ok r.content
      else err (
          failure r.status (
            if hub.error_of r.content == ""
            then String.◌++◌ "node_http_" (env.show r.status)
            else hub.error_of r.content))

  -- The `number`-th call of a run.
  unfoldable pub call : ℕ → String → String → String → Option env.Json → Result env.Json
  call number node method route payload = elim (hub.lookup node) [
    | none ↦ err (failure 404 "node_unknown")
    | some (url, secret) ↦
        if url == "" || secret == ""
        then err (failure 404 "node_unknown")
        else answer_of (
            hub.fetch number (String.◌++◌ (without_slash url) (String.◌++◌ "/fleet-control" route))
              (control_request env secret (hub.sent_at number) (hub.nonce number) hub.own_ip method
                route (body_of payload)))
  ]

  abbrev pub is_202 : Failure → Bool
  is_202 e = elim e.status [ none ↦ false | some s ↦ eqb s 202 ]

  -- One answer about the job; `rest` is what the rounds after it give.
  unfoldable pub after_poll : Result env.Json → Option (Result env.Json) → Option (Result env.Json)
  after_poll (err e) rest = if is_202 e then rest else some (err e)
  after_poll (ok job) rest = if hub.is_running job then rest else some (ok (hub.result_of job))

  -- The loop from round `k` on, none if it has not ended after so many rounds.
  unfoldable pub wait : ℕ → ℕ → ℕ → String → String → Option (Result env.Json)
  wait zero k deadline node job = none
  wait (suc rounds) k deadline node job =
      let rest = wait rounds (suc k) deadline node job in
      if ltb (hub.round_at k) deadline
      then after_poll (call (suc k) node "GET" (String.◌++◌ "/v1/jobs/" (hub.encode job)) none) rest
      else some (err (failure 504 "node_timeout"))

  unfoldable pub await_job : ℕ → ℕ → String → Result env.Json → Option (Result env.Json)
  await_job max_ms rounds node (err e) = some (err e)
  await_job max_ms rounds node (ok started) =
      wait rounds 0 (hub.round_at 0 + max_ms) node (hub.job_id started)

  unfoldable pub call_and_wait : ℕ → ℕ → String → String → env.Json → Option (Result env.Json)
  call_and_wait max_ms rounds node route payload =
      await_job max_ms rounds node (call 0 node "POST" route (some payload))

  after_poll-ends :
      (answer : Result env.Json) (r : Result env.Json)
      → (r' : Result env.Json) × ((rest : Option (Result env.Json))
          → rest ≡ some r
          → after_poll answer rest ≡ some r')
  unfolding after_poll
  after_poll-ends (err e) r = elim (Bool-cases (is_202 e)) [
    | inl again ↦ (r, λ rest h. rw again h)
    | inr other ↦ (err e, λ rest h. rw other refl)
  ]
  after_poll-ends (ok job) r = elim (Bool-cases (hub.is_running job)) [
    | inl again ↦ (r, λ rest h. rw again h)
    | inr ended ↦ (ok (hub.result_of job), λ rest h. rw ended refl)
  ]

  wait_over :
      (k deadline : ℕ) (node job : String) (rounds : ℕ)
      → ltb (hub.round_at k) deadline ≡ false
      → 0 < rounds
      → wait rounds k deadline node job ≡ some (err (failure 504 "node_timeout"))
  unfolding wait
  wait_over k deadline node job zero ended positive = absurd (omega (arith, positive))
  wait_over k deadline node job (suc rounds) ended positive = rw ended refl

  wait_on :
      (k deadline : ℕ) (node job : String) (n rounds : ℕ) (r r' : Result env.Json)
      → ltb (hub.round_at k) deadline ≡ true
      → ((rest : Option (Result env.Json))
          → rest ≡ some r
          → after_poll
              (call (suc k) node "GET" (String.◌++◌ "/v1/jobs/" (hub.encode job)) none)
              rest
            ≡ some r')
      → ((m : ℕ) → n < m → wait m (suc k) deadline node job ≡ some r)
      → suc n < rounds
      → wait rounds k deadline node job ≡ some r'
  unfolding wait
  wait_on k deadline node job n zero r r' goes_on passed_on ends more = absurd (omega (arith, more))
  wait_on k deadline node job n (suc rounds) r r' goes_on passed_on ends more =
      rw goes_on (passed_on _ (ends rounds (omega (arith, more))))

  wait_ends :
      (poll_ms deadline : ℕ) (node job : String) (n k : ℕ)
      → ((j : ℕ) → hub.round_at j + poll_ms ≤ hub.round_at (suc j))
      → deadline ≤ hub.round_at k + n * poll_ms
      → (r : Result env.Json) × ((m : ℕ) → n < m → wait m k deadline node job ≡ some r)
  wait_ends poll_ms deadline node job zero k paced over =
      let ended : ltb (hub.round_at k) deadline ≡ false = ground (arith, over) in
      (err (failure 504 "node_timeout"), λ m. wait_over k deadline node job m ended)
  wait_ends poll_ms deadline node job (suc n) k paced over =
      let (r, rest_ends) =
        wait_ends poll_ms deadline node job n (suc k) paced (later (paced k) over) in
      let (r', passed_on) =
        after_poll-ends (call (suc k) node "GET" (String.◌++◌ "/v1/jobs/" (hub.encode job)) none)
          r in
      elim (Bool-cases (ltb (hub.round_at k) deadline)) [
        | inr ended ↦ (
          err (failure 504 "node_timeout"),
          λ m more. wait_over k deadline node job m ended (omega (arith, more)),
        )
        | inl goes_on ↦ (r', λ m. wait_on k deadline node job n m r r' goes_on passed_on rest_ends)
      ]
    where
      later :
          hub.round_at k + poll_ms ≤ hub.round_at (suc k)
          → deadline ≤ hub.round_at k + suc n * poll_ms
          → deadline ≤ hub.round_at (suc k) + n * poll_ms
      later paced_k over_k = omega (arith, paced_k, over_k)

  await_job_ends :
      (poll_ms max_ms n : ℕ) (node : String) (first : Result env.Json)
      → ((j : ℕ) → hub.round_at j + poll_ms ≤ hub.round_at (suc j))
      → max_ms ≤ n * poll_ms
      → (r : Result env.Json) × ((m : ℕ) → n < m → await_job max_ms m node first ≡ some r)
  unfolding await_job
  await_job_ends poll_ms max_ms n node (err e) paced enough = (err e, λ m more. refl)
  await_job_ends poll_ms max_ms n node (ok started) paced enough =
      wait_ends poll_ms (hub.round_at 0 + max_ms) node (hub.job_id started) n 0 paced
        (omega (arith, enough))

  -- A long operation on a node ends with a result or a failure: if a timer waits at least
  -- `poll_ms`, n + 1 rounds are enough where `max_ms` is at most n times `poll_ms`, and more
  -- rounds change nothing.
  pub call_and_wait_ends :
      (poll_ms max_ms n : ℕ) (node route : String) (payload : env.Json)
      → ((j : ℕ) → hub.round_at j + poll_ms ≤ hub.round_at (suc j))
      → max_ms ≤ n * poll_ms
      → (r : Result env.Json) × ((m : ℕ)
          → n < m
          → call_and_wait max_ms m node route payload ≡ some r)
  unfolding call_and_wait
  call_and_wait_ends poll_ms max_ms n node route payload paced enough =
      await_job_ends poll_ms max_ms n node (call 0 node "POST" route (some payload)) paced enough
