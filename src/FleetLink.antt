-- ===== src/FleetLink.antt =====
-- The control channel between the fleet's hub and a node, src/changes/fleet-link.js: what the hub
-- signs (`controlHeaders`), the node's middleware that admits a request, the answers of its routes
-- and its jobs. Children: `Calls` is the hub's client, `Replay`, `Signed`, `Rate` and `Jobs` prove,
-- `Examples` holds the runs.
pub mod Cases
pub mod Nonces
pub mod Replay
pub mod Signed
pub mod Rate
pub mod Jobs
pub mod Calls
mod Examples
use Prim.Native.String
use grouvi_nox.Prelude.{
  Bool, Failure, List, Option, Result, String, [], any, codes, eqb, err, false, if◌then◌else◌,
  is_hex, is_hex_of_length, leb, length, ltb, none, not, ok, one_of, select, some, starts_with, suc,
  true, zero, ℕ, ◌&&◌, ◌*◌, ◌+◌, ◌-◌, ◌==◌, ◌||◌, ◌∷◌,
}
use grouvi_nox.Prelude.JsMap
use grouvi_nox.Prelude.JsMap.{JsMap}
use grouvi_nox.RateLimit.{Bucket, Buckets, counted}

abbrev pub skew_ms : ℕ
skew_ms = 60000

-- What the file takes from the platform: the digests of node:crypto in hexadecimal, `Number` on a
-- header (`none` for what is not a finite number; times are whole milliseconds), `String` on a
-- time, and JSON.
pub record LinkEnv : Type 1 where
  pub Json : Type 0
  pub sha256 : String → String
  pub hmac : String → String → String
  pub number : String → Option ℕ
  pub show : ℕ → String
  pub parse : String → Option Json
  pub no_payload : Json

pub record Request : Type 0 where
  pub ip : String
  pub method : String
  pub path : String
  pub timestamp : String
  pub nonce : String
  pub signature : String
  pub body : String

pub data JobStatus (Json : Type 0) : Type 0 where
  running : JobStatus Json
  done : Json → JobStatus Json
  failed : String → ℕ → JobStatus Json

pub record Job (Json : Type 0) : Type 0 where
  pub status : JobStatus Json
  pub created_at : ℕ

pub record State (Json : Type 0) : Type 0 where
  pub seen : JsMap ℕ
  pub jobs : JsMap (Job Json)
  pub hits : Buckets

-- What the middleware does with a request: `next()`, with the payload, or an answer.
pub data Passage (Json : Type 0) : Type 0 where
  passed : Json → Passage Json
  refused : ℕ → String → Passage Json

unfoldable pub hex_value : ℕ → ℕ
hex_value c =
    if leb c b'9' then c - b'0' else if leb c b'F' then (c - b'A') + 10 else (c - b'a') + 10

abbrev pub is_hex_digit : ℕ → Bool
is_hex_digit c = is_hex c || (leb b'A' c && leb c b'F')

-- Buffer.from(s, 'hex'): it stops at the first pair that is not hexadecimal.
unfoldable pub hex_bytes : List ℕ → List ℕ
hex_bytes [] = []
hex_bytes (a ∷ []) = []
hex_bytes (a ∷ b ∷ s) =
    let rest = hex_bytes s in
    if is_hex_digit a && is_hex_digit b then (16 * hex_value a + hex_value b) ∷ rest else []

unfoldable pub same_bytes : List ℕ → List ℕ → Bool
same_bytes [] [] = true
same_bytes (a ∷ x) (b ∷ y) = eqb a b && same_bytes x y
same_bytes _ _ = false

unfoldable pub equal_hex : String → String → Bool
equal_hex a b =
    let x = hex_bytes (codes a) in let y = hex_bytes (codes b) in same_bytes x y && ltb 0 (length x)

unfoldable pub without_first : ℕ → String → String
without_first zero s = s
without_first (suc n) String.[] = ""
without_first (suc n) (String.◌∷◌ c s) = without_first n s

-- ip.replace(/^::ffff:/, '')
unfoldable pub plain_ip : String → String
plain_ip ip = if starts_with ip "::ffff:" then without_first 7 ip else ip

-- parts.join('\n')
unfoldable pub join_lines : List String → String
join_lines [] = ""
join_lines (p ∷ []) = p
join_lines (p ∷ q ∷ ps) = String.◌++◌ p (String.◌++◌ "\n" (join_lines (q ∷ ps)))

-- hits.get(ip) || { count: 0, reset: now() + 60_000 }, begun again when it is over
unfoldable pub hit_bucket : ℕ → Option Bucket → Bucket
hit_bucket now none = record { count = 0; reset = now + 60000 }
hit_bucket now (some b) = if ltb b.reset now then record { count = 0; reset = now + 60000 } else b

unfoldable pub hit : String → ℕ → Buckets → Buckets × Bool
hit ip now hits =
    let b = counted (hit_bucket now (JsMap.get hits ip)) in (JsMap.put hits ip b, ltb 120 b.count)

unfoldable pub sweep : {Json : Type 0} → ℕ → State Json → State Json
sweep now st = record st {
  seen = select (λ e. not (ltb (e.1 + 2 * skew_ms) now)) st.seen;
  jobs = select (λ e. not (ltb (e.1.created_at + 3600000) now)) st.jobs;
}

-- Math.abs(now() - t) > SKEW_MS, or t is not a finite number
unfoldable pub is_stale : ℕ → Option ℕ → Bool
is_stale now none = true
is_stale now (some t) = ltb skew_ms ((now - t) + (t - now))

-- The part of a URL that is `req.path`: what stands before the first question mark.
unfoldable pub without_query : String → String
without_query String.[] = ""
without_query (String.◌∷◌ c s) =
    let rest = without_query s in if starts_with (String.◌∷◌ c s) "?" then "" else String.◌∷◌ c rest

-- method === 'GET' ? undefined : body
unfoldable pub sent_body : String → String → String
sent_body method body = if method == "GET" then "" else body

module _ (env : LinkEnv) where
  unfoldable pub mac : String → List String → String
  mac secret parts = env.hmac secret (join_lines parts)

  -- What the signature of a request is over.
  unfoldable pub signed_parts : Request → List String
  signed_parts r =
      r.timestamp
      ∷ r.nonce
      ∷ r.method
      ∷ String.◌++◌ "/fleet-control" r.path
      ∷ env.sha256 r.body
      ∷ []

  -- A call by the hub, as it reaches the node from the address `ip`: `call` with `controlHeaders`.
  unfoldable pub control_request : String → ℕ → String → String → String → String → String → Request
  control_request secret now nonce ip method route body = record {
    ip = ip;
    method = method;
    path = without_query route;
    timestamp = env.show now;
    nonce = nonce;
    signature =
        mac secret (
          env.show now
          ∷ nonce
          ∷ method
          ∷ String.◌++◌ "/fleet-control" route
          ∷ env.sha256 body
          ∷ []);
    body = sent_body method body;
  }

  unfoldable pub is_valid : List String → Request → Bool
  is_valid secrets r = any (λ secret. equal_hex r.signature (mac secret (signed_parts r))) secrets

  unfoldable pub payload_of : Request → Passage env.Json
  payload_of r =
      if r.body == ""
      then passed env.no_payload
      else elim (env.parse r.body) [ none ↦ refused 400 "bad_json" | some v ↦ passed v ]

  -- The tests behind the rate limit, in the state in which the hit is counted.
  unfoldable pub check_request :
      List String → ℕ → Request → State env.Json → State env.Json × Passage env.Json
  check_request secrets now r st =
      if is_stale now (env.number r.timestamp)
      then (st, refused 401 "stale_request")
      else if not (is_hex_of_length 32 r.nonce)
      then (st, refused 409 "replay")
      else elim (JsMap.get st.seen r.nonce) [
        | some at ↦ (st, refused 409 "replay")
        | none ↦
            if not (is_valid secrets r)
            then (st, refused 401 "bad_signature")
            else (record st { seen = JsMap.put st.seen r.nonce now }, payload_of r)
      ]

  unfoldable pub limit_request :
      List String → ℕ → Request → State env.Json → State env.Json × Passage env.Json
  limit_request secrets now r st =
      let (hits, over) = hit (plain_ip r.ip) now st.hits in
      let counted_st = record st { hits = hits } in
      if over
      then (counted_st, refused 429 "rate_limited")
      else check_request secrets now r counted_st

  unfoldable pub admit :
      List String → List String → ℕ → Request → State env.Json → State env.Json × Passage env.Json
  admit ips secrets now r st =
      let swept = sweep now st in
      if eqb (length ips) 0
      then (swept, refused 403 "fleet_control_disabled")
      else if not (one_of ips (plain_ip r.ip))
      then (swept, refused 403 "forbidden")
      else limit_request secrets now r swept

-- The status of `relay` for a rejection of the broker.
unfoldable pub relay_status : Failure → ℕ
relay_status error = elim error.status [
  | none ↦ 502
  | some s ↦ if not (eqb s 0) && ltb s 600 then s else 502
]

unfoldable pub start_job : {Json : Type 0} → String → ℕ → State Json → State Json
start_job id now st = record st {
  jobs = JsMap.put st.jobs id (record { status = running; created_at = now });
}

-- What `then` and `catch` make of the job that they were started for.
unfoldable pub outcome_of : {Json : Type 0} → Result Json → JobStatus Json
outcome_of (ok result) = done result
outcome_of (err error) =
    failed error.message (elim error.status [ none ↦ 500 | some s ↦ if eqb s 0 then 500 else s ])

unfoldable pub settle_job : {Json : Type 0} → String → Result Json → State Json → State Json
settle_job id result st = elim (JsMap.get st.jobs id) [
  | none ↦ st
  | some job ↦ record st { jobs = JsMap.put st.jobs id (record job { status = outcome_of result }) }
]

pub data JobAnswer (Json : Type 0) : Type 0 where
  finished : Json → JobAnswer Json
  pending : JobAnswer Json
  job_error : ℕ → String → JobAnswer Json

unfoldable pub job_answer : {Json : Type 0} → Option (Job Json) → JobAnswer Json
job_answer none = job_error 404 "job_not_found"
job_answer (some job) = elim job.status [
  | running ↦ pending
  | failed message status ↦
      job_error (if leb 400 status && ltb status 600 then status else 500) message
  | done result ↦ finished result
]
