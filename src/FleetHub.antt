-- ===== src/FleetHub.antt =====
-- The hub's side of the fleet's snapshots, src/fleet.js with src/db/fleet.js: `fleetIngestRouter` as a
-- function of the state and a request, what a node signs (`push`), and the table of the nodes.
-- Children: `Ingest` and `Once` prove, `Examples` holds the runs.
pub mod Cases
pub mod Ingest
pub mod Once
mod Examples
use Prim.Native.String
use grouvi_nox.Prelude.{
  Bool, Bool-cases, Failure, List, Memᴰ, Memᴰ-find?, Option, Option-cases, Result, String, [], all,
  all_codes, any, ap, arith, bind-ok, codes, drop, eq_iff, eq_refl, eqb, err, err-ok, failure,
  false, find?, get_last?, get_last?-append, guard, guard-ok, has_char, if◌then◌else◌, inl, inr,
  is_digit, is_hex, is_hex_of_length, js_length, leb, length, length-append, length-drop,
  length-select, length-take, ltb, map, max, min, none, not, ok, ok-injective, one_of, plain_error,
  refl, reverse, select, some, starts, starts_with, subst, suc, sym, take, take_last, tests, true,
  units, zero, ℕ, ◌%◌, ◌&&◌, ◌*◌, ◌++◌, ◌+◌, ◌-◌, ◌/◌, ◌<◌, ◌==◌, ◌>>=◌, ◌>>◌, ◌||◌, ◌↔◌, ◌∙◌, ◌∷◌,
  ◌≡◌, ◌≢◌, ◌≤◌, ◌⊎◌,
}
use grouvi_nox.Prelude.JsMap
use grouvi_nox.Prelude.JsMap.{JsMap}
use grouvi_nox.Regex.{test}
use grouvi_nox.Regex.Syntax.{regex_i}
use grouvi_nox.Policy.Texts.{utf16}
use grouvi_nox.RateLimit.{Bucket, Buckets, bucket_for, counted}
use grouvi_nox.FleetLink.{LinkEnv, hex_bytes, same_bytes, plain_ip, is_stale}

-- What the hub reads of a snapshot that is JSON, and the bytes that it takes as text.
pub record Fields (Json : Type 0) : Type 0 where
  pub is_schema_1 : Json → Bool
  pub node_id : Json → String
  pub has_snapshot : Json → Bool
  pub size : Json → ℕ
  pub public_url : Json → String

-- The settings: the secrets as they are written for a node, the listed addresses, the limit.
pub record Settings : Type 0 where
  pub secrets : String → List String
  pub allowed_ips : List String
  pub per_minute : ℕ

pub record NodeRow (Json : Type 0) : Type 0 where
  pub public_url : String
  pub first_seen : ℕ
  pub last_seen : ℕ
  pub payload : Json

pub record State (Json : Type 0) : Type 0 where
  pub nonces : JsMap ℕ
  pub buckets : Buckets
  pub nodes : JsMap (NodeRow Json)

pub record Request : Type 0 where
  pub ip : String
  pub node : String
  pub timestamp : String
  pub nonce : String
  pub signature : String
  pub body : String

pub data Answer : Type 0 where
  received : ℕ → Answer
  refused : ℕ → String → Answer

abbrev pub safe_equal : String → String → Bool
safe_equal a b = same_bytes (hex_bytes (codes a)) (hex_bytes (codes b))

unfoldable pub cleanup_nonces : {Json : Type 0} → ℕ → State Json → State Json
cleanup_nonces now st = record st {
  nonces = select (λ e. not (ltb (e.1 + 2 * 60000) now)) st.nonces;
  buckets = select (λ e. not (ltb e.1.reset now)) st.buckets;
}

unfoldable pub node_secrets : List String → List String
node_secrets written = take 2 (select (λ s. leb 32 (js_length s)) written)

-- `${nodeId}:${nonce}` and `${nodeId}:${ip}`
unfoldable pub node_key : String → String → String
node_key node s = String.◌++◌ node (String.◌++◌ ":" s)

unfoldable pub ingest_allowed : Settings → ℕ → String → String → Buckets → Buckets × Bool
ingest_allowed settings now node ip buckets =
    let key = node_key node ip in
    let b = counted (bucket_for 60000 now (JsMap.get buckets key)) in
    if not (eqb (length settings.allowed_ips) 0) && not (one_of settings.allowed_ips ip)
    then (buckets, false)
    else (JsMap.put buckets key b, leb b.count settings.per_minute)

unfoldable pub is_node_name : String → Bool
is_node_name node = test (regex_i "^[a-z0-9][a-z0-9_-]{1,63}$") (utf16 node)

module _ (env : LinkEnv) (fields : Fields env.Json) where
  unfoldable pub sign : String → String → String → String → String
  sign secret timestamp nonce body =
      env.hmac secret
        (String.◌++◌ timestamp (String.◌++◌ "." (String.◌++◌ nonce (String.◌++◌ "." body))))

  -- A push by a node, as it reaches the hub from the address `ip`.
  unfoldable pub push : String → ℕ → String → String → String → String → Request
  push secret now nonce ip node body = record {
    ip = ip;
    node = node;
    timestamp = env.show now;
    nonce = nonce;
    signature = sign secret (env.show now) nonce body;
    body = body;
  }

  abbrev pub first_seen_of : ℕ → Option (NodeRow env.Json) → ℕ
  first_seen_of now none = now
  first_seen_of now (some row) = row.first_seen

  -- INSERT … ON CONFLICT(node_id) DO UPDATE, which leaves `first_seen`.
  unfoldable pub ingest_fleet_snapshot :
      ℕ → String → env.Json → JsMap (NodeRow env.Json) → Option (JsMap (NodeRow env.Json))
  ingest_fleet_snapshot now node payload nodes =
      if ltb 2097152 (fields.size payload)
      then none
      else some (
          JsMap.put nodes node (record {
            public_url = fields.public_url payload;
            first_seen = first_seen_of now (JsMap.get nodes node);
            last_seen = now;
            payload = payload;
          }))

  unfoldable pub store_snapshot : ℕ → Request → env.Json → State env.Json → State env.Json × Answer
  store_snapshot now r payload st =
      let kept = record st { nonces = JsMap.put st.nonces (node_key r.node r.nonce) now } in
      elim (ingest_fleet_snapshot now r.node payload st.nodes) [
        | none ↦ (kept, refused 400 "invalid_snapshot")
        | some nodes ↦ (record kept { nodes = nodes }, received now)
      ]

  abbrev pub is_payload_of : Request → env.Json → Bool
  is_payload_of r payload =
      fields.is_schema_1 payload && fields.node_id payload == r.node && fields.has_snapshot payload

  unfoldable pub read_payload : ℕ → Request → State env.Json → State env.Json × Answer
  read_payload now r st = elim (env.parse r.body) [
    | none ↦ (st, refused 400 "bad_json")
    | some payload ↦
        if not (is_payload_of r payload)
        then (st, refused 400 "bad_payload")
        else store_snapshot now r payload st
  ]

  unfoldable pub is_signed : List String → Request → Bool
  is_signed secrets r =
      any (λ secret. safe_equal r.signature (sign secret r.timestamp r.nonce r.body)) secrets

  -- The tests behind the limit, in the state in which the request is counted.
  unfoldable pub check_push : List String → ℕ → Request → State env.Json → State env.Json × Answer
  check_push secrets now r st =
      if is_stale now (env.number r.timestamp)
      then (st, refused 401 "stale_request")
      else if not (is_hex_of_length 32 r.nonce)
      then (st, refused 409 "replay")
      else elim (JsMap.get st.nonces (node_key r.node r.nonce)) [
        | some at ↦ (st, refused 409 "replay")
        | none ↦
            if not (is_signed secrets r)
            then (st, refused 401 "bad_signature")
            else read_payload now r st
      ]

  unfoldable pub limit_push : Settings → ℕ → Request → State env.Json → State env.Json × Answer
  limit_push settings now r st =
      let (buckets, allowed) = ingest_allowed settings now r.node (plain_ip r.ip) st.buckets in
      let counted_st = record st { buckets = buckets } in
      if not allowed
      then (counted_st, refused 429 "ingest_limited")
      else check_push (node_secrets (settings.secrets r.node)) now r counted_st

  -- POST /v1/snapshot
  unfoldable pub ingest : Settings → ℕ → Request → State env.Json → State env.Json × Answer
  ingest settings now r st =
      let swept = cleanup_nonces now st in
      if eqb (length (node_secrets (settings.secrets r.node))) 0 || not (is_node_name r.node)
      then (swept, refused 401 "unknown_node")
      else limit_push settings now r swept

-- A row of `listFleetNodes`
unfoldable pub is_online : {Json : Type 0} → ℕ → ℕ → NodeRow Json → Bool
is_online offline now row = leb now (row.last_seen + offline)
