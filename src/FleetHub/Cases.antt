-- ===== src/FleetHub/Cases.antt =====
-- The ways in which the hub's `ingest` of src/fleet.js ends: it answers by itself and leaves the rows
-- of the nodes as they are, or it keeps the nonce and writes a row.
use grouvi_nox.Prelude.{
  Bool, Bool-cases, List, Option-cases, String, arith, eqb, false, inl, inr, is_hex_of_length,
  length, ltb, none, not, refl, some, true, ℕ, ◌||◌, ◌≡◌, ◌⊎◌,
}
use grouvi_nox.Prelude.JsMap
use grouvi_nox.Prelude.JsMap.{JsMap, get-put}
use grouvi_nox.FleetLink.{LinkEnv, is_stale, plain_ip}
use grouvi_nox.FleetHub.{
  Fields, Settings, NodeRow, State, Request, Answer, received, refused, cleanup_nonces,
  node_secrets, node_key, ingest_allowed, is_node_name, first_seen_of, ingest_fleet_snapshot,
  store_snapshot, is_payload_of, read_payload, is_signed, check_push, limit_push, ingest,
}

abbrev pub is_received : Answer → Bool
is_received (received at) = true
is_received (refused status reason) = false

module _ (env : LinkEnv) (fields : Fields env.Json) where
  -- The nodes are as before; the nonces too, unless the snapshot was too large.
  pub record IsRefused (now : ℕ) (r : Request) (st : State env.Json)
      (after : State env.Json × Answer) : Type 0 where
    pub same_nodes : after.0.nodes ≡ st.nodes
    pub answered : is_received after.1 ≡ false
    pub nonces :
        (after.0.nonces ≡ st.nonces)
        ⊎ ((JsMap.get st.nonces (node_key r.node r.nonce) ≡ none)
            × (after.0.nonces ≡ JsMap.put st.nonces (node_key r.node r.nonce) now))

  -- The nonce is kept and the node's row is written.
  pub record IsStored (now : ℕ) (r : Request) (st : State env.Json)
      (after : State env.Json × Answer) : Type 0 where
    pub payload : env.Json
    pub parsed : env.parse r.body ≡ some payload
    pub own : is_payload_of env fields r payload ≡ true
    pub row : NodeRow env.Json
    pub nonces : after.0.nonces ≡ JsMap.put st.nonces (node_key r.node r.nonce) now
    pub nodes : after.0.nodes ≡ JsMap.put st.nodes r.node row
    pub its_payload : row.payload ≡ payload

  pub record IsChecked (secrets : List String) (now : ℕ) (r : Request) (st : State env.Json)
      (after : State env.Json × Answer) : Type 0 where
    pub fresh : is_stale now (env.number r.timestamp) ≡ false
    pub hex : is_hex_of_length 32 r.nonce ≡ true
    pub unseen : JsMap.get st.nonces (node_key r.node r.nonce) ≡ none
    pub signed : is_signed env fields secrets r ≡ true
    pub stored : IsStored now r st after

  turned_away :
      (now status : ℕ) (reason : String) (r : Request) (st : State env.Json)
      → IsRefused now r st (st, refused status reason)
  turned_away now status reason r st = record {
    same_nodes = refl;
    answered = refl;
    nonces = inl refl;
  }

  store_snapshot-cases :
      (now : ℕ) (r : Request) (st : State env.Json) (payload : env.Json)
      → JsMap.get st.nonces (node_key r.node r.nonce) ≡ none
      → env.parse r.body ≡ some payload
      → is_payload_of env fields r payload ≡ true
      → IsRefused now r st (store_snapshot env fields now r payload st)
        ⊎ IsStored now r st (store_snapshot env fields now r payload st)
  unfolding store_snapshot ingest_fleet_snapshot
  store_snapshot-cases now r st payload unseen parsed own =
      elim (Bool-cases (ltb 2097152 (fields.size payload))) [
        | inl large ↦ inl (
            rw (store_snapshot, ingest_fleet_snapshot, large)
              (record { same_nodes = refl; answered = refl; nonces = inr (unseen, refl) }))
        | inr small ↦ inr (
            rw (store_snapshot, ingest_fleet_snapshot, small)
              (record {
                payload = payload;
                parsed = parsed;
                own = own;
                row = record {
                  public_url = fields.public_url payload;
                  first_seen = first_seen_of env fields now (JsMap.get st.nodes r.node);
                  last_seen = now;
                  payload = payload;
                };
                nonces = refl;
                nodes = refl;
                its_payload = refl;
              }))
      ]

  read_payload-cases :
      (now : ℕ) (r : Request) (st : State env.Json)
      → JsMap.get st.nonces (node_key r.node r.nonce) ≡ none
      → IsRefused now r st (read_payload env fields now r st)
        ⊎ IsStored now r st (read_payload env fields now r st)
  unfolding read_payload
  read_payload-cases now r st unseen = elim (Option-cases (env.parse r.body)) [
    | inl odd ↦ inl (rw (read_payload, odd) (turned_away now 400 "bad_json" r st))
    | inr (payload, parsed) ↦ elim (Bool-cases (is_payload_of env fields r payload)) [
      | inr other ↦ inl (rw (read_payload, parsed, other) (turned_away now 400 "bad_payload" r st))
      | inl own ↦ elim (store_snapshot-cases now r st payload unseen parsed own) [
        | inl left ↦ inl (rw (read_payload, parsed, own) left)
        | inr stored ↦ inr (rw (read_payload, parsed, own) stored)
      ]
    ]
  ]

  pub check_push-cases :
      (secrets : List String) (now : ℕ) (r : Request) (st : State env.Json)
      → IsRefused now r st (check_push env fields secrets now r st)
        ⊎ IsChecked secrets now r st (check_push env fields secrets now r st)
  unfolding check_push
  check_push-cases secrets now r st = elim (Bool-cases (is_stale now (env.number r.timestamp))) [
    | inl stale ↦ inl (rw stale (turned_away now 401 "stale_request" r st))
    | inr fresh ↦ elim (Bool-cases (is_hex_of_length 32 r.nonce)) [
      | inr odd ↦ inl (rw (fresh, odd) (turned_away now 409 "replay" r st))
      | inl hex ↦ elim (Option-cases (JsMap.get st.nonces (node_key r.node r.nonce))) [
        | inr (at, found) ↦ inl (rw (fresh, hex, found) (turned_away now 409 "replay" r st))
        | inl unseen ↦ elim (Bool-cases (is_signed env fields secrets r)) [
          | inr wrong ↦
              inl (rw (fresh, hex, unseen, wrong) (turned_away now 401 "bad_signature" r st))
          | inl signed ↦ elim (read_payload-cases now r st unseen) [
            | inl left ↦ inl (rw (fresh, hex, unseen, signed) left)
            | inr stored ↦ inr (
                rw (fresh, hex, unseen, signed)
                  (record {
                    fresh = fresh;
                    hex = hex;
                    unseen = unseen;
                    signed = signed;
                    stored = stored;
                  }))
          ]
        ]
      ]
    ]
  ]

  -- The state in which the tests behind the limit run.
  abbrev pub counted_state : Settings → ℕ → Request → State env.Json → State env.Json
  counted_state settings now r st = record (cleanup_nonces now st) {
    buckets =
        (ingest_allowed settings now r.node (plain_ip r.ip) (cleanup_nonces now st).buckets).0;
  }

  pub record IsNamed (settings : Settings) (now : ℕ) (r : Request) (st : State env.Json)
      : Type 0 where
    pub named : is_node_name r.node ≡ true
    pub tested :
        ingest env fields settings now r st
        ≡ check_push env fields
            (node_secrets (settings.secrets r.node))
            now
            r
            (counted_state settings now r st)

  pub ingest-cases :
      (settings : Settings) (now : ℕ) (r : Request) (st : State env.Json)
      → IsRefused now r (cleanup_nonces now st) (ingest env fields settings now r st)
        ⊎ IsNamed settings now r st
  unfolding ingest limit_push
  ingest-cases settings now r st =
      elim (Bool-cases
        (eqb (length (node_secrets (settings.secrets r.node))) 0 || not (is_node_name r.node))) [
          | inl unknown ↦
              inl (rw unknown (turned_away now 401 "unknown_node" r (cleanup_nonces now st)))
          | inr known ↦
              elim (Bool-cases (
                (ingest_allowed settings now r.node (plain_ip r.ip)
                  (cleanup_nonces now st).buckets).1)) [
                    | inr over ↦ inl (
                        rw (known, over)
                          (record { same_nodes = refl; answered = refl; nonces = inl refl }))
                    | inl under ↦
                        inr (record { named = right _ _ known; tested = rw (known, under) refl })
                  ]
        ]
    where
      right : (a b : Bool) → (a || not b) ≡ false → b ≡ true
      right a b h = ground (arith, h)
