-- ===== src/FleetHub/Ingest.antt =====
-- What the hub of src/fleet.js takes from a node: a snapshot that the node itself signed, into the
-- node's own row.
use grouvi_nox.Prelude.{
  Bool-cases, Memᴰ, String, ap, eq_iff, inl, inr, refl, some, sym, true, ℕ, ◌+◌, ◌==◌, ◌∙◌, ◌≡◌,
  ◌≤◌, ◌⊎◌,
}
use grouvi_nox.Prelude.JsMap
use grouvi_nox.Prelude.JsMap.{JsMap, get-put}
use grouvi_nox.FleetLink.{LinkEnv, skew_ms}
use grouvi_nox.FleetLink.Signed.{any-Memᴰ, near_time}
use grouvi_nox.FleetHub.{
  Fields, Settings, NodeRow, State, Request, Answer, safe_equal, cleanup_nonces, node_secrets,
  is_node_name, sign, is_payload_of, is_signed, ingest,
}
use grouvi_nox.FleetHub.Cases.{IsChecked, check_push-cases, counted_state, ingest-cases}

module _ (env : LinkEnv) (fields : Fields env.Json) where
  -- What a secret's holder signed, on time, for the node's name.
  pub record IsAuthentic (settings : Settings) (now : ℕ) (r : Request) : Type 0 where
    pub named : is_node_name r.node ≡ true
    pub secret : String
    pub is_secret : Memᴰ secret (node_secrets (settings.secrets r.node))
    pub signed : safe_equal r.signature (sign env fields secret r.timestamp r.nonce r.body) ≡ true
    pub time : ℕ
    pub timestamp : env.number r.timestamp ≡ some time
    pub not_older : now ≤ time + skew_ms
    pub not_newer : time ≤ now + skew_ms

  checked-IsAuthentic :
      (settings : Settings) (now : ℕ) (r : Request) (st : State env.Json)
      (after : State env.Json × Answer)
      → is_node_name r.node ≡ true
      → IsChecked env fields (node_secrets (settings.secrets r.node)) now r st after
      → IsAuthentic settings now r
  unfolding is_signed
  checked-IsAuthentic settings now r st after named c =
      let (secret, is_secret, signed) = any-Memᴰ _ _ c.signed in
      let (t, e, older, newer) = near_time now (env.number r.timestamp) c.fresh in
      record {
        named = named;
        secret = secret;
        is_secret = is_secret;
        signed = signed;
        time = t;
        timestamp = e;
        not_older = older;
        not_newer = newer;
      }

  put_row :
      (nodes nodes' : JsMap (NodeRow env.Json)) (node id : String) (row : NodeRow env.Json)
      → nodes' ≡ JsMap.put nodes node row
      → (JsMap.get nodes' id ≡ JsMap.get nodes id)
        ⊎ ((node ≡ id) × (JsMap.get nodes' id ≡ some row))
  put_row nodes nodes' node id row e = elim (Bool-cases (node == id)) [
    | inl same ↦ inr ((eq_iff node id).0 same, rw e (get-put nodes node id row ∙ (rw same refl)))
    | inr other ↦ inl (rw e (get-put nodes node id row ∙ (rw other refl)))
  ]

  -- A request changes at most the row of the node that it names, and only if it is signed under one
  -- of that node's secrets, over its timestamp, nonce and body, within a minute of the hub's clock;
  -- the row then holds the payload of that body, which names the same node.
  pub ingest-IsAuthentic :
      (settings : Settings) (now : ℕ) (r : Request) (st : State env.Json) (id : String)
      → (JsMap.get (ingest env fields settings now r st).0.nodes id ≡ JsMap.get st.nodes id)
        ⊎ ((r.node ≡ id)
            × IsAuthentic settings now r
            × (row : NodeRow env.Json) × (JsMap.get (ingest env fields settings now r st).0.nodes id
                ≡ some row)
            × (env.parse r.body ≡ some row.payload)
            × (is_payload_of env fields r row.payload ≡ true))
  unfolding cleanup_nonces
  ingest-IsAuthentic settings now r st id = elim (ingest-cases env fields settings now r st) [
    | inl left ↦ inl (ap (λ m. JsMap.get m id) left.same_nodes)
    | inr named ↦
        let counted = counted_state env fields settings now r st in
        elim (check_push-cases env fields (node_secrets (settings.secrets r.node)) now r counted) [
          | inl left ↦ inl (rw named.tested (ap (λ m. JsMap.get m id) left.same_nodes))
          | inr c ↦
              let kept = c.stored in
              elim (put_row st.nodes _ r.node id kept.row kept.nodes) [
                | inl same ↦ inl (rw named.tested same)
                | inr (is_id, written) ↦ inr (
                  is_id,
                  checked-IsAuthentic settings now r counted _ named.named c,
                  kept.row,
                  (rw named.tested written),
                  (kept.parsed ∙ ap some (sym kept.its_payload)),
                  (rw kept.its_payload kept.own),
                )
              ]
        ]
  ]
