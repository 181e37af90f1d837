-- ===== src/FleetHub/Examples.antt =====
-- The hub of src/fleet.js at concrete pushes.
use Prim.Native.String
use grouvi_nox.Prelude.{
  String, [], arith, codes, length, refl, some, suc, true, zero, ℕ, ◌∷◌, ◌≡◌, ◌≤◌, ◌⊎◌,
}
use grouvi_nox.Prelude.JsMap
use grouvi_nox.Regex.{test, run, scan, rounds, at_first, at_last, at_edge, is_word}
use grouvi_nox.Regex.Syntax.{regex_i, is_space}
use grouvi_nox.Policy.Texts.{utf16}
use grouvi_nox.RateLimit.{bucket_for}
use grouvi_nox.FleetLink.{
  LinkEnv, hex_bytes, hex_value, same_bytes, plain_ip, without_first, is_stale,
}
use grouvi_nox.FleetHub.{
  Fields, Settings, NodeRow, State, Request, received, cleanup_nonces, node_secrets, node_key,
  ingest_allowed, is_node_name, sign, push, ingest_fleet_snapshot, store_snapshot, is_payload_of,
  read_payload, is_signed, check_push, limit_push, ingest,
}
use grouvi_nox.FleetHub.Ingest.{IsAuthentic, ingest-IsAuthentic}
use grouvi_nox.FleetHub.Once.{Arrival, InOrder, times_taken, taken_once}

-- A platform in which a number is written as so many bars, a code is the secret's first letters and
-- a snapshot is the name of its node.
abbrev bars : ℕ → String
bars zero = ""
bars (suc n) = String.◌∷◌ "|" (bars n)

abbrev toy : LinkEnv
toy = record {
  Json = String;
  sha256 = λ s. s;
  hmac = λ secret text. String.◌++◌ secret "ab";
  number = λ s. some (length (codes s));
  show = bars;
  parse = λ s. some s;
  no_payload = "{}";
}

abbrev toy_fields : Fields String
toy_fields = record {
  is_schema_1 = λ p. true;
  node_id = λ p. p;
  has_snapshot = λ p. true;
  size = λ p. length (codes p);
  public_url = λ p. "https://node.example";
}

abbrev secret : String
secret = "00112233445566778899aabbccddeeff"

abbrev settings : Settings
settings = record { secrets = λ node. secret ∷ []; allowed_ips = []; per_minute = 30 }

abbrev a_nonce : String
a_nonce = "0123456789abcdef0123456789abcdef"

abbrev the_node : String
the_node = "n1"

abbrev empty : State String
empty = record { nonces = []; buckets = []; nodes = [] }

abbrev a_push : Request
a_push = push toy toy_fields secret 3 a_nonce "10.0.0.7" "n1" "n1"

is_taken : (ingest toy toy_fields settings 5 a_push empty).1 ≡ received 5
unfolding ingest limit_push check_push read_payload store_snapshot ingest_fleet_snapshot is_signed
    sign push is_node_name ingest_allowed node_key node_secrets cleanup_nonces bucket_for is_stale
    hex_bytes hex_value same_bytes plain_ip without_first test run scan rounds at_first at_last
    at_edge is_word regex_i is_space utf16 JsMap.get JsMap.put
is_taken = refl

is_written :
    JsMap.get (ingest toy toy_fields settings 5 a_push empty).0.nodes "n1"
    ≡ some (record {
      public_url = "https://node.example";
      first_seen = 5;
      last_seen = 5;
      payload = "n1";
    })
unfolding ingest limit_push check_push read_payload store_snapshot ingest_fleet_snapshot is_signed
    sign push is_node_name ingest_allowed node_key node_secrets cleanup_nonces bucket_for is_stale
    hex_bytes hex_value same_bytes plain_ip without_first test run scan rounds at_first at_last
    at_edge is_word regex_i is_space utf16 JsMap.get JsMap.put
is_written = refl

ingest-IsAuthentic_example :
    (JsMap.get (ingest toy toy_fields settings 5 a_push empty).0.nodes the_node
      ≡ JsMap.get empty.nodes the_node)
    ⊎ ((the_node ≡ the_node)
        × IsAuthentic toy toy_fields settings 5 a_push
        × (row : NodeRow String) × (JsMap.get
              (ingest toy toy_fields settings 5 a_push empty).0.nodes
              the_node
            ≡ some row)
        × (some the_node ≡ some row.payload)
        × (is_payload_of toy toy_fields a_push row.payload ≡ true))
unfolding push
ingest-IsAuthentic_example = ingest-IsAuthentic toy toy_fields settings 5 a_push empty the_node

abbrev push_at : ℕ → Arrival
push_at now = record { at = now; settings = settings; request = a_push }

in_order : InOrder 0 (push_at 5 ∷ push_at 9 ∷ [])
unfolding InOrder
in_order = omega arith

one_of_two :
    times_taken toy toy_fields (node_key "n1" a_nonce) "|||" empty (push_at 5 ∷ push_at 9 ∷ []) ≡ 1
unfolding ingest limit_push check_push read_payload store_snapshot ingest_fleet_snapshot is_signed
    sign push is_node_name ingest_allowed node_key node_secrets cleanup_nonces bucket_for is_stale
    hex_bytes hex_value same_bytes plain_ip without_first test run scan rounds at_first at_last
    at_edge is_word regex_i is_space utf16 JsMap.get JsMap.put times_taken
one_of_two = refl

taken_once_example :
    times_taken toy toy_fields (node_key "n1" a_nonce) "|||" empty (push_at 5 ∷ push_at 9 ∷ []) ≤ 1
taken_once_example =
    taken_once toy toy_fields (node_key "n1" a_nonce) "|||" 0 empty (push_at 5 ∷ push_at 9 ∷ [])
      in_order
