-- ===== src/FleetLink/Examples.antt =====
-- The node of src/changes/fleet-link.js at concrete requests.
use Prim.Native.String
use grouvi_nox.Prelude.{
  Result, eqb, if◌then◌else◌, none, ◌*◌, ◌==◌, List, String, [], ap, arith, codes, eq_iff, err,
  failure, false, length, none, ok, refl, some, suc, true, zero, ℕ, ◌<◌, ◌∷◌, ◌≡◌, ◌≢◌, ◌≤◌,
}
use grouvi_nox.Prelude.JsMap
use grouvi_nox.FleetLink.{
  LinkEnv, Request, State, passed, refused, finished, control_request, payload_of, admit,
  check_request, limit_request, sweep, hit, hit_bucket, plain_ip, without_first, is_stale, is_valid,
  equal_hex, hex_bytes, hex_value, same_bytes, mac, signed_parts, join_lines, settle_job, start_job,
  job_answer, outcome_of, without_query, sent_body,
}
use grouvi_nox.FleetLink.Cases.{is_passed}
use grouvi_nox.FleetLink.Replay.{Arrival, InOrder, times_passed, passed_once}
use grouvi_nox.FleetLink.Signed.{IsAuthentic, admit-IsAuthentic}
use grouvi_nox.FleetLink.Rate.{InSpan, passed_from, passed_bounded}
use grouvi_nox.FleetLink.Calls.{
  HubEnv, Reply, call_and_wait, await_job, wait, after_poll, call, answer_of, body_of,
  without_slash, call_and_wait_ends,
}
use grouvi_nox.FleetLink.Jobs.{JobEvent, arrived, started, settled, Others, job_run, settled_answer}

-- A platform in which a number is written as so many bars, and a code is the secret's first letters.
abbrev bars : ℕ → String
bars zero = ""
bars (suc n) = String.◌∷◌ "|" (bars n)

abbrev toy : LinkEnv
toy = record {
  Json = String;
  sha256 = λ s. s;
  hmac = λ secret text. String.◌++◌ secret "ab";
  number = λ s. some (length (codes s));
  show = bars;
  parse = λ s. some s;
  no_payload = "{}";
}

abbrev a_nonce : String
a_nonce = "0123456789abcdef0123456789abcdef"

abbrev empty : State String
empty = record { seen = []; jobs = []; hits = [] }

-- The hub's call, signed at 3 by its clock.
abbrev a_call : Request
a_call = control_request toy "cd" 3 a_nonce "::ffff:10.0.0.7" "POST" "/v1/probe" "x"

abbrev call_at : ℕ → Arrival
call_at now = record { at = now; ips = "10.0.0.7" ∷ []; secrets = "cd" ∷ []; request = a_call }

once : (admit toy ("10.0.0.7" ∷ []) ("cd" ∷ []) 5 a_call empty).1 ≡ passed "x"
unfolding admit check_request limit_request sweep hit hit_bucket plain_ip without_first is_stale
    is_valid equal_hex hex_bytes hex_value same_bytes mac signed_parts join_lines control_request
    without_query sent_body payload_of JsMap.get JsMap.put
once = refl

wrong_secret :
    (admit toy ("10.0.0.7" ∷ []) ("ef" ∷ []) 5 a_call empty).1 ≡ refused 401 "bad_signature"
unfolding admit check_request limit_request sweep hit hit_bucket plain_ip without_first is_stale
    is_valid equal_hex hex_bytes hex_value same_bytes mac signed_parts join_lines control_request
    without_query sent_body payload_of JsMap.get JsMap.put
wrong_secret = refl

one_of_two : times_passed toy a_nonce "|||" empty (call_at 5 ∷ call_at 9 ∷ []) ≡ 1
unfolding admit check_request limit_request sweep hit hit_bucket plain_ip without_first is_stale
    is_valid equal_hex hex_bytes hex_value same_bytes mac signed_parts join_lines control_request
    without_query sent_body payload_of JsMap.get JsMap.put times_passed
one_of_two = refl

in_order : InOrder 0 (call_at 5 ∷ call_at 9 ∷ [])
unfolding InOrder
in_order = omega arith

passed_once_example : times_passed toy a_nonce "|||" empty (call_at 5 ∷ call_at 9 ∷ []) ≤ 1
passed_once_example = passed_once toy a_nonce "|||" 0 empty (call_at 5 ∷ call_at 9 ∷ []) in_order

passes_at_five : is_passed (admit toy ("10.0.0.7" ∷ []) ("cd" ∷ []) 5 a_call empty).1 ≡ true
passes_at_five = ap is_passed once

admit-IsAuthentic_example : IsAuthentic toy ("10.0.0.7" ∷ []) ("cd" ∷ []) 5 a_call
admit-IsAuthentic_example =
    admit-IsAuthentic toy ("10.0.0.7" ∷ []) ("cd" ∷ []) 5 a_call empty passes_at_five

in_span : InSpan 0 60000 (call_at 5 ∷ call_at 9 ∷ [])
unfolding InSpan
in_span = omega arith

passed_bounded_example : passed_from toy "10.0.0.7" empty (call_at 5 ∷ call_at 9 ∷ []) ≤ 240
passed_bounded_example = passed_bounded toy "10.0.0.7" 0 empty (call_at 5 ∷ call_at 9 ∷ []) in_span

abbrev some_events : List (JobEvent String)
some_events = started "k" 6 ∷ arrived (call_at 9) ∷ settled "k" (err (failure 409 "busy")) ∷ []

others : Others "j" 9 some_events
unfolding Others
others = (no_k, (omega arith, (no_k, tt)))
  where
    no_k : ◌≢◌ {A = String} "k" "j"
    no_k e = let same : false ≡ true = (eq_iff "k" "j").1 e in ground (arith, same)

settled_answer_example :
    job_answer (
      JsMap.get
        (job_run toy (settle_job "j" (ok "done") (start_job "j" 4 empty)) some_events).jobs
        "j")
    ≡ finished "done"
unfolding job_answer outcome_of
settled_answer_example =
    settled_answer toy "j" 4 9 (ok "done") empty some_events others (omega arith)

-- A node that starts the job, says once that it runs, and then gives the result.
abbrev toy_reply : ℕ → Reply String
toy_reply number =
    if eqb number 0
    then record { status = 202; content = "j" }
    else if eqb number 1
    then record { status = 202; content = "running" }
    else record { status = 200; content = "the result" }

abbrev toy_hub : HubEnv String
toy_hub = record {
  lookup = λ node. some ("https://node.example/", "cd");
  fetch = λ number url r. some (toy_reply number);
  own_ip = "10.0.0.7";
  sent_at = λ number. 3;
  nonce = λ number. a_nonce;
  round_at = λ k. k * 1500;
  stringify = λ s. s;
  encode = λ s. s;
  error_of = λ s. "";
  job_id = λ s. s;
  is_running = λ s. s == "running";
  result_of = λ s. s;
}

second_round : call_and_wait toy toy_hub 1200000 4 "n1" "/v1/apply" "x" ≡ some (ok "the result")
unfolding call_and_wait await_job wait after_poll call answer_of body_of without_slash
second_round = refl

-- After 4500 ms the fourth round gives up.
too_slow :
    call_and_wait toy (record toy_hub { is_running = λ s. true }) 4500 4 "n1" "/v1/apply" "x"
    ≡ some (err (failure 504 "node_timeout"))
unfolding call_and_wait await_job wait after_poll call answer_of body_of without_slash
too_slow = refl

call_and_wait_ends_example :
    (r : Result String) × ((m : ℕ)
      → 800 < m
      → call_and_wait toy toy_hub 1200000 m "n1" "/v1/apply" "x" ≡ some r)
call_and_wait_ends_example =
    call_and_wait_ends toy toy_hub 1500 1200000 800 "n1" "/v1/apply" "x" (λ j. omega arith)
      (omega arith)
