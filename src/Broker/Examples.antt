-- ===== src/Broker/Examples.antt =====
-- Runs of the broker's listeners, and their theorems at concrete inputs.
use text.Mathlib.TextLemmas
use grouvi_nox.Prelude.{
  Bool-cases, List, String, [], arith, codes, drop, eq_iff, false, inl, inr, length, none, ok, refl,
  some, take, take_last, true, ℕ, ◌+◌, ◌-◌, ◌==◌, ◌∷◌, ◌≡◌, ◌≤◌,
}
use grouvi_nox.ProbeOutput.{shape, note, shape_long}
use grouvi_nox.Prelude.JsMap
use grouvi_nox.Approval
use grouvi_nox.Approval.{GateEnv, Credential, Request}
use grouvi_nox.Journal.{JournalEnv}
use grouvi_nox.Limits.{
  shift_old, push, locked, budget_window_ms, budget_limit, failure_window_ms, failure_limit,
}
use grouvi_nox.Limits.Window.{count_in}
use grouvi_nox.Limits.Steps.{passed}
use grouvi_nox.Broker.Interfaces.{BrokerEnv, Policy, Executor}
use grouvi_nox.Broker
use grouvi_nox.Broker.{
  State, Body, Reply, Payload, error, done, probed, probe_answer, probe_timeout,
}
use grouvi_nox.Broker.Control
use grouvi_nox.Broker.Control.{control, probe}
use grouvi_nox.Broker.Guarded.{RequestGuarded, control-Guarded}
use grouvi_nox.Broker.Untouched.{Untouched, probe-Untouched}
use grouvi_nox.Broker.Lockout
use grouvi_nox.Broker.Lockout.{rejections_bounded, lockout, recent_failures}
use grouvi_nox.Broker.Probes
use grouvi_nox.Broker.Probes.{probes_bounded}

abbrev some_hash : String
some_hash = "0123456789abcdef0123456789abcdef0123456789abcdef0123456789abcdef"

-- A proposal is a text that is its own normal form; the executor counts its calls.
abbrev toy_policy : Policy
toy_policy = record {
  Input = String;
  Proposal = String;
  normalize = λ s. ok s;
  proposal_hash = λ s. some_hash;
  classify = λ s. [];
  probe_allowed = λ argv. none;
  redact = λ t. t;
}

abbrev toy_executor : Executor toy_policy
toy_executor = record {
  State = ℕ;
  Answer = String;
  apply = λ n p c. (n + 1, ok p);
  rollback = λ n id force by key. (n + 1, ok id);
  find = λ n id. none;
  list = λ n k. [];
}

abbrev toy_gate : GateEnv
toy_gate = record {
  Assertion = String;
  assertion_id = λ a. some a;
  sha256 = λ s. s;
  authenticate = λ a c k. some true;
  ttl_ms = 90000;
}

mark_nonempty : (s : String) → (String.◌∷◌ "#" s == "") ≡ false
mark_nonempty s = elim (Bool-cases (String.◌∷◌ "#" s == "")) [
  | inl same ↦ absurd (TextLemmas.cons≢nil ((eq_iff (String.◌∷◌ "#" s) "").0 same))
  | inr other ↦ other
]

abbrev toy_journal : JournalEnv
toy_journal = record {
  sha256 = λ s. String.◌∷◌ "#" s;
  stringify = λ b. "{}";
  sha256_nonempty = mark_nonempty;
}

abbrev toy : BrokerEnv
toy = record {
  policy = toy_policy;
  executor = toy_executor;
  gate = toy_gate;
  journal = toy_journal;
  sha256_hex = λ s. some_hash;
  enabled = true;
  args_safe = λ argv. true;
  run_probe = λ argv t. record { code = 0; out = codes "up"; truncated = false };
  relay_probe = none;
  decode = λ s. some s;
  save_proposal = none;
}

abbrev keys : List Credential
keys = record { id = "key1"; public_key = "pk"; counter = 0; label = "" } ∷ []

abbrev start : State toy
start = record {
  failures = [];
  recent = [];
  spent = [];
  pending = [];
  exec = 0;
  log = [];
  notices = [];
}

abbrev body : String → Body toy
body nonce = record {
  argv = "uptime" ∷ [];
  timeout_sec = 0;
  node = "";
  purpose = "apply";
  change_id = "";
  proposal = "echo hi";
  nonce = nonce;
  assertion = some "key1";
  force = false;
}

abbrev post_to : String → String → Broker.Request toy
post_to path nonce = record { method = "POST"; path = path; limit = 0; body = ok (body nonce) }

-- A challenge, and the state that it leaves.
abbrev challenged : State toy
challenged = (control toy keys "n1" 1000 start (post_to "/challenge" "")).0

applies : (control toy keys "" 2000 challenged (post_to "/apply" "n1")).0.exec ≡ 1
unfolding control Control.control_enabled Control.other_route Control.get_route Control.with_body
    Control.post Control.challenge Control.challenge_apply Control.issued Control.unless_locked
    Control.apply Control.apply_normal Control.with_approval Control.approval_outcome
    Control.executed Approval.issue Approval.sweep Approval.verify locked shift_old JsMap.put
    JsMap.get JsMap.remove Broker.after_prefix
applies = refl

-- Without a challenge the same request is refused, noted, and counted as a failure.
refuses : (control toy keys "" 2000 start (post_to "/apply" "n1")).0.failures ≡ 2000 ∷ []
unfolding control Control.control_enabled Control.other_route Control.get_route Control.with_body
    Control.post Control.unless_locked Control.apply Control.apply_normal Control.with_approval
    Control.approval_outcome Broker.record_failure Broker.caught Approval.verify locked shift_old
    push JsMap.get JsMap.remove Broker.after_prefix
refuses = refl

control-Guarded_example :
    RequestGuarded toy keys 2000 challenged
      (control toy keys "" 2000 challenged (post_to "/apply" "n1")).0
      (post_to "/apply" "n1")
control-Guarded_example = control-Guarded toy keys "" 2000 challenged (post_to "/apply" "n1")

probe-Untouched_example :
    Untouched toy challenged (probe toy keys 2000 challenged (post_to "/probe" "")).0
probe-Untouched_example = probe-Untouched toy 2000 keys challenged (post_to "/probe" "")

abbrev six : State toy
six = record start { failures = 1 ∷ 2 ∷ 3 ∷ 4 ∷ 5 ∷ 6 ∷ [] }

six_recent : 6 ≤ length (recent_failures toy keys 10 six.failures)
six_recent = omega arith

lockout_example :
    let refusal : Control.Handled toy keys = (
      record six { failures = recent_failures toy keys 10 six.failures },
      ok (Broker.json toy 429 (error "too_many_failed_approvals")),
    ) in
    (Control.post toy keys "n" 10 "/challenge" six (body "n") ≡ refusal)
    × (Control.post toy keys "n" 10 "/apply" six (body "n") ≡ refusal)
    × (Control.post toy keys "n" 10 "/rollback" six (body "n") ≡ refusal)
lockout_example = lockout toy keys "n" 10 six (body "n") (omega arith) six_recent

rejections_bounded_example :
    count_in failure_window_ms 50 (
      passed failure_window_ms failure_limit
        (λ c. c.0)
        (Lockout.control_step toy keys)
        (λ s. s.failures)
        (Lockout.rejected toy keys)
        []
        start
        ((10, "", post_to "/apply" "n1") ∷ (20, "", post_to "/apply" "n1") ∷ []))
    ≤ failure_limit
rejections_bounded_example =
    rejections_bounded toy keys start
      ((10, "", post_to "/apply" "n1") ∷ (20, "", post_to "/apply" "n1") ∷ []) refl (omega arith) 50

probes_bounded_example :
    count_in budget_window_ms 50 (
      passed budget_window_ms budget_limit
        (λ c. c.0)
        (Probes.probe_step toy keys)
        (λ s. s.spent)
        (Probes.probe_ran toy keys)
        []
        start
        ((10, post_to "/probe" "") ∷ (20, post_to "/probe" "") ∷ []))
    ≤ budget_limit
probes_bounded_example =
    probes_bounded toy keys start ((10, post_to "/probe" "") ∷ (20, post_to "/probe" "") ∷ []) refl
      (omega arith) 50

shape_long_example :
    let s = shape 4 1 (codes "abcdef") in
    (s.truncated ≡ true)
    × (take 1 s.out ≡ take 1 (codes "abcdef"))
    × (drop (length s.out - 3) s.out ≡ take_last 3 (codes "abcdef"))
    × (length s.out ≡ 4 + length (note 2))
shape_long_example = shape_long 4 1 (codes "abcdef") (omega arith) (omega arith)
