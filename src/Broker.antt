-- ===== src/Broker.antt =====
-- Request handling of the change broker, src/changes/broker.js: `probeRequest` and the two
-- listeners `control` and `probe` of `createBroker`. A handler takes the state and returns the new
-- one beside the reply. The clock is read once for a request, and a request runs to its end: the
-- waits of the code are inside calls of the interface.
pub mod Interfaces
pub mod Control
pub mod Untouched
pub mod Sanctioned
pub mod Guarded
pub mod Lockout
pub mod Probes
mod Examples
use Prim.Native.String
use Prim.Native.Char.{code}
use grouvi_nox.Prelude.{
  Bool, Bool-cases, Failure, List, Memᴰ, Memᴰ-find?, Option, Option-cases, Result, String, [], all,
  all_codes, any, ap, arith, codes, drop, eq_iff, eq_refl, eqb, err, failure, false, find?,
  get_last?, get_last?-append, guard, guard-ok, has_char, if◌then◌else◌, inl, inr, is_digit, is_hex,
  is_hex_of_length, js_length, leb, length, length-append, length-drop, length-select, length-take,
  ltb, map, max, min, none, not, ok, one_of, plain_error, refl, reverse, select, some, starts,
  starts_with, subst, suc, sym, take, take_last, tests, true, units, zero, ℕ, ◌%◌, ◌&&◌, ◌*◌, ◌++◌,
  ◌+◌, ◌-◌, ◌/◌, ◌<◌, ◌==◌, ◌>>=◌, ◌>>◌, ◌||◌, ◌↔◌, ◌∙◌, ◌∷◌, ◌≡◌, ◌≢◌, ◌≤◌, ◌⊎◌,
}
use grouvi_nox.Approval
use grouvi_nox.Approval.{Pending, Credential, Challenge, Who}
use grouvi_nox.Journal
use grouvi_nox.Journal.{Line, Record, Verdict}
use grouvi_nox.Limits.{Recent, locked, push, budget_exhausted, repeated_too_often}
use grouvi_nox.ProbeOutput.{Shaped, shape_probe_output}
use Interfaces.{BrokerEnv, Policy, Executor, Consent, Change, ProbeRun}

pub data Payload (A : Type 0) : Type 0 where
  error : String → Payload A
  refused : String → String → Payload A
  health : Bool → Verdict → Payload A
  changes : List Change → Payload A
  change : Change → Payload A
  journal : Verdict → List Record → Payload A
  probed : ℕ → List ℕ → Bool → Payload A
  challenge_issued : String → String → List String → Challenge → Payload A
  done : A → Payload A
  saved : String → List String → Payload A

-- What `json(res, status, payload)` writes.
pub record Reply (A : Type 0) : Type 0 where
  pub status : ℕ
  pub payload : Payload A

-- `s.slice(p.length)` if `s.startsWith(p)`
unfoldable pub after_prefix : String → String → Option String
after_prefix String.[] s = some s
after_prefix (String.◌∷◌ c p) String.[] = none
after_prefix (String.◌∷◌ c p) (String.◌∷◌ d s) =
    if eqb (code c) (code d) then after_prefix p s else none

-- Number(x) || fallback
abbrev pub or_default : ℕ → ℕ → ℕ
or_default n fallback = if eqb n 0 then fallback else n

abbrev pub budget_reason : String
budget_reason =
    "You have used all 30 probes for this investigation. Stop investigating: answer now with what you found, say plainly what remains unknown and what you would check next."

abbrev pub repeat_reason : String
repeat_reason =
    "This exact command already ran 8 times in the last few minutes. Stop re-reading it: work from the output you have, or narrow the read (tail -n 100, grep -m 5 -A 5 PATTERN)."

module _ (env : BrokerEnv) where
  open env use {policy, executor, gate}

  pub record State : Type 0 where
    pub failures : List ℕ
    pub recent : Recent
    pub spent : List ℕ
    pub pending : Pending
    pub exec : executor.State
    pub log : List Line
    pub notices : List String  -- reasons of the `approval_rejected` notifications

  -- The JSON body; a missing text is "", a missing number 0.
  pub record Body : Type 0 where
    pub argv : List String
    pub timeout_sec : ℕ
    pub node : String
    pub purpose : String
    pub change_id : String
    pub proposal : policy.Input
    pub nonce : String
    pub assertion : Option gate.Assertion
    pub force : Bool

  pub record Request : Type 0 where
    pub method : String
    pub path : String
    pub limit : ℕ
    pub body : Result Body  -- what `readBody` resolves or rejects with

  abbrev pub Response : Type 0
  Response = Reply executor.Answer

  abbrev pub json : ℕ → Payload executor.Answer → Response
  json status payload = record { status = status; payload = payload }

  -- The `catch` of a listener: error.status || 500, and the message only behind a status.
  unfoldable pub caught : String → Failure → Response
  caught fallback e = elim e.status [
    | some s ↦ json s (error e.message)
    | none ↦ json 500 (error fallback)
  ]

  unfoldable pub record_failure : ℕ → String → State → State
  record_failure now reason st = record st {
    failures = push now st.failures;
    log =
        (Journal.append env.journal now
          (("event", "\"approval_rejected\"") ∷ ("reason", reason) ∷ []) st.log).0;
    notices = st.notices ++ reason ∷ [];
  }

  unfoldable pub rollback_hash : String → String → String
  rollback_hash change_id record_hash =
      env.sha256_hex (String.◌++◌ "rollback:" (String.◌++◌ change_id (String.◌++◌ ":" record_hash)))

  -- The answer of a probe that ran: redacted, then cut.
  unfoldable pub probe_answer : ProbeRun → Response
  probe_answer run =
      let shaped = shape_probe_output (policy.redact run.out) in
      json 200 (probed run.code shaped.out (shaped.truncated || run.truncated))

  -- Math.min(30, Math.max(2, Number(timeoutSec) || 20))
  unfoldable pub probe_timeout : ℕ → ℕ
  probe_timeout n = min 30 (max 2 (or_default n 20))

  -- The part of `probeRequest` behind the limits: the call is counted, then run.
  unfoldable pub run_counted : ℕ → Bool → State → Body → State × Result Response
  run_counted now allow_relay st b =
      let counted = record st { spent = push now st.spent } in
      let timeout = probe_timeout b.timeout_sec in
      if allow_relay && (not (b.node == "") && not (b.node == "local"))
      then elim env.relay_probe [
        | none ↦ (st, ok (json 501 (error "node_relay_not_ready")))
        | some relay ↦ (counted, relay b.node b.argv timeout >>= λ run. ok (probe_answer run))
      ]
      else (
        counted,
        ok (probe_answer (record (env.run_probe b.argv timeout) { truncated = false })),
      )

  unfoldable pub limit_probe : ℕ → Bool → State → Body → State × Result Response
  limit_probe now allow_relay st b =
      let (left, exhausted) = budget_exhausted now st.spent in
      let st1 = record st { spent = left } in
      let (recent, repeated) = repeated_too_often now b.argv st1.recent in
      let st2 = record st1 { recent = recent } in
      if exhausted
      then (st1, ok (json 429 (refused "probe_budget" budget_reason)))
      else if repeated
      then (st2, ok (json 429 (refused "probe_repeated" repeat_reason)))
      else run_counted now allow_relay st2 b

  unfoldable pub probe_request : ℕ → Bool → State → Body → State × Result Response
  probe_request now allow_relay st b = elim (policy.probe_allowed b.argv) [
    | some reason ↦ (st, ok (json 403 (refused "probe_not_allowed" reason)))
    | none ↦
        if env.args_safe b.argv
        then limit_probe now allow_relay st b
        else (st, ok (json 403 (refused "probe_not_allowed" "sensitive_path_via_link")))
  ]
