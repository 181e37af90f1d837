-- ===== src/Broker/Untouched.antt =====
-- A probe through src/changes/broker.js leaves alone what guards the executor.
use grouvi_nox.Prelude.{
  Bool, Bool-cases, List, Option, Result, String, arith, err, inl, inr, none, ok, refl, some, true,
  ℕ, ◌==◌, ◌≡◌,
}
use grouvi_nox.Approval.{Credential}
use grouvi_nox.Limits.{budget_exhausted, repeated_too_often}
use grouvi_nox.Broker.Interfaces.{BrokerEnv}
use grouvi_nox.Broker.{State, Body, Request, probe_request, limit_probe, run_counted}
use grouvi_nox.Broker.Control.{
  Handled, with_body, settle, probe, propose_with, propose, probe_enabled, save_answer,
}

-- A probe leaves the parts of the state alone that guard the executor.
pub record Untouched (env : BrokerEnv) (st st' : State env) : Type 0 where
  pub same_exec : st'.exec ≡ st.exec
  pub same_pending : st'.pending ≡ st.pending
  pub same_failures : st'.failures ≡ st.failures
  pub same_notices : st'.notices ≡ st.notices

module _ (env : BrokerEnv) where
  run_counted-Untouched :
      (now : ℕ) (relay : Bool) (st : State env) (b : Body env)
      → Untouched env st (run_counted env now relay st b).0
  unfolding run_counted
  run_counted-Untouched now relay st b = ground arith

  limit_probe-Untouched :
      (now : ℕ) (relay : Bool) (st : State env) (b : Body env)
      → Untouched env st (limit_probe env now relay st b).0
  unfolding limit_probe
  limit_probe-Untouched now relay st b =
      let (left, exhausted) = budget_exhausted now st.spent in
      let st1 = record st { spent = left } in
      let (recent, repeated) = repeated_too_often now b.argv st1.recent in
      ground (arith, run_counted-Untouched now relay (record st1 { recent = recent }) b)

  pub probe_request-Untouched :
      (now : ℕ) (relay : Bool) (st : State env) (b : Body env)
      → Untouched env st (probe_request env now relay st b).0
  unfolding probe_request
  probe_request-Untouched now relay st b = ground (arith, limit_probe-Untouched now relay st b)

  save_answer-Untouched :
      (now : ℕ) (st : State env) (credentials : List Credential) (o : Result (String × List String))
      → Untouched env st (save_answer env credentials now st o).0
  unfolding save_answer
  save_answer-Untouched now st credentials (err e) = record {
    same_exec = refl;
    same_pending = refl;
    same_failures = refl;
    same_notices = refl;
  }
  save_answer-Untouched now st credentials (ok (id, reasons)) = record {
    same_exec = refl;
    same_pending = refl;
    same_failures = refl;
    same_notices = refl;
  }

  propose_with-Untouched :
      (now : ℕ) (credentials : List Credential) (st : State env) (b : Body env)
      (o : Option (env.policy.Input → Result (String × List String)))
      → Untouched env st (propose_with env credentials now st b o).0
  unfolding propose_with
  propose_with-Untouched now credentials st b none = record {
    same_exec = refl;
    same_pending = refl;
    same_failures = refl;
    same_notices = refl;
  }
  propose_with-Untouched now credentials st b (some save) =
      save_answer-Untouched now st credentials (save b.proposal)

  with_body-Untouched :
      (credentials : List Credential) (st : State env) (body : Result (Body env))
      (rest : Body env → Handled env credentials)
      → ((b : Body env) → Untouched env st (rest b).0)
      → Untouched env st (with_body env credentials body st rest).0
  unfolding with_body
  with_body-Untouched credentials st (err e) rest h = record {
    same_exec = refl;
    same_pending = refl;
    same_failures = refl;
    same_notices = refl;
  }
  with_body-Untouched credentials st (ok b) rest h = h b

  probe_enabled-Untouched :
      (now : ℕ) (credentials : List Credential) (st : State env) (r : Request env)
      → Untouched env st (probe_enabled env credentials now st r).0
  unfolding probe_enabled propose
  probe_enabled-Untouched now credentials st r = with_body-Untouched credentials st r.body _ λ b.
      elim (Bool-cases (r.path == "/propose")) [
        | inl e ↦ rw e (propose_with-Untouched now credentials st b env.save_proposal)
        | inr e ↦ rw e (probe_request-Untouched now true st b)
      ]

  pub settle-state :
      (credentials : List Credential) (fallback : String) (h : Handled env credentials)
      → (settle env credentials fallback h).0 ≡ h.0
  settle-state credentials fallback (st, ok reply) = refl
  settle-state credentials fallback (st, err e) = refl

  -- Whatever the agent sends over its socket, the executor's state, the challenges and the count of
  -- failed approvals stay as they are.
  pub probe-Untouched :
      (now : ℕ) (credentials : List Credential) (st : State env) (r : Request env)
      → Untouched env st (probe env credentials now st r).0
  unfolding probe
  probe-Untouched now credentials st r = ground (
    arith,
    probe_enabled-Untouched now credentials st r,
    settle-state credentials "probe_error" (probe_enabled env credentials now st r),
  )
