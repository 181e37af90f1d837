-- ===== src/Broker/Probes.antt =====
-- How many probes src/changes/broker.js runs, and which.
use grouvi_nox.Prelude.{
  Bool, Bool-cases, Failure, List, Option, Option-cases, Result, String, [], ap, arith, err, false,
  inl, inr, leb, length, none, not, ok, one_of, refl, some, subst, sym, true, ℕ, ◌&&◌, ◌<◌, ◌==◌,
  ◌||◌, ◌∷◌, ◌≡◌, ◌≤◌,
}
use grouvi_nox.Approval.{Credential}
use grouvi_nox.Limits.{
  shift_old, push, budget_exhausted, repeated_too_often, budget_window_ms, budget_limit,
}
use grouvi_nox.Limits.Window.{Covers-nil, count_in}
use grouvi_nox.Limits.Steps.{WindowStep, kept, shifted, pushed, passed, passed-bounded, Ordered}
use grouvi_nox.Broker.Interfaces.{BrokerEnv}
use grouvi_nox.Broker.{
  State, Body, Request, Response, Payload, probed, caught, probe_request, limit_probe, run_counted,
}
use grouvi_nox.Broker.Control.{
  Handled, with_body, settle, probe, propose_with, propose, probe_enabled, save_answer,
}

abbrev pub is_probed : {A : Type 0} → Payload A → Bool
is_probed p = elim p [ probed c o t ↦ true | _ ↦ false ]

module _ (env : BrokerEnv) where
  -- Whether the reply carries the output of a probe that ran.
  abbrev pub ran : Result (Response env) → Bool
  ran (ok reply) = is_probed reply.payload
  ran (err e) = false

  abbrev pub SpentStep : ℕ → State env → State env × Result (Response env) → Type 0
  SpentStep now st out =
      WindowStep budget_window_ms budget_limit now st.spent out.0.spent (ran out.1)

  run_counted-spent :
      (now : ℕ) (relay : Bool) (st : State env) (b : Body env) (before : State env)
      → st.spent ≡ shift_old budget_window_ms now before.spent
      → length (shift_old budget_window_ms now before.spent) < budget_limit
      → SpentStep now before (run_counted env now relay st b)
  unfolding run_counted
  run_counted-spent now relay st b before e room =
      elim (Bool-cases (relay && (not (b.node == "") && not (b.node == "local")))) [
        | inr here ↦ rw here (pushed (ap (push now) e) room)
        | inl away ↦ rw away (elim (Option-cases env.relay_probe) [
          | inl q ↦ rw q (shifted e refl)
          | inr (relay', q) ↦ rw q (pushed (ap (push now) e) room)
        ])
      ]

  limit_probe-spent :
      (now : ℕ) (relay : Bool) (st : State env) (b : Body env)
      → SpentStep now st (limit_probe env now relay st b)
  unfolding limit_probe budget_exhausted
  limit_probe-spent now relay st b =
      let left = shift_old budget_window_ms now st.spent in
      let st1 : State env = record st { spent = left } in
      let rep = repeated_too_often now b.argv st.recent in
      elim (Bool-cases (leb budget_limit (length left))) [
        | inl full ↦ rw full (shifted refl refl)
        | inr room ↦ rw room (elim (Bool-cases rep.1) [
          | inl again ↦ rw again (shifted refl refl)
          | inr fresh ↦
              rw fresh (
                run_counted-spent now relay (record st1 { recent = rep.0 }) b st refl
                  (ground arith))
        ])
      ]

  pub probe_request-spent :
      (now : ℕ) (relay : Bool) (st : State env) (b : Body env)
      → SpentStep now st (probe_request env now relay st b)
  unfolding probe_request
  probe_request-spent now relay st b = elim (Option-cases (env.policy.probe_allowed b.argv)) [
    | inr (reason, q) ↦ rw (q, probe_request) (kept refl refl)
    | inl q ↦
        rw (q, probe_request)
          (elim (Bool-cases (env.args_safe b.argv)) [
            | inl safe ↦ rw safe (limit_probe-spent now relay st b)
            | inr unsafe ↦ rw unsafe (kept refl refl)
          ])
  ]

module _ (env : BrokerEnv) (credentials : List Credential) where
  save_answer-spent :
      (now : ℕ) (st : State env) (o : Result (String × List String))
      → SpentStep env now st (save_answer env credentials now st o)
  unfolding save_answer
  save_answer-spent now st (err e) = kept refl refl
  save_answer-spent now st (ok (id, reasons)) = kept refl refl

  propose_with-spent :
      (now : ℕ) (st : State env) (b : Body env)
      (o : Option (env.policy.Input → Result (String × List String)))
      → SpentStep env now st (propose_with env credentials now st b o)
  unfolding propose_with
  propose_with-spent now st b none = kept refl refl
  propose_with-spent now st b (some save) = save_answer-spent now st (save b.proposal)

  with_body-spent :
      (now : ℕ) (st : State env) (body : Result (Body env))
      (rest : Body env → Handled env credentials)
      → ((b : Body env) → SpentStep env now st (rest b))
      → SpentStep env now st (with_body env credentials body st rest)
  unfolding with_body
  with_body-spent now st (err e) rest h = kept refl refl
  with_body-spent now st (ok b) rest h = h b

  probe_enabled-spent :
      (now : ℕ) (st : State env) (r : Request env)
      → SpentStep env now st (probe_enabled env credentials now st r)
  unfolding probe_enabled propose
  probe_enabled-spent now st r = with_body-spent now st r.body _ λ b.
      elim (Bool-cases (r.path == "/propose")) [
        | inl e ↦ rw e (propose_with-spent now st b env.save_proposal)
        | inr e ↦ rw e (probe_request-spent env now true st b)
      ]

  caught-not_probed : (e : Failure) → is_probed (caught env "probe_error" e).payload ≡ false
  unfolding caught
  caught-not_probed e = elim (Option-cases e.status) [ inl q ↦ rw q refl | inr (s, q) ↦ rw q refl ]

  settle-spent :
      (now : ℕ) (st : State env) (h : Handled env credentials)
      → SpentStep env now st h
      → let out = settle env credentials "probe_error" h in
        WindowStep budget_window_ms budget_limit now st.spent out.0.spent (is_probed out.1.payload)
  settle-spent now st (st', ok reply) w = w
  settle-spent now st (st', err e) w =
      subst (λ x. WindowStep budget_window_ms budget_limit now st.spent st'.spent x)
        (sym (caught-not_probed e)) w

  -- A request to the agent's listener: its time and itself.
  abbrev pub Asked : Type 0
  Asked = ℕ × Request env

  abbrev pub probe_step : State env → Asked → State env
  probe_step st c = (probe env credentials c.0 st c.1).0

  abbrev pub probe_ran : State env → Asked → Bool
  probe_ran st c = is_probed (probe env credentials c.0 st c.1).1.payload

  probe_at-spent :
      (now : ℕ) (st : State env) (r : Request env)
      → let out = probe env credentials now st r in
        WindowStep budget_window_ms budget_limit now st.spent out.0.spent (is_probed out.1.payload)
  unfolding probe
  probe_at-spent now st r = elim (Bool-cases (r.method == "GET" && r.path == "/health")) [
    | inl e ↦ rw e (kept refl refl)
    | inr e ↦
        rw e
          (elim (Bool-cases
            (not (r.method == "POST") || not (one_of ("/probe" ∷ "/propose" ∷ []) r.path))) [
              | inl f ↦ rw f (kept refl refl)
              | inr f ↦ rw f (elim (Bool-cases env.enabled) [
                | inr off ↦ rw off (kept refl refl)
                | inl on ↦ rw on (
                    settle-spent now st (probe_enabled env credentials now st r)
                      (probe_enabled-spent now st r))
              ])
            ])
  ]

  probe-spent :
      (st : State env) (c : Asked)
      → WindowStep budget_window_ms budget_limit c.0 st.spent
          (probe_step st c).spent
          (probe_ran st c)
  probe-spent st (now, r) = probe_at-spent now st r

  -- Over every sequence of requests to the agent's listener, from a start with no probes and with a
  -- clock that does not go back: in every window of six minutes at most thirty probes ran.
  pub probes_bounded :
      (st : State env) (cs : List Asked)
      → st.spent ≡ []
      → Ordered budget_window_ms budget_limit (λ c. c.0) probe_step (λ s. s.spent) probe_ran 0 cs
      → (t : ℕ)
      → count_in budget_window_ms t (
          passed budget_window_ms budget_limit
            (λ c. c.0)
            probe_step
            (λ s. s.spent)
            probe_ran
            []
            st
            cs)
        ≤ budget_limit
  probes_bounded st cs e m t =
      passed-bounded budget_window_ms budget_limit (λ c. c.0) probe_step (λ s. s.spent) probe_ran
        probe-spent 0 [] st cs (rw e (Covers-nil budget_window_ms budget_limit)) m t
