-- ===== src/Broker/Lockout.antt =====
-- Failed approvals lock the control listener of src/changes/broker.js.
use grouvi_nox.Prelude.{
  ap, select, ◌∙◌, ◌-◌, Bool, Bool-cases, List, Option, Result, String, [], arith, err, false,
  if◌then◌else◌, inl, inr, leb, length, ltb, none, ok, refl, some, subst, sym, true, ℕ, ◌&&◌, ◌==◌,
  ◌≡◌, ◌≤◌, ◌⊎◌,
}
use grouvi_nox.Approval
use grouvi_nox.Approval.{Credential, Who}
use grouvi_nox.Limits.{shift_old, push, locked, failure_window_ms, failure_limit}
use grouvi_nox.Limits.Window.{Covers-nil, count_in, IsAscending, shift_old-eq-select}
use grouvi_nox.Limits.Steps.{WindowStep, kept, shifted, pushed, passed, passed-bounded, Ordered}
use grouvi_nox.Broker.Interfaces.{BrokerEnv, Change}
use grouvi_nox.Broker.{
  State, Body, Request, Response, json, error, record_failure, rollback_hash, probe_request,
}
use grouvi_nox.Broker.Control.{
  Handled, unless_locked, issued, challenge_rollback, challenge_apply, challenge, request_for,
  approval_outcome, with_approval, executed, apply_normal, apply, rollback_found, rollback, post,
  get_route, with_body, other_route, control_enabled, control,
}
use grouvi_nox.Broker.Untouched.{settle-state, probe_request-Untouched}
use grouvi_nox.Broker.Sanctioned.{Result-cases}

module _ (env : BrokerEnv) (credentials : List Credential) where
  open env use {policy, executor, gate}

  -- What a route does behind the lock: nothing to the failures, or one more with its notice.
  abbrev Rest : ℕ → State env → State env → Type 0
  Rest now st st' =
      ((st'.failures ≡ st.failures) × (st'.notices ≡ st.notices))
      ⊎ (st'.failures ≡ push now st.failures)

  abbrev FailStep : ℕ → State env → State env → Type 0
  FailStep now st st' =
      WindowStep failure_window_ms failure_limit now st.failures st'.failures
        (ltb (length st.notices) (length st'.notices))

  same_length : (xs ys : List String) → ys ≡ xs → ltb (length xs) (length ys) ≡ false
  same_length xs ys e = rw e (ground arith)

  FailStep-kept :
      (now : ℕ) (st st' : State env)
      → st'.failures ≡ st.failures
      → st'.notices ≡ st.notices
      → FailStep now st st'
  FailStep-kept now st st' e f = kept e (same_length st.notices st'.notices f)

  unless_locked-FailStep :
      (now : ℕ) (st : State env) (rest : State env → Handled env credentials)
      → ((st' : State env) → Rest now st' (rest st').0)
      → FailStep now st (unless_locked env credentials now st rest).0
  unfolding unless_locked locked
  unless_locked-FailStep now st rest h =
      let left = shift_old failure_window_ms now st.failures in
      let st' : State env = record st { failures = left } in
      elim (Bool-cases (leb failure_limit (length left))) [
        | inl full ↦ rw full (shifted refl (same_length st.notices st.notices refl))
        | inr room ↦ rw room (elim (h st') [
          | inl (e, f) ↦ shifted e (same_length st.notices (rest st').0.notices f)
          | inr e ↦ pushed e (ground arith)
        ])
      ]

  with_approval-Rest :
      (now : ℕ) (st : State env) (b : Body env) (hash purpose : String)
      (act : State env → Who → Handled env credentials)
      → ((s : State env) (who : Who)
          → ((act s who).0.failures ≡ s.failures) × ((act s who).0.notices ≡ s.notices))
      → Rest now st (with_approval env credentials now st b hash purpose act).0
  unfolding with_approval approval_outcome record_failure
  with_approval-Rest now st b hash purpose act h =
      let verified =
        Approval.verify gate now credentials st.pending
          (request_for env credentials b hash purpose) in
      elim (Result-cases verified.1) [
        | inl (e, q) ↦ inr (rw (q, approval_outcome) refl)
        | inr (who, q) ↦ inl (rw (q, approval_outcome) (h (record st { pending = verified.0 }) who))
      ]

  executed-same :
      (s : State env) (x : executor.State × Result executor.Answer)
      → ((executed env credentials s x).0.failures ≡ s.failures)
        × ((executed env credentials s x).0.notices ≡ s.notices)
  unfolding executed
  executed-same s (exec, answer) = (refl, refl)

  apply_normal-Rest :
      (now : ℕ) (st : State env) (b : Body env) (o : Result policy.Proposal)
      → Rest now st (apply_normal env credentials now st b o).0
  unfolding apply_normal
  apply_normal-Rest now st b (err e) = inl (refl, refl)
  apply_normal-Rest now st b (ok p) =
      with_approval-Rest now st b (policy.proposal_hash p) "apply" _ (λ s who. executed-same s _)

  rollback_found-Rest :
      (now : ℕ) (st : State env) (b : Body env) (o : Option Change)
      → Rest now st (rollback_found env credentials now st b o).0
  unfolding rollback_found
  rollback_found-Rest now st b none = inl (refl, refl)
  rollback_found-Rest now st b (some c) =
      with_approval-Rest now st b (rollback_hash env c.change_id c.hash) "rollback" _
        (λ s who. executed-same s _)

  challenge_rollback-Rest :
      (nonce : String) (now : ℕ) (st : State env) (o : Option Change)
      → Rest now st (challenge_rollback env credentials nonce now st o).0
  unfolding challenge_rollback issued
  challenge_rollback-Rest nonce now st none = inl (refl, refl)
  challenge_rollback-Rest nonce now st (some c) = inl (refl, refl)

  challenge_apply-Rest :
      (nonce : String) (now : ℕ) (st : State env) (o : Result policy.Proposal)
      → Rest now st (challenge_apply env credentials nonce now st o).0
  unfolding challenge_apply issued
  challenge_apply-Rest nonce now st (err e) = inl (refl, refl)
  challenge_apply-Rest nonce now st (ok p) = inl (refl, refl)

  challenge_body-Rest :
      (nonce : String) (now : ℕ) (b : Body env) (st : State env)
      → Rest now st
          (if b.purpose == "rollback"
            then challenge_rollback env credentials nonce now st (executor.find st.exec b.change_id)
            else challenge_apply env credentials nonce now st (policy.normalize b.proposal)).0
  challenge_body-Rest nonce now b st = elim (Bool-cases (b.purpose == "rollback")) [
    | inl e ↦ rw e (challenge_rollback-Rest nonce now st (executor.find st.exec b.change_id))
    | inr e ↦ rw e (challenge_apply-Rest nonce now st (policy.normalize b.proposal))
  ]

  probe-FailStep :
      (now : ℕ) (st : State env) (b : Body env)
      → FailStep now st (probe_request env now false st b).0
  probe-FailStep now st b =
      let u = probe_request-Untouched env now false st b in
      FailStep-kept now st (probe_request env now false st b).0 u.same_failures u.same_notices

  post-FailStep :
      (nonce : String) (now : ℕ) (path : String) (st : State env) (b : Body env)
      → FailStep now st (post env credentials nonce now path st b).0
  unfolding post challenge apply rollback
  post-FailStep nonce now path st b = elim (Bool-cases (path == "/probe")) [
    | inl e ↦ rw e (probe-FailStep now st b)
    | inr e ↦ rw e (elim (Bool-cases (path == "/challenge")) [
      | inl f ↦ rw f (unless_locked-FailStep now st _ (challenge_body-Rest nonce now b))
      | inr f ↦ rw f (elim (Bool-cases (path == "/apply")) [
        | inl g ↦ rw g (
            unless_locked-FailStep now st _
              (λ s. apply_normal-Rest now s b (policy.normalize b.proposal)))
        | inr g ↦ rw g (elim (Bool-cases (path == "/rollback")) [
          | inl k ↦ rw k (
              unless_locked-FailStep now st _
                (λ s. rollback_found-Rest now s b (executor.find s.exec b.change_id)))
          | inr k ↦ rw k (FailStep-kept now st st refl refl)
        ])
      ])
    ])
  ]

  with_body-FailStep :
      (now : ℕ) (st : State env) (body : Result (Body env))
      (rest : Body env → Handled env credentials)
      → ((b : Body env) → FailStep now st (rest b).0)
      → FailStep now st (with_body env credentials body st rest).0
  unfolding with_body
  with_body-FailStep now st (err e) rest h = FailStep-kept now st st refl refl
  with_body-FailStep now st (ok b) rest h = h b

  other_route-FailStep :
      (nonce : String) (now : ℕ) (st : State env) (r : Request env)
      (o : Option (Result (Response env)))
      → FailStep now st (other_route env credentials nonce now st r o).0
  unfolding other_route
  other_route-FailStep nonce now st r (some answer) = FailStep-kept now st st refl refl
  other_route-FailStep nonce now st r none = elim (Bool-cases (r.method == "POST")) [
    | inl e ↦ rw e (with_body-FailStep now st r.body _ (post-FailStep nonce now r.path st))
    | inr e ↦ rw e (FailStep-kept now st st refl refl)
  ]

  control_at-FailStep :
      (nonce : String) (now : ℕ) (st : State env) (r : Request env)
      → FailStep now st (control env credentials nonce now st r).0
  unfolding control control_enabled
  control_at-FailStep nonce now st r =
      elim (Bool-cases (r.method == "GET" && r.path == "/health")) [
        | inl e ↦ rw e (FailStep-kept now st st refl refl)
        | inr e ↦ rw e (elim (Bool-cases env.enabled) [
          | inr off ↦ rw off (FailStep-kept now st st refl refl)
          | inl on ↦ rw on (
              subst (λ s. FailStep now st s)
                (sym (
                  settle-state env credentials "broker_error"
                    (other_route env credentials nonce now st r (get_route env credentials st r))))
                (other_route-FailStep nonce now st r (get_route env credentials st r)))
        ])
      ]

  -- A request to the control listener: its time, the nonce that a challenge would draw, itself.
  abbrev pub Asked : Type 0
  Asked = ℕ × String × Request env

  abbrev pub control_step : State env → Asked → State env
  control_step st c = (control env credentials c.1 c.0 st c.2).0

  -- The request was rejected as an approval: a notice went out.
  abbrev pub rejected : State env → Asked → Bool
  rejected st c = ltb (length st.notices) (length (control_step st c).notices)

  control-FailStep : (st : State env) (c : Asked) → FailStep c.0 st (control_step st c)
  control-FailStep st (now, nonce, r) = control_at-FailStep nonce now st r

  -- Over every sequence of requests to the control listener that are handled one after the other,
  -- each to its end before the next begins, from a start with no failures and with a clock that does
  -- not go back: in every window of ten minutes at most six approvals are rejected, however many are
  -- tried.
  pub rejections_bounded :
      (st : State env) (cs : List Asked)
      → st.failures ≡ []
      → Ordered failure_window_ms failure_limit
          (λ c. c.0)
          control_step
          (λ s. s.failures)
          rejected
          0
          cs
      → (t : ℕ)
      → count_in failure_window_ms t (
          passed failure_window_ms failure_limit
            (λ c. c.0)
            control_step
            (λ s. s.failures)
            rejected
            []
            st
            cs)
        ≤ failure_limit
  rejections_bounded st cs e m t =
      passed-bounded failure_window_ms failure_limit (λ c. c.0) control_step (λ s. s.failures)
        rejected control-FailStep 0 [] st cs (rw e (Covers-nil failure_window_ms failure_limit)) m t

  locked_out :
      (now : ℕ) (st : State env) (rest : State env → Handled env credentials)
      → (locked now st.failures).1 ≡ true
      → unless_locked env credentials now st rest ≡ (
        record st { failures = (locked now st.failures).0 },
        ok (json env 429 (error "too_many_failed_approvals")),
      )
  unfolding unless_locked
  locked_out now st rest e = rw e refl

  -- The failures of the last ten minutes.
  abbrev pub recent_failures : ℕ → List ℕ → List ℕ
  recent_failures now failures = select (λ s. leb (now - s) 600000) failures

  abbrev refused_with : State env → List ℕ → Handled env credentials
  refused_with st left =
      (record st { failures = left }, ok (json env 429 (error "too_many_failed_approvals")))

  locked_state :
      (now : ℕ) (st : State env) (rest : State env → Handled env credentials)
      → IsAscending st.failures
      → 6 ≤ length (recent_failures now st.failures)
      → unless_locked env credentials now st rest ≡ (
        record st { failures = recent_failures now st.failures },
        ok (json env 429 (error "too_many_failed_approvals")),
      )
  unfolding locked
  locked_state now st rest ascending six =
      let kept : (locked now st.failures).0 ≡ recent_failures now st.failures =
        shift_old-eq-select failure_window_ms now st.failures ascending in
      let full : leb failure_limit (length (recent_failures now st.failures)) ≡ true =
        ground (arith, six) in
      let on : (locked now st.failures).1 ≡ true =
        ap (λ l. leb failure_limit (length l)) kept ∙ full in
      locked_out now st rest on ∙ ap (refused_with st) kept

  -- While six failed approvals or more lie in the last ten minutes, a challenge, an approval and a
  -- rollback are all answered 429, before the proposal is looked at, and the request only forgets
  -- the failures that are older; where the times of the failures ascend, as a clock that does not go
  -- back gives them.
  pub lockout :
      (nonce : String) (now : ℕ) (st : State env) (b : Body env)
      → IsAscending st.failures
      → 6 ≤ length (recent_failures now st.failures)
      → let refusal : Handled env credentials = (
        record st { failures = recent_failures now st.failures },
        ok (json env 429 (error "too_many_failed_approvals")),
      ) in
        (post env credentials nonce now "/challenge" st b ≡ refusal)
        × (post env credentials nonce now "/apply" st b ≡ refusal)
        × (post env credentials nonce now "/rollback" st b ≡ refusal)
  unfolding post challenge apply rollback
  lockout nonce now st b ascending six = (
    locked_state now st _ ascending six,
    locked_state now st _ ascending six,
    locked_state now st _ ascending six,
  )
