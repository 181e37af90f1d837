-- ===== src/Broker/Control.antt =====
-- The two listeners of src/changes/broker.js: `control` for the dashboard and `probe` for the agent.
use grouvi_nox.Prelude.{
  List, Option, Result, String, [], err, false, if◌then◌else◌, min, none, not, ok, one_of,
  plain_error, reverse, some, take_last, true, ℕ, ◌&&◌, ◌==◌, ◌>>=◌, ◌||◌, ◌∷◌,
}
use grouvi_nox.Approval
use grouvi_nox.Approval.{Credential, Who}
use grouvi_nox.Journal
use grouvi_nox.Limits.{locked}
use grouvi_nox.Broker.Interfaces.{BrokerEnv, Change}
use grouvi_nox.Broker.{
  error, health, changes, change, journal, challenge_issued, done, saved, after_prefix, or_default,
  State, Body, Request, Response, json, caught, record_failure, rollback_hash, probe_request,
}

module _ (env : BrokerEnv) (credentials : List Credential) where
  open env use {policy, executor, gate}

  abbrev pub Handled : Type 0
  Handled = State env × Result (Response env)

  -- if (locked()) return 429; the look shifts the old failures out.
  unfoldable pub unless_locked : ℕ → State env → (State env → Handled) → Handled
  unless_locked now st rest =
      let (left, is_locked) = locked now st.failures in
      let st' = record st { failures = left } in
      if is_locked then (st', ok (json env 429 (error "too_many_failed_approvals"))) else rest st'

  unfoldable pub issued :
      State env
      → String
      → String
      → List String
      → Approval.Pending × Result Approval.Challenge
      → Handled
  issued st hash purpose reasons (pending, answer) = (
    record st { pending = pending },
    answer >>= λ c. ok (json env 200 (challenge_issued hash purpose reasons c)),
  )

  unfoldable pub challenge_rollback : String → ℕ → State env → Option Change → Handled
  challenge_rollback nonce now st none = (st, ok (json env 404 (error "not_found")))
  challenge_rollback nonce now st (some c) =
      let hash = rollback_hash env c.change_id c.hash in
      issued st hash "rollback" [] (Approval.issue gate nonce now st.pending hash "rollback")

  unfoldable pub challenge_apply : String → ℕ → State env → Result policy.Proposal → Handled
  challenge_apply nonce now st (err e) = (st, err e)
  challenge_apply nonce now st (ok p) =
      let hash = policy.proposal_hash p in
      issued st hash "apply" (policy.classify p)
        (Approval.issue gate nonce now st.pending hash "apply")

  -- POST /challenge; `nonce` is what the gate draws.
  unfoldable pub challenge : String → ℕ → State env → Body env → Handled
  challenge nonce now st b = unless_locked now st λ st'.
      if b.purpose == "rollback"
      then challenge_rollback nonce now st' (executor.find st'.exec b.change_id)
      else challenge_apply nonce now st' (policy.normalize b.proposal)

  abbrev pub request_for : Body env → String → String → Approval.Request gate
  request_for b hash purpose = record {
    nonce = b.nonce;
    hash = hash;
    purpose = purpose;
    assertion = b.assertion;
  }

  -- try { who = await gate.verify(…) } catch (error) { recordFailure(error.message); throw error }
  unfoldable pub approval_outcome :
      ℕ → State env → (State env → Who → Handled) → Result Who → Handled
  approval_outcome now st act (err e) = (record_failure env now e.message st, err e)
  approval_outcome now st act (ok who) = act st who

  unfoldable pub with_approval :
      ℕ → State env → Body env → String → String → (State env → Who → Handled) → Handled
  with_approval now st b hash purpose act =
      let (pending, outcome) =
        Approval.verify gate now credentials st.pending (request_for b hash purpose) in
      approval_outcome now (record st { pending = pending }) act outcome

  unfoldable pub executed : State env → executor.State × Result executor.Answer → Handled
  executed st (exec, answer) =
      (record st { exec = exec }, answer >>= λ a. ok (json env 200 (done a)))

  unfoldable pub apply_normal : ℕ → State env → Body env → Result policy.Proposal → Handled
  apply_normal now st b (err e) = (st, err e)
  apply_normal now st b (ok p) =
      let hash = policy.proposal_hash p in
      with_approval now st b hash "apply" λ st' who. executed st' (
        executor.apply st'.exec p
          (record { hash = hash; by = who.label; credential_id = who.credential_id }))

  -- POST /apply
  unfoldable pub apply : ℕ → State env → Body env → Handled
  apply now st b = unless_locked now st λ st'. apply_normal now st' b (policy.normalize b.proposal)

  unfoldable pub rollback_found : ℕ → State env → Body env → Option Change → Handled
  rollback_found now st b none = (st, ok (json env 404 (error "not_found")))
  rollback_found now st b (some c) =
      with_approval now st b (rollback_hash env c.change_id c.hash) "rollback" λ st' who.
        executed st' (executor.rollback st'.exec c.change_id b.force who.label who.credential_id)

  -- POST /rollback
  unfoldable pub rollback : ℕ → State env → Body env → Handled
  rollback now st b =
      unless_locked now st λ st'. rollback_found now st' b (executor.find st'.exec b.change_id)

  unfoldable pub post : String → ℕ → String → State env → Body env → Handled
  post nonce now path st b =
      if path == "/probe"
      then probe_request env now false st b
      else if path == "/challenge"
      then challenge nonce now st b
      else if path == "/apply"
      then apply now st b
      else if path == "/rollback"
      then rollback now st b
      else (st, ok (json env 404 (error "not_found")))

  unfoldable pub get_change : State env → Option String → Result (Response env)
  get_change st none = err (plain_error "URI malformed")
  get_change st (some id) = elim (executor.find st.exec id) [
    | none ↦ ok (json env 404 (error "not_found"))
    | some c ↦ ok (json env 200 (change c))
  ]

  -- The GET routes of an enabled broker, which change nothing; `none` falls through.
  unfoldable pub get_route : State env → Request env → Option (Result (Response env))
  get_route st r =
      if not (r.method == "GET")
      then none
      else if r.path == "/changes"
      then some
          (ok (json env 200 (changes (executor.list st.exec (min 200 (or_default r.limit 50))))))
      else elim (after_prefix "/changes/" r.path) [
        | some id ↦ some (get_change st (env.decode id))
        | none ↦
            if r.path == "/journal"
            then some (
                ok (
                  json env 200 (
                    journal (Journal.verify env.journal st.log) (
                      reverse
                        (take_last (min 500 (or_default r.limit 100)) (Journal.read st.log))))))
            else none
      ]

  unfoldable pub with_body : Result (Body env) → State env → (Body env → Handled) → Handled
  with_body (err e) st rest = (st, err e)
  with_body (ok b) st rest = rest b

  unfoldable pub other_route :
      String → ℕ → State env → Request env → Option (Result (Response env)) → Handled
  other_route nonce now st r (some answer) = (st, answer)
  other_route nonce now st r none =
      if not (r.method == "POST")
      then (st, ok (json env 404 (error "not_found")))
      else with_body r.body st (post nonce now r.path st)

  unfoldable pub control_enabled : String → ℕ → State env → Request env → Handled
  control_enabled nonce now st r = other_route nonce now st r (get_route st r)

  abbrev pub settle : String → Handled → State env × Response env
  settle fallback (st, ok reply) = (st, reply)
  settle fallback (st, err e) = (st, caught env fallback e)

  -- The listener of the dashboard.
  unfoldable pub control : String → ℕ → State env → Request env → State env × Response env
  control nonce now st r =
      if r.method == "GET" && r.path == "/health"
      then (st, json env 200 (health env.enabled (Journal.verify env.journal st.log)))
      else if not env.enabled
      then (st, json env 503 (error "changes_disabled"))
      else settle "broker_error" (control_enabled nonce now st r)

  abbrev pub tier_of : List String → String
  tier_of [] = "\"routine\""
  tier_of (r ∷ rs) = "\"dangerous\""

  unfoldable pub save_answer : ℕ → State env → Result (String × List String) → Handled
  save_answer now st (err e) =
      (st, ok (json env (elim e.status [ none ↦ 400 | some s ↦ s ]) (error e.message)))
  save_answer now st (ok (id, reasons)) = (
    record st {
      log =
          (Journal.append env.journal now
            (("event", "\"proposal_received\"")
              ∷ ("proposalId", id)
              ∷ ("tier", tier_of reasons)
              ∷ [])
            st.log).0;
    },
    ok (json env 200 (saved id reasons)),
  )

  unfoldable pub propose_with :
      ℕ → State env → Body env → Option (policy.Input → Result (String × List String)) → Handled
  propose_with now st b none = (st, ok (json env 501 (error "proposals_not_configured")))
  propose_with now st b (some save) = save_answer now st (save b.proposal)

  -- POST /propose
  unfoldable pub propose : ℕ → State env → Body env → Handled
  propose now st b = propose_with now st b env.save_proposal

  unfoldable pub probe_enabled : ℕ → State env → Request env → Handled
  probe_enabled now st r =
      with_body r.body st
        λ b. if r.path == "/propose" then propose now st b else probe_request env now true st b

  -- The listener of the agent.
  unfoldable pub probe : ℕ → State env → Request env → State env × Response env
  probe now st r =
      if r.method == "GET" && r.path == "/health"
      then (st, json env 200 (health env.enabled (Journal.verify env.journal st.log)))
      else if not (r.method == "POST") || not (one_of ("/probe" ∷ "/propose" ∷ []) r.path)
      then (st, json env 404 (error "not_found"))
      else if not env.enabled
      then (st, json env 503 (error "changes_disabled"))
      else settle "probe_error" (probe_enabled now st r)
