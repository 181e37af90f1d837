-- ===== src/Broker/Guarded.antt =====
-- Nothing runs as root through src/changes/broker.js without an approval by the gate.
use grouvi_nox.Prelude.{
  Bool-cases, List, Option, Result, String, err, false, inl, inr, none, ok, refl, some, subst, sym,
  ℕ, ◌&&◌, ◌==◌, ◌≡◌, ◌⊎◌,
}
use grouvi_nox.Approval.{Credential}
use grouvi_nox.Limits.{locked}
use grouvi_nox.Broker.Interfaces.{BrokerEnv, Change}
use grouvi_nox.Broker.{State, Body, Request, Response}
use grouvi_nox.Broker.Control.{
  Handled, unless_locked, issued, challenge_rollback, challenge_apply, challenge, apply, rollback,
  post, get_route, with_body, other_route, control_enabled, control,
}
use grouvi_nox.Broker.Untouched.{probe_request-Untouched, settle-state}
use grouvi_nox.Broker.Sanctioned.{Executed, Guarded, apply_normal-Guarded, rollback_found-Guarded}

module _ (env : BrokerEnv) (credentials : List Credential) where
  open env use {policy, executor, gate}

  unless_locked-Guarded :
      (now : ℕ) (st : State env) (b : Body env) (rest : State env → Handled env credentials)
      → ((failures : List ℕ)
          → (locked now st.failures).1 ≡ false
          → Guarded env credentials now st (rest (record st { failures = failures })).0 b)
      → Guarded env credentials now st (unless_locked env credentials now st rest).0 b
  unfolding unless_locked
  unless_locked-Guarded now st b rest h = elim (Bool-cases (locked now st.failures).1) [
    | inl e ↦ inl (rw e refl)
    | inr e ↦ rw e (h (locked now st.failures).0 e)
  ]

  apply-Guarded :
      (now : ℕ) (st : State env) (b : Body env)
      → Guarded env credentials now st (apply env credentials now st b).0 b
  unfolding apply
  apply-Guarded now st b = unless_locked-Guarded now st b _ λ failures u.
      apply_normal-Guarded env credentials now (record st { failures = failures }) st.failures b u
        (policy.normalize b.proposal) refl

  rollback-Guarded :
      (now : ℕ) (st : State env) (b : Body env)
      → Guarded env credentials now st (rollback env credentials now st b).0 b
  unfolding rollback
  rollback-Guarded now st b = unless_locked-Guarded now st b _ λ failures u.
      rollback_found-Guarded env credentials now (record st { failures = failures }) st.failures b u
        (executor.find st.exec b.change_id) refl

  challenge_rollback-exec :
      (nonce : String) (now : ℕ) (st : State env) (o : Option Change)
      → (challenge_rollback env credentials nonce now st o).0.exec ≡ st.exec
  unfolding challenge_rollback issued
  challenge_rollback-exec nonce now st none = refl
  challenge_rollback-exec nonce now st (some c) = refl

  challenge_apply-exec :
      (nonce : String) (now : ℕ) (st : State env) (o : Result policy.Proposal)
      → (challenge_apply env credentials nonce now st o).0.exec ≡ st.exec
  unfolding challenge_apply issued
  challenge_apply-exec nonce now st (err e) = refl
  challenge_apply-exec nonce now st (ok p) = refl

  challenge-Guarded :
      (nonce : String) (now : ℕ) (st : State env) (b : Body env)
      → Guarded env credentials now st (challenge env credentials nonce now st b).0 b
  unfolding challenge
  challenge-Guarded nonce now st b = unless_locked-Guarded now st b _ λ failures u.
      let st1 : State env = record st { failures = failures } in
      elim (Bool-cases (b.purpose == "rollback")) [
        | inl e ↦
            inl (rw e (challenge_rollback-exec nonce now st1 (executor.find st.exec b.change_id)))
        | inr e ↦ inl (rw e (challenge_apply-exec nonce now st1 (policy.normalize b.proposal)))
      ]

  post-Guarded :
      (nonce : String) (now : ℕ) (path : String) (st : State env) (b : Body env)
      → Guarded env credentials now st (post env credentials nonce now path st b).0 b
  unfolding post
  post-Guarded nonce now path st b = elim (Bool-cases (path == "/probe")) [
    | inl e ↦ inl (rw e (probe_request-Untouched env now false st b).same_exec)
    | inr e ↦ rw e (elim (Bool-cases (path == "/challenge")) [
      | inl f ↦ rw f (challenge-Guarded nonce now st b)
      | inr f ↦ rw f (elim (Bool-cases (path == "/apply")) [
        | inl g ↦ rw g (apply-Guarded now st b)
        | inr g ↦ rw g (elim (Bool-cases (path == "/rollback")) [
          | inl k ↦ rw k (rollback-Guarded now st b)
          | inr k ↦ rw k (inl refl)
        ])
      ])
    ])
  ]

  -- Guarded, for a request whose body may have failed to be read.
  abbrev pub RequestGuarded : ℕ → State env → State env → Request env → Type 0
  RequestGuarded now st st' r =
      (st'.exec ≡ st.exec)
      ⊎ ((b : Body env) × (r.body ≡ ok b) × Executed env credentials now st st' b)

  with_body-Guarded :
      (now : ℕ) (st : State env) (r : Request env) (rest : Body env → Handled env credentials)
      (body : Result (Body env))
      → r.body ≡ body
      → ((b : Body env) → Guarded env credentials now st (rest b).0 b)
      → RequestGuarded now st (with_body env credentials body st rest).0 r
  unfolding with_body
  with_body-Guarded now st r rest (err e) q h = inl refl
  with_body-Guarded now st r rest (ok b) q h = elim (h b) [ inl e ↦ inl e | inr x ↦ inr (b, q, x) ]

  other_route-Guarded :
      (nonce : String) (now : ℕ) (st : State env) (r : Request env)
      (o : Option (Result (Response env)))
      → RequestGuarded now st (other_route env credentials nonce now st r o).0 r
  unfolding other_route
  other_route-Guarded nonce now st r (some answer) = inl refl
  other_route-Guarded nonce now st r none = elim (Bool-cases (r.method == "POST")) [
    | inl e ↦ rw e (with_body-Guarded now st r _ r.body refl (post-Guarded nonce now r.path st))
    | inr e ↦ rw e (inl refl)
  ]

  -- A request to the control listener leaves the executor's state as it was, or it carried a body
  -- for which the gate approved exactly the executed call: the applied proposal is the normal form
  -- of the body's, its hash and the purpose were pending under the body's nonce and unexpired, an
  -- enrolled credential signed the challenge, the nonce is spent afterwards, and the approvals were
  -- not locked; a rollback likewise, under the hash made of the change's id and its record's hash.
  pub control-Guarded :
      (nonce : String) (now : ℕ) (st : State env) (r : Request env)
      → RequestGuarded now st (control env credentials nonce now st r).0 r
  unfolding control control_enabled
  control-Guarded nonce now st r = elim (Bool-cases (r.method == "GET" && r.path == "/health")) [
    | inl e ↦ inl (rw e refl)
    | inr e ↦ rw e (elim (Bool-cases env.enabled) [
      | inr off ↦ inl (rw off refl)
      | inl on ↦ rw on (
          subst (λ s. RequestGuarded now st s r)
            (sym (
              settle-state env credentials "broker_error"
                (other_route env credentials nonce now st r (get_route env credentials st r))))
            (other_route-Guarded nonce now st r (get_route env credentials st r)))
    ])
  ]
