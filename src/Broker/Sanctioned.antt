-- ===== src/Broker/Sanctioned.antt =====
-- What an approval by the gate of src/changes/broker.js allows: one call of the executor.
use grouvi_nox.Prelude.{
  Failure, List, Option, Result, String, eq_refl, err, false, inl, inr, none, ok, refl, some, ℕ,
  ◌≡◌, ◌⊎◌,
}
use grouvi_nox.Prelude.JsMap
use grouvi_nox.Approval
use grouvi_nox.Approval.{Credential, Who, Entry}
use grouvi_nox.Approval.Cases.{Approved}
use grouvi_nox.Approval.SingleUse.{get-verify}
use grouvi_nox.Approval.Binding.{verify-Approved}
use grouvi_nox.Limits.{locked}
use grouvi_nox.Broker.Interfaces.{BrokerEnv, Change}
use grouvi_nox.Broker.{State, Body, record_failure, rollback_hash}
use grouvi_nox.Broker.Control.{
  Handled, request_for, approval_outcome, with_approval, executed, apply_normal, rollback_found,
}

pub Result-cases {ℓ} :
    {A : Type ℓ} (r : Result A) → ((e : Failure) × (r ≡ err e)) ⊎ ((a : A) × (r ≡ ok a))
Result-cases (ok a) = inr (a, refl)
Result-cases (err e) = inl (e, refl)

module _ (env : BrokerEnv) (credentials : List Credential) where
  open env use {policy, executor, gate}

  -- What must have happened for `st'` to hold another state of the executor than `st`: an approval
  -- for exactly the call that was made.
  pub record Sanctioned (now : ℕ) (st st' : State env) (b : Body env) (hash purpose : String)
      : Type 0 where
    pub entry : Entry
    pub who : Who
    pub pending : JsMap.get st.pending b.nonce ≡ some entry
    pub approved :
        Approved gate now credentials (request_for env credentials b hash purpose) entry who
    pub spent : JsMap.get st'.pending b.nonce ≡ none
    pub unlocked : (locked now st.failures).1 ≡ false

  pub data Executed (now : ℕ) (st st' : State env) (b : Body env) : Type 0 where
    applied :
        (p : policy.Proposal) (s : Sanctioned now st st' b (policy.proposal_hash p) "apply")
        → policy.normalize b.proposal ≡ ok p
        → st'.exec
          ≡ (executor.apply st.exec p (record {
            hash = policy.proposal_hash p;
            by = s.who.label;
            credential_id = s.who.credential_id;
          })).0
        → Executed now st st' b
    rolled_back :
        (c : Change) (s : Sanctioned now st st' b (rollback_hash env c.change_id c.hash) "rollback")
        → executor.find st.exec b.change_id ≡ some c
        → st'.exec
          ≡ (executor.rollback st.exec c.change_id b.force s.who.label s.who.credential_id).0
        → Executed now st st' b

  -- Either the executor's state is kept, or its change is sanctioned.
  abbrev pub Guarded : ℕ → State env → State env → Body env → Type 0
  Guarded now st st' b = (st'.exec ≡ st.exec) ⊎ Executed now st st' b

  with_approval-cases :
      (now : ℕ) (st : State env) (b : Body env) (hash purpose : String)
      (act : State env → Who → Handled env credentials)
      → let out = with_approval env credentials now st b hash purpose act in
        let verified =
          Approval.verify gate now credentials st.pending
            (request_for env credentials b hash purpose) in
        (out.0.exec ≡ st.exec)
        ⊎ ((entry : Entry) × (who : Who) × (JsMap.get st.pending b.nonce ≡ some entry)
            × Approved gate now credentials (request_for env credentials b hash purpose) entry who
            × (out ≡ act (record st { pending = verified.0 }) who))
  unfolding with_approval approval_outcome record_failure
  with_approval-cases now st b hash purpose act =
      let r = request_for env credentials b hash purpose in
      let outcome = (Approval.verify gate now credentials st.pending r).1 in
      elim (Result-cases outcome) [
        | inl (e, q) ↦ inl (rw (q, approval_outcome) refl)
        | inr (who, q) ↦
            let (entry, found, approved) =
              verify-Approved gate now credentials st.pending r who q in
            inr (entry, who, found, approved, rw (q, approval_outcome) refl)
      ]

  nonce_spent :
      (now : ℕ) (st : State env) (b : Body env) (hash purpose : String)
      → JsMap.get
          (Approval.verify gate now credentials st.pending
            (request_for env credentials b hash purpose)).0
          b.nonce
        ≡ none
  nonce_spent now st b hash purpose =
      rw
        (
          get-verify gate now credentials st.pending (request_for env credentials b hash purpose)
              b.nonce,
          eq_refl b.nonce,
        )
        refl

  executed-exec :
      (st : State env) (x : executor.State × Result executor.Answer)
      → ((executed env credentials st x).0.exec ≡ x.0)
        × ((executed env credentials st x).0.pending ≡ st.pending)
  unfolding executed
  executed-exec st (exec, answer) = (refl, refl)

  module _ (now : ℕ) (st : State env) (failures : List ℕ) (b : Body env)
      (u : (locked now failures).1 ≡ false) where
    pub apply_normal-Guarded :
        (o : Result policy.Proposal)
        → policy.normalize b.proposal ≡ o
        → Guarded now
            (record st { failures = failures })
            (apply_normal env credentials now st b o).0
            b
    unfolding apply_normal
    apply_normal-Guarded (err e) n = inl refl
    apply_normal-Guarded (ok p) n =
        elim (with_approval-cases now st b (policy.proposal_hash p) "apply" _) [
          | inl e ↦ inl e
          | inr (entry, who, found, approved, q) ↦
              let hash = policy.proposal_hash p in
              let st1 : State env = record st {
                pending =
                    (Approval.verify gate now credentials st.pending
                      (request_for env credentials b hash "apply")).0;
              } in
              let ex = executed-exec st1 (
                executor.apply st.exec p
                  (record { hash = hash; by = who.label; credential_id = who.credential_id })) in
              inr (
                applied p
                  (record {
                    entry = entry;
                    who = who;
                    pending = found;
                    approved = approved;
                    spent = rw (q, ex.1) (nonce_spent now st b hash "apply");
                    unlocked = u;
                  })
                  n (rw q ex.0))
        ]

    pub rollback_found-Guarded :
        (o : Option Change)
        → executor.find st.exec b.change_id ≡ o
        → Guarded now
            (record st { failures = failures })
            (rollback_found env credentials now st b o).0
            b
    unfolding rollback_found
    rollback_found-Guarded none n = inl refl
    rollback_found-Guarded (some c) n =
        elim (with_approval-cases now st b (rollback_hash env c.change_id c.hash) "rollback" _) [
          | inl e ↦ inl e
          | inr (entry, who, found, approved, q) ↦
              let hash = rollback_hash env c.change_id c.hash in
              let st1 : State env = record st {
                pending =
                    (Approval.verify gate now credentials st.pending
                      (request_for env credentials b hash "rollback")).0;
              } in
              let ex =
                executed-exec st1
                  (executor.rollback st.exec c.change_id b.force who.label who.credential_id) in
              inr (
                rolled_back c
                  (record {
                    entry = entry;
                    who = who;
                    pending = found;
                    approved = approved;
                    spent = rw (q, ex.1) (nonce_spent now st b hash "rollback");
                    unlocked = u;
                  })
                  n (rw q ex.0))
        ]
