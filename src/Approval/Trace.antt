-- ===== src/Approval/Trace.antt =====
-- Sequences of calls on one approval gate (src/changes/approval.js), in any order and at any times.
use grouvi_nox.Prelude.{
  ℕ, ◌+◌, String, Bool, true, false, List, [], ◌∷◌, Result, ok, err, ◌==◌, ◌&&◌, if◌then◌else◌,
}
use grouvi_nox.Approval.{Credential, GateEnv, Pending, Request, issue, verify}

abbrev pub is_ok {ℓ} : {A : Type ℓ} → Result A → Bool
is_ok (ok a) = true
is_ok (err e) = false

module _ (env : GateEnv) where
  pub data Call : Type 0 where
    issue_call : String → ℕ → String → String → Call
    verify_call : ℕ → List Credential → Request env → Call

  abbrev pub step : Pending → Call → Pending
  step p (issue_call nonce now hash purpose) = (issue env nonce now p hash purpose).0
  step p (verify_call now credentials r) = (verify env now credentials p r).0

  unfoldable pub run : Pending → List Call → Pending
  run p [] = p
  run p (c ∷ cs) = run (step p c) cs

  -- How many challenges were drawn with the nonce `n`.
  unfoldable pub issues : String → List Call → ℕ
  issues n [] = 0
  issues n (issue_call nonce now hash purpose ∷ cs) = (if nonce == n then 1 else 0) + issues n cs
  issues n (verify_call now credentials r ∷ cs) = issues n cs

  -- How many calls of `verify` with the nonce `n` were approved.
  unfoldable pub approvals : String → Pending → List Call → ℕ
  approvals n p [] = 0
  approvals n p (issue_call nonce now hash purpose ∷ cs) =
      approvals n (step p (issue_call nonce now hash purpose)) cs
  approvals n p (verify_call now credentials r ∷ cs) =
      (if r.nonce == n && is_ok (verify env now credentials p r).1 then 1 else 0)
      + approvals n (step p (verify_call now credentials r)) cs
