-- ===== src/Approval/Bounds.antt =====
-- How many challenges src/changes/approval.js can hold at once.
use grouvi_nox.Prelude.{List, [], arith, inl, inr, length, select, ℕ, ◌+◌, ◌∷◌, ◌≤◌}
use grouvi_nox.Prelude.JsMap.{length-put, length-remove}
use grouvi_nox.Approval.{GateEnv, Pending, sweep, verify, new_entry, evict, is_live, max_pending}
use grouvi_nox.Approval.Cases.{issue-cases}
use grouvi_nox.Approval.Trace.{Call, issue_call, verify_call, step, run}

length-evict : (p : Pending) → length (evict p) ≤ 32
unfolding evict
length-evict [] = omega arith
length-evict (x ∷ p) = ground (arith, length-evict p)

-- A sweep keeps only live challenges, and of these the newest ones: it drops from the front.
pub length-sweep : (now : ℕ) (p : Pending) → length (sweep now p) ≤ 32
unfolding sweep
length-sweep now p = length-evict (select (is_live now) p)

module _ (env : GateEnv) where
  length-step : (p : Pending) (c : Call env) → length p ≤ 33 → length (step env p c) ≤ 33
  length-step p (issue_call nonce now hash purpose) h =
      elim (issue-cases env nonce now p hash purpose) [
        | inl e ↦ rw e (omega (arith, length-sweep now p))
        | inr (e, _, _) ↦ rw e (
            omega (
              arith,
              length-sweep now p,
              length-put (sweep now p) nonce (new_entry env nonce hash purpose now),
            ))
      ]
  length-step p (verify_call now credentials r) h =
      unfold verify in omega (arith, length-remove p r.nonce)

  length-run_from :
      (p : Pending) (cs : List (Call env)) → length p ≤ 33 → length (run env p cs) ≤ 33
  unfolding run
  length-run_from p [] h = h
  length-run_from p (c ∷ cs) h = length-run_from (step env p c) cs (length-step p c h)

  -- After any calls on a new gate at most `max_pending + 1` challenges wait: the sweep comes before
  -- the new entry.
  pub pending_bounded : (cs : List (Call env)) → length (run env [] cs) ≤ max_pending + 1
  pending_bounded cs = length-run_from [] cs (omega arith)
