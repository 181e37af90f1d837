-- ===== src/Approval/SingleUse.antt =====
-- The nonces of src/changes/approval.js are spent by `verify`, whatever its outcome.
use grouvi_nox.Prelude.{
  ℕ, ◌+◌, ◌≤◌, String, ◌≡◌, refl, inl, inr, none, some, List, [], ◌∷◌, arith, ◌==◌, ◌&&◌,
  if◌then◌else◌, Bool-cases, Option-cases, select, eq_iff,
}
use grouvi_nox.Prelude.JsMap
use grouvi_nox.Prelude.JsMap.{get-remove}
use grouvi_nox.Approval.Cases.{issue-cases}
use grouvi_nox.Approval.{
  new_entry, check_entry, Entry, Credential, GateEnv, Pending, Request, is_live, evict, sweep,
  issue, verify,
}
use grouvi_nox.Approval.Trace.{Call, issue_call, verify_call, is_ok, issues, approvals}

-- How many entries a map holds under the key `n`.
abbrev occurs : String → Pending → ℕ
occurs n [] = 0
occurs n ((k, e) ∷ p) = (if k == n then 1 else 0) + occurs n p

occurs-select :
    (n : String) (now : ℕ) (p : Pending) → occurs n (select (is_live now) p) ≤ occurs n p
occurs-select n now [] = omega arith
occurs-select n now ((k, e) ∷ p) = ground (arith, occurs-select n now p)

occurs-evict : (n : String) (p : Pending) → occurs n (evict p) ≤ occurs n p
unfolding evict
occurs-evict n [] = omega arith
occurs-evict n ((k, e) ∷ p) = ground (arith, occurs-evict n p)

occurs-sweep : (n : String) (now : ℕ) (p : Pending) → occurs n (sweep now p) ≤ occurs n p
unfolding sweep
occurs-sweep n now p = omega (arith, occurs-evict n (select (is_live now) p), occurs-select n now p)

occurs-put :
    (n k : String) (e : Entry) (p : Pending)
    → occurs n (JsMap.put p k e) ≤ (if k == n then 1 else 0) + occurs n p
unfolding JsMap.put
occurs-put n k e [] = omega arith
occurs-put n k e ((j, w) ∷ p) = ground (arith, occurs-put n k e p)

occurs-remove : (n k : String) (p : Pending) → occurs n (JsMap.remove p k) ≤ occurs n p
unfolding JsMap.remove
occurs-remove n k [] = omega arith
occurs-remove n k ((j, w) ∷ p) = ground (arith, occurs-remove n k p)

occurs-remove_self : (n k : String) (p : Pending) → k ≡ n → occurs n (JsMap.remove p k) ≡ 0
unfolding JsMap.remove
occurs-remove_self n k [] h = refl
occurs-remove_self n k ((j, w) ∷ p) h = ground (arith, eq_iff j n, occurs-remove_self n k p)

occurs-get : (n : String) (p : Pending) (e : Entry) → JsMap.get p n ≡ some e → 1 ≤ occurs n p
unfolding JsMap.get
occurs-get n [] e h = cc
occurs-get n ((j, w) ∷ p) e h = ground (arith, occurs-get n p e)

occurs-issue :
    (env : GateEnv) (n nonce : String) (now : ℕ) (p : Pending) (hash purpose : String)
    → occurs n (issue env nonce now p hash purpose).0 ≤ (if nonce == n then 1 else 0) + occurs n p
occurs-issue env n nonce now p hash purpose = elim (issue-cases env nonce now p hash purpose) [
  | inl e ↦ rw e (omega (arith, occurs-sweep n now p))
  | inr (e, _, _) ↦ rw e (
      omega (
        arith,
        occurs-sweep n now p,
        occurs-put n nonce (new_entry env nonce hash purpose now) (sweep now p),
      ))
]

-- `verify` deletes the nonce that it is asked about and no other entry, on every branch.
pub get-verify :
    (env : GateEnv) (now : ℕ) (credentials : List Credential) (p : Pending) (r : Request env)
    (n : String)
    → JsMap.get (verify env now credentials p r).0 n
      ≡ (if r.nonce == n then none else JsMap.get p n)
unfolding verify
get-verify env now credentials p r n = get-remove p r.nonce n

approved-occurs_self :
    (env : GateEnv) (now : ℕ) (credentials : List Credential) (p : Pending) (r : Request env)
    (n : String)
    → r.nonce ≡ n
    → (if is_ok (verify env now credentials p r).1 then 1 else 0)
        + occurs n (verify env now credentials p r).0
      ≤ occurs n p
approved-occurs_self env now credentials p r n same = elim (Option-cases (JsMap.get p r.nonce)) [
  | inl gone ↦ unfold verify check_entry in rw gone (omega (arith, occurs-remove n r.nonce p))
  | inr (e, found) ↦
      unfold verify in
      let one = occurs-get n p e (rw same at found) in
      ground (arith, one, occurs-remove_self n r.nonce p same)
]

-- What the count of approvals may still grow by: the entries that the map holds.
approved-occurs :
    (env : GateEnv) (now : ℕ) (credentials : List Credential) (p : Pending) (r : Request env)
    (n : String)
    → (if r.nonce == n && is_ok (verify env now credentials p r).1 then 1 else 0)
        + occurs n (verify env now credentials p r).0
      ≤ occurs n p
approved-occurs env now credentials p r n = elim (Bool-cases (r.nonce == n)) [
  | inr other ↦ rw other (unfold verify in omega (arith, occurs-remove n r.nonce p))
  | inl same ↦ rw same (approved-occurs_self env now credentials p r n ((eq_iff r.nonce n).0 same))
]

approvals_from-le :
    (env : GateEnv) (n : String) (p : Pending) (cs : List (Call env))
    → approvals env n p cs ≤ issues env n cs + occurs n p
unfolding approvals issues
approvals_from-le env n p [] = omega arith
approvals_from-le env n p (issue_call nonce now hash purpose ∷ cs) = omega (
  arith,
  occurs-issue env n nonce now p hash purpose,
  approvals_from-le env n (issue env nonce now p hash purpose).0 cs,
)
approvals_from-le env n p (verify_call now credentials r ∷ cs) = omega (
  arith,
  approved-occurs env now credentials p r n,
  approvals_from-le env n (verify env now credentials p r).0 cs,
)

-- Over every sequence of calls on a new gate, a nonce is approved at most as often as a challenge
-- with it was issued: once, as the nonces are fresh.
pub approvals-le-issues :
    (env : GateEnv) (n : String) (cs : List (Call env)) → approvals env n [] cs ≤ issues env n cs
approvals-le-issues env n cs = omega (arith, approvals_from-le env n [] cs)
