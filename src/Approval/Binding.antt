-- ===== src/Approval/Binding.antt =====
-- What an approval by src/changes/approval.js is bound to.
use grouvi_nox.Prelude.{
  some-injective, Bool-cases, List, Memᴰ, String, [], eq_iff, inl, inr, is_hex_of_length, length,
  ltb, ok, one_of, refl, select, some, subst, sym, true, ℕ, ◌==◌, ◌∷◌, ◌≡◌,
}
use grouvi_nox.Prelude.JsMap
use grouvi_nox.Prelude.JsMap.{get-put}
use grouvi_nox.Approval.{
  Entry, Credential, GateEnv, Pending, Request, Who, sweep, verify, new_entry, label_of, evict,
  is_live, challenge_text,
}
use grouvi_nox.Approval.Cases.{Approved, check_entry-Approved, issue-cases}
use grouvi_nox.Approval.Trace.{Call, issue_call, verify_call, step, run}

module _ (env : GateEnv) where
  -- Whatever is approved was pending under its nonce, unexpired, for the same hash and purpose, and
  -- an enrolled credential has signed the pending challenge.
  pub verify-Approved :
      (now : ℕ) (credentials : List Credential) (p : Pending) (r : Request env) (who : Who)
      → (verify env now credentials p r).1 ≡ ok who
      → (entry : Entry) × (JsMap.get p r.nonce ≡ some entry)
        × Approved env now credentials r entry who
  unfolding verify
  verify-Approved now credentials p r who h =
      check_entry-Approved env now credentials r (JsMap.get p r.nonce) who h

  -- The entry's challenge is the digest of its own purpose, hash and nonce.
  pub record IsBound (nonce : String) (e : Entry) : Type 0 where
    pub digest : e.challenge ≡ env.sha256 (challenge_text e.purpose e.hash nonce)
    pub hex : is_hex_of_length 64 e.hash ≡ true
    pub purpose : one_of ("apply" ∷ "rollback" ∷ []) e.purpose ≡ true

  abbrev pub AllBound : Pending → Type 0
  AllBound [] = Unit
  AllBound ((k, e) ∷ p) = IsBound k e × AllBound p

  AllBound-select : (now : ℕ) (p : Pending) → AllBound p → AllBound (select (is_live now) p)
  AllBound-select now [] h = h
  AllBound-select now ((k, e) ∷ p) h = elim (Bool-cases (is_live now (k, e))) [
    | inl b ↦ rw b (h.0, AllBound-select now p h.1)
    | inr b ↦ rw b (AllBound-select now p h.1)
  ]

  AllBound-evict : (p : Pending) → AllBound p → AllBound (evict p)
  unfolding evict
  AllBound-evict [] h = h
  AllBound-evict (x ∷ p) h = elim (Bool-cases (ltb 32 (length (x ∷ p)))) [
    | inl b ↦ rw b (AllBound-evict p h.1)
    | inr b ↦ rw b h
  ]

  AllBound-put :
      (p : Pending) (k : String) (e : Entry) → IsBound k e → AllBound p → AllBound (JsMap.put p k e)
  unfolding JsMap.put
  AllBound-put [] k e b h = (b, h)
  AllBound-put ((j, w) ∷ p) k e b h = elim (Bool-cases (j == k)) [
    | inl same ↦ rw same (subst (λ i. IsBound i e) (sym ((eq_iff j k).0 same)) b, h.1)
    | inr other ↦ rw other (h.0, AllBound-put p k e b h.1)
  ]

  AllBound-remove : (p : Pending) (k : String) → AllBound p → AllBound (JsMap.remove p k)
  unfolding JsMap.remove
  AllBound-remove [] k h = h
  AllBound-remove ((j, w) ∷ p) k h = elim (Bool-cases (j == k)) [
    | inl same ↦ rw same (AllBound-remove p k h.1)
    | inr other ↦ rw other (h.0, AllBound-remove p k h.1)
  ]

  AllBound-sweep : (now : ℕ) (p : Pending) → AllBound p → AllBound (sweep now p)
  unfolding sweep
  AllBound-sweep now p h = AllBound-evict (select (is_live now) p) (AllBound-select now p h)

  AllBound-step : (p : Pending) (c : Call env) → AllBound p → AllBound (step env p c)
  AllBound-step p (issue_call nonce now hash purpose) h =
      elim (issue-cases env nonce now p hash purpose) [
        | inl e ↦ rw e (AllBound-sweep now p h)
        | inr (e, hex, good) ↦ rw e (
            AllBound-put (sweep now p) nonce (new_entry env nonce hash purpose now)
              (unfold new_entry in record { digest = refl; hex = hex; purpose = good })
              (AllBound-sweep now p h))
      ]
  AllBound-step p (verify_call now credentials r) h = unfold verify in AllBound-remove p r.nonce h

  AllBound-run : (p : Pending) (cs : List (Call env)) → AllBound p → AllBound (run env p cs)
  unfolding run
  AllBound-run p [] h = h
  AllBound-run p (c ∷ cs) h = AllBound-run (step env p c) cs (AllBound-step p c h)

  AllBound-get :
      (p : Pending) (n : String) (e : Entry) → AllBound p → JsMap.get p n ≡ some e → IsBound n e
  unfolding JsMap.get
  AllBound-get [] n e h q = cc
  AllBound-get ((j, w) ∷ p) n e h q = elim (Bool-cases (j == n)) [
    | inl same ↦
        let w_eq : w ≡ e = some-injective w e (rw same at q) in
        subst (λ k. IsBound k e) ((eq_iff j n).0 same) (subst (λ x. IsBound j x) w_eq h.0)
    | inr other ↦ AllBound-get p n e h.1 (rw other at q)
  ]

  -- After any calls on a new gate, what `verify` approves was signed by an enrolled credential over
  -- the digest of exactly the purpose, the hash and the nonce that the request names.
  pub approved_signature :
      (cs : List (Call env)) (now : ℕ) (credentials : List Credential) (r : Request env) (who : Who)
      → (verify env now credentials (run env [] cs) r).1 ≡ ok who
      → (a : env.Assertion) × (c : Credential) × (r.assertion ≡ some a)
        × Memᴰ c credentials
        × (env.assertion_id a ≡ some c.id)
        × (env.authenticate a (env.sha256 (challenge_text r.purpose r.hash r.nonce)) c ≡ some true)
        × (who ≡ record { credential_id = c.id; label = label_of c })
        × (one_of ("apply" ∷ "rollback" ∷ []) r.purpose ≡ true)
  approved_signature cs now credentials r who h =
      let (entry, found, ap') = verify-Approved now credentials (run env [] cs) r who h in
      let b = AllBound-get (run env [] cs) r.nonce entry (AllBound-run [] cs tt) found in
      (
        ap'.assertion,
        ap'.credential,
        ap'.given,
        ap'.enrolled,
        ap'.named,
        signed entry ap' b,
        ap'.is_who,
        subst (λ x. one_of ("apply" ∷ "rollback" ∷ []) x ≡ true) ap'.same_purpose b.purpose,
      )
    where
      signed :
          (e : Entry) (a : Approved env now credentials r e who)
          → IsBound r.nonce e
          → env.authenticate a.assertion
              (env.sha256 (challenge_text r.purpose r.hash r.nonce))
              a.credential
            ≡ some true
      signed e a b = rw (← a.same_purpose, ← a.same_hash, ← b.digest) a.authentic
