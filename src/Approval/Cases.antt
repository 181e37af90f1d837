-- ===== src/Approval/Cases.antt =====
-- What the branches of `issue` and `verify` (src/changes/approval.js) come to.
use grouvi_nox.Prelude.{
  ◌&&◌, ◌==◌, not, ℕ, ◌≤◌, ap, sym, ltb, guard, failure, ◌>>◌, some-injective, subst, guard-ok,
  String, ◌≡◌, refl, ◌⊎◌, inl, inr, true, Option, none, some, List, [], ◌∷◌, ok, arith, find?,
  Bool-cases, Memᴰ, one_of, is_hex_of_length, eq_iff, Memᴰ-find?,
}
use grouvi_nox.Prelude.JsMap
use grouvi_nox.Approval.{
  Entry, Credential, GateEnv, Pending, Request, Who, sweep, issue, new_entry, is_named, is_id,
  check_entry, check_credential, check_signature, label_of,
}

is_id-eq : (o : Option String) (s : String) → is_id o s ≡ true → o ≡ some s
is_id-eq none s h = cc
is_id-eq (some i) s h = ap some (sym ((eq_iff s i).0 h))

module _ (env : GateEnv) where
  pub issue-cases :
      (nonce : String) (now : ℕ) (p : Pending) (hash purpose : String)
      → ((issue env nonce now p hash purpose).0 ≡ sweep now p)
        ⊎ (((issue env nonce now p hash purpose).0
              ≡ JsMap.put (sweep now p) nonce (new_entry env nonce hash purpose now))
            × (is_hex_of_length 64 hash ≡ true)
            × (one_of ("apply" ∷ "rollback" ∷ []) purpose ≡ true))
  unfolding issue
  issue-cases nonce now p hash purpose = elim (Bool-cases (is_hex_of_length 64 hash)) [
    | inr short ↦ inl (rw short refl)
    | inl hex ↦ elim (Bool-cases (one_of ("apply" ∷ "rollback" ∷ []) purpose)) [
      | inr bad ↦ inl (rw (hex, bad) refl)
      | inl good ↦ inr (rw (hex, good) refl, hex, good)
    ]
  ]

  -- What an approved check has seen.
  pub record Approved (now : ℕ) (credentials : List Credential) (r : Request env) (entry : Entry)
      (who : Who) : Type 0 where
    pub in_time : now ≤ entry.expires_at
    pub same_hash : entry.hash ≡ r.hash
    pub same_purpose : entry.purpose ≡ r.purpose
    pub credential : Credential
    pub enrolled : Memᴰ credential credentials
    pub assertion : env.Assertion
    pub given : r.assertion ≡ some assertion
    pub named : env.assertion_id assertion ≡ some credential.id
    pub authentic : env.authenticate assertion entry.challenge credential ≡ some true
    pub is_who : who ≡ record { credential_id = credential.id; label = label_of credential }

  check_signature-ok :
      (o : Option env.Assertion) (entry : Entry) (c : Credential) (who : Who)
      → check_signature env o entry c ≡ ok who
      → (a : env.Assertion) × (o ≡ some a)
        × (env.authenticate a entry.challenge c ≡ some true)
        × (who ≡ record { credential_id = c.id; label = label_of c })
  unfolding check_signature
  check_signature-ok none entry c who h = cc
  check_signature-ok (some a) entry c who h = (a, refl, ground arith, ground arith)

  is_named-given :
      (o : Option env.Assertion) (a : env.Assertion) (c : Credential)
      → o ≡ some a
      → is_named env o c ≡ true
      → env.assertion_id a ≡ some c.id
  is_named-given none a c e h = cc
  is_named-given (some b) a c e h =
      subst (λ x. env.assertion_id x ≡ some c.id) (some-injective b a e)
        (is_id-eq (env.assertion_id b) c.id h)

  check_credential-Approved :
      (now : ℕ) (credentials : List Credential) (r : Request env) (entry : Entry) (who : Who)
      → now ≤ entry.expires_at
      → entry.hash ≡ r.hash
      → entry.purpose ≡ r.purpose
      → (o : Option Credential) → find? (is_named env r.assertion) credentials ≡ o
      → check_credential env r.assertion entry o ≡ ok who
      → Approved now credentials r entry who
  unfolding check_credential
  check_credential-Approved now credentials r entry who t e p none q h = cc
  check_credential-Approved now credentials r entry who t e p (some c) q h =
      let (m, is) = Memᴰ-find? (is_named env r.assertion) credentials c q in
      let (a, given, auth, w) = check_signature-ok r.assertion entry c who h in
      record {
        in_time = t;
        same_hash = e;
        same_purpose = p;
        credential = c;
        enrolled = m;
        assertion = a;
        given = given;
        named = is_named-given r.assertion a c given is;
        authentic = auth;
        is_who = w;
      }

  pub check_entry-Approved :
      (now : ℕ) (credentials : List Credential) (r : Request env) (o : Option Entry) (who : Who)
      → check_entry env now credentials r o ≡ ok who
      → (entry : Entry) × (o ≡ some entry) × Approved now credentials r entry who
  unfolding check_entry
  check_entry-Approved now credentials r none who h = cc
  check_entry-Approved now credentials r (some entry) who h =
      let live = not (ltb entry.expires_at now) in
      let same = entry.hash == r.hash && entry.purpose == r.purpose in
      let found = find? (is_named env r.assertion) credentials in
      let rest = check_credential env r.assertion entry found in
      let next = guard same (failure 403 "approval_mismatch") >> rest in
      let (t, h1) = guard-ok live (failure 403 "approval_expired") next h in
      let (e, h2) = guard-ok same (failure 403 "approval_mismatch") rest h1 in
      (
        entry,
        refl,
        check_credential-Approved now credentials r entry who (ground arith)
            ((eq_iff entry.hash r.hash).0 (ground arith))
            ((eq_iff entry.purpose r.purpose).0 (ground arith)) found refl h2,
      )
