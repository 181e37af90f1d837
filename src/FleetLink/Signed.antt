-- ===== src/FleetLink/Signed.antt =====
-- Who can have sent what the node of src/changes/fleet-link.js admits, and that it admits what the
-- hub signs.
use grouvi_nox.Prelude.{
  Bool, Bool-cases, List, Memᴰ, Option, String, [], any, ap, arith, false, inl, inr, none, one_of,
  refl, some, sym, true, ℕ, ◌+◌, ◌∙◌, ◌∷◌, ◌≡◌, ◌≤◌,
}
use grouvi_nox.Prelude.JsMap
use grouvi_nox.FleetLink.{
  LinkEnv, Request, State, skew_ms, is_stale, check_request, admit, plain_ip, mac, signed_parts,
  is_valid, equal_hex,
}
use grouvi_nox.FleetLink.Cases.{
  is_passed, IsEntered, check_request-cases, counted_state, admit-cases,
}

-- A request that a holder of a secret signed, in time, for an address that the node lists.
pub record IsAuthentic (env : LinkEnv) (ips secrets : List String) (now : ℕ) (r : Request)
    : Type 0 where
  pub listed : one_of ips (plain_ip r.ip) ≡ true
  pub secret : String
  pub is_secret : Memᴰ secret secrets
  pub signed : equal_hex r.signature (mac env secret (signed_parts env r)) ≡ true
  pub time : ℕ
  pub timestamp : env.number r.timestamp ≡ some time
  pub not_older : now ≤ time + skew_ms
  pub not_newer : time ≤ now + skew_ms

pub any-Memᴰ {ℓ} :
    {A : Type ℓ} (p : A → Bool) (xs : List A) → any p xs ≡ true → (x : A) × Memᴰ x xs × (p x ≡ true)
any-Memᴰ p [] h = absurd (ground arith)
any-Memᴰ p (x ∷ xs) h = elim (Bool-cases (p x)) [
  | inl holds ↦ (x, Memᴰ.head refl, holds)
  | inr fails ↦
      let h' : any p xs ≡ true = rw fails at h in
      let (y, m, holds) = any-Memᴰ p xs h' in (y, Memᴰ.tail m, holds)
]

pub near_time :
    (now : ℕ) (o : Option ℕ)
    → is_stale now o ≡ false
    → (t : ℕ) × (o ≡ some t) × (now ≤ t + skew_ms) × (t ≤ now + skew_ms)
unfolding is_stale
near_time now none h = absurd (ground arith)
near_time now (some t) h = (t, refl, ground arith, ground arith)

entered-IsAuthentic :
    (env : LinkEnv) (ips secrets : List String) (now : ℕ) (r : Request) (st : State env.Json)
    → one_of ips (plain_ip r.ip) ≡ true
    → IsEntered env secrets now r st (check_request env secrets now r st)
    → IsAuthentic env ips secrets now r
unfolding is_valid
entered-IsAuthentic env ips secrets now r st listed entered =
    let (secret, is_secret, signed) = any-Memᴰ _ secrets entered.signed in
    let (t, e, older, newer) = near_time now (env.number r.timestamp) entered.fresh in
    record {
      listed = listed;
      secret = secret;
      is_secret = is_secret;
      signed = signed;
      time = t;
      timestamp = e;
      not_older = older;
      not_newer = newer;
    }

tested-IsAuthentic :
    (env : LinkEnv) (ips secrets : List String) (now : ℕ) (r : Request) (st : State env.Json)
    → one_of ips (plain_ip r.ip) ≡ true
    → is_passed (check_request env secrets now r st).1 ≡ true
    → IsAuthentic env ips secrets now r
tested-IsAuthentic env ips secrets now r st listed h =
    elim (check_request-cases env secrets now r st) [
      | inr entered ↦ entered-IsAuthentic env ips secrets now r st listed entered
      | inl away ↦ let bad : true ≡ false = sym h ∙ away.answered in absurd (ground (arith, bad))
    ]

-- A request passes only if it comes from a listed address, its timestamp is within a minute of the
-- node's clock, and its signature is the code, under one of the fleet's secrets, of its timestamp,
-- nonce, method, route and body.
pub admit-IsAuthentic :
    (env : LinkEnv) (ips secrets : List String) (now : ℕ) (r : Request) (st : State env.Json)
    → is_passed (admit env ips secrets now r st).1 ≡ true
    → IsAuthentic env ips secrets now r
admit-IsAuthentic env ips secrets now r st h = elim (admit-cases env ips secrets now r st) [
  | inl stopped ↦ let bad : true ≡ false = sym h ∙ stopped.answered in absurd (ground (arith, bad))
  | inr through ↦
      tested-IsAuthentic env ips secrets now r (counted_state env now r st) through.listed
        (sym (ap (λ x. is_passed x.1) through.tested) ∙ h)
]
