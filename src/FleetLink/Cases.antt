-- ===== src/FleetLink/Cases.antt =====
-- The two ways in which the middleware of src/changes/fleet-link.js ends: it stores the nonce, or it
-- answers by itself and leaves the nonces as they are.
use grouvi_nox.Prelude.{
  Bool, Bool-cases, List, Option-cases, String, arith, eqb, false, inl, inr, is_hex_of_length,
  length, none, one_of, refl, suc, true, ℕ, ◌≡◌, ◌⊎◌,
}
use grouvi_nox.Prelude.JsMap
use grouvi_nox.FleetLink.{
  LinkEnv, Request, State, Passage, passed, refused, sweep, is_stale, is_valid, payload_of,
  check_request, limit_request, admit, hit, plain_ip,
}

abbrev pub is_passed : {Json : Type 0} → Passage Json → Bool
is_passed (passed v) = true
is_passed (refused status reason) = false

pub suc_not_zero : (n : ℕ) → eqb (suc n) 0 ≡ false
suc_not_zero n = ground arith

pub record IsEntered (env : LinkEnv) (secrets : List String) (now : ℕ) (r : Request)
    (st : State env.Json) (after : State env.Json × Passage env.Json) : Type 0 where
  pub fresh : is_stale now (env.number r.timestamp) ≡ false
  pub hex : is_hex_of_length 32 r.nonce ≡ true
  pub unseen : JsMap.get st.seen r.nonce ≡ none
  pub signed : is_valid env secrets r ≡ true
  pub stored : after ≡ (record st { seen = JsMap.put st.seen r.nonce now }, payload_of env r)

pub record IsTurnedAway (env : LinkEnv) (st : State env.Json)
    (after : State env.Json × Passage env.Json) : Type 0 where
  pub same_state : after.0 ≡ st
  pub answered : is_passed after.1 ≡ false

pub check_request-cases :
    (env : LinkEnv) (secrets : List String) (now : ℕ) (r : Request) (st : State env.Json)
    → IsTurnedAway env st (check_request env secrets now r st)
      ⊎ IsEntered env secrets now r st (check_request env secrets now r st)
unfolding check_request
check_request-cases env secrets now r st =
    elim (Bool-cases (is_stale now (env.number r.timestamp))) [
      | inl stale ↦ inl (rw stale (record { same_state = refl; answered = refl }))
      | inr fresh ↦ elim (Bool-cases (is_hex_of_length 32 r.nonce)) [
        | inr odd ↦ inl (rw (fresh, odd) (record { same_state = refl; answered = refl }))
        | inl hex ↦ elim (Option-cases (JsMap.get st.seen r.nonce)) [
          | inr (at, found) ↦
              inl (rw (fresh, hex, found) (record { same_state = refl; answered = refl }))
          | inl unseen ↦ elim (Bool-cases (is_valid env secrets r)) [
            | inr wrong ↦
                inl (rw (fresh, hex, unseen, wrong) (record { same_state = refl; answered = refl }))
            | inl signed ↦ inr (record {
              fresh = fresh;
              hex = hex;
              unseen = unseen;
              signed = signed;
              stored = rw (fresh, hex, unseen, signed) refl;
            })
          ]
        ]
      ]
    ]

-- The state in which the tests behind the limiter run.
abbrev pub counted_state : (env : LinkEnv) → ℕ → Request → State env.Json → State env.Json
counted_state env now r st = record (sweep now st) {
  hits = (hit (plain_ip r.ip) now (sweep now st).hits).0;
}

-- A request that is not answered before the tests came from a listed address, under the limit.
pub record IsTested (env : LinkEnv) (ips secrets : List String) (now : ℕ) (r : Request)
    (st : State env.Json) : Type 0 where
  pub listed : one_of ips (plain_ip r.ip) ≡ true
  pub under : (hit (plain_ip r.ip) now (sweep now st).hits).1 ≡ false
  pub tested :
      admit env ips secrets now r st ≡ check_request env secrets now r (counted_state env now r st)

pub record IsStopped (env : LinkEnv) (st : State env.Json) (now : ℕ)
    (after : State env.Json × Passage env.Json) : Type 0 where
  pub same_seen : after.0.seen ≡ (sweep now st).seen
  pub answered : is_passed after.1 ≡ false

pub admit-cases :
    (env : LinkEnv) (ips secrets : List String) (now : ℕ) (r : Request) (st : State env.Json)
    → IsStopped env st now (admit env ips secrets now r st) ⊎ IsTested env ips secrets now r st
unfolding admit limit_request
admit-cases env ips secrets now r st = elim (Bool-cases (eqb (length ips) 0)) [
  | inl nobody ↦ inl (rw nobody (record { same_seen = refl; answered = refl }))
  | inr some_ips ↦ elim (Bool-cases (one_of ips (plain_ip r.ip))) [
    | inr other ↦ inl (rw (some_ips, other) (record { same_seen = refl; answered = refl }))
    | inl listed ↦ elim (Bool-cases ((hit (plain_ip r.ip) now (sweep now st).hits).1)) [
      | inl over ↦ inl (rw (some_ips, listed, over) (record { same_seen = refl; answered = refl }))
      | inr under ↦
          inr
            (record { listed = listed; under = under; tested = rw (some_ips, listed, under) refl })
    ]
  ]
]
