-- ===== src/FleetLink/Rate.antt =====
-- How many requests of one address the node of src/changes/fleet-link.js admits in a minute. Its
-- counter is the limiter of src/security.js with a window of a minute and 120 requests.
use grouvi_nox.Prelude.{
  Bool-cases, List, Option, String, [], ap, arith, false, if◌then◌else◌, inl, inr, length, none,
  not, one_of, refl, some, subst, sym, true, ℕ, ◌&&◌, ◌+◌, ◌==◌, ◌∙◌, ◌∷◌, ◌≡◌, ◌≤◌,
}
use grouvi_nox.Prelude.JsMap
use grouvi_nox.RateLimit.{Bucket, Buckets, bucket_for, rate_limit}
use grouvi_nox.RateLimit.Window.{Requests, Within, admitted, admitted_bounded}
use grouvi_nox.FleetLink.{
  LinkEnv, Request, State, sweep, hit_bucket, hit, plain_ip, check_request, limit_request, admit,
}
use grouvi_nox.FleetLink.Cases.{is_passed, check_request-cases, suc_not_zero, admit-cases}
use grouvi_nox.FleetLink.Replay.{Arrival}

unfoldable pub InSpan : ℕ → ℕ → List Arrival → Type 0
InSpan first last [] = Unit {0}
InSpan first last (a ∷ rest) = (first ≤ a.at) × (a.at ≤ last) × InSpan first last rest

hit_bucket-bucket_for : (now : ℕ) (o : Option Bucket) → hit_bucket now o ≡ bucket_for 60000 now o
unfolding hit_bucket bucket_for
hit_bucket-bucket_for now none = refl
hit_bucket-bucket_for now (some b) = refl

hit-rate_limit :
    (ip : String) (now : ℕ) (m : Buckets)
    → ((hit ip now m).0 ≡ (rate_limit 60000 120 ip now m).0)
      × (not (hit ip now m).1 ≡ (rate_limit 60000 120 ip now m).1)
unfolding hit rate_limit
hit-rate_limit ip now m = rw (hit_bucket-bucket_for now (JsMap.get m ip)) (refl, refl)

-- The requests that reach the counter, as the limiter sees them.
unfoldable counted_requests : List Arrival → Requests
counted_requests [] = []
counted_requests (a ∷ rest) =
    let others = counted_requests rest in
    if one_of a.ips (plain_ip a.request.ip) then (plain_ip a.request.ip, a.at) ∷ others else others

Within-counted_requests :
    (first last : ℕ) (arrivals : List Arrival)
    → InSpan first last arrivals
    → Within first last (counted_requests arrivals)
unfolding InSpan Within counted_requests
Within-counted_requests first last [] h = tt
Within-counted_requests first last (a ∷ rest) (lo, hi, h) =
    let others = Within-counted_requests first last rest h in
    elim (Bool-cases (one_of a.ips (plain_ip a.request.ip))) [
      | inl listed ↦ rw listed (lo, hi, others)
      | inr other ↦ rw other others
    ]

module _ (env : LinkEnv) where
  check_request-hits :
      (secrets : List String) (now : ℕ) (r : Request) (st : State env.Json)
      → (check_request env secrets now r st).0.hits ≡ st.hits
  check_request-hits secrets now r st = elim (check_request-cases env secrets now r st) [
    | inl away ↦ ap (λ x. x.hits) away.same_state
    | inr entered ↦ rw entered.stored refl
  ]

  limit_request-hits :
      (secrets : List String) (now : ℕ) (r : Request) (st : State env.Json)
      → (limit_request env secrets now r st).0.hits ≡ (hit (plain_ip r.ip) now st.hits).0
  unfolding limit_request
  limit_request-hits secrets now r st = elim (Bool-cases ((hit (plain_ip r.ip) now st.hits).1)) [
    | inl over ↦ rw over refl
    | inr under ↦ rw under (check_request-hits secrets now r _)
  ]

  admit-hits :
      (ips secrets : List String) (now : ℕ) (r : Request) (st : State env.Json)
      → (admit env ips secrets now r st).0.hits
        ≡ (if one_of ips (plain_ip r.ip) then (hit (plain_ip r.ip) now st.hits).0 else st.hits)
  unfolding admit sweep
  admit-hits [] secrets now r st = refl
  admit-hits (ip ∷ ips) secrets now r st =
      let some_ips = suc_not_zero (length ips) in
      elim (Bool-cases (one_of (ip ∷ ips) (plain_ip r.ip))) [
        | inl listed ↦ rw (some_ips, listed) (limit_request-hits secrets now r (sweep now st))
        | inr other ↦ rw (some_ips, other) refl
      ]

  admit-under :
      (ips secrets : List String) (now : ℕ) (r : Request) (st : State env.Json)
      → is_passed (admit env ips secrets now r st).1 ≡ true
      → (one_of ips (plain_ip r.ip) ≡ true) × ((hit (plain_ip r.ip) now st.hits).1 ≡ false)
  unfolding sweep
  admit-under ips secrets now r st h = elim (admit-cases env ips secrets now r st) [
    | inr through ↦ (through.listed, through.under)
    | inl stopped ↦
        let bad : true ≡ false = sym h ∙ stopped.answered in absurd (ground (arith, bad))
  ]

  -- How many requests from the address `ip` pass.
  unfoldable pub passed_from : String → State env.Json → List Arrival → ℕ
  passed_from ip st [] = 0
  passed_from ip st (a ∷ rest) =
      (if plain_ip a.request.ip == ip && is_passed (admit env a.ips a.secrets a.at a.request st).1
        then 1
        else 0)
      + passed_from ip (admit env a.ips a.secrets a.at a.request st).0 rest

  passed_from-admitted :
      (ip : String) (st : State env.Json) (arrivals : List Arrival)
      → passed_from ip st arrivals ≤ admitted 60000 120 ip (counted_requests arrivals) st.hits
  unfolding passed_from admitted counted_requests
  passed_from-admitted ip st [] = omega arith
  passed_from-admitted ip st (a ∷ rest) =
      let after = (admit env a.ips a.secrets a.at a.request st).0 in
      let later = passed_from-admitted ip after rest in
      let hits = admit-hits a.ips a.secrets a.at a.request st in
      let (next_hits, through) = hit-rate_limit (plain_ip a.request.ip) a.at st.hits in
      elim (Bool-cases (is_passed (admit env a.ips a.secrets a.at a.request st).1)) [
        | inl passed ↦
            let (listed, under) = admit-under a.ips a.secrets a.at a.request st passed in
            let later' : passed_from ip after rest
                ≤ admitted 60000 120 ip (counted_requests rest)
                    (rate_limit 60000 120 (plain_ip a.request.ip) a.at st.hits).0 =
              subst
                (λ m. passed_from ip after rest ≤ admitted 60000 120 ip (counted_requests rest) m)
                (hits ∙ (rw listed next_hits)) later in
            let lets : (rate_limit 60000 120 (plain_ip a.request.ip) a.at st.hits).1 ≡ true =
              sym through ∙ (rw under refl) in
            rw (passed, listed, lets) (ground (arith, later'))
        | inr stopped ↦ elim (Bool-cases (one_of a.ips (plain_ip a.request.ip))) [
          | inl listed ↦
              let later' : passed_from ip after rest
                  ≤ admitted 60000 120 ip (counted_requests rest)
                      (rate_limit 60000 120 (plain_ip a.request.ip) a.at st.hits).0 =
                subst
                  (λ m. passed_from ip after rest ≤ admitted 60000 120 ip (counted_requests rest) m)
                  (hits ∙ (rw listed next_hits)) later in
              rw (stopped, listed) (ground (arith, later'))
          | inr other ↦
              let later' : passed_from ip after rest
                  ≤ admitted 60000 120 ip (counted_requests rest) st.hits =
                subst
                  (λ m. passed_from ip after rest ≤ admitted 60000 120 ip (counted_requests rest) m)
                  (hits ∙ (rw other refl)) later in
              rw (stopped, other) (ground (arith, later'))
        ]
      ]

  -- Of the requests of one address in any minute at most 240 pass, whatever was counted before and
  -- whatever other addresses ask in between.
  pub passed_bounded :
      (ip : String) (first : ℕ) (st : State env.Json) (arrivals : List Arrival)
      → InSpan first (first + 60000) arrivals
      → passed_from ip st arrivals ≤ 240
  passed_bounded ip first st arrivals h =
      let within = Within-counted_requests first (first + 60000) arrivals h in
      let few = admitted_bounded 60000 120 ip first (counted_requests arrivals) st.hits within in
      omega (arith, few, passed_from-admitted ip st arrivals)
