-- ===== src/FleetLink/Replay.antt =====
-- A request to the node of src/changes/fleet-link.js is admitted once: the nonce is kept for as long
-- as the timestamp is accepted.
use grouvi_nox.Prelude.{
  Bool, Bool-cases, List, String, [], ap, arith, eq_iff, false, if◌then◌else◌, inl, inr, refl, some,
  subst, sym, true, ℕ, ◌&&◌, ◌+◌, ◌==◌, ◌∙◌, ◌∷◌, ◌≡◌, ◌≤◌,
}
use grouvi_nox.FleetLink.{LinkEnv, Request, State, sweep, check_request, admit}
use grouvi_nox.FleetLink.Nonces.{IsSpent, select-IsSpent, put-IsSpent, spent_clash, stored-IsSpent}
use grouvi_nox.FleetLink.Cases.{
  is_passed, IsEntered, check_request-cases, counted_state, admit-cases,
}

-- A request with the settings that the node reads when it arrives.
pub record Arrival : Type 0 where
  pub at : ℕ
  pub ips : List String
  pub secrets : List String
  pub request : Request

-- Times that do not go back.
unfoldable pub InOrder : ℕ → List Arrival → Type 0
InOrder now [] = Unit {0}
InOrder now (a ∷ rest) = (now ≤ a.at) × InOrder a.at rest

and_three : (a b c : Bool) → (a && (b && c)) ≡ true → (a ≡ true) × (b ≡ true) × (c ≡ true)
and_three a b c h = ground arith

module _ (env : LinkEnv) where
  abbrev after : State env.Json → Arrival → State env.Json
  after st a = (admit env a.ips a.secrets a.at a.request st).0

  abbrev passes : State env.Json → Arrival → Bool
  passes st a = is_passed (admit env a.ips a.secrets a.at a.request st).1

  -- How many requests with this nonce and this timestamp pass.
  unfoldable pub times_passed : String → String → State env.Json → List Arrival → ℕ
  times_passed n t st [] = 0
  times_passed n t st (a ∷ rest) =
      (if a.request.nonce == n && (a.request.timestamp == t && passes st a) then 1 else 0)
      + times_passed n t (after st a) rest

  abbrev Spent : String → ℕ → ℕ → State env.Json → Type 0
  Spent n t now st = IsSpent n t now st.seen

  Spent-sweep :
      (n : String) (t now later : ℕ) (st : State env.Json)
      → now ≤ later
      → Spent n t now st
      → Spent n t later (sweep later st)
  unfolding sweep
  Spent-sweep n t now later st le spent = select-IsSpent n t now later st.seen le spent

  same_seen-Spent :
      (n : String) (t now : ℕ) (st st' : State env.Json)
      → st'.seen ≡ st.seen
      → Spent n t now st
      → Spent n t now st'
  same_seen-Spent n t now st st' e spent = subst (IsSpent n t now) (sym e) spent

  refused-Spent :
      (secrets : List String) (now t : ℕ) (r : Request) (st : State env.Json)
      → env.number r.timestamp ≡ some t
      → Spent r.nonce t now st
      → is_passed (check_request env secrets now r st).1 ≡ false
  refused-Spent secrets now t r st e spent = elim (check_request-cases env secrets now r st) [
    | inl away ↦ away.answered
    | inr entered ↦ absurd (
        spent_clash r.nonce t now st.seen (env.number r.timestamp) e spent entered.unseen
          entered.fresh)
  ]

  check-Spent :
      (n : String) (t : ℕ) (secrets : List String) (now : ℕ) (r : Request) (st : State env.Json)
      → Spent n t now st
      → Spent n t now (check_request env secrets now r st).0
  check-Spent n t secrets now r st spent = elim (check_request-cases env secrets now r st) [
    | inl away ↦ rw away.same_state spent
    | inr entered ↦ rw entered.stored (put-IsSpent n r.nonce t now now st.seen entered.unseen spent)
  ]

  counted-Spent :
      (n : String) (t now : ℕ) (r : Request) (st : State env.Json)
      → Spent n t now (sweep now st)
      → Spent n t now (counted_state env now r st)
  counted-Spent n t now r st spent =
      same_seen-Spent n t now (sweep now st) (counted_state env now r st) refl spent

  Spent-admit :
      (n : String) (t now : ℕ) (st : State env.Json) (a : Arrival)
      → now ≤ a.at
      → Spent n t now st
      → Spent n t a.at (after st a)
  Spent-admit n t now st a le spent =
      let swept = Spent-sweep n t now a.at st le spent in
      elim (admit-cases env a.ips a.secrets a.at a.request st) [
        | inl stopped ↦
            same_seen-Spent n t a.at (sweep a.at st) (after st a) stopped.same_seen swept
        | inr through ↦
            rw (after, through.tested)
              (check-Spent n t a.secrets a.at a.request (counted_state env a.at a.request st)
                (counted-Spent n t a.at a.request st swept))
      ]

  Spent-refused :
      (t now : ℕ) (st : State env.Json) (a : Arrival)
      → now ≤ a.at
      → env.number a.request.timestamp ≡ some t
      → Spent a.request.nonce t now st
      → passes st a ≡ false
  Spent-refused t now st a le e spent =
      let swept = Spent-sweep a.request.nonce t now a.at st le spent in
      elim (admit-cases env a.ips a.secrets a.at a.request st) [
        | inl stopped ↦ stopped.answered
        | inr through ↦ rw through.tested (
            refused-Spent a.secrets a.at t a.request (counted_state env a.at a.request st) e
              (counted-Spent a.request.nonce t a.at a.request st swept))
      ]

  times_passed-Spent :
      (n ts : String) (t now : ℕ) (st : State env.Json) (as_list : List Arrival)
      → InOrder now as_list
      → env.number ts ≡ some t
      → Spent n t now st
      → times_passed n ts st as_list ≡ 0
  unfolding times_passed InOrder
  times_passed-Spent n ts t now st [] order e spent = refl
  times_passed-Spent n ts t now st (a ∷ rest) (le, order) e spent =
      let none_later =
        times_passed-Spent n ts t a.at (after st a) rest order e
          (Spent-admit n t now st a le spent) in
      elim (Bool-cases (a.request.nonce == n)) [
        | inr other ↦ rw (other, none_later) refl
        | inl same ↦ elim (Bool-cases (a.request.timestamp == ts)) [
          | inr other ↦ rw (same, other, none_later) refl
          | inl same_time ↦
              let is_n = (eq_iff a.request.nonce n).0 same in
              let is_ts = (eq_iff a.request.timestamp ts).0 same_time in
              let refused =
                Spent-refused t now st a le (ap env.number is_ts ∙ e)
                  (subst (λ m. Spent m t now st) (sym is_n) spent) in
              rw (same, same_time, refused, none_later) refl
        ]
      ]

  entered-Spent :
      (secrets : List String) (now : ℕ) (r : Request) (st : State env.Json)
      → IsEntered env secrets now r st (check_request env secrets now r st)
      → (t : ℕ) × (env.number r.timestamp ≡ some t)
        × Spent r.nonce t now (check_request env secrets now r st).0
  entered-Spent secrets now r st entered =
      let (t, e, spent) =
        stored-IsSpent r.nonce now st.seen (env.number r.timestamp) entered.fresh in
      (t, e, rw entered.stored spent)

  passed-IsEntered :
      (secrets : List String) (now : ℕ) (r : Request) (st : State env.Json)
      → is_passed (check_request env secrets now r st).1 ≡ true
      → IsEntered env secrets now r st (check_request env secrets now r st)
  passed-IsEntered secrets now r st h = elim (check_request-cases env secrets now r st) [
    | inr entered ↦ entered
    | inl away ↦ let bad : true ≡ false = sym h ∙ away.answered in absurd (ground (arith, bad))
  ]

  passed-Spent :
      (st : State env.Json) (a : Arrival)
      → passes st a ≡ true
      → (t : ℕ) × (env.number a.request.timestamp ≡ some t)
        × Spent a.request.nonce t a.at (after st a)
  passed-Spent st a h = elim (admit-cases env a.ips a.secrets a.at a.request st) [
    | inl stopped ↦
        let bad : true ≡ false = sym h ∙ stopped.answered in absurd (ground (arith, bad))
    | inr through ↦
        let entered =
          passed-IsEntered a.secrets a.at a.request (counted_state env a.at a.request st)
            (sym (ap (λ x. is_passed x.1) through.tested) ∙ h) in
        let (t, e, spent) =
          entered-Spent a.secrets a.at a.request (counted_state env a.at a.request st) entered in
        (t, e, rw (after, through.tested) spent)
  ]

  -- Of the requests that carry one nonce and one timestamp at most one passes, over every sequence
  -- of requests at times that do not go back, whatever was stored before and whichever addresses
  -- and secrets the node reads in between.
  pub passed_once :
      (n ts : String) (now : ℕ) (st : State env.Json) (arrivals : List Arrival)
      → InOrder now arrivals
      → times_passed n ts st arrivals ≤ 1
  unfolding times_passed InOrder
  passed_once n ts now st [] order = omega arith
  passed_once n ts now st (a ∷ rest) (le, order) =
      elim (Bool-cases (a.request.nonce == n && (a.request.timestamp == ts && passes st a))) [
        | inr other ↦
            let rest_once = passed_once n ts a.at (after st a) rest order in
            rw other (omega (arith, rest_once))
        | inl all_three ↦
            let (same, same_time, passed) = and_three _ _ _ all_three in
            let is_n = (eq_iff a.request.nonce n).0 same in
            let is_ts = (eq_iff a.request.timestamp ts).0 same_time in
            let (t, e, spent) = passed-Spent st a passed in
            let none_later =
              times_passed-Spent n ts t a.at (after st a) rest order (ap env.number (sym is_ts) ∙ e)
                (subst (λ m. Spent m t a.at (after st a)) is_n spent) in
            rw (all_three, none_later) (omega arith)
      ]
