-- ===== src/FleetHub/Once.antt =====
-- A snapshot is taken once by the hub of src/fleet.js.
use grouvi_nox.Prelude.{
  Bool, Bool-cases, List, String, [], ap, arith, eq_iff, false, if◌then◌else◌, inl, inr, refl, some,
  subst, sym, true, ℕ, ◌&&◌, ◌+◌, ◌==◌, ◌∙◌, ◌∷◌, ◌≡◌, ◌≤◌,
}
use grouvi_nox.FleetLink.{LinkEnv}
use grouvi_nox.FleetLink.Nonces.{IsSpent, select-IsSpent, put-IsSpent, spent_clash, stored-IsSpent}
use grouvi_nox.FleetHub.{
  Fields, Settings, State, Request, Answer, cleanup_nonces, node_secrets, node_key, check_push,
  ingest,
}
use grouvi_nox.FleetHub.Cases.{
  is_received, IsRefused, IsChecked, check_push-cases, counted_state, ingest-cases,
}

-- A request with the settings of the hub when it arrives.
pub record Arrival : Type 0 where
  pub at : ℕ
  pub settings : Settings
  pub request : Request

-- Times that do not go back.
unfoldable pub InOrder : ℕ → List Arrival → Type 0
InOrder now [] = Unit {0}
InOrder now (a ∷ rest) = (now ≤ a.at) × InOrder a.at rest

abbrev pub key_of : Request → String
key_of r = node_key r.node r.nonce

and_three : (a b c : Bool) → (a && (b && c)) ≡ true → (a ≡ true) × (b ≡ true) × (c ≡ true)
and_three a b c h = ground arith

module _ (env : LinkEnv) (fields : Fields env.Json) where
  abbrev after : State env.Json → Arrival → State env.Json
  after st a = (ingest env fields a.settings a.at a.request st).0

  abbrev takes : State env.Json → Arrival → Bool
  takes st a = is_received (ingest env fields a.settings a.at a.request st).1

  -- How many requests with this key and this timestamp are taken.
  unfoldable pub times_taken : String → String → State env.Json → List Arrival → ℕ
  times_taken n t st [] = 0
  times_taken n t st (a ∷ rest) =
      (if key_of a.request == n && (a.request.timestamp == t && takes st a) then 1 else 0)
      + times_taken n t (after st a) rest

  abbrev Spent : String → ℕ → ℕ → State env.Json → Type 0
  Spent n t now st = IsSpent n t now st.nonces

  Spent-cleanup :
      (n : String) (t now later : ℕ) (st : State env.Json)
      → now ≤ later
      → Spent n t now st
      → Spent n t later (cleanup_nonces later st)
  unfolding cleanup_nonces
  Spent-cleanup n t now later st le spent = select-IsSpent n t now later st.nonces le spent

  refused-Spent :
      (n : String) (t now : ℕ) (r : Request) (st : State env.Json) (left : State env.Json × Answer)
      → IsRefused env fields now r st left
      → Spent n t now st
      → Spent n t now left.0
  refused-Spent n t now r st left refused spent = elim refused.nonces [
    | inl same ↦ subst (IsSpent n t now) (sym same) spent
    | inr (unseen, put) ↦
        subst (IsSpent n t now) (sym put)
          (put-IsSpent n (key_of r) t now now st.nonces unseen spent)
  ]

  check_push-Spent :
      (n : String) (t : ℕ) (secrets : List String) (now : ℕ) (r : Request) (st : State env.Json)
      → Spent n t now st
      → Spent n t now (check_push env fields secrets now r st).0
  check_push-Spent n t secrets now r st spent =
      elim (check_push-cases env fields secrets now r st) [
        | inl left ↦ refused-Spent n t now r st _ left spent
        | inr c ↦
            subst (IsSpent n t now) (sym c.stored.nonces)
              (put-IsSpent n (key_of r) t now now st.nonces c.unseen spent)
      ]

  counted-Spent :
      (n : String) (t : ℕ) (a : Arrival) (st : State env.Json)
      → Spent n t a.at (cleanup_nonces a.at st)
      → Spent n t a.at (counted_state env fields a.settings a.at a.request st)
  counted-Spent n t a st spent = spent

  after-Spent :
      (n : String) (t now : ℕ) (st : State env.Json) (a : Arrival)
      → now ≤ a.at
      → Spent n t now st
      → Spent n t a.at (after st a)
  after-Spent n t now st a le spent =
      let kept = Spent-cleanup n t now a.at st le spent in
      elim (ingest-cases env fields a.settings a.at a.request st) [
        | inl left ↦
            refused-Spent n t a.at a.request (cleanup_nonces a.at st)
              (ingest env fields a.settings a.at a.request st) left kept
        | inr named ↦
            rw (after, named.tested)
              (check_push-Spent n t (node_secrets (a.settings.secrets a.request.node)) a.at
                a.request (counted_state env fields a.settings a.at a.request st)
                (counted-Spent n t a st kept))
      ]

  -- A request that is taken was checked, in the state in which it is counted.
  taken-IsChecked :
      (st : State env.Json) (a : Arrival)
      → takes st a ≡ true
      → IsChecked env fields
          (node_secrets (a.settings.secrets a.request.node))
          a.at
          a.request
          (counted_state env fields a.settings a.at a.request st)
          (ingest env fields a.settings a.at a.request st)
  taken-IsChecked st a h = elim (ingest-cases env fields a.settings a.at a.request st) [
    | inl left ↦ let bad : true ≡ false = sym h ∙ left.answered in absurd (ground (arith, bad))
    | inr named ↦
        elim (check_push-cases env fields (node_secrets (a.settings.secrets a.request.node)) a.at
          a.request (counted_state env fields a.settings a.at a.request st)) [
            | inl left ↦
                let bad : true ≡ false =
                  sym h ∙ (ap (λ x. is_received x.1) named.tested ∙ left.answered) in
                absurd (ground (arith, bad))
            | inr c ↦ rw named.tested c
          ]
  ]

  Spent-not_taken :
      (t now : ℕ) (st : State env.Json) (a : Arrival)
      → now ≤ a.at
      → env.number a.request.timestamp ≡ some t
      → Spent (key_of a.request) t now st
      → takes st a ≡ false
  Spent-not_taken t now st a le e spent = elim (Bool-cases (takes st a)) [
    | inr refused ↦ refused
    | inl taken ↦
        let c = taken-IsChecked st a taken in
        let kept =
          counted-Spent (key_of a.request) t a st
            (Spent-cleanup (key_of a.request) t now a.at st le spent) in
        absurd (
          spent_clash (key_of a.request) t a.at
            (counted_state env fields a.settings a.at a.request st).nonces
            (env.number a.request.timestamp) e kept c.unseen c.fresh)
  ]

  taken-Spent :
      (st : State env.Json) (a : Arrival)
      → takes st a ≡ true
      → (t : ℕ) × (env.number a.request.timestamp ≡ some t)
        × Spent (key_of a.request) t a.at (after st a)
  taken-Spent st a h =
      let c = taken-IsChecked st a h in
      let (t, e, spent) =
        stored-IsSpent (key_of a.request) a.at
          (counted_state env fields a.settings a.at a.request st).nonces
          (env.number a.request.timestamp) c.fresh in
      (t, e, subst (IsSpent (key_of a.request) t a.at) (sym c.stored.nonces) spent)

  times_taken-Spent :
      (n ts : String) (t now : ℕ) (st : State env.Json) (as_list : List Arrival)
      → InOrder now as_list
      → env.number ts ≡ some t
      → Spent n t now st
      → times_taken n ts st as_list ≡ 0
  unfolding times_taken InOrder
  times_taken-Spent n ts t now st [] order e spent = refl
  times_taken-Spent n ts t now st (a ∷ rest) (le, order) e spent =
      let none_later =
        times_taken-Spent n ts t a.at (after st a) rest order e
          (after-Spent n t now st a le spent) in
      elim (Bool-cases (key_of a.request == n && (a.request.timestamp == ts && takes st a))) [
        | inr other ↦ rw (other, none_later) refl
        | inl all_three ↦
            let (same, same_time, taken) = and_three _ _ _ all_three in
            let is_n = (eq_iff (key_of a.request) n).0 same in
            let is_ts = (eq_iff a.request.timestamp ts).0 same_time in
            let refused =
              Spent-not_taken t now st a le (ap env.number is_ts ∙ e)
                (subst (λ m. IsSpent m t now st.nonces) (sym is_n) spent) in
            let bad : true ≡ false = sym taken ∙ refused in absurd (ground (arith, bad))
      ]

  -- Of the requests of one node that carry one nonce and one timestamp the hub takes at most one,
  -- over every sequence of requests at times that do not go back, whatever was kept before and
  -- whichever settings the hub reads in between.
  pub taken_once :
      (n ts : String) (now : ℕ) (st : State env.Json) (arrivals : List Arrival)
      → InOrder now arrivals
      → times_taken n ts st arrivals ≤ 1
  unfolding times_taken InOrder
  taken_once n ts now st [] order = omega arith
  taken_once n ts now st (a ∷ rest) (le, order) =
      elim (Bool-cases (key_of a.request == n && (a.request.timestamp == ts && takes st a))) [
        | inr other ↦
            let rest_once = taken_once n ts a.at (after st a) rest order in
            rw other (omega (arith, rest_once))
        | inl all_three ↦
            let (same, same_time, taken) = and_three _ _ _ all_three in
            let is_n = (eq_iff (key_of a.request) n).0 same in
            let is_ts = (eq_iff a.request.timestamp ts).0 same_time in
            let (t, e, spent) = taken-Spent st a taken in
            let none_later =
              times_taken-Spent n ts t a.at (after st a) rest order (ap env.number (sym is_ts) ∙ e)
                (subst (λ m. IsSpent m t a.at (after st a).nonces) is_n spent) in
            rw (all_three, none_later) (omega arith)
      ]
