-- ===== src/FleetLink/Nonces.antt =====
-- Nonces that are kept for two minutes, as src/changes/fleet-link.js and src/fleet.js keep them: a
-- nonce is forgotten only when its timestamp is not accepted any more.
use grouvi_nox.Prelude.{
  some-injective, Bool, Bool-cases, Option, String, [], ap, arith, eq_iff, eq_refl, false, inl, inr,
  ltb, none, not, refl, select, some, subst, sym, true, ℕ, ◌*◌, ◌+◌, ◌<◌, ◌==◌, ◌∙◌, ◌∷◌, ◌≡◌, ◌≤◌,
  ◌⊎◌,
}
use grouvi_nox.Prelude.JsMap
use grouvi_nox.Prelude.JsMap.{JsMap, get-put}
use grouvi_nox.FleetLink.{skew_ms, is_stale}

abbrev pub is_young : ℕ → String × ℕ → Bool
is_young now e = not (ltb (e.1 + 2 * skew_ms) now)

kept_or_old :
    (now : ℕ) (seen : JsMap ℕ) (n : String) (at : ℕ)
    → JsMap.get seen n ≡ some at
    → (JsMap.get (select (is_young now) seen) n ≡ some at) ⊎ (at + 2 * skew_ms < now)
unfolding JsMap.get
kept_or_old now [] n at h = cc
kept_or_old now ((k, b) ∷ seen) n at h = elim (Bool-cases (k == n)) [
  | inl same ↦ elim (Bool-cases (ltb (b + 2 * skew_ms) now)) [
    | inl old ↦
        let e : b ≡ at = some-injective b at (rw same at h) in
        inr (subst (λ x. x + 2 * skew_ms < now) e (ground arith))
    | inr young ↦ inl (rw (young, same) (rw same at h))
  ]
  | inr other ↦
      let h' : JsMap.get seen n ≡ some at = rw other at h in
      elim (kept_or_old now seen n at h') [
        | inr old ↦ inr old
        | inl kept ↦ inl (ground (arith, kept))
      ]
]

-- No request with the nonce `n` and the time `t` is taken from `now` on.
abbrev pub IsSpent : String → ℕ → ℕ → JsMap ℕ → Type 0
IsSpent n t now seen =
    ((at : ℕ) × (JsMap.get seen n ≡ some at) × (t ≤ at + skew_ms)) ⊎ (t + skew_ms < now)

kept-IsSpent :
    (n : String) (t at now : ℕ) (seen : JsMap ℕ)
    → JsMap.get seen n ≡ some at
    → t ≤ at + skew_ms
    → IsSpent n t now (select (is_young now) seen)
kept-IsSpent n t at now seen g le = elim (kept_or_old now seen n at g) [
  | inl kept ↦ inl (at, kept, le)
  | inr old ↦ inr (omega (arith, old))
]

pub select-IsSpent :
    (n : String) (t now later : ℕ) (seen : JsMap ℕ)
    → now ≤ later
    → IsSpent n t now seen
    → IsSpent n t later (select (is_young later) seen)
select-IsSpent n t now later seen le (inl (at, g, young)) = kept-IsSpent n t at later seen g young
select-IsSpent n t now later seen le (inr old) = inr (omega (arith, old, le))

pub put-IsSpent :
    (n m : String) (t now at : ℕ) (seen : JsMap ℕ)
    → JsMap.get seen m ≡ none
    → IsSpent n t now seen
    → IsSpent n t now (JsMap.put seen m at)
put-IsSpent n m t now at seen unseen (inr old) = inr old
put-IsSpent n m t now at seen unseen (inl (b, g, young)) = elim (Bool-cases (m == n)) [
  | inl same ↦
      let e = (eq_iff m n).0 same in
      let bad : none ≡ some b = sym unseen ∙ (rw e g) in absurd (ground (arith, bad))
  | inr other ↦ inl (b, get-put seen m n at ∙ (rw other g), young)
]

stale_old : (t now : ℕ) → t + skew_ms < now → is_stale now (some t) ≡ true
unfolding is_stale
stale_old t now h = ground arith

-- A request that is on time and whose nonce is not kept is not one of these.
pub spent_clash :
    (n : String) (t now : ℕ) (seen : JsMap ℕ) (o : Option ℕ)
    → o ≡ some t
    → IsSpent n t now seen
    → JsMap.get seen n ≡ none
    → is_stale now o ≡ false
    → ⊥
spent_clash n t now seen o e (inl (at, g, _)) unseen fresh =
    let bad : none ≡ some at = sym unseen ∙ g in ground (arith, bad)
spent_clash n t now seen o e (inr old) unseen fresh =
    let bad : true ≡ false = sym (stale_old t now old) ∙ (ap (is_stale now) (sym e) ∙ fresh) in
    ground (arith, bad)

fresh_number :
    (now : ℕ) (o : Option ℕ) → is_stale now o ≡ false → (t : ℕ) × (o ≡ some t) × (t ≤ now + skew_ms)
unfolding is_stale
fresh_number now none h = absurd (ground arith)
fresh_number now (some t) h = (t, refl, ground arith)

-- A nonce that is stored with a request on time is spent for its timestamp.
pub stored-IsSpent :
    (n : String) (now : ℕ) (seen : JsMap ℕ) (o : Option ℕ)
    → is_stale now o ≡ false
    → (t : ℕ) × (o ≡ some t) × IsSpent n t now (JsMap.put seen n now)
stored-IsSpent n now seen o fresh =
    let (t, e, near) = fresh_number now o fresh in
    (t, e, inl (now, get-put seen n n now ∙ (rw (eq_refl n) refl), near))
