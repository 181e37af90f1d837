-- ===== src/RateLimit/Window.antt =====
-- How many requests the limiter of src/security.js lets through in a span of time.
use grouvi_nox.Prelude.{
  Bool-cases, List, Option, Option-cases, String, [], ap, arith, eq_iff, eq_refl, false,
  if◌then◌else◌, inl, inr, ltb, none, not, refl, some, subst, ℕ, ◌&&◌, ◌*◌, ◌+◌, ◌-◌, ◌<◌, ◌==◌,
  ◌∙◌, ◌∷◌, ◌≡◌, ◌≤◌,
}
use grouvi_nox.Prelude.JsMap
use grouvi_nox.Prelude.JsMap.{get-put}
use grouvi_nox.RateLimit.{Bucket, Buckets, bucket_for, counted, rate_limit}

-- A request: its address and its time.
abbrev pub Requests : Type 0
Requests = List (String × ℕ)

unfoldable pub Within : ℕ → ℕ → Requests → Type 0
Within first last [] = Unit {0}
Within first last ((k, now) ∷ rs) = (first ≤ now) × (now ≤ last) × Within first last rs

module _ (window_ms max : ℕ) (key : String) where
  -- The requests of one address that are let through, among those of others.
  unfoldable pub admitted : Requests → Buckets → ℕ
  admitted [] m = 0
  admitted ((k, now) ∷ rs) m =
      (if k == key && (rate_limit window_ms max k now m).1 then 1 else 0)
      + admitted rs (rate_limit window_ms max k now m).0

  abbrev next : ℕ → Buckets → Bucket
  next now m = counted (bucket_for window_ms now (JsMap.get m key))

  bucket_for-live : (now : ℕ) (b : Bucket) → now ≤ b.reset → bucket_for window_ms now (some b) ≡ b
  unfolding bucket_for
  bucket_for-live now b h = ground arith

  bucket_for-none :
      (now : ℕ) → bucket_for window_ms now none ≡ record { count = 0; reset = now + window_ms }
  unfolding bucket_for
  bucket_for-none now = refl

  bucket_for-over :
      (now : ℕ) (b : Bucket)
      → b.reset < now
      → bucket_for window_ms now (some b) ≡ record { count = 0; reset = now + window_ms }
  unfolding bucket_for
  bucket_for-over now b h = ground arith

  other_bucket :
      (k : String) (now : ℕ) (m : Buckets)
      → (k == key) ≡ false
      → JsMap.get (rate_limit window_ms max k now m).0 key ≡ JsMap.get m key
  unfolding rate_limit
  other_bucket k now m other = get-put m k key _ ∙ (rw other refl)

  own_bucket :
      (k : String) (now : ℕ) (m : Buckets)
      → k ≡ key
      → JsMap.get (rate_limit window_ms max k now m).0 key ≡ some (next now m)
  unfolding rate_limit
  own_bucket k now m same = rw same (get-put m key key _ ∙ (rw (eq_refl key) refl))

  own_through :
      (k : String) (now : ℕ) (m : Buckets)
      → k ≡ key
      → (rate_limit window_ms max k now m).1 ≡ not (ltb max (next now m).count)
  unfolding rate_limit
  own_through k now m same = rw same refl

  -- As long as the bucket of the address lasts, what it has left bounds the requests.
  admitted-live :
      (first last : ℕ) (rs : Requests) (m : Buckets) (b : Bucket)
      → Within first last rs
      → JsMap.get m key ≡ some b
      → last ≤ b.reset
      → admitted rs m ≤ max - b.count
  unfolding admitted Within
  admitted-live first last [] m b h g e = omega arith
  admitted-live first last ((k, now) ∷ rs) m b (lo, hi, h) g e = elim (Bool-cases (k == key)) [
    | inr other ↦
        let rest =
          admitted-live first last rs (rate_limit window_ms max k now m).0 b h
            (other_bucket k now m other ∙ g) e in
        rw other (omega (arith, rest))
    | inl same ↦
        let k' = (eq_iff k key).0 same in
        let is : next now m ≡ counted b = ap counted (rw g (bucket_for-live now b (omega arith))) in
        let rest =
          admitted-live first last rs (rate_limit window_ms max k now m).0 (counted b) h
            (own_bucket k now m k' ∙ ap some is) e in
        let through = own_through k now m k' ∙ ap (λ x. not (ltb max x.count)) is in
        rw (same, through) (ground (arith, rest))
  ]

  -- What the bucket of the address has left.
  abbrev left : Option Bucket → ℕ
  left none = 0
  left (some b) = max - b.count

  -- A request that begins a bucket, and all that follow before it ends.
  admitted-begins :
      (first k_now : ℕ) (k : String) (rs : Requests) (m : Buckets)
      → first ≤ k_now
      → Within first (first + window_ms) rs
      → k ≡ key
      → next k_now m ≡ counted (record { count = 0; reset = k_now + window_ms })
      → (if (rate_limit window_ms max k k_now m).1 then 1 else 0)
          + admitted rs (rate_limit window_ms max k k_now m).0
        ≤ max
  admitted-begins first now k rs m lo h same is =
      let b : Bucket = counted (record { count = 0; reset = now + window_ms }) in
      let rest =
        admitted-live first (first + window_ms) rs (rate_limit window_ms max k now m).0 b h
          (own_bucket k now m same ∙ ap some is) (omega arith) in
      let through = own_through k now m same ∙ ap (λ x. not (ltb max x.count)) is in
      rw through (ground (arith, rest))

  admitted-left :
      (first : ℕ) (rs : Requests) (m : Buckets)
      → Within first (first + window_ms) rs
      → admitted rs m ≤ left (JsMap.get m key) + max
  unfolding admitted Within
  admitted-left first [] m h = omega arith
  admitted-left first ((k, now) ∷ rs) m (lo, hi, h) =
      let m' = (rate_limit window_ms max k now m).0 in
      elim (Bool-cases (k == key)) [
        | inr other ↦
            let rest = admitted-left first rs m' h in
            rw other (
              subst (λ x. 0 + admitted rs m' ≤ left x + max) (other_bucket k now m other)
                (omega (arith, rest)))
        | inl same ↦
            let k' = (eq_iff k key).0 same in
            elim (Option-cases (JsMap.get m key)) [
              | inl new ↦
                  let begins =
                    admitted-begins first now k rs m lo h k'
                      (ap counted (ap (bucket_for window_ms now) new ∙ bucket_for-none now)) in
                  rw (same, new) (omega (arith, begins))
              | inr (b, g) ↦ elim (Bool-cases (ltb b.reset now)) [
                | inl over ↦
                    let begins = admitted-begins first now k rs m lo h k' (
                      ap counted
                        (ap (bucket_for window_ms now) g ∙ bucket_for-over now b (ground arith))) in
                    rw (same, g) (omega (arith, begins))
                | inr live ↦
                    let is : next now m ≡ counted b =
                      ap counted (rw g (bucket_for-live now b (ground arith))) in
                    let rest : admitted rs m' ≤ (max - (b.count + 1)) + max =
                      subst (λ x. admitted rs m' ≤ left x + max)
                        (own_bucket k now m k' ∙ ap some is) (admitted-left first rs m' h) in
                    let through = own_through k now m k' ∙ ap (λ x. not (ltb max x.count)) is in
                    rw (same, g, through) (ground (arith, rest))
              ]
            ]
      ]

  -- Of the requests of one address in any span as long as the window, at most twice `max` are let
  -- through, whatever was counted before and whatever other addresses ask in between.
  pub admitted_bounded :
      (first : ℕ) (rs : Requests) (m : Buckets)
      → Within first (first + window_ms) rs
      → admitted rs m ≤ 2 * max
  admitted_bounded first rs m h = elim (Option-cases (JsMap.get m key)) [
    | inl new ↦
        let b : admitted rs m ≤ 0 + max =
          subst (λ x. admitted rs m ≤ left x + max) new (admitted-left first rs m h) in
        omega (arith, b)
    | inr (b, g) ↦
        let c : admitted rs m ≤ (max - b.count) + max =
          subst (λ x. admitted rs m ≤ left x + max) g (admitted-left first rs m h) in
        omega (arith, c)
  ]

  -- An address that has no bucket yet gets at most `max` in the window from its first request.
  pub admitted_first :
      (first : ℕ) (rs : Requests) (m : Buckets)
      → JsMap.get m key ≡ none
      → Within first (first + window_ms) rs
      → admitted rs m ≤ max
  admitted_first first rs m new h =
      let b : admitted rs m ≤ 0 + max =
        subst (λ x. admitted rs m ≤ left x + max) new (admitted-left first rs m h) in
      omega (arith, b)
