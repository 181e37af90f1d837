-- ===== src/Alerts/Opened.antt =====
-- The alerts of src/metrics/alerts.js in their order, and the incidents that they open in
-- src/db/incidents.js.
use grouvi_nox.Prelude.{
  Bool, Bool-cases, List, String, [], all, any, ap, arith, false, inl, inr, not, one_of, refl, some,
  true, ℕ, ◌&&◌, ◌==◌, ◌||◌, ◌∙◌, ◌∷◌, ◌≡◌,
}
use grouvi_nox.Incidents.{
  Alert, Database, Severity, warning, critical, is_critical, keys_of, sync_incidents,
}
use grouvi_nox.Incidents.Rows.{has_active}
use grouvi_nox.Incidents.Sound.{IsNumbered}
use grouvi_nox.Incidents.Active.{is_recent}
use grouvi_nox.Incidents.Closing.{sync_incidents-active}
use grouvi_nox.Alerts.{raised, in_order, insert_alert, sort_alerts, evaluate}
use grouvi_nox.Alerts.Troubled.{is_troubled, raised-troubled}
use grouvi_nox.Alerts.Measured.{Measures, Thresholds, Snapshot}

abbrev pub is_warning : Alert → Bool
is_warning a = not (is_critical a.level)

-- Behind a warning there are warnings only.
unfoldable pub critical_first : List Alert → Bool
critical_first [] = true
critical_first (a ∷ more) = (is_critical a.level || all is_warning more) && critical_first more

keys-any :
    (alerts : List Alert) (k : String) → one_of (keys_of alerts) k ≡ any (λ a. a.key == k) alerts
keys-any [] k = refl
keys-any (a ∷ more) k = rw (keys-any more k) refl

module _ (m : Measures) (t : Thresholds m) where
  insert_alert-any :
      (p : Alert → Bool) (a : Alert) (bs : List Alert)
      → any p (insert_alert m t a bs) ≡ (p a || any p bs)
  unfolding insert_alert
  insert_alert-any p a [] = refl
  insert_alert-any p a (b ∷ bs) = ground (arith, insert_alert-any p a bs)

  insert_alert-all :
      (p : Alert → Bool) (a : Alert) (bs : List Alert)
      → all p (insert_alert m t a bs) ≡ (p a && all p bs)
  unfolding insert_alert
  insert_alert-all p a [] = refl
  insert_alert-all p a (b ∷ bs) = ground (arith, insert_alert-all p a bs)

  sort_alerts-any : (p : Alert → Bool) (xs : List Alert) → any p (sort_alerts m t xs) ≡ any p xs
  unfolding sort_alerts
  sort_alerts-any p [] = refl
  sort_alerts-any p (a ∷ more) =
      insert_alert-any p a (sort_alerts m t more) ∙ (rw (sort_alerts-any p more) refl)

  -- A critical alert stands before every warning.
  ordered_levels :
      (a b : Alert)
      → (in_order m t a b ≡ true → is_critical a.level ≡ false → is_critical b.level ≡ false)
        × (in_order m t a b ≡ false → is_critical b.level ≡ false → is_critical a.level ≡ false)
  unfolding in_order
  ordered_levels a b = levels a.level b.level
    where
      levels :
          (x y : Severity)
          → (in_order m t (record a { level = x }) (record b { level = y }) ≡ true
              → is_critical x ≡ false
              → is_critical y ≡ false)
            × (in_order m t (record a { level = x }) (record b { level = y }) ≡ false
                → is_critical y ≡ false
                → is_critical x ≡ false)
      levels warning warning = (λ h e. refl, λ h e. refl)
      levels warning critical = (λ h e. absurd (ground (arith, h)), λ h e. refl)
      levels critical warning = (λ h e. refl, λ h e. absurd (ground (arith, h)))
      levels critical critical = (λ h e. e, λ h e. e)

  insert_alert_first :
      (a : Alert) (bs : List Alert)
      → critical_first bs ≡ true
      → critical_first (insert_alert m t a bs) ≡ true
  unfolding insert_alert critical_first
  insert_alert_first a [] h = ground arith
  insert_alert_first a (b ∷ bs) h =
      let rest = insert_alert_first a bs (tail_first _ _ h) in
      let (before, behind) = ordered_levels a b in
      elim (Bool-cases (in_order m t a b)) [
        | inl first ↦ rw first (ground (arith, h, before first))
        | inr later ↦
            rw (later, insert_alert-all is_warning a bs, rest) (ground (arith, h, behind later))
      ]
    where
      tail_first : (x y : Bool) → x && y ≡ true → y ≡ true
      tail_first x y e = ground (arith, e)

  sort_alerts_first : (xs : List Alert) → critical_first (sort_alerts m t xs) ≡ true
  unfolding sort_alerts critical_first
  sort_alerts_first [] = refl
  sort_alerts_first (a ∷ more) =
      insert_alert_first a (sort_alerts m t more) (sort_alerts_first more)

  -- The critical alerts come first, and sorting neither adds nor loses one.
  pub evaluate_ordered :
      (s : Snapshot m)
      → (critical_first (evaluate m t (some s)) ≡ true)
        × ((p : Alert → Bool) → any p (evaluate m t (some s)) ≡ any p (raised m t s))
  unfolding evaluate
  evaluate_ordered s = (sort_alerts_first (raised m t s), λ p. sort_alerts-any p (raised m t s))

  evaluate-keys :
      (s : Snapshot m) (k : String)
      → one_of (keys_of (evaluate m t (some s))) k ≡ any (λ a. a.key == k) (raised m t s)
  evaluate-keys s k = keys-any (evaluate m t (some s)) k ∙ (evaluate_ordered s).1 (λ a. a.key == k)

  -- Once a measurement is evaluated and its alerts are passed to the incidents, a key has an
  -- unresolved incident exactly if the measurement shows the trouble that the key names (a value at
  -- or over its threshold, a part that is not in order), or if an unresolved incident of it was seen
  -- within the grace time before; in a table whose rows have ids of their own below the next one, as
  -- every operation keeps them. Critical alerts are passed before warnings.
  pub evaluate_opens :
      (now grace : ℕ) (s : Snapshot m) (db : Database) (k : String)
      → IsNumbered db
      → (has_active k (sync_incidents now grace (evaluate m t (some s)) db).0.incidents
          ≡ (is_troubled m t k s || any (is_recent now grace k) db.incidents))
        × (critical_first (evaluate m t (some s)) ≡ true)
  evaluate_opens now grace s db k sound = (
    sync_incidents-active now grace (evaluate m t (some s)) db k sound
        ∙ ap (λ b. b || any (is_recent now grace k) db.incidents)
            (evaluate-keys s k ∙ raised-troubled m t k s),
    (evaluate_ordered s).0,
  )
