-- ===== src/Incidents/Active.antt =====
-- Which keys have an unresolved incident after a measurement (`syncIncidents` of
-- src/db/incidents.js): the table as the set of its active keys.
use grouvi_nox.Prelude.{
  Bool, Bool-cases, List, Memᴰ, Option, Option-cases, String, [], any, ap, arith, eq_iff, false,
  inl, inr, ltb, none, not, one_of, refl, some, subst, sym, true, ℕ, ◌&&◌, ◌++◌, ◌+◌, ◌==◌, ◌||◌,
  ◌∙◌, ◌∷◌, ◌≡◌,
}
use grouvi_nox.Incidents.{
  Incident, Database, Alert, is_active, is_critical, latest_active, update_row, seen_again,
  new_incident, insert_incident, set_row, with_event, sync_alert, sync_alerts, keys_of,
}
use grouvi_nox.Incidents.Rows.{Distinct, has_active, latest_active-some, any-update_row, same_row}
use grouvi_nox.Incidents.Sound.{IsNumbered, sync_alert-IsNumbered}

-- An unresolved incident of the key that was seen within the grace time.
abbrev pub is_recent : ℕ → ℕ → String → Incident → Bool
is_recent now grace k r = is_active r && r.key == k && ltb now (r.last_seen + grace)

pub any-congr {ℓ} :
    {A : Type ℓ} (p q : A → Bool) (xs : List A)
    → ((x : A) → Memᴰ x xs → p x ≡ q x)
    → any p xs ≡ any q xs
any-congr p q [] h = refl
any-congr p q (x ∷ xs) h =
    rw (h x (Memᴰ.head refl), any-congr p q xs (λ y m. h y (Memᴰ.tail m))) refl

pub any-append {ℓ} :
    {A : Type ℓ} (p : A → Bool) (xs ys : List A) → any p (xs ++ ys) ≡ (any p xs || any p ys)
any-append p [] ys = refl
any-append p (x ∷ xs) ys = ground (arith, any-append p xs ys)

pub any-true {ℓ} :
    {A : Type ℓ} (p : A → Bool) (x : A) (xs : List A) → Memᴰ x xs → p x ≡ true → any p xs ≡ true
any-true p x [] m h = elim m [ ]
any-true p x (y ∷ ys) (Memᴰ.head e) h = rw (sym (ap p e) ∙ h) refl
any-true p x (y ∷ ys) (Memᴰ.tail m) h = ground (arith, any-true p x ys m h)

pub any-found {ℓ} :
    {A : Type ℓ} (p : A → Bool) (xs : List A) → any p xs ≡ true → (x : A) × Memᴰ x xs × (p x ≡ true)
any-found p [] h = absurd (ground arith)
any-found p (x ∷ xs) h = elim (Bool-cases (p x)) [
  | inl holds ↦ (x, Memᴰ.head refl, holds)
  | inr fails ↦
      let h' : any p xs ≡ true = rw fails at h in
      let (y, m, holds) = any-found p xs h' in (y, Memᴰ.tail m, holds)
]

-- The rows after an alert, whether it escalates or not.
abbrev rows_after : ℕ → Alert → Database → Option Incident → List Incident
rows_after now a db none = db.incidents ++ new_incident db.next_id now a ∷ []
rows_after now a db (some existing) = update_row existing.id (seen_again now a) db.incidents

sync_alert-rows :
    (now : ℕ) (a : Alert) (db : Database)
    → (sync_alert now a db).0.incidents ≡ rows_after now a db (latest_active a.key db.incidents)
unfolding sync_alert with_event insert_incident set_row
sync_alert-rows now a db = elim (Option-cases (latest_active a.key db.incidents)) [
  | inl nothing ↦ rw (sync_alert, nothing) refl
  | inr (existing, found) ↦
      elim (Bool-cases (not (is_critical existing.severity) && is_critical a.level)) [
        | inl worse ↦ rw (sync_alert, found, worse) refl
        | inr same ↦ rw (sync_alert, found, same) refl
      ]
]

rows_after-active :
    (now : ℕ) (a : Alert) (db : Database) (k : String) (o : Option Incident)
    → latest_active a.key db.incidents ≡ o
    → has_active k (rows_after now a db o) ≡ (a.key == k || has_active k db.incidents)
unfolding new_incident
rows_after-active now a db k none nothing =
    let added =
      any-append (λ r. is_active r && r.key == k) db.incidents
        (new_incident db.next_id now a ∷ []) in
    rw added (ground arith)
rows_after-active now a db k (some existing) found =
    let same =
      any-update_row (λ r. is_active r && r.key == k) existing.id (seen_again now a) db.incidents
        (λ r m e. refl) in
    let (m, fits) = latest_active-some a.key db.incidents existing found in
    let there = any-true (λ r. is_active r && r.key == a.key) existing db.incidents m fits in
    elim (Bool-cases (a.key == k)) [
      | inr other ↦ rw (same, other) refl
      | inl is_k ↦
          let there_k : has_active k db.incidents ≡ true =
            subst (λ x. has_active x db.incidents ≡ true) ((eq_iff a.key k).0 is_k) there in
          rw (same, is_k, there_k) refl
    ]

-- The first phase: an alert makes its key active and leaves the others as they are.
sync_alert-active :
    (now : ℕ) (a : Alert) (db : Database) (k : String)
    → has_active k (sync_alert now a db).0.incidents ≡ (a.key == k || has_active k db.incidents)
sync_alert-active now a db k = rw (sync_alert-rows now a db) (rows_after-active now a db k _ refl)

rows_after-recent :
    (now grace : ℕ) (a : Alert) (db : Database) (k : String) (o : Option Incident)
    → Distinct db.incidents
    → (a.key == k) ≡ false
    → latest_active a.key db.incidents ≡ o
    → any (is_recent now grace k) (rows_after now a db o) ≡ any (is_recent now grace k) db.incidents
unfolding new_incident
rows_after-recent now grace a db k none d other nothing =
    let added =
      any-append (is_recent now grace k) db.incidents (new_incident db.next_id now a ∷ []) in
    rw (added, other) (ground arith)
rows_after-recent now grace a db k (some existing) d other found =
    let (m, fits) = latest_active-some a.key db.incidents existing found in
    let key : (existing.key == a.key) ≡ true = second_holds (is_active existing) _ fits in
    any-update_row (is_recent now grace k) existing.id (seen_again now a) db.incidents (λ r n e.
      let is_existing = same_row r existing db.incidents d n m e in
      let differs : (r.key == k) ≡ false =
        subst (λ x. (x.key == k) ≡ false) (sym is_existing)
          (subst (λ x. (x == k) ≡ false) (sym ((eq_iff existing.key a.key).0 key)) other) in
      rw differs (ground arith))
  where
    second_holds : (b c : Bool) → b && c ≡ true → c ≡ true
    second_holds b c h = ground (arith, h)

sync_alert-recent :
    (now grace : ℕ) (a : Alert) (db : Database) (k : String)
    → Distinct db.incidents
    → (a.key == k) ≡ false
    → any (is_recent now grace k) (sync_alert now a db).0.incidents
      ≡ any (is_recent now grace k) db.incidents
sync_alert-recent now grace a db k s other =
    rw (sync_alert-rows now a db) (rows_after-recent now grace a db k _ s other refl)

pub sync_alerts-active :
    (now : ℕ) (alerts : List Alert) (db : Database) (k : String)
    → has_active k (sync_alerts now alerts db).0.incidents
      ≡ (one_of (keys_of alerts) k || has_active k db.incidents)
unfolding sync_alerts
sync_alerts-active now [] db k = refl
sync_alerts-active now (a ∷ more) db k =
    rw (sync_alerts-active now more (sync_alert now a db).0 k, sync_alert-active now a db k)
      (ground arith)

pub sync_alerts-recent :
    (now grace : ℕ) (alerts : List Alert) (db : Database) (k : String)
    → IsNumbered db
    → one_of (keys_of alerts) k ≡ false
    → any (is_recent now grace k) (sync_alerts now alerts db).0.incidents
      ≡ any (is_recent now grace k) db.incidents
unfolding sync_alerts
sync_alerts-recent now grace [] db k s h = refl
sync_alerts-recent now grace (a ∷ more) db k s h =
    let (first, rest) = neither _ _ h in
    sync_alerts-recent now grace more (sync_alert now a db).0 k (sync_alert-IsNumbered now a db s)
      rest
    ∙ sync_alert-recent now grace a db k s.distinct first
  where
    neither : (b c : Bool) → b || c ≡ false → (b ≡ false) × (c ≡ false)
    neither b c h = ground (arith, h)
