-- ===== src/Incidents/Single.antt =====
-- At most one incident of a key is not resolved, beside those that are opened again by hand
-- (src/db/incidents.js).
use grouvi_nox.Prelude.{
  Bool, Bool-cases, List, Option-cases, String, [], arith, eqb, false, inl, inr, refl, subst, true,
  ℕ, ◌&&◌, ◌+◌, ◌==◌, ◌∷◌, ◌≡◌, ◌≤◌,
}
use grouvi_nox.Policy.Texts.{Text}
use grouvi_nox.Incidents.{
  Incident, Database, Alert, is_active, row_of, set_row, sync_incidents, acknowledge_incident,
  resolve_incident, update_investigation, Status, opened, acknowledged, resolved, status_set,
  set_incident_status, update_row,
}
use grouvi_nox.Incidents.Rows.{
  Distinct, update_row-Distinct, update_row-Below, tally, has_id, update_row-absent,
}
use grouvi_nox.Incidents.Sound.{
  IsSound, with_event-IsSound, close_set-IsSound, sync_incidents-IsSound,
  acknowledge_incident-IsSound, resolve_incident-IsSound, investigation-IsSound,
}

tally-update_row-le_one :
    (q : Incident → Bool) (id : ℕ) (set : Incident → Incident) (rows : List Incident)
    → Distinct rows
    → tally q (update_row id set rows) ≤ tally q rows + 1
unfolding update_row
tally-update_row-le_one q id set [] d = omega arith
tally-update_row-le_one q id set (x ∷ xs) (new, d) = elim (Bool-cases (eqb x.id id)) [
  | inr other ↦ rw other (omega (arith, tally-update_row-le_one q id set xs d))
  | inl here ↦
      let absent : has_id id xs ≡ false =
        subst (λ i. has_id i xs ≡ false) (equal_ids x.id id here) new in
      rw (here, update_row-absent id set xs absent) (ground arith)
]
  where
    equal_ids : (m n : ℕ) → eqb m n ≡ true → m ≡ n
    equal_ids m n h = ground (arith, h)

-- Whatever an update makes of the row with an id, it adds at most one unresolved incident.
any_row-IsSound :
    (n id : ℕ) (set : Incident → Incident) (db : Database)
    → ((r : Incident) → (set r).id ≡ r.id)
    → IsSound n db
    → IsSound (n + 1) (set_row id set db)
unfolding set_row
any_row-IsSound n id set db keeps s = record {
  distinct = update_row-Distinct id set db.incidents keeps s.distinct;
  below = update_row-Below db.next_id id set db.incidents keeps s.below;
  single = λ k. omega (
    arith,
    tally-update_row-le_one (λ r. is_active r && r.key == k) id set db.incidents s.distinct,
    s.single k,
  );
}

more_room : (n : ℕ) (db : Database) → IsSound n db → IsSound (n + 1) db
more_room n db s = record {
  distinct = s.distinct;
  below = s.below;
  single = λ k. omega (arith, s.single k);
}

-- What a status that is set by hand adds to the unresolved incidents of a key at most.
abbrev pub opens : Status → ℕ
opens opened = 1
opens acknowledged = 1
opens resolved = 0

status_set-IsSound :
    (n id now : ℕ) (status : Status) (actor : String) (note : Text) (db : Database)
    → IsSound n db
    → IsSound (n + opens status) (set_row id (status_set status now actor note) db)
unfolding status_set
status_set-IsSound n id now opened actor note db s = any_row-IsSound n id _ db (λ r. refl) s
status_set-IsSound n id now acknowledged actor note db s = any_row-IsSound n id _ db (λ r. refl) s
status_set-IsSound n id now resolved actor note db s =
    subst (λ m. IsSound m (set_row id (status_set resolved now actor note) db)) (ground arith)
      (close_set-IsSound n id now _ db s)

set_incident_status-IsSound :
    (n id : ℕ) (status : Status) (now : ℕ) (actor : String) (note : Text) (db : Database)
    → IsSound n db
    → IsSound (n + opens status) (set_incident_status id status now actor note db).0
unfolding set_incident_status
set_incident_status-IsSound n id status now actor note db s =
    elim (Option-cases (row_of id db.incidents)) [
      | inl gone ↦ rw (set_incident_status, gone) (widened status s)
      | inr (row, found) ↦
          rw (set_incident_status, found)
            (with_event-IsSound (n + opens status) _ _
              (status_set-IsSound n row.id now status actor note db s))
    ]
  where
    widened : (st : Status) → IsSound n db → IsSound (n + opens st) db
    widened opened sound = more_room n db sound
    widened acknowledged sound = more_room n db sound
    widened resolved sound = subst (λ m. IsSound m db) (ground arith) sound

-- What the monitoring and the operator do to the incidents.
pub data Action : Type 0 where
  synced : ℕ → ℕ → List Alert → Action
  acknowledged_by : ℕ → ℕ → String → Text → Action
  resolved_by : ℕ → ℕ → String → Text → Action
  set_by : ℕ → Status → ℕ → String → Text → Action
  investigated : ℕ → ℕ → Text → Action

unfoldable pub act : Database → Action → Database
act db (synced now grace alerts) = (sync_incidents now grace alerts db).0
act db (acknowledged_by id now actor note) = (acknowledge_incident id now actor note db).0
act db (resolved_by id now actor note) = (resolve_incident id now actor note db).0
act db (set_by id status now actor note) = (set_incident_status id status now actor note db).0
act db (investigated id now report) = (update_investigation id report now db).0

unfoldable pub act_all : Database → List Action → Database
act_all db [] = db
act_all db (x ∷ rest) = act_all (act db x) rest

abbrev pub reopens : Action → ℕ
reopens (synced now grace alerts) = 0
reopens (acknowledged_by id now actor note) = 0
reopens (resolved_by id now actor note) = 0
reopens (set_by id status now actor note) = opens status
reopens (investigated id now report) = 0

-- How often an incident is set to open or acknowledged by hand, which may open it again.
unfoldable pub reopenings : List Action → ℕ
reopenings [] = 0
reopenings (x ∷ rest) = reopens x + reopenings rest

act-IsSound :
    (n : ℕ) (db : Database) (x : Action) → IsSound n db → IsSound (n + reopens x) (act db x)
unfolding act
act-IsSound n db (set_by id status now actor note) s =
    set_incident_status-IsSound n id status now actor note db s
act-IsSound n db (synced now grace alerts) s =
    subst (λ m. IsSound m (act db (synced now grace alerts))) (ground arith)
      (sync_incidents-IsSound n now grace alerts db s)
act-IsSound n db (acknowledged_by id now actor note) s =
    subst (λ m. IsSound m (act db (acknowledged_by id now actor note))) (ground arith)
      (acknowledge_incident-IsSound n id now actor note db s)
act-IsSound n db (resolved_by id now actor note) s =
    subst (λ m. IsSound m (act db (resolved_by id now actor note))) (ground arith)
      (resolve_incident-IsSound n id now actor note db s)
act-IsSound n db (investigated id now report) s =
    subst (λ m. IsSound m (act db (investigated id now report))) (ground arith)
      (investigation-IsSound n id now report db s)

-- Over every sequence of measurements, acknowledgements, resolutions, statuses set by hand and
-- investigations, the incidents keep ids of their own below the next one, and a key has at most one
-- unresolved incident and one more for each status `open` or `acknowledged` that was set by hand; in
-- a table that begins with such ids and with at most `n` more than one.
pub act_all-IsSound :
    (n : ℕ) (db : Database) (actions : List Action)
    → IsSound n db
    → IsSound (n + reopenings actions) (act_all db actions)
unfolding act_all reopenings
act_all-IsSound n db [] s = subst (λ m. IsSound m db) (ground arith) s
act_all-IsSound n db (x ∷ rest) s =
    subst (λ m. IsSound m (act_all (act db x) rest)) (ground arith)
      (act_all-IsSound (n + reopens x) (act db x) rest (act-IsSound n db x s))
