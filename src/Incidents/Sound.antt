-- ===== src/Incidents/Sound.antt =====
-- How many incidents of a key are not resolved, under each operation of src/db/incidents.js but
-- `setIncidentStatus`.
use grouvi_nox.Prelude.{
  Bool, Bool-cases, List, Memᴰ, Option-cases, String, [], arith, eq_iff, inl, inr, length, none,
  not, refl, subst, sym, take, true, ℕ, ◌&&◌, ◌+◌, ◌==◌, ◌∙◌, ◌∷◌, ◌≡◌, ◌≤◌,
}
use grouvi_nox.Policy.Texts.{Text}
use grouvi_nox.Incidents.{
  Incident, Database, Alert, EventRow, is_active, is_critical, row_of, latest_active, seen_again,
  close, recovered, acknowledge, new_incident, insert_incident, set_row, with_event, sync_alert,
  sync_alerts, is_over, close_over, keys_of, sync_incidents, acknowledge_incident, resolve_incident,
  update_investigation,
}
use grouvi_nox.Incidents.Rows.{
  Distinct, Below, count_active, row_of-id, latest_active-none, tally-update_row-le, tally-append,
  update_row-Distinct, update_row-Below, append-Distinct, append-Below, same_row, row_of-Memᴰ,
  tally-le,
}

-- Ids of their own, below the next one, as AUTOINCREMENT gives them.
pub record IsNumbered (db : Database) : Type 0 where
  pub distinct : Distinct db.incidents
  pub below : Below db.next_id db.incidents

-- At most `n` incidents of a key are unresolved beside one.
pub record IsSound (n : ℕ) (db : Database) : Type 0 where
  pub distinct : Distinct db.incidents
  pub below : Below db.next_id db.incidents
  pub single : (k : String) → count_active k db.incidents ≤ 1 + n

IsNumbered-IsSound : (db : Database) → IsNumbered db → IsSound (length db.incidents) db
IsNumbered-IsSound db s = record {
  distinct = s.distinct;
  below = s.below;
  single = λ k. omega (arith, tally-le (λ r. is_active r && r.key == k) db.incidents);
}

module _ (n : ℕ) where
  pub with_event-IsSound :
      (e : EventRow) (db : Database) → IsSound n db → IsSound n (with_event e db)
  unfolding with_event
  with_event-IsSound e db s = record { distinct = s.distinct; below = s.below; single = s.single }

  both_true : (a b c : Bool) → (a ≡ true → c ≡ true) → a && b ≡ true → c && b ≡ true
  both_true a b c h e = ground (arith, h)

  -- An update that keeps the id and the key, and makes no resolved row of the id active.
  set_row-IsSound :
      (id : ℕ) (set : Incident → Incident) (db : Database)
      → ((r : Incident) → ((set r).id ≡ r.id) × ((set r).key ≡ r.key))
      → ((r : Incident)
          → Memᴰ r db.incidents
          → r.id ≡ id
          → is_active (set r) ≡ true
          → is_active r ≡ true)
      → IsSound n db
      → IsSound n (set_row id set db)
  unfolding set_row
  set_row-IsSound id set db keeps stays s = record {
    distinct = update_row-Distinct id set db.incidents (λ r. (keeps r).0) s.distinct;
    below = update_row-Below db.next_id id set db.incidents (λ r. (keeps r).0) s.below;
    single = λ k.
        let fewer =
          tally-update_row-le (λ r. is_active r && r.key == k) id set db.incidents
            (λ r m e h.
              both_true (is_active (set r)) (r.key == k) (is_active r) (stays r m e)
                (subst (λ x. is_active (set r) && x == k ≡ true) (keeps r).1 h)) in
        omega (arith, fewer, s.single k);
  }

  insert-IsSound :
      (now : ℕ) (a : Alert) (db : Database)
      → latest_active a.key db.incidents ≡ none
      → IsSound n db
      → IsSound n (insert_incident now a db)
  unfolding insert_incident new_incident
  insert-IsSound now a db nothing s = record {
    distinct = append-Distinct db.incidents _ s.distinct s.below;
    below = append-Below db.next_id db.incidents _ s.below refl;
    single = λ k.
        let sum =
          tally-append (λ r. is_active r && r.key == k) db.incidents
            (new_incident db.next_id now a ∷ []) in
        elim (Bool-cases (a.key == k)) [
          | inl same ↦
              let empty : count_active k db.incidents ≡ 0 =
                subst (λ x. count_active x db.incidents ≡ 0) ((eq_iff a.key k).0 same)
                  (latest_active-none a.key db.incidents nothing) in
              rw (sum, empty) (ground arith)
          | inr other ↦ rw (sum, other) (omega (arith, s.single k))
        ];
  }

  seen_set-IsSound :
      (id now : ℕ) (a : Alert) (db : Database)
      → IsSound n db
      → IsSound n (set_row id (seen_again now a) db)
  seen_set-IsSound id now a db s =
      set_row-IsSound id (seen_again now a) db (λ r. (refl, refl)) (λ r m e h. h) s

  sync_alert-IsSound :
      (now : ℕ) (a : Alert) (db : Database) → IsSound n db → IsSound n (sync_alert now a db).0
  unfolding sync_alert
  sync_alert-IsSound now a db s = elim (Option-cases (latest_active a.key db.incidents)) [
    | inl nothing ↦
        rw (sync_alert, nothing) (with_event-IsSound _ _ (insert-IsSound now a db nothing s))
    | inr (existing, found) ↦
        let seen = seen_set-IsSound existing.id now a db s in
        elim (Bool-cases (not (is_critical existing.severity) && is_critical a.level)) [
          | inl worse ↦ rw (sync_alert, found, worse) (with_event-IsSound _ _ seen)
          | inr same ↦ rw (sync_alert, found, same) seen
        ]
  ]

  sync_alerts-IsSound :
      (now : ℕ) (alerts : List Alert) (db : Database)
      → IsSound n db
      → IsSound n (sync_alerts now alerts db).0
  unfolding sync_alerts
  sync_alerts-IsSound now [] db s = s
  sync_alerts-IsSound now (a ∷ more) db s =
      sync_alerts-IsSound now more (sync_alert now a db).0 (sync_alert-IsSound now a db s)

  pub close_set-IsSound :
      (id now : ℕ) (note : Text) (db : Database)
      → IsSound n db
      → IsSound n (set_row id (close now note) db)
  close_set-IsSound id now note db s =
      set_row-IsSound id (close now note) db (λ r. (refl, refl))
        (λ r m e h. absurd (ground (arith, h))) s

  close_over-IsSound :
      (now grace : ℕ) (keys : List String) (rs : List Incident) (db : Database)
      → IsSound n db
      → IsSound n (close_over now grace keys rs db).0
  unfolding close_over
  close_over-IsSound now grace keys [] db s = s
  close_over-IsSound now grace keys (r ∷ rs) db s = elim (Bool-cases (is_over now grace keys r)) [
    | inr lasts ↦ rw (close_over, lasts) (close_over-IsSound now grace keys rs db s)
    | inl over ↦
        rw (close_over, over)
          (close_over-IsSound now grace keys rs _
            (with_event-IsSound _ _ (close_set-IsSound r.id now recovered db s)))
  ]

  pub sync_incidents-IsSound :
      (now grace : ℕ) (alerts : List Alert) (db : Database)
      → IsSound n db
      → IsSound n (sync_incidents now grace alerts db).0
  unfolding sync_incidents
  sync_incidents-IsSound now grace alerts db s =
      close_over-IsSound now grace (keys_of alerts) _ _ (sync_alerts-IsSound now alerts db s)

  pub acknowledge_incident-IsSound :
      (id now : ℕ) (actor : String) (note : Text) (db : Database)
      → IsSound n db
      → IsSound n (acknowledge_incident id now actor note db).0
  unfolding acknowledge_incident
  acknowledge_incident-IsSound id now actor note db s =
      elim (Option-cases (row_of id db.incidents)) [
        | inl gone ↦ rw (acknowledge_incident, gone) s
        | inr (row, found) ↦ elim (Bool-cases (is_active row)) [
          | inr ended ↦ rw (acknowledge_incident, found, ended) s
          | inl active ↦
              rw (acknowledge_incident, found, active)
                (with_event-IsSound _ _ (
                  set_row-IsSound id (acknowledge now actor) db (λ r. (refl, refl))
                    (λ r m e h.
                      let is_row =
                        same_row r row db.incidents s.distinct m
                          (row_of-Memᴰ id db.incidents row found)
                          (e ∙ sym (row_of-id id db.incidents row found)) in
                      subst (λ x. is_active x ≡ true) (sym is_row) active)
                    s))
        ]
      ]

  pub resolve_incident-IsSound :
      (id now : ℕ) (actor : String) (note : Text) (db : Database)
      → IsSound n db
      → IsSound n (resolve_incident id now actor note db).0
  unfolding resolve_incident
  resolve_incident-IsSound id now actor note db s = elim (Option-cases (row_of id db.incidents)) [
    | inl gone ↦ rw (resolve_incident, gone) s
    | inr (row, found) ↦
        rw (resolve_incident, found)
          (with_event-IsSound _ _ (close_set-IsSound id now (take 500 note) db s))
  ]

  pub investigation-IsSound :
      (id now : ℕ) (report : Text) (db : Database)
      → IsSound n db
      → IsSound n (update_investigation id report now db).0
  unfolding update_investigation
  investigation-IsSound id now report db s =
      set_row-IsSound id _ db (λ r. (refl, refl)) (λ r m e h. h) s

IsSound-IsNumbered : (n : ℕ) (db : Database) → IsSound n db → IsNumbered db
IsSound-IsNumbered n db s = record { distinct = s.distinct; below = s.below }

pub sync_alert-IsNumbered :
    (now : ℕ) (a : Alert) (db : Database) → IsNumbered db → IsNumbered (sync_alert now a db).0
sync_alert-IsNumbered now a db s =
    let n = length db.incidents in
    IsSound-IsNumbered n (sync_alert now a db).0
      (sync_alert-IsSound n now a db (IsNumbered-IsSound db s))

pub sync_alerts-IsNumbered :
    (now : ℕ) (alerts : List Alert) (db : Database)
    → IsNumbered db
    → IsNumbered (sync_alerts now alerts db).0
sync_alerts-IsNumbered now alerts db s =
    let n = length db.incidents in
    IsSound-IsNumbered n (sync_alerts now alerts db).0
      (sync_alerts-IsSound n now alerts db (IsNumbered-IsSound db s))
