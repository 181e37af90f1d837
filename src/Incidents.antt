-- ===== src/Incidents.antt =====
-- Incidents, src/db/incidents.js: the tables `incidents` and `incident_events` as lists in the order
-- of their ids. Children: `Api` has the handlers of src/routes/api/incidents.js, `Rows` has lemmas on
-- the table, `Sound`, `Single`, `Active` and `Closing` prove, `Examples` holds the runs.
pub mod Api
pub mod Rows
pub mod Sound
pub mod Single
pub mod Active
pub mod Closing
mod Examples
use grouvi_nox.Prelude.{
  take, Bool, List, Option, String, [], codes, eqb, false, if◌then◌else◌, ltb, map, none, not,
  one_of, select, some, true, ℕ, ◌&&◌, ◌++◌, ◌+◌, ◌==◌, ◌∷◌,
}
use grouvi_nox.Policy.Texts.{Text, utf16, is_blank}

pub data Severity : Type 0 where
  warning : Severity
  critical : Severity

pub data Status : Type 0 where
  opened : Status
  acknowledged : Status
  resolved : Status

pub record Alert : Type 0 where
  pub level : Severity
  pub key : String
  pub message : String
  pub hint : Option String

pub record Incident : Type 0 where
  pub id : ℕ
  pub key : String
  pub severity : Severity
  pub title : String
  pub detail : String
  pub status : Status
  pub source : Text
  pub first_seen : ℕ
  pub last_seen : ℕ
  pub occurrences : ℕ
  pub acknowledged_at : Option ℕ
  pub acknowledged_by : Option String
  pub resolved_at : Option ℕ
  pub resolution : Option Text
  pub investigation : Option Text
  pub investigated_at : Option ℕ

pub record EventRow : Type 0 where
  pub incident_id : ℕ
  pub ts : ℕ
  pub event_type : String
  pub actor : Option String
  pub note : Text

-- AUTOINCREMENT: an id is never given again.
pub record Database : Type 0 where
  pub incidents : List Incident
  pub events : List EventRow
  pub next_id : ℕ

-- What `syncIncidents` returns for the notifications.
pub record Emitted : Type 0 where
  pub kind : String
  pub incident : Option Incident

-- status != 'resolved'
abbrev pub is_active : Incident → Bool
is_active r = elim r.status [ opened ↦ true | acknowledged ↦ true | resolved ↦ false ]

abbrev pub is_critical : Severity → Bool
is_critical critical = true
is_critical warning = false

-- String(key).split(':', 1)[0]
unfoldable pub before_colon : Text → Text
before_colon [] = []
before_colon (c ∷ s) = let rest = before_colon s in if eqb c b':' then [] else c ∷ rest

unfoldable pub incident_source : String → Text
incident_source key =
    let source = before_colon (utf16 key) in if is_blank source then codes "system" else source

-- SELECT * FROM incidents WHERE id=?
unfoldable pub row_of : ℕ → List Incident → Option Incident
row_of id [] = none
row_of id (r ∷ rs) = if eqb r.id id then some r else row_of id rs

-- SELECT * … WHERE incident_key = ? AND status != 'resolved' ORDER BY id DESC LIMIT 1
unfoldable pub latest_active : String → List Incident → Option Incident
latest_active key [] = none
latest_active key (r ∷ rs) = elim (latest_active key rs) [
  | some later ↦ some later
  | none ↦ if is_active r && r.key == key then some r else none
]

-- UPDATE incidents SET … WHERE id=?
unfoldable pub update_row : ℕ → (Incident → Incident) → List Incident → List Incident
update_row id set [] = []
update_row id set (r ∷ rs) = (if eqb r.id id then set r else r) ∷ update_row id set rs

abbrev pub or_text : Option String → String
or_text none = ""
or_text (some s) = s

unfoldable pub new_incident : ℕ → ℕ → Alert → Incident
new_incident id now a = record {
  id = id;
  key = a.key;
  severity = a.level;
  title = a.message;
  detail = or_text a.hint;
  status = opened;
  source = incident_source a.key;
  first_seen = now;
  last_seen = now;
  occurrences = 1;
  acknowledged_at = none;
  acknowledged_by = none;
  resolved_at = none;
  resolution = none;
  investigation = none;
  investigated_at = none;
}

abbrev pub seen_again : ℕ → Alert → Incident → Incident
seen_again now a r = record r {
  severity = a.level;
  title = a.message;
  detail = or_text a.hint;
  last_seen = now;
  occurrences = r.occurrences + 1;
}

unfoldable pub event : ℕ → ℕ → String → Option String → Text → EventRow
event id now kind actor note = record {
  incident_id = id;
  ts = now;
  event_type = kind;
  actor = actor;
  note = note;
}

unfoldable pub with_event : EventRow → Database → Database
with_event e db = record db { events = db.events ++ e ∷ [] }

unfoldable pub set_row : ℕ → (Incident → Incident) → Database → Database
set_row id set db = record db { incidents = update_row id set db.incidents }

unfoldable pub insert_incident : ℕ → Alert → Database → Database
insert_incident now a db = record db {
  incidents = db.incidents ++ new_incident db.next_id now a ∷ [];
  next_id = db.next_id + 1;
}

-- One alert of the loop: the tables afterwards, and what is emitted.
unfoldable pub sync_alert : ℕ → Alert → Database → Database × List Emitted
sync_alert now a db = elim (latest_active a.key db.incidents) [
  | none ↦ (
    with_event (event db.next_id now "opened" none (utf16 a.message)) (insert_incident now a db),
    record { kind = "opened"; incident = some (new_incident db.next_id now a) } ∷ [],
  )
  | some existing ↦
      let db' = set_row existing.id (seen_again now a) db in
      if not (is_critical existing.severity) && is_critical a.level
      then (
        with_event (event existing.id now "escalated" none (utf16 a.message)) db',
        record { kind = "escalated"; incident = row_of existing.id db'.incidents } ∷ [],
      )
      else (db', [])
]

unfoldable pub sync_alerts : ℕ → List Alert → Database → Database × List Emitted
sync_alerts now [] db = (db, [])
sync_alerts now (a ∷ more) db =
    let (db', first) = sync_alert now a db in
    let (db'', rest) = sync_alerts now more db' in (db'', first ++ rest)

abbrev pub recovered : Text
recovered = codes "Recovered automatically"

abbrev pub close : ℕ → Text → Incident → Incident
close now note r = record r { status = resolved; resolved_at = some now; resolution = some note }

abbrev pub keys_of : List Alert → List String
keys_of alerts = map (λ a. a.key) alerts

-- Neither active nor within the grace time.
unfoldable pub is_over : ℕ → ℕ → List String → Incident → Bool
is_over now grace keys r = not (one_of keys r.key) && not (ltb now (r.last_seen + grace))

unfoldable pub close_over : ℕ → ℕ → List String → List Incident → Database → Database × List Emitted
close_over now grace keys [] db = (db, [])
close_over now grace keys (r ∷ rs) db = elim (is_over now grace keys r) [
  | false ↦ close_over now grace keys rs db
  | true ↦
      let db' =
        with_event (event r.id now "resolved" (some "system") recovered)
          (set_row r.id (close now recovered) db) in
      let (db'', rest) = close_over now grace keys rs db' in
      (db'', record { kind = "resolved"; incident = row_of r.id db'.incidents } ∷ rest)
]

unfoldable pub sync_incidents : ℕ → ℕ → List Alert → Database → Database × List Emitted
sync_incidents now grace alerts db =
    let (seen, first) = sync_alerts now alerts db in
    let (db', rest) =
      close_over now grace (keys_of alerts) (select is_active seen.incidents) seen in
    (db', first ++ rest)

abbrev pub acknowledge : ℕ → String → Incident → Incident
acknowledge now actor r = record r {
  status = acknowledged;
  acknowledged_at = some now;
  acknowledged_by = some actor;
}

unfoldable pub acknowledge_incident : ℕ → ℕ → String → Text → Database → Database × Option Incident
acknowledge_incident id now actor note db = elim (row_of id db.incidents) [
  | none ↦ (db, none)
  | some row ↦
      if not (is_active row)
      then (db, some row)
      else (let db' =
            with_event (event id now "acknowledged" (some actor) (take 500 note))
              (set_row id (acknowledge now actor) db) in
          (db', row_of id db'.incidents))
]

unfoldable pub resolve_incident : ℕ → ℕ → String → Text → Database → Database × Option Incident
resolve_incident id now actor note db = elim (row_of id db.incidents) [
  | none ↦ (db, none)
  | some row ↦
      let db' =
        with_event (event id now "resolved" (some actor) (take 500 note))
          (set_row id (close now (take 500 note)) db) in
      (db', row_of id db'.incidents)
]

abbrev pub reopen : Incident → Incident
reopen r = record r {
  status = opened;
  acknowledged_at = none;
  acknowledged_by = none;
  resolved_at = none;
  resolution = none;
}

-- What `setIncidentStatus` writes; it is called with one of the three states.
unfoldable pub status_set : Status → ℕ → String → Text → Incident → Incident
status_set opened now actor note r = reopen r
status_set acknowledged now actor note r = record (acknowledge now actor r) {
  resolved_at = none;
  resolution = none;
}
status_set resolved now actor note r =
    close now (take 500 (if is_blank note then codes "Closed manually" else note)) r

abbrev pub status_event : Status → String
status_event opened = "reopened"
status_event acknowledged = "acknowledged"
status_event resolved = "resolved"

unfoldable pub set_incident_status :
    ℕ → Status → ℕ → String → Text → Database → Database × Option Incident
set_incident_status id status now actor note db = elim (row_of id db.incidents) [
  | none ↦ (db, none)
  | some row ↦
      let db' =
        with_event (event row.id now (status_event status) (some actor) (take 500 note))
          (set_row row.id (status_set status now actor note) db) in
      (db', row_of row.id db'.incidents)
]

unfoldable pub update_investigation : ℕ → Text → ℕ → Database → Database × Option Incident
update_investigation id report now db =
    let db' =
      set_row id
        (λ r. record r { investigation = some (take 12000 report); investigated_at = some now })
        db in
    (db', row_of id db'.incidents)
