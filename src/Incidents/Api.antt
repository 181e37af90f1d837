-- ===== src/Incidents/Api.antt =====
-- The handlers of src/routes/api/incidents.js behind their guards, and the counts of the incidents.
use grouvi_nox.Prelude.{
  Bool, List, Option, String, codes, eqb, false, if◌then◌else◌, length, ltb, max, min, none, select,
  some, true, ℕ, ◌&&◌, ◌==◌,
}
use grouvi_nox.Policy.Texts.{Text, is_blank}
use grouvi_nox.Incidents.{
  Database, Incident, Status, opened, acknowledged, resolved, is_active, is_critical,
  acknowledge_incident, resolve_incident, set_incident_status,
}

pub data Answer : Type 0 where
  refused : ℕ → String → Answer
  changed : Incident → Answer

abbrev pub admin : String
admin = "passkey-admin"

unfoldable pub status_named : String → Option Status
status_named s =
    if s == "open"
    then some opened
    else if s == "acknowledged"
    then some acknowledged
    else if s == "resolved"
    then some resolved
    else none

abbrev pub found_or_404 : Database × Option Incident → Database × Answer
found_or_404 (db, none) = (db, refused 404 "not_found")
found_or_404 (db, some row) = (db, changed row)

-- `Number(req.params.id)`: none for what is not a whole number from 1 on.
abbrev pub with_id : Option ℕ → Database → (ℕ → Database × Answer) → Database × Answer
with_id none db run = (db, refused 400 "bad_id")
with_id (some id) db run = if ltb id 1 then (db, refused 400 "bad_id") else run id

unfoldable pub post_status : Option ℕ → String → ℕ → Text → Database → Database × Answer
post_status id status now note db = with_id id db λ n. elim (status_named status) [
  | none ↦ (db, refused 400 "bad_status")
  | some s ↦ found_or_404 (set_incident_status n s now admin note db)
]

unfoldable pub post_ack : Option ℕ → ℕ → Text → Database → Database × Answer
post_ack id now note db = with_id id db λ n. found_or_404 (acknowledge_incident n now admin note db)

unfoldable pub post_resolve : Option ℕ → ℕ → Text → Database → Database × Answer
post_resolve id now note db = with_id id db λ n.
    found_or_404
      (resolve_incident n now admin (if is_blank note then codes "Closed manually" else note) db)

pub record Counts : Type 0 where
  pub total : ℕ
  pub open_count : ℕ
  pub acknowledged_count : ℕ
  pub resolved_count : ℕ
  pub active_count : ℕ
  pub critical_count : ℕ

abbrev pub has_status : Status → Incident → Bool
has_status s r = elim s [
  | opened ↦ elim r.status [ opened ↦ true | acknowledged ↦ false | resolved ↦ false ]
  | acknowledged ↦ elim r.status [ opened ↦ false | acknowledged ↦ true | resolved ↦ false ]
  | resolved ↦ elim r.status [ opened ↦ false | acknowledged ↦ false | resolved ↦ true ]
]

unfoldable pub incident_counts : List Incident → Counts
incident_counts rows = record {
  total = length rows;
  open_count = length (select (has_status opened) rows);
  acknowledged_count = length (select (has_status acknowledged) rows);
  resolved_count = length (select (has_status resolved) rows);
  active_count = length (select is_active rows);
  critical_count = length (select (λ r. is_active r && is_critical r.severity) rows);
}

-- The query `status` of the list, and the total that its pages count.
unfoldable pub total_of : String → Counts → ℕ
total_of status c =
    if status == "all"
    then c.total
    else if status == "open"
    then c.open_count
    else if status == "acknowledged"
    then c.acknowledged_count
    else if status == "resolved"
    then c.resolved_count
    else c.active_count

-- Math.min(50, Math.max(1, Number(limit) || 6))
unfoldable pub page_limit : ℕ → ℕ
page_limit n = min 50 (max 1 (if eqb n 0 then 6 else n))
