-- ===== src/Incidents/Examples.antt =====
-- Incidents at concrete alerts.
use grouvi_nox.Prelude.{
  List, ◌+◌, [], any, arith, codes, false, none, refl, some, true, ◌||◌, ◌∷◌, ◌≡◌,
}
use grouvi_nox.Policy.Texts.{utf16}
use grouvi_nox.Incidents.{
  Alert, Database, Incident, warning, opened, resolved, sync_incidents, sync_alerts, sync_alert,
  close_over, is_over, latest_active, update_row, row_of, new_incident, incident_source,
  before_colon, with_event, set_row, insert_incident, set_incident_status, status_set,
}
use grouvi_nox.Incidents.Rows.{has_active, count_active}
use grouvi_nox.Incidents.Single.{
  Action, synced, acknowledged_by, resolved_by, set_by, act_all, reopenings, act_all-IsSound,
}
use grouvi_nox.Incidents.Sound.{IsSound, IsNumbered}
use grouvi_nox.Incidents.Active.{is_recent}
use grouvi_nox.Incidents.Closing.{sync_incidents-active}

abbrev disk : Alert
disk = record { level = warning; key = "disk:/"; message = "Disk / is full"; hint = none }

abbrev no_incidents : Database
no_incidents = record { incidents = []; events = []; next_id = 1 }

abbrev one_open : Incident
one_open = record {
  id = 1;
  key = "disk:/";
  severity = warning;
  title = "Disk / is full";
  detail = "";
  status = opened;
  source = codes "disk";
  first_seen = 100;
  last_seen = 100;
  occurrences = 1;
  acknowledged_at = none;
  acknowledged_by = none;
  resolved_at = none;
  resolution = none;
  investigation = none;
  investigated_at = none;
}

-- A resolved incident, and one of the same key that was opened behind it.
abbrev one_of_each : Database
one_of_each = record {
  incidents =
      record one_open { status = resolved; resolved_at = some 150 }
      ∷ record one_open { id = 2; first_seen = 200; last_seen = 200 }
      ∷ [];
  events = [];
  next_id = 3;
}

one_of_each-IsNumbered : IsNumbered one_of_each
one_of_each-IsNumbered = record { distinct = (refl, (refl, tt)); below = omega arith }

one_of_each-IsSound : IsSound 0 one_of_each
one_of_each-IsSound = record {
  distinct = (refl, (refl, tt));
  below = omega arith;
  single = λ k. ground arith;
}

first_alert : (sync_incidents 100 60 (disk ∷ []) no_incidents).0.incidents ≡ one_open ∷ []
unfolding sync_incidents sync_alerts sync_alert close_over is_over latest_active new_incident
    incident_source before_colon utf16 with_event insert_incident
first_alert = refl

-- Within the grace time the incident lasts, and after it it is closed.
grace_time :
    (has_active "disk:/" (sync_incidents 259 60 [] one_of_each).0.incidents ≡ true)
    × (has_active "disk:/" (sync_incidents 260 60 [] one_of_each).0.incidents ≡ false)
unfolding sync_incidents sync_alerts close_over is_over with_event set_row update_row
grace_time = (refl, refl)

sync_incidents-active_example :
    has_active "disk:/" (sync_incidents 230 60 [] one_of_each).0.incidents
    ≡ (false || any (is_recent 230 60 "disk:/") one_of_each.incidents)
sync_incidents-active_example =
    sync_incidents-active 230 60 [] one_of_each "disk:/" one_of_each-IsNumbered

abbrev some_actions : List Action
some_actions =
    acknowledged_by 2 210 "admin" []
    ∷ synced 300 60 (disk ∷ [])
    ∷ resolved_by 2 320 "admin" []
    ∷ set_by 1 opened 325 "admin" []
    ∷ synced 330 60 (disk ∷ [])
    ∷ []

act_all-IsSound_example : IsSound (0 + reopenings some_actions) (act_all one_of_each some_actions)
act_all-IsSound_example = act_all-IsSound 0 one_of_each some_actions one_of_each-IsSound

-- `setIncidentStatus` opens the older incident again beside the newer one.
reopened_beside :
    count_active "disk:/" (set_incident_status 1 opened 220 "admin" [] one_of_each).0.incidents ≡ 2
unfolding set_incident_status status_set row_of set_row update_row with_event
reopened_beside = refl
