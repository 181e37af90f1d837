-- ===== src/Alerts/Examples.antt =====
-- The alerts of a small measurement.
use grouvi_nox.Prelude.{[], any, leb, ltb, none, refl, some, true, ℕ, ◌/◌, ◌||◌, ◌∷◌, ◌≡◌}
use grouvi_nox.Incidents.{Database, warning, critical, sync_incidents}
use grouvi_nox.Incidents.Rows.{has_active}
use grouvi_nox.Incidents.Sound.{IsNumbered}
use grouvi_nox.Incidents.Active.{is_recent}
use grouvi_nox.Alerts.{
  joined, each, each_of, disk_alerts, load_alerts, monitored_alerts, systemd_alerts, raised,
  in_order, insert_alert, sort_alerts, evaluate,
}
use grouvi_nox.Alerts.Measured.{Measures, Thresholds, Snapshot}
use grouvi_nox.Alerts.Troubled.{is_troubled}
use grouvi_nox.Alerts.Opened.{critical_first, evaluate_opens}

-- Whole numbers, of which a text says nothing, and no order of the keys.
abbrev toy : Measures
toy = record {
  Number = ℕ;
  at_least = λ a b. leb b a;
  above = λ a b. ltb b a;
  whole = λ n. "n";
  cents = λ n. "n";
  show = λ n. "n";
  floor = λ n. "n";
  per = λ n count. n / count;
  of_nat = λ n. n;
  collated = λ a b. true;
}

abbrev thresholds : Thresholds toy
thresholds = record {
  disk_warn = 80;
  disk_crit = 90;
  mem_warn = 85;
  mem_crit = 94;
  cpu_crit = 95;
  load_per_core_warn = 2;
  load_per_core_crit = 3;
  swap_warn_pct = 40;
  cert_warn_days = 21;
  cert_crit_days = 7;
  backup_stale_hours = 36;
}

-- A disk that is filling up, and a monitored service that has failed.
abbrev small : Snapshot toy
small = record {
  filesystems = record { mount = "/"; used_pct = 85; inode_pct = none } ∷ [];
  memory = none;
  cpu = none;
  load_five = none;
  containers = [];
  pm2 = [];
  systemd = some (record {
    failed_units = "app.service" ∷ [];
    nginx = "active";
    monitored = ("app.service", "failed") ∷ [];
  });
  databases = [];
  certificates = [];
  backups = [];
  os = none;
}

-- The service is reported twice under one key.
three_alerts :
    evaluate toy thresholds (some small)
    ≡ record {
      level = critical;
      key = "unit:app.service";
      message = "systemd юнит упал: app.service";
      hint = none;
    }
      ∷ record {
        level = critical;
        key = "unit:app.service";
        message = "systemd сервис app.service: failed";
        hint = none;
      }
      ∷ record { level = warning; key = "disk:/"; message = "Диск / заполнен на n%"; hint = none }
      ∷ []
unfolding evaluate sort_alerts insert_alert in_order raised each each_of joined disk_alerts
    systemd_alerts monitored_alerts load_alerts
three_alerts = refl

abbrev no_incidents : Database
no_incidents = record { incidents = []; events = []; next_id = 1 }

no_incidents-IsNumbered : IsNumbered no_incidents
no_incidents-IsNumbered = record { distinct = tt; below = tt }

evaluate_opens_example :
    (has_active "disk:/"
        (sync_incidents 100 60 (evaluate toy thresholds (some small)) no_incidents).0.incidents
      ≡ (is_troubled toy thresholds "disk:/" small || any (is_recent 100 60 "disk:/") []))
    × (critical_first (evaluate toy thresholds (some small)) ≡ true)
evaluate_opens_example =
    evaluate_opens toy thresholds 100 60 small no_incidents "disk:/" no_incidents-IsNumbered
