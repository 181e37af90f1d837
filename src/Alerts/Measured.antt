-- ===== src/Alerts/Measured.antt =====
-- What src/metrics/alerts.js reads of a measurement, and the thresholds of src/config.js.
use grouvi_nox.Prelude.{Bool, List, Option, String, ℕ}

-- JavaScript's numbers as far as the alerts use them: `>=`, `>`, `toFixed(0)`, `toFixed(2)`, a number
-- in a text, Math.floor in a text, a division by a count, and localeCompare not above 0.
pub record Measures : Type 1 where
  pub Number : Type 0
  pub at_least : Number → Number → Bool
  pub above : Number → Number → Bool
  pub whole : Number → String
  pub cents : Number → String
  pub show : Number → String
  pub floor : Number → String
  pub per : Number → ℕ → Number
  pub of_nat : ℕ → Number
  pub collated : String → String → Bool

pub record Thresholds (m : Measures) : Type 0 where
  pub disk_warn : m.Number
  pub disk_crit : m.Number
  pub mem_warn : m.Number
  pub mem_crit : m.Number
  pub cpu_crit : m.Number
  pub load_per_core_warn : m.Number
  pub load_per_core_crit : m.Number
  pub swap_warn_pct : m.Number
  pub cert_warn_days : m.Number
  pub cert_crit_days : m.Number
  pub backup_stale_hours : m.Number

pub record FileSystem (m : Measures) : Type 0 where
  pub mount : String
  pub used_pct : m.Number
  pub inode_pct : Option m.Number

pub record Memory (m : Measures) : Type 0 where
  pub used_pct : m.Number
  pub swap_pct : m.Number

pub record Cpu (m : Measures) : Type 0 where
  pub usage : m.Number
  pub count : ℕ
  pub steal : m.Number

pub record Container : Type 0 where
  pub name : String
  pub health : String
  pub state : String
  pub status : String

pub record Process (m : Measures) : Type 0 where
  pub name : String
  pub status : String
  pub unstable_restarts : m.Number

pub record Systemd : Type 0 where
  pub failed_units : List String
  pub nginx : String
  pub monitored : List (String × String)

pub record DatabaseFile : Type 0 where
  pub path : String
  pub name : String
  pub exists : Bool

pub record Certificate (m : Measures) : Type 0 where
  pub is_ok : Bool
  pub domain : String
  pub days_left : m.Number

pub record Backup (m : Measures) : Type 0 where
  pub dir : String
  pub exists : Bool
  pub has_newest : Bool
  pub age_hours : m.Number

pub record Os : Type 0 where
  pub reboot_required : Bool
  pub kernel_running : String
  pub kernel_installed : String

-- A part that was not measured is none, a list that was not is empty.
pub record Snapshot (m : Measures) : Type 0 where
  pub filesystems : List (FileSystem m)
  pub memory : Option (Memory m)
  pub cpu : Option (Cpu m)
  pub load_five : Option m.Number
  pub containers : List Container
  pub pm2 : List (Process m)
  pub systemd : Option Systemd
  pub databases : List DatabaseFile
  pub certificates : List (Certificate m)
  pub backups : List (Backup m)
  pub os : Option Os
