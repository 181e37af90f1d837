-- ===== src/Alerts.antt =====
-- The alerts of a measurement, `evaluate` in src/metrics/alerts.js, which src/metrics/index.js passes
-- to the incidents. Children: `Measured` has what is measured, `Troubled` and `Opened` prove, `Examples` holds the
-- runs.
pub mod Measured
pub mod Troubled
pub mod Opened
mod Examples
use Prim.Native.String
use grouvi_nox.Prelude.{
  Bool, Bool-cases, Failure, List, Memᴰ, Memᴰ-find?, Option, Option-cases, Result, String, [], all,
  all_codes, any, ap, arith, bind-ok, codes, drop, eq_iff, eq_refl, eqb, err, err-ok, failure,
  false, find?, get_last?, get_last?-append, guard, guard-ok, has_char, if◌then◌else◌, inl, inr,
  is_digit, is_hex, is_hex_of_length, js_length, leb, length, length-append, length-drop,
  length-select, length-take, ltb, map, max, min, none, not, ok, ok-injective, one_of, plain_error,
  refl, reverse, select, some, starts, starts_with, subst, suc, sym, take, take_last, tests, true,
  units, zero, ℕ, ◌%◌, ◌&&◌, ◌*◌, ◌++◌, ◌+◌, ◌-◌, ◌/◌, ◌<◌, ◌==◌, ◌>>=◌, ◌>>◌, ◌||◌, ◌↔◌, ◌∙◌, ◌∷◌,
  ◌≡◌, ◌≢◌, ◌≤◌, ◌⊎◌,
}
use grouvi_nox.Incidents.{Alert, Severity, warning, critical}
use grouvi_nox.Alerts.Measured.{
  Measures, Thresholds, Snapshot, FileSystem, Memory, Cpu, Container, Process, Systemd,
  DatabaseFile, Certificate, Backup, Os,
}

abbrev pub mk : Severity → String → String → Option String → Alert
mk level key message hint = record { level = level; key = key; message = message; hint = hint }

-- The parts of a template text, one after the other.
unfoldable pub joined : List String → String
joined [] = ""
joined (s ∷ more) = String.◌++◌ s (joined more)

abbrev pub when : Bool → Alert → List Alert
when test a = if test then a ∷ [] else []

unfoldable pub each {ℓ} : {A : Type ℓ} → (A → List Alert) → List A → List Alert
each alerts [] = []
each alerts (x ∷ xs) = alerts x ++ each alerts xs

unfoldable pub each_of {ℓ} : {A : Type ℓ} → (A → List Alert) → Option A → List Alert
each_of alerts none = []
each_of alerts (some x) = alerts x

module _ (m : Measures) (t : Thresholds m) where
  unfoldable pub disk_alerts : FileSystem m → List Alert
  disk_alerts f =
      let key = joined ("disk:" ∷ f.mount ∷ []) in
      let full = joined ("Диск " ∷ f.mount ∷ " заполнен на " ∷ m.whole f.used_pct ∷ "%" ∷ []) in
      (if m.at_least f.used_pct t.disk_crit
        then mk critical key full (some "Меньше 10% свободно: сервисы могут начать падать") ∷ []
        else when (m.at_least f.used_pct t.disk_warn) (mk warning key full none))
      ++ each_of
          (λ pct. when (m.at_least pct (m.of_nat 85)) (
            mk warning (joined ("inode:" ∷ f.mount ∷ []))
              (joined ("Inodes " ∷ f.mount ∷ ": " ∷ m.show pct ∷ "%" ∷ [])) none))
          f.inode_pct

  unfoldable pub memory_alerts : Memory m → List Alert
  memory_alerts x =
      let used = joined ("Память занята на " ∷ m.whole x.used_pct ∷ "%" ∷ []) in
      (if m.at_least x.used_pct t.mem_crit
        then mk critical "mem" used (some "Риск OOM-killer") ∷ []
        else when (m.at_least x.used_pct t.mem_warn) (mk warning "mem" used none))
      ++ when (m.at_least x.swap_pct t.swap_warn_pct) (
          mk warning "swap" (joined ("Своп использован на " ∷ m.whole x.swap_pct ∷ "%" ∷ []))
            (some "Система активно свопит, это бьёт по скорости"))

  unfoldable pub cpu_alerts : Cpu m → List Alert
  cpu_alerts c =
      when (m.at_least c.usage t.cpu_crit)
        (mk warning "cpu" (joined ("CPU " ∷ m.whole c.usage ∷ "%" ∷ [])) none)

  -- A count of 0 reads as none.
  unfoldable pub load_alerts : Option m.Number → Option (Cpu m) → List Alert
  load_alerts none cpu = []
  load_alerts (some five) none = []
  load_alerts (some five) (some c) =
      let per_core = m.per five c.count in
      let text =
        joined
          ("Load average " ∷ m.cents five ∷ " на " ∷ m.show (m.of_nat c.count) ∷ " ядра" ∷ []) in
      if eqb c.count 0
      then []
      else if m.at_least per_core t.load_per_core_crit
      then mk critical "load" text none ∷ []
      else when (m.at_least per_core t.load_per_core_warn) (mk warning "load" text none)

  unfoldable pub steal_alerts : Cpu m → List Alert
  steal_alerts c = when (m.at_least c.steal (m.of_nat 15)) (
      mk warning "steal" (joined ("CPU steal " ∷ m.whole c.steal ∷ "%" ∷ []))
        (some "Гипервизор отбирает такты у вашей VM"))

  abbrev pub hint_of : String → Option String
  hint_of s = if s == "" then none else some s

  unfoldable pub container_alerts : Container → List Alert
  container_alerts c =
      let key = joined ("docker:" ∷ c.name ∷ []) in
      if c.health == "unhealthy"
      then mk critical key (joined ("Контейнер " ∷ c.name ∷ ": unhealthy" ∷ [])) none ∷ []
      else when (not (c.state == "running"))
          (mk warning key (joined ("Контейнер " ∷ c.name ∷ ": " ∷ c.state ∷ [])) (hint_of c.status))

  unfoldable pub process_alerts : Process m → List Alert
  process_alerts p =
      if not (p.status == "online")
      then mk critical (joined ("pm2:" ∷ p.name ∷ []))
          (joined ("PM2 процесс " ∷ p.name ∷ ": " ∷ p.status ∷ [])) none
        ∷ []
      else when (m.above p.unstable_restarts (m.of_nat 0)) (
          mk warning (joined ("pm2u:" ∷ p.name ∷ []))
            (joined (
              "PM2 " ∷ p.name ∷ ": " ∷ m.show p.unstable_restarts ∷ " нестабильных рестартов" ∷ []))
            none)

  unfoldable pub monitored_alerts : String × String → List Alert
  monitored_alerts (unit, state) = when (not (state == "active")) (
      mk critical (joined ("unit:" ∷ unit ∷ []))
        (joined ("systemd сервис " ∷ unit ∷ ": " ∷ state ∷ [])) none)

  unfoldable pub systemd_alerts : Systemd → List Alert
  systemd_alerts s =
      each
        (λ u.
          mk critical (joined ("unit:" ∷ u ∷ [])) (joined ("systemd юнит упал: " ∷ u ∷ [])) none
          ∷ [])
        s.failed_units
      ++ when (not (s.nginx == "active"))
          (mk critical "nginx" (joined ("nginx: " ∷ s.nginx ∷ [])) none)
      ++ each monitored_alerts s.monitored

  unfoldable pub database_alerts : DatabaseFile → List Alert
  database_alerts d = when (not d.exists) (
      mk warning (joined ("database:" ∷ d.path ∷ []))
        (joined ("Файл базы данных недоступен: " ∷ d.name ∷ [])) none)

  unfoldable pub certificate_alerts : Certificate m → List Alert
  certificate_alerts c =
      let key = joined ("cert:" ∷ c.domain ∷ []) in
      let text =
        joined ("Сертификат " ∷ c.domain ∷ " истекает через " ∷ m.show c.days_left ∷ " дн." ∷ []) in
      if not c.is_ok
      then []
      else if m.at_least t.cert_crit_days c.days_left
      then mk critical key text none ∷ []
      else when (m.at_least t.cert_warn_days c.days_left) (mk warning key text none)

  unfoldable pub backup_alerts : Backup m → List Alert
  backup_alerts b = when (b.exists && b.has_newest && m.above b.age_hours t.backup_stale_hours) (
      mk warning (joined ("backup:" ∷ b.dir ∷ []))
        (joined ("Бэкап " ∷ b.dir ∷ " не обновлялся " ∷ m.floor b.age_hours ∷ " ч." ∷ [])) none)

  unfoldable pub os_alerts : Os → List Alert
  os_alerts o = when o.reboot_required (
      mk warning "reboot"
        (joined (
          "Требуется перезагрузка: работает " ∷ o.kernel_running ∷ ", установлено "
          ∷ o.kernel_installed ∷ []))
        none)

  -- What `out` holds before it is sorted.
  unfoldable pub raised : Snapshot m → List Alert
  raised s =
      each disk_alerts s.filesystems
      ++ each_of memory_alerts s.memory
      ++ each_of cpu_alerts s.cpu
      ++ load_alerts s.load_five s.cpu
      ++ each_of steal_alerts s.cpu
      ++ each container_alerts s.containers
      ++ each process_alerts s.pm2
      ++ each_of systemd_alerts s.systemd
      ++ each database_alerts s.databases
      ++ each certificate_alerts s.certificates
      ++ each backup_alerts s.backups
      ++ each_of os_alerts s.os

  -- rank[a.level] - rank[b.level] || a.key.localeCompare(b.key), not above 0
  unfoldable pub in_order : Alert → Alert → Bool
  in_order a b = elim a.level [
    | critical ↦ elim b.level [ critical ↦ m.collated a.key b.key | warning ↦ true ]
    | warning ↦ elim b.level [ critical ↦ false | warning ↦ m.collated a.key b.key ]
  ]

  -- out.sort, which is stable
  unfoldable pub insert_alert : Alert → List Alert → List Alert
  insert_alert a [] = a ∷ []
  insert_alert a (b ∷ bs) =
      let rest = insert_alert a bs in if in_order a b then a ∷ b ∷ bs else b ∷ rest

  unfoldable pub sort_alerts : List Alert → List Alert
  sort_alerts [] = []
  sort_alerts (a ∷ more) = insert_alert a (sort_alerts more)

  unfoldable pub evaluate : Option (Snapshot m) → List Alert
  evaluate none = []
  evaluate (some s) = sort_alerts (raised s)
