-- ===== src/Alerts/Troubled.antt =====
-- Which troubles a measurement shows, as conditions on what is measured, and that the alerts of
-- src/metrics/alerts.js are raised for exactly these.
use grouvi_nox.Prelude.{
  Bool, List, Option, Option-cases, String, [], any, arith, eqb, false, inl, inr, none, not, refl,
  some, ◌&&◌, ◌++◌, ◌==◌, ◌||◌, ◌∙◌, ◌∷◌, ◌≡◌,
}
use grouvi_nox.Incidents.{Alert, critical}
use grouvi_nox.Incidents.Active.{any-append}
use grouvi_nox.Alerts.{
  systemd_alerts, raised, joined, when, mk, each, each_of, disk_alerts, memory_alerts, cpu_alerts,
  load_alerts, steal_alerts, container_alerts, process_alerts, monitored_alerts, database_alerts,
  certificate_alerts, backup_alerts, os_alerts,
}
use grouvi_nox.Alerts.Measured.{
  Measures, Thresholds, Snapshot, FileSystem, Memory, Cpu, Container, Process, Systemd,
  DatabaseFile, Certificate, Backup, Os,
}

abbrev pub holds {ℓ} : {A : Type ℓ} → (A → Bool) → Option A → Bool
holds test none = false
holds test (some x) = test x

any-each {ℓ} :
    {A : Type ℓ} (p : Alert → Bool) (f : A → List Alert) (q : A → Bool) (xs : List A)
    → ((x : A) → any p (f x) ≡ q x)
    → any p (each f xs) ≡ any q xs
unfolding each
any-each p f q [] h = refl
any-each p f q (x ∷ xs) h = any-append p (f x) (each f xs) ∙ (rw (h x, any-each p f q xs h) refl)

any-each_of {ℓ} :
    {A : Type ℓ} (p : Alert → Bool) (f : A → List Alert) (q : A → Bool) (o : Option A)
    → ((x : A) → any p (f x) ≡ q x)
    → any p (each_of f o) ≡ holds q o
unfolding each_of
any-each_of p f q none h = refl
any-each_of p f q (some x) h = h x

module _ (m : Measures) (t : Thresholds m) (k : String) where
  abbrev of_key : Alert → Bool
  of_key a = a.key == k

  -- At or over one of two thresholds.
  abbrev pub is_high : m.Number → m.Number → m.Number → Bool
  is_high v warn crit = m.at_least v crit || m.at_least v warn

  abbrev pub names : String → String → Bool
  names kind name = joined (kind ∷ name ∷ []) == k

  abbrev pub is_full : FileSystem m → Bool
  is_full f = is_high f.used_pct t.disk_warn t.disk_crit && names "disk:" f.mount

  abbrev pub lacks_inodes : FileSystem m → Bool
  lacks_inodes f = holds (λ v. m.at_least v (m.of_nat 85)) f.inode_pct && names "inode:" f.mount

  abbrev pub lacks_memory : Memory m → Bool
  lacks_memory x =
      (is_high x.used_pct t.mem_warn t.mem_crit && "mem" == k)
      || (m.at_least x.swap_pct t.swap_warn_pct && "swap" == k)

  abbrev pub is_slow : Cpu m → Bool
  is_slow c = m.at_least c.usage t.cpu_crit && "cpu" == k

  abbrev pub is_loaded : m.Number → Cpu m → Bool
  is_loaded five c =
      not (eqb c.count 0)
      && is_high (m.per five c.count) t.load_per_core_warn t.load_per_core_crit
      && "load" == k

  abbrev pub is_stolen : Cpu m → Bool
  is_stolen c = m.at_least c.steal (m.of_nat 15) && "steal" == k

  abbrev pub is_ill : Container → Bool
  is_ill c = (c.health == "unhealthy" || not (c.state == "running")) && names "docker:" c.name

  abbrev pub is_unstable : Process m → Bool
  is_unstable p =
      (not (p.status == "online") && names "pm2:" p.name)
      || (p.status == "online" && m.above p.unstable_restarts (m.of_nat 0) && names "pm2u:" p.name)

  abbrev pub has_failed_unit : Systemd → Bool
  has_failed_unit s =
      any (names "unit:") s.failed_units
      || (not (s.nginx == "active") && "nginx" == k)
      || any (λ (u : String × String). not (u.1 == "active") && names "unit:" u.0) s.monitored

  abbrev pub is_lost : DatabaseFile → Bool
  is_lost d = not d.exists && names "database:" d.path

  abbrev pub ends_soon : Certificate m → Bool
  ends_soon c =
      c.is_ok
      && (m.at_least t.cert_crit_days c.days_left || m.at_least t.cert_warn_days c.days_left)
      && names "cert:" c.domain

  abbrev pub is_outdated : Backup m → Bool
  is_outdated b =
      b.exists && b.has_newest && m.above b.age_hours t.backup_stale_hours && names "backup:" b.dir

  abbrev pub wants_reboot : Os → Bool
  wants_reboot o = o.reboot_required && "reboot" == k

  -- Whether the measurement shows the trouble that the key names.
  abbrev pub is_troubled : Snapshot m → Bool
  is_troubled s =
      any (λ f. is_full f || lacks_inodes f) s.filesystems
      || holds lacks_memory s.memory
      || holds is_slow s.cpu
      || holds (λ five. holds (is_loaded five) s.cpu) s.load_five
      || holds is_stolen s.cpu
      || any is_ill s.containers
      || any is_unstable s.pm2
      || holds has_failed_unit s.systemd
      || any is_lost s.databases
      || any ends_soon s.certificates
      || any is_outdated s.backups
      || holds wants_reboot s.os

  either : {a b c d : Bool} → a ≡ b → c ≡ d → (a || c) ≡ (b || d)
  either e h = rw (e, h) refl

  then_part :
      (xs ys : List Alert) {a b : Bool}
      → any of_key xs ≡ a
      → any of_key ys ≡ b
      → any of_key (xs ++ ys) ≡ (a || b)
  then_part xs ys e h = any-append of_key xs ys ∙ either e h

  disk_lem : (f : FileSystem m) → any of_key (disk_alerts m t f) ≡ (is_full f || lacks_inodes f)
  unfolding disk_alerts each_of
  disk_lem f = elim (Option-cases f.inode_pct) [
    | inl nothing ↦ rw (disk_alerts, nothing) (ground arith)
    | inr (pct, found) ↦ rw (disk_alerts, found) (ground arith)
  ]

  memory_lem : (x : Memory m) → any of_key (memory_alerts m t x) ≡ lacks_memory x
  unfolding memory_alerts
  memory_lem x = ground arith

  cpu_lem : (c : Cpu m) → any of_key (cpu_alerts m t c) ≡ is_slow c
  unfolding cpu_alerts
  cpu_lem c = ground arith

  steal_lem : (c : Cpu m) → any of_key (steal_alerts m t c) ≡ is_stolen c
  unfolding steal_alerts
  steal_lem c = ground arith

  load_lem :
      (five : Option m.Number) (cpu : Option (Cpu m))
      → any of_key (load_alerts m t five cpu) ≡ holds (λ v. holds (is_loaded v) cpu) five
  unfolding load_alerts
  load_lem none cpu = refl
  load_lem (some five) none = refl
  load_lem (some five) (some c) = ground arith

  container_lem : (c : Container) → any of_key (container_alerts m t c) ≡ is_ill c
  unfolding container_alerts
  container_lem c = ground arith

  process_lem : (p : Process m) → any of_key (process_alerts m t p) ≡ is_unstable p
  unfolding process_alerts
  process_lem p = ground arith

  monitored_lem :
      (u : String × String)
      → any of_key (monitored_alerts m t u) ≡ (not (u.1 == "active") && names "unit:" u.0)
  unfolding monitored_alerts
  monitored_lem (unit, state) = ground arith

  database_lem : (d : DatabaseFile) → any of_key (database_alerts m t d) ≡ is_lost d
  unfolding database_alerts
  database_lem d = ground arith

  certificate_lem : (c : Certificate m) → any of_key (certificate_alerts m t c) ≡ ends_soon c
  unfolding certificate_alerts
  certificate_lem c = ground arith

  backup_lem : (b : Backup m) → any of_key (backup_alerts m t b) ≡ is_outdated b
  unfolding backup_alerts
  backup_lem b = ground arith

  os_lem : (o : Os) → any of_key (os_alerts m t o) ≡ wants_reboot o
  unfolding os_alerts
  os_lem o = ground arith

  nginx_lem :
      (s : Systemd)
      → any of_key (
          when
            (not (s.nginx == "active"))
            (mk critical "nginx" (joined ("nginx: " ∷ s.nginx ∷ [])) none))
        ≡ (not (s.nginx == "active") && "nginx" == k)
  nginx_lem s = ground arith

  failed_units_lem : (s : Systemd) → any of_key (systemd_alerts m t s) ≡ has_failed_unit s
  unfolding systemd_alerts
  failed_units_lem s =
      then_part _ _
        (then_part _ _
          (any-each of_key
            (λ u.
              mk critical (joined ("unit:" ∷ u ∷ [])) (joined ("systemd юнит упал: " ∷ u ∷ [])) none
              ∷ [])
            (names "unit:") s.failed_units (λ u. ground arith))
          (nginx_lem s))
        (any-each of_key _ _ s.monitored (λ u. monitored_lem u))

  -- The parts of `raised`, one after the other.
  pub raised-troubled : (s : Snapshot m) → any of_key (raised m t s) ≡ is_troubled s
  unfolding raised
  raised-troubled s =
      then_part _ _
        (then_part _ _
          (then_part _ _
            (then_part _ _
              (then_part _ _
                (then_part _ _
                  (then_part _ _
                    (then_part _ _
                      (then_part _ _
                        (then_part _ _
                          (then_part _ _ (any-each of_key _ _ s.filesystems (λ f. disk_lem f))
                            (any-each_of of_key _ _ s.memory (λ x. memory_lem x)))
                          (any-each_of of_key _ _ s.cpu (λ c. cpu_lem c)))
                        (load_lem s.load_five s.cpu))
                      (any-each_of of_key _ _ s.cpu (λ c. steal_lem c)))
                    (any-each of_key _ _ s.containers (λ c. container_lem c)))
                  (any-each of_key _ _ s.pm2 (λ p. process_lem p)))
                (any-each_of of_key _ _ s.systemd (λ u. failed_units_lem u)))
              (any-each of_key _ _ s.databases (λ d. database_lem d)))
            (any-each of_key _ _ s.certificates (λ c. certificate_lem c)))
          (any-each of_key _ _ s.backups (λ b. backup_lem b)))
        (any-each_of of_key _ _ s.os (λ o. os_lem o))
