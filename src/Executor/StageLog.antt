-- ===== src/Executor/StageLog.antt =====
-- The stages of src/changes/executor.js, and what the log says of how they end.
use grouvi_nox.Prelude.{
  Bool, Bool-cases, List, Option, Result, String, [], eqb, err, false, if◌then◌else◌, inl, inr,
  none, ok, refl, some, subst, suc, sym, true, zero, ℕ, ◌&&◌, ◌+◌, ◌∙◌, ◌∷◌, ◌≡◌,
}
use grouvi_nox.Executor.Change.{
  Patch, NewFile, Command, Action, patch, file, command, Probe, url, script, Health, Proposal,
  file_undo, command_undo, Stage, done, refused, Ctx, Run, pure, ◌>>◌, log, set_undo, continue,
}
use grouvi_nox.Executor.Host.{Host, World, real_path, is_dir, join, File}
use grouvi_nox.Executor.CleanLog.{
  clean, clean_in, Reports, StageReports, step_clean, step_dirty, clean-log,
}
use grouvi_nox.Executor.Stages.{
  numbered, run_steps, probe_once, attempts, check_health, command_apply,
}
use grouvi_nox.Executor.Files.{
  file_restore, validated, write_target, targeted, file_apply, find_target, Target, back_up,
  replace_file, backup_dir, backup_file, temp_file,
}
use grouvi_nox.Executor.Patches.{
  check_paths, save_files, patch_in, patch_applied, patch_checked, patch_at, patch_apply,
}
use grouvi_nox.Executor.Runs.{stage}
use grouvi_nox.Executor.Keeps.{change-file_restore}

-- What follows a part that may throw.
continue-StageReports :
    {H : Host} {A : Type 0} (f : A → Run H Stage) (m : Result A × Ctx H)
    → clean_in m.1 ≡ true
    → ((a : A) (c : Ctx H) → clean_in c ≡ true → StageReports (f a c))
    → StageReports (continue f m)
continue-StageReports f (ok a, c) h k = k a c h
continue-StageReports f (err e, c) h k = tt

-- The end of a stage: done on exit code 0.
ends :
    {H : Host} (code : ℕ) (cwd reason : String) (c : Ctx H)
    → clean_in c ≡ eqb code 0
    → StageReports {H = H} (ok (if eqb code 0 then done cwd else refused reason []), c)
ends code cwd reason c h = elim (Bool-cases (eqb code 0)) [
  | inl zero' ↦ rw zero' (h ∙ zero')
  | inr other ↦ rw other (h ∙ other)
]

module _ (H : Host) where
  pub run_steps-Reports :
      (label cwd : String) (n : ℕ) (ss : List String) (c : Ctx H)
      → clean_in c ≡ true
      → Reports (run_steps H label cwd n ss c)
  unfolding run_steps log
  run_steps-Reports label cwd n [] c h = h
  run_steps-Reports label cwd n (s ∷ ss) c h =
      let result = H.run_script s cwd 300 c.world in
      let c1 : Ctx H = record c { world = result.1 } in
      let c2 = (log (numbered label n) result.0.code result.0.out c1).1 in
      let e2 : clean_in c2 ≡ (clean_in c && eqb result.0.code 0) =
        clean-log (numbered label n) result.0.code result.0.out c1 in
      elim (Bool-cases (eqb result.0.code 0)) [
        | inl zero' ↦
            rw zero' (run_steps-Reports label cwd (n + 1) ss c2 (e2 ∙ (rw (h, zero') refl)))
        | inr other ↦ rw other (e2 ∙ (rw (h, other) refl))
      ]

  pub probe_once-log :
      (p : Probe) (cwd : String) (c : Ctx H)
      → (b : Bool) × (w : World H.Outside) × (probe_once H p cwd c ≡ (ok b, record c { world = w }))
  unfolding probe_once
  probe_once-log (url u e) cwd c = (_, _, refl)
  probe_once-log (script s) cwd c = (_, _, refl)

  attempts-Reports :
      (n : ℕ) (p : Probe) (cwd : String) (c : Ctx H)
      → clean_in c ≡ true
      → Reports (attempts H n p cwd c)
  unfolding attempts log
  attempts-Reports zero p cwd c h = step_clean "healthcheck" 1 "unhealthy" c h
  attempts-Reports (suc n) p cwd c h =
      let (b, w, e) = probe_once-log p cwd c in
      let c1 : Ctx H = record c { world = w } in
      elim (Bool-cases b) [
        | inl up ↦ rw (e, up) (step_clean "healthcheck" 0 "ok" c1 h)
        | inr down ↦ rw (e, down) (attempts-Reports n p cwd c1 h)
      ]

  pub check_health-Reports :
      (h : Option Health) (cwd : String) (c : Ctx H)
      → clean_in c ≡ true
      → Reports (check_health H h cwd c)
  unfolding check_health
  check_health-Reports none cwd c e = e
  check_health-Reports (some h) cwd c e = attempts-Reports h.retries h.probe cwd c e

  command_apply-Reports :
      (p : Proposal) (k : Command) (c : Ctx H)
      → clean_in c ≡ true
      → StageReports (command_apply H p k c)
  unfolding command_apply log set_undo
  command_apply-Reports p k c h =
      let result = H.run_script k.script k.cwd k.timeout_sec c.world in
      let c1 : Ctx H = record c { world = result.1 } in
      let c2 = (log "command" result.0.code result.0.out c1).1 in
      ends result.0.code k.cwd _ (set_undo (command_undo p.undo) c2).1
        (step_clean "command" result.0.code result.0.out c1 h)

module _ (H : Host) (dir : String) where
  validated-Reports :
      (v : Option String) (target : String) (existed : Bool) (c : Ctx H)
      → clean_in c ≡ true
      → StageReports (validated H dir v target existed c)
  unfolding validated log
  validated-Reports none target existed c h = h
  validated-Reports (some s) target existed c h =
      let result = H.run_script s "/" 60 c.world in
      let c1 : Ctx H = record c { world = result.1 } in
      let c2 = (log "validate" result.0.code result.0.out c1).1 in
      let e2 = step_clean "validate" result.0.code result.0.out c1 h in
      elim (Bool-cases (eqb result.0.code 0)) [
        | inl passed ↦ rw passed (e2 ∙ passed)
        | inr bad ↦ rw bad (
            restored target (file_restore H dir target existed c2) (
              subst (λ x. clean x.steps ≡ false) (sym (change-file_restore H dir target existed c2))
                (e2 ∙ bad)))
      ]
    where
      restored :
          (t : String) (m : Result (Unit {0}) × Ctx H)
          → clean_in m.1 ≡ false
          → StageReports (
              continue
                (λ _.
                  log "restore after failed validation" 0 "previous content restored"
                  >> pure (refused "validation_failed" []))
                m)
      restored t (ok u, c') e =
          step_dirty "restore after failed validation" 0 "previous content restored" c' e
      restored t (err f, c') e = tt

  write_target-Reports :
      (p : Proposal) (f : NewFile) (t : Target) (c : Ctx H)
      → clean_in c ≡ true
      → StageReports (write_target H dir p f t c)
  unfolding write_target log set_undo
  write_target-Reports p f t c h =
      let id = c.change.change_id in
      let new : File = record { content = f.content; mode = t.mode; owner = t.owner } in
      let w1 = back_up t.existed t.path (backup_file H dir id) c.world in
      let c1 : Ctx H = record c {
        world = replace_file (temp_file H dir t.path id) t.path new w1;
      } in
      let c2 = (set_undo (file_undo t.path t.existed (H.sha256 f.content)) c1).1 in
      validated-Reports p.validate t.path t.existed (log "write file" 0 t.path c2).1
        (step_clean "write file" 0 t.path c2 h)

  file_apply-Reports :
      (p : Proposal) (f : NewFile) (c : Ctx H)
      → clean_in c ≡ true
      → StageReports (file_apply H dir p f c)
  unfolding file_apply
  file_apply-Reports p f c h = go (find_target H f.path c.world)
    where
      go : (r : Result Target) → StageReports (targeted H dir p f r c)
      go (err e) = unfold targeted in tt
      go (ok t) = unfold targeted in write_target-Reports p f t c h

  pub check_paths-change :
      (root : String) (fs : List String) (c : Ctx H) → (check_paths H dir root fs c).1 ≡ c
  unfolding check_paths
  check_paths-change root [] c = refl
  check_paths-change root (f ∷ fs) c =
      elim (Bool-cases (H.inside_real_root c.world root (join root f))) [
        | inr out ↦ rw out refl
        | inl in' ↦ rw in' (elim (Bool-cases (H.is_symlink c.world (join root f))) [
          | inl link ↦ rw link refl
          | inr plain ↦ rw plain (check_paths-change root fs c)
        ])
      ]

  patch_applied-Reports :
      (k : Patch) (root : String) (known : List String) (code : ℕ) (c : Ctx H)
      → clean_in c ≡ eqb code 0
      → StageReports (patch_applied H dir k root known code c)
  unfolding patch_applied set_undo
  patch_applied-Reports k root known code c h = elim (Bool-cases (eqb code 0)) [
    | inl passed ↦ rw passed (h ∙ passed)
    | inr bad ↦ rw bad (h ∙ bad)
  ]

  patch_checked-Reports :
      (k : Patch) (root : String) (code : ℕ) (c : Ctx H)
      → clean_in c ≡ eqb code 0
      → StageReports (patch_checked H dir k root code c)
  unfolding patch_checked log
  patch_checked-Reports k root code c h =
      let saved = save_files H dir root (backup_dir dir c.change.change_id) k.files c.world in
      let git = H.run_git ("apply" ∷ "--whitespace=nowarn" ∷ "-" ∷ []) root k.diff saved.1 in
      let c1 : Ctx H = record c { world = git.1 } in
      elim (Bool-cases (eqb code 0)) [
        | inr bad ↦ rw bad (h ∙ bad)
        | inl passed ↦ rw passed (
            patch_applied-Reports k root saved.0 git.0.code
              (log "git apply" git.0.code git.0.out c1).1
              (step_clean "git apply" git.0.code git.0.out c1 (h ∙ passed)))
      ]

  patch_in-Reports :
      (k : Patch) (root : String) (c : Ctx H)
      → clean_in c ≡ true
      → StageReports (patch_in H dir k root c)
  unfolding patch_in log
  patch_in-Reports k root c h =
      continue-StageReports _ (check_paths H dir root k.files c)
        (subst (λ x. clean_in x ≡ true) (sym (check_paths-change root k.files c)) h)
        λ _ c0 h0.
          let head = H.run_git ("rev-parse" ∷ "HEAD" ∷ []) root "" c0.world in
          let git =
            H.run_git ("apply" ∷ "--check" ∷ "--whitespace=nowarn" ∷ "-" ∷ []) root k.diff head.1 in
          let c1 : Ctx H = record c0 { world = git.1 } in
          patch_checked-Reports k root git.0.code
            (log "git apply --check" git.0.code git.0.out c1).1
            (step_clean "git apply --check" git.0.code git.0.out c1 h0)

  patch_at-Reports :
      (k : Patch) (r : Option String) (c : Ctx H)
      → clean_in c ≡ true
      → StageReports (patch_at H dir k r c)
  unfolding patch_at
  patch_at-Reports k none c h = tt
  patch_at-Reports k (some root) c h = elim (Bool-cases (is_dir c.world root)) [
    | inl dir' ↦ rw dir' (patch_in-Reports k root c h)
    | inr other ↦ rw other tt
  ]

  pub stage-Reports :
      (p : Proposal) (a : Action) (c : Ctx H) → clean_in c ≡ true → StageReports (stage H dir p a c)
  unfolding stage patch_apply
  stage-Reports p (patch k) c h = patch_at-Reports k (real_path c.world k.project_path) c h
  stage-Reports p (file f) c h = file_apply-Reports p f c h
  stage-Reports p (command k) c h = command_apply-Reports H p k c h
