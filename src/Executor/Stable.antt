-- ===== src/Executor/Stable.antt =====
-- What logging a step and noting the undo data keep true of a change record, a whole change in
-- src/changes/executor.js keeps true up to its verdict.
use grouvi_nox.Prelude.{
  Bool, Bool-cases, List, Option, Result, String, [], eqb, err, false, inl, inr, none, ok, some,
  subst, suc, sym, true, zero, ℕ, ◌∷◌,
}
use grouvi_nox.Executor.Change.{
  Patch, NewFile, Command, Action, patch, file, command, Probe, Health, Proposal, Undo, file_undo,
  patch_undo, command_undo, Stage, Change, done, refused, Ctx, log, set_undo,
}
use grouvi_nox.Executor.Host.{Host, real_path, is_dir, File}
use grouvi_nox.Executor.Stages.{run_steps, attempts, check_health, command_apply}
use grouvi_nox.Executor.Files.{
  file_restore, validated, write_target, targeted, file_apply, find_target, Target, back_up,
  replace_file, backup_dir, backup_file, temp_file,
}
use grouvi_nox.Executor.Patches.{
  check_paths, save_files, patch_in, patch_applied, patch_checked, patch_at, patch_apply,
  digest_files,
}
use grouvi_nox.Executor.Runs.{stage, revert, conclude, health_if, after_stage, perform}
use grouvi_nox.Executor.Keeps.{continue-keeps, change-file_restore, run_steps-keeps, revert-keeps}
use grouvi_nox.Executor.StageLog.{probe_once-log, check_paths-change}

module _ (H : Host) (dir : String) (K : Change → Type 0)
    (logged : (name : String) (code : ℕ) (out : String) (c : Ctx H)
      → K c.change
      → K (log name code out c).1.change)
    (noted : (u : Undo) (c : Ctx H) → K c.change → K (set_undo u c).1.change) where
  attempts-keeps :
      (n : ℕ) (p : Probe) (cwd : String) (c : Ctx H)
      → K c.change
      → K (attempts H n p cwd c).1.change
  unfolding attempts log
  attempts-keeps zero p cwd c h = logged "healthcheck" 1 "unhealthy" c h
  attempts-keeps (suc n) p cwd c h =
      let (b, w, e) = probe_once-log H p cwd c in
      let c1 : Ctx H = record c { world = w } in
      elim (Bool-cases b) [
        | inl up ↦ rw (e, up) (logged "healthcheck" 0 "ok" c1 h)
        | inr down ↦ rw (e, down) (attempts-keeps n p cwd c1 h)
      ]

  check_health-keeps :
      (x : Option Health) (cwd : String) (c : Ctx H)
      → K c.change
      → K (check_health H x cwd c).1.change
  unfolding check_health
  check_health-keeps none cwd c h = h
  check_health-keeps (some x) cwd c h = attempts-keeps x.retries x.probe cwd c h

  command_apply-keeps :
      (p : Proposal) (k : Command) (c : Ctx H) → K c.change → K (command_apply H p k c).1.change
  unfolding command_apply log set_undo
  command_apply-keeps p k c h =
      let result = H.run_script k.script k.cwd k.timeout_sec c.world in
      let c1 : Ctx H = record c { world = result.1 } in
      noted (command_undo p.undo) (log "command" result.0.code result.0.out c1).1
        (logged "command" result.0.code result.0.out c1 h)

  validated-keeps :
      (v : Option String) (target : String) (existed : Bool) (c : Ctx H)
      → K c.change
      → K (validated H dir v target existed c).1.change
  unfolding validated log
  validated-keeps none target existed c h = h
  validated-keeps (some s) target existed c h =
      let result = H.run_script s "/" 60 c.world in
      let c1 : Ctx H = record c { world = result.1 } in
      let c2 = (log "validate" result.0.code result.0.out c1).1 in
      let h2 = logged "validate" result.0.code result.0.out c1 h in
      elim (Bool-cases (eqb result.0.code 0)) [
        | inl passed ↦ rw passed h2
        | inr bad ↦ rw bad (
            continue-keeps K _ (file_restore H dir target existed c2)
              (subst K (sym (change-file_restore H dir target existed c2)) h2)
              (λ _ c' h'.
                unfold log in
                logged "restore after failed validation" 0 "previous content restored" c' h'))
      ]

  file_apply-keeps :
      (p : Proposal) (f : NewFile) (r : Result Target) (c : Ctx H)
      → K c.change
      → K (targeted H dir p f r c).1.change
  unfolding targeted write_target log set_undo
  file_apply-keeps p f (err e) c h = h
  file_apply-keeps p f (ok t) c h =
      let id = c.change.change_id in
      let new : File = record { content = f.content; mode = t.mode; owner = t.owner } in
      let w1 = back_up t.existed t.path (backup_file H dir id) c.world in
      let c1 : Ctx H = record c {
        world = replace_file (temp_file H dir t.path id) t.path new w1;
      } in
      let u = file_undo t.path t.existed (H.sha256 f.content) in
      let c2 = (set_undo u c1).1 in
      validated-keeps p.validate t.path t.existed (log "write file" 0 t.path c2).1
        (logged "write file" 0 t.path c2 (noted u c1 h))

  patch_applied-keeps :
      (k : Patch) (root : String) (known : List String) (code : ℕ) (c : Ctx H)
      → K c.change
      → K (patch_applied H dir k root known code c).1.change
  unfolding patch_applied set_undo
  patch_applied-keeps k root known code c h = elim (Bool-cases (eqb code 0)) [
    | inl passed ↦
        let after = digest_files H dir root (H.owner_of_dir root) k.files c.world in
        rw passed (noted (patch_undo root known after.0) (record c { world = after.1 }) h)
    | inr bad ↦ rw bad h
  ]

  patch_checked-keeps :
      (k : Patch) (root : String) (code : ℕ) (c : Ctx H)
      → K c.change
      → K (patch_checked H dir k root code c).1.change
  unfolding patch_checked log
  patch_checked-keeps k root code c h =
      let saved = save_files H dir root (backup_dir dir c.change.change_id) k.files c.world in
      let git = H.run_git ("apply" ∷ "--whitespace=nowarn" ∷ "-" ∷ []) root k.diff saved.1 in
      let c1 : Ctx H = record c { world = git.1 } in
      elim (Bool-cases (eqb code 0)) [
        | inr bad ↦ rw bad h
        | inl passed ↦ rw passed (
            patch_applied-keeps k root saved.0 git.0.code
              (log "git apply" git.0.code git.0.out c1).1
              (logged "git apply" git.0.code git.0.out c1 h))
      ]

  patch_in-keeps :
      (k : Patch) (root : String) (c : Ctx H) → K c.change → K (patch_in H dir k root c).1.change
  unfolding patch_in log
  patch_in-keeps k root c h =
      continue-keeps K _ (check_paths H dir root k.files c)
        (subst (λ x. K x.change) (sym (check_paths-change H dir root k.files c)) h)
        λ _ c0 h0.
          let head = H.run_git ("rev-parse" ∷ "HEAD" ∷ []) root "" c0.world in
          let git =
            H.run_git ("apply" ∷ "--check" ∷ "--whitespace=nowarn" ∷ "-" ∷ []) root k.diff head.1 in
          let c1 : Ctx H = record c0 { world = git.1 } in
          patch_checked-keeps k root git.0.code (log "git apply --check" git.0.code git.0.out c1).1
            (logged "git apply --check" git.0.code git.0.out c1 h0)

  patch_at-keeps :
      (k : Patch) (r : Option String) (c : Ctx H) → K c.change → K (patch_at H dir k r c).1.change
  unfolding patch_at
  patch_at-keeps k none c h = h
  patch_at-keeps k (some root) c h = elim (Bool-cases (is_dir c.world root)) [
    | inl dir' ↦ rw dir' (patch_in-keeps k root c h)
    | inr other ↦ rw other h
  ]

  stage-keeps :
      (p : Proposal) (a : Action) (c : Ctx H) → K c.change → K (stage H dir p a c).1.change
  unfolding stage patch_apply file_apply
  stage-keeps p (patch k) c h = patch_at-keeps k (real_path c.world k.project_path) c h
  stage-keeps p (file f) c h = file_apply-keeps p f (find_target H f.path c.world) c h
  stage-keeps p (command k) c h = command_apply-keeps p k c h

  conclude-keeps :
      (p : Proposal) (posted healthy : Bool) (c : Ctx H)
      → K c.change
      → K (conclude H dir p posted healthy c).1.change
  unfolding conclude
  conclude-keeps p true true c h = h
  conclude-keeps p true false c h =
      continue-keeps K _ (revert H dir p true true c) (revert-keeps H dir K logged p true true c h)
        (λ _ c' h'. h')
  conclude-keeps p false healthy c h =
      continue-keeps K _ (revert H dir p true true c) (revert-keeps H dir K logged p true true c h)
        (λ _ c' h'. h')

  health_if-keeps :
      (posted : Bool) (p : Proposal) (cwd : String) (c : Ctx H)
      → K c.change
      → K (health_if H dir posted p cwd c).1.change
  unfolding health_if
  health_if-keeps false p cwd c h = h
  health_if-keeps true p cwd c h = check_health-keeps p.healthcheck cwd c h

  after_stage-keeps :
      (p : Proposal) (s : Stage) (c : Ctx H) → K c.change → K (after_stage H dir p s c).1.change
  unfolding after_stage
  after_stage-keeps p (refused reason files) c h = h
  after_stage-keeps p (done cwd) c h =
      continue-keeps K _ (run_steps H "post" cwd 1 p.post c)
        (run_steps-keeps H dir K logged "post" cwd 1 p.post c h)
        λ posted c1 h1.
          continue-keeps K _ (health_if H dir posted p cwd c1) (health_if-keeps posted p cwd c1 h1)
            (λ healthy c2 h2. conclude-keeps p posted healthy c2 h2)

  pub perform-keeps : (p : Proposal) (c : Ctx H) → K c.change → K (perform H dir p c).1.change
  unfolding perform
  perform-keeps p c h =
      continue-keeps K _ (stage H dir p p.action c) (stage-keeps p p.action c h)
        (after_stage-keeps p)
