-- ===== src/Executor/Keeps.antt =====
-- What logging a step keeps true of a change record, reverting the change in
-- src/changes/executor.js keeps true.
use grouvi_nox.Prelude.{
  Bool, Bool-cases, List, Option, Option-cases, Result, String, [], eqb, err, false, inl, inr, none,
  not, ok, refl, some, subst, sym, true, ℕ, ◌&&◌, ◌+◌, ◌∷◌, ◌≡◌,
}
use grouvi_nox.Executor.Change.{
  Patch, Command, Action, patch, file, command, Proposal, Undo, patch_undo, file_undo, Stage,
  Change, done, refused, Ctx, Run, log, continue,
}
use grouvi_nox.Executor.Host.{Host, read_regular, file_at, copied, write_file}
use grouvi_nox.Executor.Stages.{numbered, run_steps, command_revert}
use grouvi_nox.Executor.Files.{
  file_restore, file_revert, need, backup_dir, backup_file, restore_temp, digest, drifts,
}
use grouvi_nox.Executor.Patches.{patch_revert, drifted, is_nil, restore_files}
use grouvi_nox.Executor.Runs.{revert_stage, rerun, revert}

-- What follows in a block keeps it.
pub continue-keeps :
    {H : Host} (K : Change → Type 0) {A B : Type 0} (f : A → Run H B) (m : Result A × Ctx H)
    → K m.1.change
    → ((a : A) (c : Ctx H) → K c.change → K (f a c).1.change)
    → K (continue f m).1.change
continue-keeps K f (ok a, c) h k = k a c h
continue-keeps K f (err e, c) h k = h

module _ (H : Host) (dir : String) where
  -- Restoring a file touches the world alone.
  pub change-file_restore :
      (target : String) (existed : Bool) (c : Ctx H)
      → (file_restore H dir target existed c).1.change ≡ c.change
  unfolding file_restore need
  change-file_restore target false c = refl
  change-file_restore target true c =
      elim (Option-cases (file_at c.world (backup_file H dir c.change.change_id))) [
        | inl gone ↦ rw gone refl
        | inr (saved, found) ↦
            rw found
              (elim (Option-cases (
                file_at
                  (write_file c.world (restore_temp H dir target)
                    (copied (file_at c.world (restore_temp H dir target)) saved))
                  target)) [ inl gone ↦ rw gone refl | inr (current, there) ↦ rw there refl ])
      ]

module _ (H : Host) (dir : String) (K : Change → Type 0)
    (logged : (name : String) (code : ℕ) (out : String) (c : Ctx H)
      → K c.change
      → K (log name code out c).1.change) where
  pub run_steps-keeps :
      (label cwd : String) (n : ℕ) (ss : List String) (c : Ctx H)
      → K c.change
      → K (run_steps H label cwd n ss c).1.change
  unfolding run_steps log
  run_steps-keeps label cwd n [] c h = h
  run_steps-keeps label cwd n (s ∷ ss) c h =
      let result = H.run_script s cwd 300 c.world in
      let c1 : Ctx H = record c { world = result.1 } in
      let e2 = logged (numbered label n) result.0.code result.0.out c1 h in
      elim (Bool-cases (eqb result.0.code 0)) [
        | inl passed ↦ rw passed (
            run_steps-keeps label cwd (n + 1) ss
              (log (numbered label n) result.0.code result.0.out c1).1 e2)
        | inr stopped ↦ rw stopped e2
      ]

  command_revert-keeps :
      (u : Option String) (k : Command) (c : Ctx H)
      → K c.change
      → K (command_revert H u k c).1.change
  unfolding command_revert log
  command_revert-keeps none k c h = h
  command_revert-keeps (some undo) k c h =
      let result = H.run_script undo k.cwd k.timeout_sec c.world in
      logged "undo" result.0.code result.0.out (record c { world = result.1 }) h

  file_revert-keeps :
      (target : String) (existed : Bool) (after : String) (force : Bool) (c : Ctx H)
      → K c.change
      → K (file_revert H dir target existed after force c).1.change
  unfolding file_revert
  file_revert-keeps target existed after force c h =
      elim (Bool-cases
        (drifts H dir (digest H dir (read_regular c.world target)) after && not force)) [
          | inl drift ↦ rw drift h
          | inr same ↦ rw same (
              continue-keeps K _ (file_restore H dir target existed c)
                (subst K (sym (change-file_restore H dir target existed c)) h)
                (λ _ c' h'. unfold log in logged "restore file" 0 target c' h'))
        ]

  patch_revert-keeps :
      (k : Patch) (root : String) (known : List String) (after : List (String × Option String))
      (force : Bool) (c : Ctx H)
      → K c.change
      → K (patch_revert H dir k root known after force c).1.change
  unfolding patch_revert log
  patch_revert-keeps k root known after force c h =
      let result =
        H.run_git ("apply" ∷ "-R" ∷ "--whitespace=nowarn" ∷ "-" ∷ []) root k.diff c.world in
      let c1 : Ctx H = record c { world = result.1 } in
      let c2 = (log "git apply -R" result.0.code result.0.out c1).1 in
      let e2 = logged "git apply -R" result.0.code result.0.out c1 h in
      let backup = backup_dir dir c.change.change_id in
      elim (Bool-cases (not (is_nil H dir (drifted H dir c.world root after)) && not force)) [
        | inl drift ↦ rw drift h
        | inr same ↦ rw same (elim (Bool-cases (eqb result.0.code 0)) [
          | inl zero' ↦ rw zero' e2
          | inr other ↦ rw other (elim (Bool-cases (not force)) [
            | inl gentle ↦ rw gentle e2
            | inr forced ↦
                let put = restore_files H dir root backup known k.files c2.world in
                rw forced (elim (Bool-cases put.0) [
                  | inr gone ↦ rw gone e2
                  | inl back ↦
                      rw back (logged "restore from snapshot" 0 "" (record c2 { world = put.1 }) e2)
                ])
          ])
        ])
      ]

  revert_stage-keeps :
      (p : Proposal) (a : Action) (u : Option Undo) (force : Bool) (c : Ctx H)
      → K c.change
      → K (revert_stage H dir p a u force c).1.change
  unfolding revert_stage
  revert_stage-keeps p (patch k) (some (patch_undo root known after)) force c h =
      patch_revert-keeps k root known after force c h
  revert_stage-keeps p (file f) (some (file_undo target existed after)) force c h =
      file_revert-keeps target existed after force c h
  revert_stage-keeps p (command k) u force c h = command_revert-keeps p.undo k c h
  revert_stage-keeps _ _ _ _ c h = h

  rerun-keeps :
      (p : Proposal) (label : String) (s : Stage) (c : Ctx H)
      → K c.change
      → K (rerun H dir p label s c).1.change
  unfolding rerun
  rerun-keeps p label (refused reason files) c h = h
  rerun-keeps p label (done cwd) c h =
      continue-keeps K _ (run_steps H label cwd 1 p.post c) (run_steps-keeps label cwd 1 p.post c h)
        (λ _ c' h'. h')

  pub revert-keeps :
      (p : Proposal) (force silent : Bool) (c : Ctx H)
      → K c.change
      → K (revert H dir p force silent c).1.change
  unfolding revert
  revert-keeps p force silent c h =
      continue-keeps K _ (revert_stage H dir p p.action c.change.rollback_data force c)
        (revert_stage-keeps p p.action c.change.rollback_data force c h)
        (λ s c' h'. rerun-keeps p _ s c' h')
