-- ===== src/Executor/Runs.antt =====
-- A whole change in src/changes/executor.js: the body of `apply`, `revert`, and the body of
-- `rollback`, once `exclusive` has let them in.
use grouvi_nox.Prelude.{
  Bool, List, Option, Result, String, [], err, false, if◌then◌else◌, none, ok, plain_error, some,
  true,
}
use grouvi_nox.Executor.Host.{Host}
use grouvi_nox.Executor.Change.{
  Action, patch, file, command, Proposal, Status, applied, auto_rolled_back, failed, rolled_back,
  Undo, patch_undo, file_undo, Stage, done, refused, Ctx, Run, pure, throw, is_done, ◌>>=◌, ◌>>◌,
  log,
}
use grouvi_nox.Executor.Stages.{run_steps, check_health, command_apply, command_revert}
use grouvi_nox.Executor.Files.{file_apply, file_revert}
use grouvi_nox.Executor.Patches.{patch_apply, patch_revert}

-- What `apply` makes of its stages: `{ ok, reason, autoRolledBack }`.
pub data Outcome : Type 0 where
  succeeded : Outcome
  gave_up : String → Bool → Outcome

module _ (H : Host) (changes_dir : String) where
  unfoldable pub stage : Proposal → Action → Run H Stage
  stage p (patch k) = patch_apply H changes_dir k
  stage p (file f) = file_apply H changes_dir p f
  stage p (command k) = command_apply H p k

  -- By the kind of the record; without its data the destructuring throws.
  unfoldable pub revert_stage : Proposal → Action → Option Undo → Bool → Run H Stage
  revert_stage p (patch k) (some (patch_undo root known after)) force =
      patch_revert H changes_dir k root known after force
  revert_stage p (file f) (some (file_undo target existed after)) force =
      file_revert H changes_dir target existed after force
  revert_stage p (command k) u force = command_revert H p.undo k
  revert_stage _ _ _ _ = throw (plain_error "TypeError")

  -- The post steps run again behind a revert that worked; whether they pass does not change it.
  unfoldable pub rerun : Proposal → String → Stage → Run H Stage
  rerun p label (refused reason files) = pure (refused reason files)
  rerun p label (done cwd) = do run_steps H label cwd 1 p.post; pure (done cwd)

  unfoldable pub revert : Proposal → Bool → Bool → Run H Stage
  revert p force silent c =
      let label = if silent then "post (after auto rollback)" else "post (after rollback)" in
      (do undone ← revert_stage p p.action c.change.rollback_data force; rerun p label undone) c

  unfoldable pub conclude : Proposal → Bool → Bool → Run H Outcome
  conclude p true true = pure succeeded
  conclude p posted healthy = do
    undone ← revert p true true
    pure (gave_up (if posted then "unhealthy" else "post_failed") (is_done undone))

  unfoldable pub health_if : Bool → Proposal → String → Run H Bool
  health_if false p cwd = pure false
  health_if true p cwd = check_health H p.healthcheck cwd

  unfoldable pub after_stage : Proposal → Stage → Run H Outcome
  after_stage p (refused reason files) = pure (gave_up reason false)
  after_stage p (done cwd) = do
    posted ← run_steps H "post" cwd 1 p.post
    healthy ← health_if posted p cwd
    conclude p posted healthy

  unfoldable pub perform : Proposal → Run H Outcome
  perform p = do s ← stage p p.action; after_stage p s

  abbrev pub status_of : Outcome → Status
  status_of succeeded = applied
  status_of (gave_up reason true) = auto_rolled_back
  status_of (gave_up reason false) = failed

  abbrev pub reason_of : Outcome → Option String
  reason_of succeeded = none
  reason_of (gave_up reason undone) = some reason

  -- The record's status and reason, also after a throw, is_done, which is logged as a step.
  unfoldable pub settle_apply : Result Outcome × Ctx H → Ctx H
  settle_apply (ok o, c) = record c {
    change = record c.change { status = status_of o; reason = reason_of o };
  }
  settle_apply (err e, c) =
      (log "error" 1 e.message
        (record c { change = record c.change { status = failed; reason = some e.message } })).1

  unfoldable pub finish : Ctx H → Ctx H
  finish c = record c { change = record c.change { finished_at = some (H.now c.world) } }

  -- The record that `apply` leaves, from the one that it wrote as running.
  unfoldable pub run_apply : Proposal → Ctx H → Ctx H
  run_apply p c = finish (settle_apply (perform p c))

  -- What a rollback answers: the record, and the reason and files if it did not work.
  pub record RolledBack : Type 0 where
    pub ctx : Ctx H
    pub failure : Option (String × List String)

  unfoldable pub settle_rollback : Result Stage × Ctx H → RolledBack
  settle_rollback (ok (done cwd), c) = record {
    ctx = record c { change = record c.change { status = rolled_back } };
    failure = none;
  }
  settle_rollback (ok (refused reason files), c) = record {
    ctx = c;
    failure = some (reason, files);
  }
  settle_rollback (err e, c) = record {
    ctx = (log "error" 1 e.message c).1;
    failure = some (e.message, []);
  }

  unfoldable pub run_rollback : Proposal → Bool → Ctx H → RolledBack
  run_rollback p force c = settle_rollback (revert p force false c)
