-- ===== src/Executor/Verdicts.antt =====
-- The record that a change or a rollback of src/changes/executor.js ends with: the same change, and
-- no longer running.
use grouvi_nox.Prelude.{Bool, Result, String, err, false, ok, refl, true, ◌≡◌}
use grouvi_nox.Executor.Host.{Host}
use grouvi_nox.Executor.Change.{Proposal, Change, Ctx, Stage, done, refused, log, set_undo}
use grouvi_nox.Executor.Runs.{
  Outcome, succeeded, gave_up, perform, settle_apply, finish, run_apply, settle_rollback,
  run_rollback, revert,
}
use grouvi_nox.Executor.Keeps.{revert-keeps}
use grouvi_nox.Executor.Stable.{perform-keeps}
use grouvi_nox.Executor.Records.{is_running}

-- `ch` is a record of the change `id` that is not running.
abbrev pub Ended : String → Change → Type 0
Ended id ch = (ch.change_id ≡ id) × (is_running ch.status ≡ false)

module _ (H : Host) (dir : String) where
  settle_apply-Ended :
      (id : String) (m : Result Outcome × Ctx H)
      → m.1.change.change_id ≡ id
      → Ended id (settle_apply H dir m).change
  unfolding settle_apply log
  settle_apply-Ended id (ok succeeded, c) h = (h, refl)
  settle_apply-Ended id (ok (gave_up reason true), c) h = (h, refl)
  settle_apply-Ended id (ok (gave_up reason false), c) h = (h, refl)
  settle_apply-Ended id (err e, c) h = (h, refl)

  pub run_apply-Ended :
      (p : Proposal) (c : Ctx H) → Ended c.change.change_id (run_apply H dir p c).change
  unfolding run_apply finish
  run_apply-Ended p c = settle_apply-Ended c.change.change_id (perform H dir p c) (
      perform-keeps H dir (λ ch. ch.change_id ≡ c.change.change_id)
        (λ name code out c' h. unfold log in h) (λ u c' h. unfold set_undo in h) p c refl)

  settle_rollback-Ended :
      (id : String) (m : Result Stage × Ctx H)
      → Ended id m.1.change
      → Ended id (settle_rollback H dir m).ctx.change
  unfolding settle_rollback log
  settle_rollback-Ended id (ok (done cwd), c) h = (h.0, refl)
  settle_rollback-Ended id (ok (refused reason files), c) h = h
  settle_rollback-Ended id (err e, c) h = h

  pub run_rollback-Ended :
      (p : Proposal) (force : Bool) (c : Ctx H)
      → is_running c.change.status ≡ false
      → Ended c.change.change_id (run_rollback H dir p force c).ctx.change
  unfolding run_rollback
  run_rollback-Ended p force c h =
      settle_rollback-Ended c.change.change_id (revert H dir p force false c) (
        revert-keeps H dir (Ended c.change.change_id) (λ name code out c' e. unfold log in e) p
          force false c (refl, h))
