-- ===== src/Executor/Clean.antt =====
-- A change of src/changes/executor.js counts as applied exactly if every step in its log exited 0.
use grouvi_nox.Prelude.{Bool, Result, String, err, false, ok, refl, some, sym, true, ◌&&◌, ◌∙◌, ◌≡◌}
use grouvi_nox.Executor.Change.{
  Proposal, failed, Stage, is_done, done, refused, Ctx, pure, ◌>>=◌, log, continue,
}
use grouvi_nox.Executor.Host.{Host}
use grouvi_nox.Executor.CleanLog.{clean, step_dirty, clean_in, Reports, StageReports, clean-log}
use grouvi_nox.Executor.Stages.{run_steps, check_health}
use grouvi_nox.Executor.Runs.{
  Outcome, succeeded, gave_up, stage, revert, conclude, health_if, after_stage, perform,
  settle_apply, finish, run_apply,
}
use grouvi_nox.Executor.Records.{is_applied}
use grouvi_nox.Executor.Keeps.{revert-keeps}
use grouvi_nox.Executor.StageLog.{run_steps-Reports, check_health-Reports, stage-Reports}

module _ (H : Host) (dir : String) where
  abbrev is_success : Outcome → Bool
  is_success succeeded = true
  is_success (gave_up reason undone) = false

  abbrev OutcomeReports : Result Outcome × Ctx H → Type 0
  OutcomeReports (ok o, c) = clean_in c ≡ is_success o
  OutcomeReports (err e, c) = Unit {0}

  revert-dirty :
      (p : Proposal) (force silent : Bool) (c : Ctx H)
      → clean_in c ≡ false
      → clean_in (revert H dir p force silent c).1 ≡ false
  revert-dirty = revert-keeps H dir (λ ch. clean ch.steps ≡ false) step_dirty

  gave_up-Reports :
      (reason : String) (m : Result Stage × Ctx H)
      → clean_in m.1 ≡ false
      → OutcomeReports (continue (λ s. pure (gave_up reason (is_done s))) m)
  gave_up-Reports reason (ok s, c) h = h
  gave_up-Reports reason (err e, c) h = tt

  conclude-Reports :
      (p : Proposal) (posted healthy : Bool) (c : Ctx H)
      → clean_in c ≡ (posted && healthy)
      → OutcomeReports (conclude H dir p posted healthy c)
  unfolding conclude
  conclude-Reports p true true c h = h
  conclude-Reports p true false c h =
      gave_up-Reports "unhealthy" (revert H dir p true true c) (revert-dirty p true true c h)
  conclude-Reports p false healthy c h =
      gave_up-Reports "post_failed" (revert H dir p true true c) (revert-dirty p true true c h)

  healthy_then :
      (p : Proposal) (m : Result Bool × Ctx H)
      → Reports m
      → OutcomeReports (continue (λ healthy. conclude H dir p true healthy) m)
  healthy_then p (ok b, c) h = conclude-Reports p true b c h
  healthy_then p (err e, c) h = tt

  posted_then :
      (p : Proposal) (cwd : String) (m : Result Bool × Ctx H)
      → Reports m
      → OutcomeReports (
          continue
            (λ posted. health_if H dir posted p cwd >>= λ healthy. conclude H dir p posted healthy)
            m)
  unfolding health_if
  posted_then p cwd (ok true, c) h =
      healthy_then p (check_health H p.healthcheck cwd c)
        (check_health-Reports H p.healthcheck cwd c h)
  posted_then p cwd (ok false, c) h = conclude-Reports p false false c h
  posted_then p cwd (err e, c) h = tt

  staged_then :
      (p : Proposal) (m : Result Stage × Ctx H)
      → StageReports m
      → OutcomeReports (continue (after_stage H dir p) m)
  unfolding after_stage
  staged_then p (ok (refused reason files), c) h = h
  staged_then p (ok (done cwd), c) h =
      posted_then p cwd (run_steps H "post" cwd 1 p.post c)
        (run_steps-Reports H "post" cwd 1 p.post c h)
  staged_then p (err e, c) h = tt

  and_false : (b : Bool) → (b && false) ≡ false
  and_false true = refl
  and_false false = refl

  settled :
      (m : Result Outcome × Ctx H)
      → OutcomeReports m
      → is_applied (settle_apply H dir m).change.status ≡ clean_in (settle_apply H dir m)
  unfolding settle_apply log
  settled (ok succeeded, c) h = sym h
  settled (ok (gave_up reason true), c) h = sym h
  settled (ok (gave_up reason false), c) h = sym h
  settled (err e, c) h = sym (
      clean-log "error" 1 e.message
        (record c { change = record c.change { status = failed; reason = some e.message } })
      ∙ and_false (clean_in c))

  -- A change that starts with a clean log is recorded as applied exactly if every step that its log
  -- holds in the end exited 0: whatever the kind of change, wherever it stops or throws, and
  -- whatever an automatic rollback logs after a failure.
  pub applied_exactly :
      (p : Proposal) (c : Ctx H)
      → clean_in c ≡ true
      → is_applied (run_apply H dir p c).change.status ≡ clean_in (run_apply H dir p c)
  unfolding run_apply finish perform
  applied_exactly p c h =
      settled (perform H dir p c)
        (staged_then p (stage H dir p p.action c) (stage-Reports H dir p p.action c h))
