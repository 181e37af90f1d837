-- ===== src/Executor/Moves.antt =====
-- How the status of a change record in src/changes/executor.js moves, whatever is called.
use grouvi_nox.Prelude.{
  some-injective, Bool, Bool-cases, Option, Result, String, ap, err, false, inl, inr, none, ok,
  refl, some, subst, sym, true, ℕ, ◌∙◌, ◌≡◌, ◌⊎◌,
}
use grouvi_nox.Prelude.JsMap
use grouvi_nox.Prelude.JsMap.{JsMap, entry_of_put}
use grouvi_nox.Executor.Host.{Host, World}
use grouvi_nox.Executor.Change.{
  Proposal, Status, rolled_back, Change, Ctx, Stage, done, refused, log,
}
use grouvi_nox.Executor.Runs.{run_apply, run_rollback, settle_rollback, revert}
use grouvi_nox.Executor.Keeps.{revert-keeps}
use grouvi_nox.Executor.Records.{
  Task, applying, rolling, Event, Store, is_running, is_applied, new_change, recovered_record,
  interrupted_at, is_change_id, restart, end_task, Step, apply_begins, rollback_begins, task_ends,
  broker_restarts, host_changes, written, apply_done, rollback_done, is_none,
}
use grouvi_nox.Executor.Verdicts.{run_apply-Ended, run_rollback-Ended}
use grouvi_nox.Executor.Filed.{Holds, WellFormed, none-some, running-applied, get-recover_records}
use grouvi_nox.Executor.OneTask.{
  begin_apply-cases, begin_rollback-cases, Reachable, Reachable-WellFormed,
}

-- The moves that a status may make: a change that runs comes to an end, and an applied one is
-- rolled back. The others are final.
pub data Moves : Status → Status → Type 0 where
  stays : {t : Status} → Moves t t
  ends : {t u : Status} → is_running t ≡ true → is_running u ≡ false → Moves t u
  undone : {t u : Status} → is_applied t ≡ true → u ≡ rolled_back → Moves t u

recovered-Moves :
    (now : ℕ) (id : String) (ch : Change) → Moves ch.status (recovered_record now id ch).status
unfolding recovered_record interrupted_at
recovered-Moves now id ch = elim (Bool-cases (is_change_id id)) [
  | inr other ↦ rw other stays
  | inl named ↦ elim (Bool-cases (is_running ch.status)) [
    | inl runs ↦ rw (named, runs) (ends runs refl)
    | inr still ↦ rw (named, still) stays
  ]
]

stays_at : {t u : Status} → t ≡ u → Moves t u
stays_at {t} e = subst (Moves t) e stays

module _ (H : Host) (dir : String) where
  settle_rollback-status :
      (t : Status) (m : Result Stage × Ctx H)
      → t ≡ m.1.change.status
      → (t ≡ (settle_rollback H dir m).ctx.change.status)
        ⊎ ((settle_rollback H dir m).ctx.change.status ≡ rolled_back)
  unfolding settle_rollback log
  settle_rollback-status t (ok (done cwd), c) h = inr refl
  settle_rollback-status t (ok (refused reason files), c) h = inl h
  settle_rollback-status t (err e, c) h = inl h

  run_rollback-Moves :
      (p : Proposal) (force : Bool) (c : Ctx H)
      → is_applied c.change.status ≡ true
      → Moves c.change.status (run_rollback H dir p force c).ctx.change.status
  unfolding run_rollback
  run_rollback-Moves p force c h =
      elim (settle_rollback-status c.change.status (revert H dir p force false c) (
        revert-keeps H dir (λ ch. c.change.status ≡ ch.status)
          (λ name code out c' e. unfold log in e) p force false c refl)) [
            | inl same ↦ stays_at same
            | inr back ↦ undone h back
          ]

  -- Where the record of one change alone is written.
  written-Moves :
      (s : Store H.Outside) (old ch : Change) (id : String) (w : World H.Outside) (e : Event)
      → JsMap.get s.records id ≡ some old
      → ch.change_id ≡ id
      → Moves old.status ch.status
      → (j : String) (a b : Change) → JsMap.get s.records j ≡ some a
      → JsMap.get (written ch w e s).records j ≡ some b
      → Moves a.status b.status
  unfolding written
  written-Moves s old ch id w e there own move j a b before after =
      elim (entry_of_put s.records ch.change_id j ch b after) [
        | inl (k, same) ↦
            let at : JsMap.get s.records j ≡ some old =
              subst (λ x. JsMap.get s.records x ≡ some old) (sym own ∙ k) there in
            let was : old ≡ a = some-injective _ _ (sym at ∙ before) in
            subst (λ x. Moves x.status b.status) was
              (subst (λ x. Moves old.status x.status) same move)
        | inr (other, still) ↦
            stays_at (ap (λ x. x.status) (some-injective a b (sym before ∙ still)))
      ]

  end_task-Moves :
      (t : Option Task) (s : Store H.Outside)
      → s.busy ≡ t
      → WellFormed s
      → (j : String) (a b : Change) → JsMap.get s.records j ≡ some a
      → JsMap.get (end_task H dir t s).records j ≡ some b
      → Moves a.status b.status
  unfolding end_task
  end_task-Moves none s e wf j a b before after =
      stays_at (ap (λ x. x.status) (some-injective a b (sym before ∙ after)))
  end_task-Moves (some (applying p ch)) s e wf j a b before after =
      let (there, runs) : Holds s.records (some (applying p ch)) =
        subst (Holds s.records) e wf.held in
      let c : Ctx H = record { world = s.world; change = ch } in
      let c' = run_apply H dir p c in
      let (own, stopped) = run_apply-Ended H dir p c in
      written-Moves s ch c'.change ch.change_id c'.world
        (apply_done c'.change.change_id c'.change.status) there own (ends runs stopped) j a b before
        after
  end_task-Moves (some (rolling p force ch)) s e wf j a b before after =
      let (there, is') : Holds s.records (some (rolling p force ch)) =
        subst (Holds s.records) e wf.held in
      let c : Ctx H = record { world = s.world; change = ch } in
      let r = run_rollback H dir p force c in
      written-Moves s ch r.ctx.change ch.change_id r.ctx.world
        (rollback_done ch.change_id (is_none r.failure)) there
        (run_rollback-Ended H dir p force c (running-applied ch.status is')).0
        (run_rollback-Moves p force c is') j a b before after

  restart-Moves :
      (now : ℕ) (s : Store H.Outside) (j : String) (a b : Change)
      → JsMap.get s.records j ≡ some a
      → JsMap.get (restart now s).records j ≡ some b
      → Moves a.status b.status
  unfolding restart
  restart-Moves now s j a b before after =
      let (old, there, same) = get-recover_records now s.records j b after in
      let was : old ≡ a = some-injective _ _ (sym there ∙ before) in
      subst (λ x. Moves x.status b.status) was
        (subst (λ x. Moves old.status x.status) same (recovered-Moves now j old))

  -- One call, one end, one restart or one change of the host, in any store that such steps lead to,
  -- leaves the status of a record as it is, or ends a change that runs, or marks an applied change
  -- as rolled back. No other status ever changes, provided that every change that begins has an id
  -- of its own, which no record has (the code makes it of the second and eight digits of the hash).
  pub lifecycle :
      (s s' : Store H.Outside)
      → Reachable H dir s
      → Step H dir s s'
      → (id : String) (before after : Change) → JsMap.get s.records id ≡ some before
      → JsMap.get s'.records id ≡ some after
      → Moves before.status after.status
  lifecycle s s' r (apply_begins id hash approved p _ _ named fresh h) j a b before after =
      let (same, idle, e) = begin_apply-cases id hash approved p s s' h in
      elim (entry_of_put s.records id j (new_change id hash p) b
        (subst (λ x. JsMap.get x.records j ≡ some b) (sym e) after)) [
          | inl (k, new) ↦
              absurd
                (none-some (sym fresh ∙ subst (λ x. JsMap.get s.records x ≡ some a) (sym k) before))
          | inr (other, still) ↦
              stays_at (ap (λ x. x.status) (some-injective a b (sym before ∙ still)))
        ]
  lifecycle s s' r (rollback_begins id force _ _ h) j a b before after =
      let (ch, there, is', idle, (p, e)) = begin_rollback-cases id force s s' h in
      stays_at (
        ap (λ x. x.status)
          (some-injective a b
            (sym before ∙ subst (λ x. JsMap.get x.records j ≡ some b) (sym e) after)))
  lifecycle s s' r (task_ends _) j a b before after =
      end_task-Moves s.busy s refl (Reachable-WellFormed H dir s r) j a b before after
  lifecycle s s' r (broker_restarts now _) j a b before after =
      restart-Moves now s j a b before after
  lifecycle s s' r (host_changes w _) j a b before after =
      stays_at (ap (λ x. x.status) (some-injective a b (sym before ∙ after)))
