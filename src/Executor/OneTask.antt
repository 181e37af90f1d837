-- ===== src/Executor/OneTask.antt =====
-- Sequences of calls of src/changes/executor.js, restarts among them: at most one change runs, and
-- no record says "running" without it.
use grouvi_nox.Prelude.{
  some-injective, Bool, Bool-cases, Option, Option-cases, String, [], ap, eq_iff, eq_refl, err-ok,
  false, inl, inr, none, ok, ok-injective, refl, some, subst, sym, true, ℕ, ◌++◌, ◌==◌, ◌∙◌, ◌∷◌,
  ◌≡◌,
}
use grouvi_nox.Prelude.JsMap
use grouvi_nox.Prelude.JsMap.{JsMap, get-put, entry_of_put}
use grouvi_nox.Executor.Host.{Host, World}
use grouvi_nox.Executor.Change.{Proposal, Change}
use grouvi_nox.Executor.Runs.{run_apply, run_rollback}
use grouvi_nox.Executor.Records.{
  Task, applying, rolling, Store, is_running, is_applied, is_change_id, new_change, exclusive,
  started, begin_apply, rolling_with, rollback_of, begin_rollback, restart, end_task, Step,
  apply_begins, rollback_begins, task_ends, broker_restarts, host_changes, apply_start,
  rollback_start, apply_done, rollback_done, is_none,
}
use grouvi_nox.Executor.Verdicts.{run_apply-Ended, run_rollback-Ended}
use grouvi_nox.Executor.Filed.{
  applying_id, Holds, WellFormed, none-some, running-applied, get-recover_records,
  written-WellFormed, restart-WellFormed, recovered-Ended,
}

module _ {E : Type 0} where
  -- The store in which a change has begun.
  abbrev pub applying_from : String → String → Proposal → Store E → Store E
  applying_from id hash p s = record s {
    busy = some (applying p (new_change id hash p));
    proposals = JsMap.put s.proposals id p;
    records = JsMap.put s.records id (new_change id hash p);
    journal = s.journal ++ (apply_start id ∷ []);
  }

  pub begin_apply-cases :
      (id hash approved : String) (p : Proposal) (s s' : Store E)
      → begin_apply id hash approved p s ≡ ok s'
      → (approved ≡ hash) × (s.busy ≡ none) × (applying_from id hash p s ≡ s')
  unfolding begin_apply exclusive started
  begin_apply-cases id hash approved p s s' h = elim (Bool-cases (approved == hash)) [
    | inr other ↦ absurd (err-ok (rw other at h))
    | inl same ↦ elim (Option-cases s.busy) [
      | inr (t, busy) ↦ absurd (err-ok (rw (same, busy) at h))
      | inl idle ↦ ((eq_iff approved hash).0 same, idle, ok-injective _ _ (rw (same, idle) at h))
    ]
  ]

  applying_from-WellFormed :
      (id hash : String) (p : Proposal) (s : Store E)
      → is_change_id id ≡ true
      → s.busy ≡ none
      → WellFormed s
      → WellFormed (applying_from id hash p s)
  unfolding new_change
  applying_from-WellFormed id hash p s named idle wf = record {
    filed = λ j c h. elim (entry_of_put s.records id j (new_change id hash p) c h) [
      | inl (k, same) ↦ (
        subst (λ x. x.change_id ≡ j) same k,
        subst (λ x. is_change_id x ≡ true) k named,
        λ r. ap some k,
      )
      | inr (other, there) ↦
          let (i, n, busy) = wf.filed j c there in
          (i, n, λ r. absurd (none-some (subst (λ b. applying_id b ≡ some j) idle (busy r))))
    ];
    held = (get-put s.records id id (new_change id hash p) ∙ (rw (eq_refl id) refl), refl);
  }

  -- The store in which a rollback has begun.
  abbrev pub rolling_from : String → Bool → Proposal → Change → Store E → Store E
  rolling_from id force p ch s = record s {
    busy = some (rolling p force ch);
    journal = s.journal ++ (rollback_start id force ∷ []);
  }

  rolling_with-cases :
      (id : String) (force : Bool) (ch : Change) (r : Option Proposal) (s s' : Store E)
      → rolling_with id force ch r s ≡ ok s'
      → (p : Proposal) × (rolling_from id force p ch s ≡ s')
  unfolding rolling_with
  rolling_with-cases id force ch none s s' h = absurd (err-ok h)
  rolling_with-cases id force ch (some p) s s' h = (p, ok-injective _ _ h)

  rollback_of-cases :
      (id : String) (force : Bool) (r : Option Change) (s s' : Store E)
      → rollback_of id force r s ≡ ok s'
      → (ch : Change) × (r ≡ some ch)
        × (is_applied ch.status ≡ true)
        × (s.busy ≡ none)
        × ((p : Proposal) × (rolling_from id force p ch s ≡ s'))
  unfolding rollback_of
  rollback_of-cases id force none s s' h = absurd (err-ok h)
  rollback_of-cases id force (some ch) s s' h = elim (Bool-cases (is_applied ch.status)) [
    | inr other ↦ absurd (err-ok (rw other at h))
    | inl is' ↦ elim (Option-cases s.busy) [
      | inr (t, busy) ↦ absurd (err-ok (rw (is', busy) at h))
      | inl idle ↦ (
        ch,
        refl,
        is',
        idle,
        rolling_with-cases id force ch (JsMap.get s.proposals id) s s' (rw (is', idle) at h),
      )
    ]
  ]

  -- A rollback that begins is of a change that the records call applied, and nothing else runs.
  pub begin_rollback-cases :
      (id : String) (force : Bool) (s s' : Store E)
      → begin_rollback id force s ≡ ok s'
      → (ch : Change) × (JsMap.get s.records id ≡ some ch)
        × (is_applied ch.status ≡ true)
        × (s.busy ≡ none)
        × ((p : Proposal) × (rolling_from id force p ch s ≡ s'))
  unfolding begin_rollback
  begin_rollback-cases id force s s' h = elim (Bool-cases (is_change_id id)) [
    | inr other ↦ absurd (err-ok (rw other at h))
    | inl named ↦ rollback_of-cases id force (JsMap.get s.records id) s s' (rw named at h)
  ]

  rolling_from-WellFormed :
      (id : String) (force : Bool) (p : Proposal) (ch : Change) (s : Store E)
      → JsMap.get s.records id ≡ some ch
      → is_applied ch.status ≡ true
      → s.busy ≡ none
      → WellFormed s
      → WellFormed (rolling_from id force p ch s)
  rolling_from-WellFormed id force p ch s there is' idle wf = record {
    filed = λ j c h.
        let (i, n, busy) = wf.filed j c h in
        (i, n, λ r. absurd (none-some (subst (λ b. applying_id b ≡ some j) idle (busy r))));
    held = (subst (λ x. JsMap.get s.records x ≡ some ch) (sym (wf.filed id ch there).0) there, is');
  }

module _ (H : Host) (dir : String) where
  end_task-WellFormed :
      (t : Option Task) (s : Store H.Outside)
      → s.busy ≡ t
      → WellFormed s
      → WellFormed (end_task H dir t s)
  unfolding end_task
  end_task-WellFormed none s e wf = wf
  end_task-WellFormed (some (applying p ch)) s e wf =
      let held : Holds s.records (some (applying p ch)) = subst (Holds s.records) e wf.held in
      let c = run_apply H dir p (record { world = s.world; change = ch }) in
      written-WellFormed s ch.change_id c.change c.world
        (apply_done c.change.change_id c.change.status)
        (run_apply-Ended H dir p (record { world = s.world; change = ch }))
        (wf.filed ch.change_id ch held.0).1
        (λ j q. sym (some-injective _ _ (subst (λ b. applying_id b ≡ some j) e q))) wf
  end_task-WellFormed (some (rolling p force ch)) s e wf =
      let held : Holds s.records (some (rolling p force ch)) = subst (Holds s.records) e wf.held in
      let r = run_rollback H dir p force (record { world = s.world; change = ch }) in
      written-WellFormed s ch.change_id r.ctx.change r.ctx.world
        (rollback_done ch.change_id (is_none r.failure))
        (run_rollback-Ended H dir p force (record { world = s.world; change = ch })
          (running-applied ch.status held.1))
        (wf.filed ch.change_id ch held.0).1
        (λ j q. absurd (none-some (subst (λ b. applying_id b ≡ some j) e q))) wf

  pub Step-WellFormed : {s s' : Store H.Outside} → Step H dir s s' → WellFormed s → WellFormed s'
  Step-WellFormed (apply_begins id hash approved p s s' named fresh h) wf =
      let (same, idle, e) = begin_apply-cases id hash approved p s s' h in
      subst WellFormed e (applying_from-WellFormed id hash p s named idle wf)
  Step-WellFormed (rollback_begins id force s s' h) wf =
      let (ch, there, is', idle, (p, e)) = begin_rollback-cases id force s s' h in
      subst WellFormed e (rolling_from-WellFormed id force p ch s there is' idle wf)
  Step-WellFormed (task_ends s) wf = end_task-WellFormed s.busy s refl wf
  Step-WellFormed (broker_restarts now s) wf = restart-WellFormed now s wf
  Step-WellFormed (host_changes w s) wf = record { filed = wf.filed; held = wf.held }

  pub data Reachable : Store H.Outside → Type 0 where
    fresh :
        (w : World H.Outside)
        → Reachable (record { world = w; records = []; proposals = []; busy = none; journal = [] })
    step : (s s' : Store H.Outside) → Reachable s → Step H dir s s' → Reachable s'

  pub Reachable-WellFormed : (s : Store H.Outside) → Reachable s → WellFormed s
  Reachable-WellFormed s (fresh w) = record {
    filed = λ id ch h. unfold JsMap.get in absurd (none-some h);
    held = tt;
  }
  Reachable-WellFormed s (step s0 s1 r t) = Step-WellFormed t (Reachable-WellFormed s0 r)

  -- In every store that calls, restarts and changes of the host lead to, where every change begins
  -- under an id that no record has, a record that says "running" is the record of the change that
  -- the executor is busy with. So at most one does.
  pub running_is_busy :
      (s : Store H.Outside)
      → Reachable s
      → (id : String) (ch : Change) → JsMap.get s.records id ≡ some ch
      → is_running ch.status ≡ true
      → applying_id s.busy ≡ some id
  running_is_busy s r id ch h = ((Reachable-WellFormed s r).filed id ch h).2

  -- After a restart in any such store no record says "running".
  pub restart_settles :
      (now : ℕ) (s : Store H.Outside)
      → Reachable s
      → (id : String) (ch : Change) → JsMap.get (restart now s).records id ≡ some ch
      → is_running ch.status ≡ false
  unfolding restart
  restart_settles now s r id ch h =
      let (old, there, same) = get-recover_records now s.records id ch h in
      let (own, named, _) = (Reachable-WellFormed s r).filed id old there in
      subst (λ x. is_running x.status ≡ false) same (recovered-Ended now id old own named).1
