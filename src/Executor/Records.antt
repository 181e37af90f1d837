-- ===== src/Executor/Records.antt =====
-- The change records of src/changes/executor.js (`result.json` of each change), the one task that
-- `exclusive` lets run, what `apply` and `rollback` do around it, and the recovery at the start.
use grouvi_nox.Prelude.{
  Bool, List, Option, Result, String, [], all, codes, eqb, err, failure, false, if◌then◌else◌, leb,
  length, none, not, ok, plain_error, some, true, ℕ, ◌&&◌, ◌++◌, ◌==◌, ◌||◌, ◌∷◌, ◌≡◌,
}
use grouvi_nox.Prelude.JsMap
use grouvi_nox.Prelude.JsMap.{JsMap}
use grouvi_nox.Executor.Host.{Host, World}
use grouvi_nox.Executor.Change.{Proposal, Status, running, applied, interrupted, Change}
use grouvi_nox.Executor.Runs.{run_apply, run_rollback}

-- The function that `exclusive` runs, with the record that it holds.
pub data Task : Type 0 where
  applying : Proposal → Change → Task
  rolling : Proposal → Bool → Change → Task  -- `force`

pub data Event : Type 0 where
  apply_start : String → Event
  apply_done : String → Status → Event
  apply_interrupted : String → Event
  rollback_start : String → Bool → Event
  rollback_done : String → Bool → Event

pub record Store (E : Type 0) : Type 0 where
  pub world : World E
  pub records : JsMap Change
  pub proposals : JsMap Proposal
  pub busy : Option Task
  pub journal : List Event

abbrev pub is_running : Status → Bool
is_running running = true
is_running _ = false

abbrev pub is_applied : Status → Bool
is_applied applied = true
is_applied _ = false

unfoldable pub is_id_character : ℕ → Bool
is_id_character c =
    (leb b'0' c && leb c b'9')
    || (leb b'A' c && leb c b'Z')
    || (leb b'a' c && leb c b'z')
    || eqb c b'-'

-- /^[0-9A-Za-z-]{10,80}$/
unfoldable pub is_change_id : String → Bool
is_change_id s =
    all is_id_character (codes s) && leb 10 (length (codes s)) && leb (length (codes s)) 80

unfoldable pub new_change : String → String → Proposal → Change
new_change id hash p = record {
  change_id = id;
  proposal_id = p.id;
  hash = hash;
  status = running;
  reason = none;
  finished_at = none;
  steps = [];
  rollback_data = none;
}

unfoldable pub interrupted_at : ℕ → Change → Change
interrupted_at now ch = record ch {
  status = interrupted;
  reason = some "broker_stopped_mid_change";
  finished_at = some now;
}

unfoldable pub recovered_record : ℕ → String → Change → Change
recovered_record now id ch =
    if is_change_id id && is_running ch.status then interrupted_at now ch else ch

unfoldable pub recover_records : ℕ → JsMap Change → JsMap Change
recover_records now [] = []
recover_records now ((id, ch) ∷ rs) = (id, recovered_record now id ch) ∷ recover_records now rs

unfoldable pub recovery_events : JsMap Change → List Event
recovery_events [] = []
recovery_events ((id, ch) ∷ rs) =
    let rest = recovery_events rs in
    if is_change_id id && is_running ch.status then apply_interrupted id ∷ rest else rest

module _ {E : Type 0} where
  -- The entry of `exclusive`.
  unfoldable pub exclusive : Task → Store E → Result (Store E)
  exclusive t s = elim s.busy [
    | some other ↦ err (failure 409 "busy")
    | none ↦ ok (record s { busy = some t })
  ]

  unfoldable pub started : String → Result (Store E) → Proposal → Change → Result (Store E)
  started id (err e) p ch = err e
  started id (ok s) p ch = ok (record s {
    proposals = JsMap.put s.proposals id p;
    records = JsMap.put s.records id ch;
    journal = s.journal ++ (apply_start id ∷ []);
  })

  -- `apply` up to its stages. `id` is made of the time and the hash.
  unfoldable pub begin_apply : String → String → String → Proposal → Store E → Result (Store E)
  begin_apply id hash approved p s =
      let ch = new_change id hash p in
      if not (approved == hash)
      then err (failure 400 "hash_mismatch")
      else started id (exclusive (applying p ch) s) p ch

  -- The task reads the proposal first. It throws if that is gone, and `exclusive` is left.
  unfoldable pub rolling_with :
      String → Bool → Change → Option Proposal → Store E → Result (Store E)
  rolling_with id force ch none s = err (plain_error "ENOENT")
  rolling_with id force ch (some p) s = ok (record s {
    busy = some (rolling p force ch);
    journal = s.journal ++ (rollback_start id force ∷ []);
  })

  unfoldable pub rollback_of : String → Bool → Option Change → Store E → Result (Store E)
  rollback_of id force none s = err (failure 404 "not_found")
  rollback_of id force (some ch) s =
      if not (is_applied ch.status) then err (failure 409 "cannot_rollback") else elim s.busy [
        | some other ↦ err (failure 409 "busy")
        | none ↦ rolling_with id force ch (JsMap.get s.proposals id) s
      ]

  -- `rollback` up to `revert`.
  unfoldable pub begin_rollback : String → Bool → Store E → Result (Store E)
  begin_rollback id force s =
      if is_change_id id
      then rollback_of id force (JsMap.get s.records id) s
      else err (failure 400 "bad_change_id")

  -- `writeRecord`, and the end of `exclusive`.
  unfoldable pub written : Change → World E → Event → Store E → Store E
  written ch w e s = record s {
    world = w;
    records = JsMap.put s.records ch.change_id ch;
    busy = none;
    journal = s.journal ++ (e ∷ []);
  }

  -- `createExecutor` on the directory that a stopped broker left: `recoverInterrupted`.
  unfoldable pub restart : ℕ → Store E → Store E
  restart now s = record s {
    records = recover_records now s.records;
    busy = none;
    journal = s.journal ++ recovery_events s.records;
  }

abbrev pub is_none : {A : Type 0} → Option A → Bool
is_none none = true
is_none (some a) = false

module _ (H : Host) (dir : String) where
  -- The body of the task that runs, to the end of `exclusive`.
  unfoldable pub end_task : Option Task → Store H.Outside → Store H.Outside
  end_task none s = s
  end_task (some (applying p ch)) s =
      let c = run_apply H dir p (record { world = s.world; change = ch }) in
      written c.change c.world (apply_done c.change.change_id c.change.status) s
  end_task (some (rolling p force ch)) s =
      let r = run_rollback H dir p force (record { world = s.world; change = ch }) in
      written r.ctx.change r.ctx.world (rollback_done ch.change_id (is_none r.failure)) s

  -- What happens to the store: a call begins, the task that runs ends, the broker stops and is
  -- started again, or something else changes the host. Names of changes are of the form that the
  -- clock and the hash give, and the clock moves on between two changes of one hash.
  pub data Step : Store H.Outside → Store H.Outside → Type 0 where
    apply_begins :
        (id hash approved : String) (p : Proposal) (s s' : Store H.Outside)
        → is_change_id id ≡ true
        → JsMap.get s.records id ≡ none
        → begin_apply id hash approved p s ≡ ok s'
        → Step s s'
    rollback_begins :
        (id : String) (force : Bool) (s s' : Store H.Outside)
        → begin_rollback id force s ≡ ok s'
        → Step s s'
    task_ends : (s : Store H.Outside) → Step s (end_task s.busy s)
    broker_restarts : (now : ℕ) (s : Store H.Outside) → Step s (restart now s)
    host_changes : (w : World H.Outside) (s : Store H.Outside) → Step s (record s { world = w })
