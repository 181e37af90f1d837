-- ===== src/Executor/Examples.antt =====
-- A change that src/changes/executor.js applies, and its theorems at concrete inputs.
use grouvi_nox.Prelude.{
  List, String, [], false, if◌then◌else◌, none, ok, refl, some, true, ◌==◌, ◌∷◌, ◌≡◌,
}
use grouvi_nox.Prelude.JsMap
use grouvi_nox.Executor.Host.{
  File, join, dirname, before_last_slash, real_path, resolve, exists, file_at, is_dir, Host, World,
}
use grouvi_nox.Executor.Change.{
  NewFile, file, done, file_undo, Proposal, Action, command, Command, Status, running,
  auto_rolled_back, Change, Ctx, interrupted,
}
use grouvi_nox.Executor.CleanLog.{clean, clean_in}
use grouvi_nox.Executor.Stages
use grouvi_nox.Executor.Runs
use grouvi_nox.Executor.Runs.{run_apply}
use grouvi_nox.Executor.Clean.{applied_exactly}
use grouvi_nox.Executor.Records
use grouvi_nox.Executor.Records.{
  Store, Step, apply_begins, task_ends, is_running, is_applied, new_change, begin_apply, restart,
  end_task, interrupted_at,
}
use grouvi_nox.Executor.Files.{
  file_apply, file_revert, backup_dir, last_characters, skip, after_chown,
}
use grouvi_nox.Executor.Paths.{differ}
use grouvi_nox.Executor.RoundTrip.{Apart, revert_restores}
use grouvi_nox.Executor.Filed.{applying_id}
use grouvi_nox.Executor.OneTask.{
  Reachable, fresh, step, applying_from, running_is_busy, restart_settles,
}
use grouvi_nox.Executor.Moves.{Moves, lifecycle}

-- Every script but "false" works; the outside is the list of scripts that ran.
abbrev toy_host : Host
toy_host = record {
  Outside = List String;
  run_script = λ s cwd limit w. (
    record { code = if s == "false" then 1 else 0; timed_out = false; out = ""; ms = 1 },
    record w { outside = s ∷ w.outside },
  );
  run_git = λ args cwd input w. (record { code = 0; out = ""; err = "" }, w);
  fetch_status = λ u w. (none, w);
  sha256 = λ s. s;
  inside_real_root = λ w root p. true;
  is_symlink = λ w p. false;
  owner_of_dir = λ p. record { uid = 0; gid = 0 };
  now = λ w. 7;
}

abbrev toy_world : World (List String)
toy_world = record { files = []; dirs = []; links = []; outside = [] }

-- Its post step fails, so its undo script runs.
abbrev toy_proposal : Proposal
toy_proposal = record {
  id = "p1";
  action = command (record { script = "deploy"; cwd = "/"; timeout_sec = 60 });
  post = "true" ∷ "false" ∷ "never" ∷ [];
  undo = some "undeploy";
  validate = none;
  healthcheck = none;
}

abbrev toy_id : String
toy_id = "20260101T000000Z-aaaaaaaa"

abbrev toy_change : Change
toy_change = record {
  change_id = toy_id;
  proposal_id = "p1";
  hash = "hash";
  status = running;
  reason = none;
  finished_at = none;
  steps = [];
  rollback_data = none;
}

abbrev toy_ctx : Ctx toy_host
toy_ctx = record { world = toy_world; change = toy_change }

undone_run : (run_apply toy_host "/changes" toy_proposal toy_ctx).change.status ≡ auto_rolled_back
unfolding run_apply Runs.finish Runs.settle_apply Runs.perform Runs.stage Stages.command_apply
    grouvi_nox.Executor.Change.log grouvi_nox.Executor.Change.set_undo Runs.after_stage
    Stages.run_steps Runs.health_if Runs.conclude Runs.revert Runs.revert_stage
    Stages.command_revert Runs.rerun
undone_run = refl

applied_exactly_example :
    is_applied (run_apply toy_host "/changes" toy_proposal toy_ctx).change.status
    ≡ clean_in (run_apply toy_host "/changes" toy_proposal toy_ctx)
unfolding clean
applied_exactly_example = applied_exactly toy_host "/changes" toy_proposal toy_ctx refl

abbrev empty_store : Store (List String)
empty_store = record { world = toy_world; records = []; proposals = []; busy = none; journal = [] }

abbrev busy_store : Store (List String)
busy_store = applying_from toy_id "hash" toy_proposal empty_store

begins : Step toy_host "/changes" empty_store busy_store
unfolding begin_apply JsMap.get Records.is_change_id Records.is_id_character Records.started
    Records.exclusive
begins = apply_begins toy_id "hash" "hash" toy_proposal empty_store busy_store refl refl refl

busy_reached : Reachable toy_host "/changes" busy_store
busy_reached = step empty_store busy_store (fresh toy_world) begins

running_is_busy_example : applying_id busy_store.busy ≡ some toy_id
unfolding JsMap.get JsMap.put new_change
running_is_busy_example =
    running_is_busy toy_host "/changes" busy_store busy_reached toy_id toy_change refl refl

restart_settles_example : is_running (interrupted_at 5 toy_change).status ≡ false
unfolding restart JsMap.get JsMap.put new_change Records.recover_records interrupted_at
    Records.recovered_record Records.is_change_id Records.is_id_character
restart_settles_example =
    restart_settles toy_host "/changes" 5 busy_store busy_reached toy_id
      (interrupted_at 5 toy_change) refl

lifecycle_example : Moves running (run_apply toy_host "/changes" toy_proposal toy_ctx).change.status
unfolding end_task JsMap.get JsMap.put new_change Records.written run_apply Runs.finish
    Runs.settle_apply Runs.perform Runs.stage Stages.command_apply grouvi_nox.Executor.Change.log
    grouvi_nox.Executor.Change.set_undo Runs.after_stage Stages.run_steps Runs.health_if
    Runs.conclude Runs.revert Runs.revert_stage Stages.command_revert Runs.rerun
lifecycle_example =
    lifecycle toy_host "/changes" busy_store
      (end_task toy_host "/changes" busy_store.busy busy_store) busy_reached (task_ends busy_store)
      toy_id toy_change (run_apply toy_host "/changes" toy_proposal toy_ctx).change refl refl

abbrev old_file : File
old_file = record { content = "old"; mode = 416; owner = record { uid = 5; gid = 6 } }

abbrev file_ctx : Ctx toy_host
file_ctx = record {
  world = record toy_world { files = ("/etc/app.conf", old_file) ∷ []; dirs = "/etc" ∷ [] };
  change = toy_change;
}

abbrev new_file : NewFile
new_file = record { path = "/etc/app.conf"; content = "new" }

abbrev file_proposal : Proposal
file_proposal = record toy_proposal { action = file new_file; post = []; undo = none }

paths_Apart : Apart toy_host "/changes" toy_id "/etc/app.conf"
unfolding join backup_dir dirname before_last_slash last_characters skip
paths_Apart = record {
  copy_target = differ _ _ refl;
  temp_target = differ _ _ refl;
  temp_copy = differ _ _ refl;
  restore_target = differ _ _ refl;
}

revert_restores_example :
    (c' : Ctx toy_host) × (file_apply toy_host "/changes" file_proposal new_file file_ctx
      ≡ (ok (done "/"), c'))
    × (c'.change.rollback_data ≡ some (file_undo "/etc/app.conf" true "new"))
    × ((file_revert toy_host "/changes" "/etc/app.conf" true "new" false c').0 ≡ ok (done "/"))
    × (file_at
          (file_revert toy_host "/changes" "/etc/app.conf" true "new" false c').1.world
          "/etc/app.conf"
        ≡ some old_file)
unfolding real_path resolve exists file_at is_dir JsMap.get after_chown
revert_restores_example =
    revert_restores toy_host "/changes" file_proposal new_file file_ctx "/etc/app.conf" old_file
      false refl refl refl refl refl paths_Apart
