-- ===== src/Executor/RoundTrip.antt =====
-- A file change by src/changes/executor.js and its rollback: `fileApply`, then `fileRevert`.
use grouvi_nox.Prelude.{
  Bool, Result, String, ap, eq_refl, err, err-ok, false, none, ok, refl, some, subst, sym, true,
  ◌∙◌, ◌≡◌, ◌≢◌,
}
use grouvi_nox.Prelude.JsMap
use grouvi_nox.Prelude.JsMap.{get-put, get-remove}
use grouvi_nox.Executor.Host.{
  Host, World, File, file_at, write_file, real_path, read_regular, copied,
}
use grouvi_nox.Executor.Change.{
  Ctx, Proposal, NewFile, Stage, done, file_undo, log, set_undo, continue, pure, ◌>>◌,
}
use grouvi_nox.Executor.Files.{
  replace_file, find_target, existing_target, targeted, write_target, validated, file_apply,
  file_revert, file_restore, back_up, copy_from, backup_file, temp_file, restore_temp, need, digest,
  drifts, chowned, after_chown,
}
use grouvi_nox.Executor.Paths.{
  links-replace_file, content-copied, written_at, written_elsewhere, replaced_at,
  replaced_elsewhere,
}

module _ (H : Host) (dir : String) where
  -- The copy, the two temporary files and the target are four different paths.
  pub record Apart (id target : String) : Type 0 where
    pub copy_target : backup_file H dir id ≢ target
    pub temp_target : temp_file H dir target id ≢ target
    pub temp_copy : temp_file H dir target id ≢ backup_file H dir id
    pub restore_target : restore_temp H dir target ≢ target

  -- The world after `fileApply` on a file that is there.
  abbrev applied_world : String → String → File → NewFile → World H.Outside → World H.Outside
  applied_world id target old f w =
      replace_file (temp_file H dir target id) target
        (record { content = f.content; mode = old.mode; owner = old.owner })
        (write_file w (backup_file H dir id) (copied (file_at w (backup_file H dir id)) old))

  found_target :
      (path target : String) (old : File) (w : World H.Outside)
      → real_path w path ≡ some target
      → file_at w target ≡ some old
      → find_target H path w
        ≡ ok (record { path = target; existed = true; mode = old.mode; owner = old.owner })
  unfolding find_target existing_target
  found_target path target old w r there = rw (find_target, r) (rw there refl)

  applied_in :
      (p : Proposal) (f : NewFile) (c : Ctx H) (target : String) (old : File)
      → p.validate ≡ none
      → real_path c.world f.path ≡ some target
      → file_at c.world target ≡ some old
      → (c' : Ctx H) × (file_apply H dir p f c ≡ (ok (done "/"), c'))
        × (c'.world ≡ applied_world c.change.change_id target old f c.world)
        × (c'.change.change_id ≡ c.change.change_id)
        × (c'.change.rollback_data ≡ some (file_undo target true (H.sha256 f.content)))
  unfolding file_apply targeted write_target back_up copy_from log set_undo validated
  applied_in p f c target old v r there =
      rw (found_target f.path target old c.world r there)
        (rw v (rw there (_, refl, refl, refl, refl)))

  -- What `fileRestore` does to a target that is there, from a copy that is there.
  restored_in :
      (target : String) (c : Ctx H) (saved current : File)
      → restore_temp H dir target ≢ target
      → file_at c.world (backup_file H dir c.change.change_id) ≡ some saved
      → file_at c.world target ≡ some current
      → ((file_restore H dir target true c).0 ≡ ok tt)
        × (file_at (file_restore H dir target true c).1.world target
            ≡ some (
                chowned
                  (record { content = saved.content; mode = current.mode; owner = current.owner })))
  unfolding file_restore need
  restored_in target c saved current apart copy there =
      let temp = restore_temp H dir target in
      let w = write_file c.world temp (copied (file_at c.world temp) saved) in
      let still : file_at w target ≡ some current =
        written_elsewhere c.world temp target _ apart ∙ there in
      (rw (copy, still) refl, rw (copy, still) (replaced_at temp target _ w))

  logged_then_done :
      (target : String) (m : Result (Unit {0}) × Ctx H)
      → m.0 ≡ ok tt
      → let out : Result Stage × Ctx H =
          continue (λ _. log "restore file" 0 target >> pure (done "/")) m in
        (out.0 ≡ ok (done "/")) × (out.1.world ≡ m.1.world)
  unfolding log
  logged_then_done target (ok u, c) h = (refl, refl)
  logged_then_done target (err e, c) h = absurd (err-ok h)

  -- What `fileRevert` does where the target is as the change left it, or `force` is given.
  reverted_in :
      (target after : String) (force : Bool) (c : Ctx H) (saved current : File)
      → restore_temp H dir target ≢ target
      → JsMap.get c.world.links target ≡ none
      → H.sha256 current.content ≡ after
      → file_at c.world (backup_file H dir c.change.change_id) ≡ some saved
      → file_at c.world target ≡ some current
      → ((file_revert H dir target true after force c).0 ≡ ok (done "/"))
        × (file_at (file_revert H dir target true after force c).1.world target
            ≡ some (
                chowned
                  (record { content = saved.content; mode = current.mode; owner = current.owner })))
  unfolding file_revert log
  reverted_in target after force c saved current apart real same copy there =
      let read : read_regular c.world target ≡ some current.content =
        unfold read_regular in rw (read_regular, real) (rw there refl) in
      let (fine, put) = restored_in target c saved current apart copy there in
      let still : drifts H dir (digest H dir (read_regular c.world target)) after ≡ false =
        rw (read, same) (rw (eq_refl after) refl) in
      let (ended, kept) = logged_then_done target (file_restore H dir target true c) fine in
      (rw still ended, rw still (ap (λ w. file_at w target) kept ∙ put))

  -- A change of a file that is there, with no check of the new content, and then its rollback: both
  -- work, forced or not, and the target has its old content, mode and owner again. The target is the
  -- real path of the proposal's, it is no link, its mode has no set-id bit that a change of the
  -- owner clears, and the copy and the temporary files lie elsewhere.
  pub revert_restores :
      (p : Proposal) (f : NewFile) (c : Ctx H) (target : String) (old : File) (force : Bool)
      → p.validate ≡ none
      → real_path c.world f.path ≡ some target
      → JsMap.get c.world.links target ≡ none
      → file_at c.world target ≡ some old
      → after_chown old.mode ≡ old.mode
      → Apart c.change.change_id target
      → (c' : Ctx H) × (file_apply H dir p f c ≡ (ok (done "/"), c'))
        × (c'.change.rollback_data ≡ some (file_undo target true (H.sha256 f.content)))
        × ((file_revert H dir target true (H.sha256 f.content) force c').0 ≡ ok (done "/"))
        × (file_at (file_revert H dir target true (H.sha256 f.content) force c').1.world target
            ≡ some old)
  revert_restores p f c target old force v r real there plain apart =
      let (c', e, w, id, undo) = applied_in p f c target old v r there in
      let new : File = record { content = f.content; mode = old.mode; owner = old.owner } in
      let copy = backup_file H dir c.change.change_id in
      let saved = copied (file_at c.world copy) old in
      let temp = temp_file H dir target c.change.change_id in
      let w1 = write_file c.world copy saved in
      let links : JsMap.get c'.world.links target ≡ none =
        subst (λ x. JsMap.get x.links target ≡ none) (sym w)
          (subst (λ l. JsMap.get l target ≡ none) (sym (links-replace_file temp target new w1))
            (unfold write_file in real)) in
      let held : file_at c'.world (backup_file H dir c'.change.change_id) ≡ some saved =
        rw (w, id)
          (replaced_elsewhere temp target copy new w1 (λ q. apart.copy_target (sym q))
              apart.temp_copy
            ∙ written_at c.world copy saved) in
      let now : file_at c'.world target ≡ some new =
        rw w (replaced_at temp target new w1)
        ∙ ap (λ m. some (record { content = f.content; mode = m; owner = old.owner })) plain in
      let (fine, back) =
        reverted_in target (H.sha256 f.content) force c' saved new apart.restore_target links refl
          held now in
      (
        c',
        e,
        undo,
        fine,
        back
            ∙ ap (λ m. some (record { content = saved.content; mode = m; owner = old.owner })) plain
            ∙ ap (λ x. some (record { content = x; mode = old.mode; owner = old.owner }))
                (content-copied (file_at c.world copy) old),
      )
