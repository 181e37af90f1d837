-- ===== src/Executor/Patches.antt =====
-- Changes by a patch in src/changes/executor.js: `patchApply`, `patchRevert`.
use grouvi_nox.Prelude.{
  ℕ, Bool, List, Option, String, [], eqb, err, failure, false, if◌then◌else◌, none, not, ok, one_of,
  plain_error, reverse, some, true, ◌&&◌, ◌==◌, ◌∷◌,
}
use grouvi_nox.Executor.Host.{
  Host, is_some, World, Owner, join, file_at, is_dir, real_path, write_file, remove_file,
  read_regular,
}
use grouvi_nox.Executor.Change.{
  Patch, patch_undo, Stage, done, refused, Run, pure, throw, ◌>>=◌, ◌>>◌, call, log, set_undo,
}
use grouvi_nox.Executor.Files.{backup_dir, root_user, copy_from, chowned}

-- Owner and backup of the patched files.
unfoldable pub chown_file : {E : Type 0} → String → Owner → World E → World E
chown_file p o w = elim (file_at w p) [
  | none ↦ w
  | some f ↦ write_file w p (chowned (record f { owner = o }))
]

module _ (H : Host) (changes_dir : String) where
  unfoldable pub check_paths : String → List String → Run H (Unit {0})
  check_paths root [] c = pure tt c
  check_paths root (f ∷ fs) c =
      let rest = check_paths root fs c in
      if not (H.inside_real_root c.world root (join root f))
      then (err (failure 400 "patch_path_escapes_project"), c)
      else if H.is_symlink c.world (join root f)
      then (err (failure 400 "patch_through_symlink"), c)
      else rest

  -- Copies what is there of each file into `backup`, and names the files that it copied.
  unfoldable pub save_files :
      String → String → List String → World H.Outside → List String × World H.Outside
  save_files root backup [] w = ([], w)
  save_files root backup (f ∷ fs) w = elim (read_regular w (join root f)) [
    | none ↦ save_files root backup fs w
    | some content ↦
        let w' =
          write_file w (join backup f)
            (record { content = content; mode = 384; owner = root_user }) in
        let (known, w2) = save_files root backup fs w' in (f ∷ known, w2)
  ]

  -- Gives each patched file to the project's owner, and takes its digest.
  unfoldable pub digest_files :
      String
      → Owner
      → List String
      → World H.Outside
      → List (String × Option String) × World H.Outside
  digest_files root o [] w = ([], w)
  digest_files root o (f ∷ fs) w = elim (read_regular w (join root f)) [
    | none ↦ let (after, w') = digest_files root o fs w in ((f, none) ∷ after, w')
    | some content ↦
        let (after, w') = digest_files root o fs (chown_file (join root f) o w) in
        ((f, some (H.sha256 content)) ∷ after, w')
  ]

  -- The part behind `git apply`, which answered `code`.
  unfoldable pub patch_applied : Patch → String → List String → ℕ → Run H Stage
  patch_applied k root known code =
      if not (eqb code 0) then pure (refused "apply_failed" []) else (do
        after ← call (digest_files root (H.owner_of_dir root) k.files)
        set_undo (patch_undo root known after)
        pure (done root))

  -- The part behind `git apply --check`, which answered `code`.
  unfoldable pub patch_checked : Patch → String → ℕ → Run H Stage
  patch_checked k root code c =
      let backup = backup_dir changes_dir c.change.change_id in
      (if not (eqb code 0) then pure (refused "does_not_apply" []) else (do
        known ← call (save_files root backup k.files)
        applied ← call (H.run_git ("apply" ∷ "--whitespace=nowarn" ∷ "-" ∷ []) root k.diff)
        log "git apply" applied.code applied.out
        patch_applied k root known applied.code))
        c

  unfoldable pub patch_in : Patch → String → Run H Stage
  patch_in k root = do
    check_paths root k.files
    head ← call (H.run_git ("rev-parse" ∷ "HEAD" ∷ []) root "")
    check ← call (H.run_git ("apply" ∷ "--check" ∷ "--whitespace=nowarn" ∷ "-" ∷ []) root k.diff)
    log "git apply --check" check.code check.out
    patch_checked k root check.code

  unfoldable pub patch_at : Patch → Option String → Run H Stage
  patch_at k none c = throw (plain_error "ENOENT") c
  patch_at k (some root) c =
      if is_dir c.world root then patch_in k root c else (err (failure 400 "project_missing"), c)

  unfoldable pub patch_apply : Patch → Run H Stage
  patch_apply k c = patch_at k (real_path c.world k.project_path) c

  abbrev pub same_digest : Option String → Option String → Bool
  same_digest none none = true
  same_digest (some a) (some b) = a == b
  same_digest _ _ = false

  abbrev pub digest_now : Option String → Option String
  digest_now none = none
  digest_now (some content) = some (H.sha256 content)

  unfoldable pub drifted : World H.Outside → String → List (String × Option String) → List String
  drifted w root [] = []
  drifted w root ((f, h) ∷ rest) =
      if same_digest (digest_now (read_regular w (join root f))) h
      then drifted w root rest
      else f ∷ drifted w root rest

  -- Puts the copies back, and removes what the patch created. `false` if a copy is not there, which
  -- throws; the files before it are restored.
  unfoldable pub restore_files :
      String → String → List String → List String → World H.Outside → Bool × World H.Outside
  restore_files root backup known [] w = (true, w)
  restore_files root backup known (f ∷ fs) w =
      let copy = file_at w (join backup f) in
      let from_copy = restore_files root backup known fs (copy_from copy (join root f) w) in
      let removed = restore_files root backup known fs (remove_file w (join root f)) in
      if not (one_of known f) then removed else if is_some copy then from_copy else (false, w)

  abbrev pub is_nil : List String → Bool
  is_nil [] = true
  is_nil (f ∷ fs) = false

  unfoldable pub patch_revert :
      Patch → String → List String → List (String × Option String) → Bool → Run H Stage
  patch_revert k root known after force c =
      let drift = drifted c.world root after in
      let backup = backup_dir changes_dir c.change.change_id in
      if not (is_nil drift) && not force
      then (ok (refused "files_changed_since_apply" drift), c)
      else (do
        reverse ← call (H.run_git ("apply" ∷ "-R" ∷ "--whitespace=nowarn" ∷ "-" ∷ []) root k.diff)
        log "git apply -R" reverse.code reverse.out
        if eqb reverse.code 0
            then pure (done root)
            else (if not force then pure (refused "reverse_patch_conflict" []) else (do
              restored ← call (restore_files root backup known k.files)
              (if restored
                  then log "restore from snapshot" 0 "" >> pure (done root)
                  else throw (plain_error "ENOENT")))))
          c
