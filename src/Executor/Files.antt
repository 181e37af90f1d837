-- ===== src/Executor/Files.antt =====
-- Changes of one file by src/changes/executor.js: `fileApply`, `fileRestore`, `fileRevert`.
use Prim.Native.String
use grouvi_nox.Prelude.{
  Bool, Option, Result, String, [], codes, eqb, err, failure, false, if◌then◌else◌, length, none,
  not, ok, plain_error, some, suc, true, zero, ℕ, ◌&&◌, ◌-◌, ◌==◌, ◌∷◌, ◌%◌, ◌/◌,
}
use grouvi_nox.Executor.Host.{
  Host, World, Owner, File, dirname, join, file_at, exists, real_path, write_file, remove_file,
  copied, rename, read_regular,
}
use grouvi_nox.Executor.Change.{
  NewFile, Proposal, file_undo, Stage, done, refused, Run, pure, throw, ◌>>=◌, ◌>>◌, gets, alter,
  call, log, set_undo,
}

-- `path.join(changesDir, changeId, 'before')`
unfoldable pub backup_dir : String → String → String
backup_dir changes_dir change_id = join (join changes_dir change_id) "before"

-- The text without its first `n` characters, and its last `n` characters.
unfoldable pub skip : ℕ → String → String
skip zero s = s
skip (suc n) String.[] = String.[]
skip (suc n) (String.◌∷◌ c s) = skip n s

unfoldable pub last_characters : ℕ → String → String
last_characters n s = skip (length (codes s) - n) s

abbrev pub root_user : Owner
root_user = record { uid = 0; gid = 0 }

-- Where the new content goes: the real path with its file's mode and owner, or the path itself.
pub record Target : Type 0 where
  pub path : String
  pub existed : Bool
  pub mode : ℕ
  pub owner : Owner

-- A new file takes the owner of its directory.
unfoldable pub new_target : (H : Host) → String → World H.Outside → Result Target
new_target H path w =
    if exists w (dirname path)
    then ok
        (record { path = path; existed = false; mode = 420; owner = H.owner_of_dir (dirname path) })
    else err (failure 400 "parent_directory_missing")

unfoldable pub existing_target : String → Option File → Result Target
existing_target real none = err (failure 400 "target_not_a_file")
existing_target real (some f) =
    ok (record { path = real; existed = true; mode = f.mode; owner = f.owner })

unfoldable pub find_target : (H : Host) → String → World H.Outside → Result Target
find_target H path w = elim (real_path w path) [
  | none ↦ new_target H path w
  | some real ↦ existing_target real (file_at w real)
]

unfoldable pub copy_from : {E : Type 0} → Option File → String → World E → World E
copy_from none to w = w
copy_from (some f) to w = write_file w to (copied (file_at w to) f)

-- The copy of the old content, if there is one.
unfoldable pub back_up : {E : Type 0} → Bool → String → String → World E → World E
back_up false from to w = w
back_up true from to w = copy_from (file_at w from) to w

-- Whether the bit of weight `n` is set.
abbrev has_bit : ℕ → ℕ → Bool
has_bit n mode = eqb ((mode / n) % 2) 1

abbrev without_bit : ℕ → ℕ → ℕ
without_bit n mode = if has_bit n mode then mode - n else mode

-- The mode that lchown leaves to a file: without the set-user-id bit, and without the set-group-id
-- bit where the group may execute it.
unfoldable pub after_chown : ℕ → ℕ
after_chown mode = without_bit 2048 (if has_bit 8 mode then without_bit 1024 mode else mode)

-- A file whose mode is set first and whose owner after that: `chmodSync`, then `chownTo`.
abbrev pub chowned : File → File
chowned f = record f { mode = after_chown f.mode }

-- Write the new content beside the target with its mode and owner, then rename it over the target.
unfoldable pub replace_file : {E : Type 0} → String → String → File → World E → World E
replace_file temp target f w = rename (write_file w temp (chowned f)) temp target

module _ (H : Host) (changes_dir : String) where
  -- A file that a system call needs, or the error that it throws.
  unfoldable pub need : Option File → Run H File
  need none = throw (plain_error "ENOENT")
  need (some f) = pure f

  abbrev pub backup_file : String → String
  backup_file change_id = join (backup_dir changes_dir change_id) "file"

  abbrev pub temp_file : String → String → String
  temp_file target change_id =
      join (dirname target) (String.◌++◌ ".nox-" (String.◌++◌ (last_characters 8 change_id) ".tmp"))

  abbrev pub restore_temp : String → String
  restore_temp target = String.◌++◌ target ".nox-restore"

  unfoldable pub file_restore : String → Bool → Run H (Unit {0})
  file_restore target false c = alter (λ w. remove_file w target) c
  file_restore target true c =
      let backup = backup_file c.change.change_id in
      let temp = restore_temp target in
      (do
        saved ← gets (λ w. file_at w backup) >>= need
        alter (λ w. write_file w temp (copied (file_at w temp) saved))
        current ← gets (λ w. file_at w target) >>= need
        alter (
            replace_file temp target
              (record { content = saved.content; mode = current.mode; owner = current.owner })))
        c

  unfoldable pub validated : Option String → String → Bool → Run H Stage
  validated none target existed = pure (done "/")
  validated (some s) target existed = do
    result ← call (H.run_script s "/" 60)
    log "validate" result.code result.out
    if eqb result.code 0 then pure (done "/") else (do
      file_restore target existed
      log "restore after failed validation" 0 "previous content restored"
      pure (refused "validation_failed" []))

  unfoldable pub write_target : Proposal → NewFile → Target → Run H Stage
  write_target p f t c =
      let id = c.change.change_id in
      (do
        alter (back_up t.existed t.path (backup_file id))
        alter (
            replace_file (temp_file t.path id) t.path
              (record { content = f.content; mode = t.mode; owner = t.owner }))
        set_undo (file_undo t.path t.existed (H.sha256 f.content))
        log "write file" 0 t.path
        validated p.validate t.path t.existed)
        c

  unfoldable pub targeted : Proposal → NewFile → Result Target → Run H Stage
  targeted p f (err e) = throw e
  targeted p f (ok t) = write_target p f t

  unfoldable pub file_apply : Proposal → NewFile → Run H Stage
  file_apply p f c = targeted p f (find_target H f.path c.world) c

  abbrev pub digest : Option String → Option String
  digest none = none
  digest (some content) = some (H.sha256 content)

  -- current !== after
  abbrev pub drifts : Option String → String → Bool
  drifts none after = true
  drifts (some h) after = not (h == after)

  unfoldable pub file_revert : String → Bool → String → Bool → Run H Stage
  file_revert target existed after force c =
      if drifts (digest (read_regular c.world target)) after && not force
      then (ok (refused "files_changed_since_apply" (target ∷ [])), c)
      else (do file_restore target existed; log "restore file" 0 target; pure (done "/")) c
