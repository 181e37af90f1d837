-- ===== src/Policy/Paths.antt =====
-- `path.posix` of Node, and what src/changes/policy.js reads off paths and diffs: `diffPaths` and
-- `validatePatchPath`.
use grouvi_nox.Prelude.{
  Bool, List, Option, Result, [], any, codes, eqb, err, false, if◌then◌else◌, length, none, not, ok,
  plain_error, reverse, select, some, starts, take, true, ℕ, ◌++◌, ◌-◌, ◌||◌, ◌∷◌,
}
use grouvi_nox.Prelude.{Result, ok, err, plain_error}
use grouvi_nox.Regex.{Pos, run, at_last}
use grouvi_nox.Regex.Syntax.{regex}
use grouvi_nox.Policy.Texts.{Text, same, among, split, join, ends_with_unit, contains}

unfoldable pub is_absolute : Text → Bool
is_absolute [] = false
is_absolute (c ∷ s) = eqb c b'/'

abbrev pub dot_dot : Text
dot_dot = codes ".."

-- One segment of a path, on those before it, the last one first.
unfoldable pub push_segment : Bool → List Text → Text → List Text
push_segment above kept [] = kept
push_segment above [] (c ∷ s) =
    let t = c ∷ s in
    if same t (codes ".")
    then []
    else if same t dot_dot
    then (if above then t ∷ [] else [])
    else t ∷ []
push_segment above (last ∷ kept) (c ∷ s) =
    let t = c ∷ s in
    if same t (codes ".")
    then last ∷ kept
    else if same t dot_dot
    then (if not (same last dot_dot) then kept else if above then t ∷ last ∷ kept else last ∷ kept)
    else t ∷ last ∷ kept

unfoldable pub push_segments : Bool → List Text → List Text → List Text
push_segments above kept [] = kept
push_segments above kept (t ∷ ts) = push_segments above (push_segment above kept t) ts

-- The segments that `normalize` keeps.
unfoldable pub kept_segments : Text → List Text
kept_segments p = reverse (push_segments (not (is_absolute p)) [] (split b'/' p))

-- path.posix.normalize
unfoldable pub normalize : Text → Text
normalize [] = codes "."
normalize (c ∷ p) =
    let kept = join b'/' (kept_segments (c ∷ p)) in
    let slash = if ends_with_unit b'/' (c ∷ p) then codes "/" else [] in
    if is_absolute (c ∷ p)
    then (if eqb (length kept) 0 then codes "/" else b'/' ∷ kept ++ slash)
    else (if eqb (length kept) 0 then b'.' ∷ slash else kept ++ slash)

unfoldable pub validate_patch_path : Text → Result Text
validate_patch_path file =
    let normalized = normalize file in
    if is_absolute normalized || starts dot_dot normalized || among (split b'/' normalized) dot_dot
    then err (plain_error "patch_path_escapes_project")
    else if same normalized (codes ".git")
        || starts (codes ".git/") normalized
        || contains normalized (codes "/.git/")
    then err (plain_error "patch_touches_git_dir")
    else ok normalized

-- The text from one position to another.
abbrev pub text_from_to : Pos → Pos → Text
text_from_to p q = take (length p.1 - length q.1) p.1

-- /^diff --git a\/(.+?) b\/(.+)$/.exec(line)
unfoldable pub git_line : Text → Option (Text × Text)
git_line line =
    run (regex "^diff --git a\\/") (none, line)
      λ p. run (regex ".+?") p λ q. run (regex " b\\/") q λ r.
        run (regex ".+") r
          λ t. if at_last t then some (text_from_to p q, text_from_to r t) else none

-- /^(?:---|\+\+\+) (?:a|b)\/(.+)$/.exec(line)
unfoldable pub file_line : Text → Option Text
file_line line =
    run (regex "^(?:---|\\+\\+\\+) (?:a|b)\\/") (none, line)
      λ p. run (regex ".+") p λ q. if at_last q then some (text_from_to p q) else none

-- s.replace(/\t.*$/, '') for a text on one line
unfoldable pub before_tab : Text → Text
before_tab [] = []
before_tab (c ∷ s) = elim (eqb c b'\t') [ true ↦ [] | false ↦ c ∷ before_tab s ]

-- set.add
unfoldable pub add_new : List Text → Text → List Text
add_new files f = if among files f then files else files ++ f ∷ []

abbrev add_file_line : List Text → Option Text → List Text
add_file_line files none = files
add_file_line files (some f) = add_new files (before_tab f)

abbrev add_line : List Text → Text → Option (Text × Text) → List Text
add_line files line (some (a, b)) = add_new (add_new files a) b
add_line files line none = add_file_line files (file_line line)

unfoldable pub line_files : List Text → List Text → List Text
line_files files [] = files
line_files files (line ∷ lines) = line_files (add_line files line (git_line line)) lines

-- `files` of `diffPaths`
unfoldable pub diff_files : Text → List Text
diff_files diff = select (λ f. not (same f (codes "/dev/null"))) (line_files [] (split b'\n' diff))

abbrev is_line_end : ℕ → Bool
is_line_end c = eqb c 10 || eqb c 13 || eqb c 8232 || eqb c 8233

-- The lines as the `m` flag sees them.
unfoldable pub lines_from : Text → Text → List Text
lines_from acc [] = reverse acc ∷ []
lines_from acc (c ∷ s) = elim (is_line_end c) [
  | true ↦ reverse acc ∷ lines_from [] s
  | false ↦ lines_from (c ∷ acc) s
]

-- `symlinkCreation`: /^(?:new|old) file mode 120000$/m
unfoldable pub symlink_creation : Text → Bool
symlink_creation diff =
    any (λ l. same l (codes "new file mode 120000") || same l (codes "old file mode 120000"))
      (lines_from [] diff)
