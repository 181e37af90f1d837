-- ===== src/Policy/Contained.antt =====
-- A patch that src/changes/policy.js accepts stays in its project.
use grouvi_nox.Prelude.{
  Bool, Bool-cases, List, Memᴰ, Option, [], ap, arith, bind-ok, codes, drop, err-ok, false,
  if◌then◌else◌, inl, inr, ok, ok-injective, refl, starts, subst, sym, ◌++◌, ◌>>=◌, ◌||◌, ◌∷◌, ◌≡◌,
}
use grouvi_nox.Policy.Texts.{Text, same, among, split, contains}
use grouvi_nox.Policy.Paths.{is_absolute, normalize, validate_patch_path, diff_files, dot_dot}
use grouvi_nox.Policy.Proposals.{
  Input, Proposal, Patch, Action, patch, normal_action, normal_file, normal_command, file_from,
  command_from, file_tests, optional_script, checked_script, checks, FileInput, CommandInput,
  normalize_proposal, Url,
}
use grouvi_nox.Policy.Parts.{normalize_proposal-Parts, normal_patch-files, collect-ok}

-- One step of a walk through directories, the innermost first, as the system resolves a path.
unfoldable pub step_into : List Text → Text → List Text
step_into at [] = at
step_into at (c ∷ s) =
    if same (c ∷ s) (codes ".")
    then at
    else if same (c ∷ s) dot_dot
    then drop 1 at
    else (c ∷ s) ∷ at

unfoldable pub walk : List Text → List Text → List Text
walk at [] = at
walk at (t ∷ ts) = walk (step_into at t) ts

-- Walking a relative path from any directory ends at or below that directory.
abbrev pub IsBelow : Text → Type 0
IsBelow p = (root : List Text) → (below : List Text) × (walk root (split b'/' p) ≡ below ++ root)

neither : (a b : Bool) → (a || b) ≡ false → (a ≡ false) × (b ≡ false)
neither a b h = ground arith

walk_without_up :
    (ts root below : List Text)
    → among ts dot_dot ≡ false
    → (on : List Text) × (walk (below ++ root) ts ≡ on ++ root)
unfolding walk among step_into
walk_without_up [] root below h = (below, refl)
walk_without_up ([] ∷ ts) root below h =
    walk_without_up ts root below (neither (same [] dot_dot) (among ts dot_dot) h).1
walk_without_up ((c ∷ s) ∷ ts) root below h =
    let (not_up, rest) = neither (same (c ∷ s) dot_dot) (among ts dot_dot) h in
    elim (Bool-cases (same (c ∷ s) (codes "."))) [
      | inl dot ↦ rw dot (walk_without_up ts root below rest)
      | inr name ↦ rw (name, not_up) (walk_without_up ts root ((c ∷ s) ∷ below) rest)
    ]

-- What `validatePatchPath` lets through.
pub record IsConfined (p : Text) : Type 0 where
  pub relative : is_absolute p ≡ false
  pub below : IsBelow p
  pub outside_git :
      same p (codes ".git") || starts (codes ".git/") p || contains p (codes "/.git/") ≡ false

validate_patch_path-IsConfined : (f p : Text) → validate_patch_path f ≡ ok p → IsConfined p
unfolding validate_patch_path
validate_patch_path-IsConfined f p h =
    let n = normalize f in
    elim (Bool-cases (is_absolute n || starts dot_dot n || among (split b'/' n) dot_dot)) [
      | inl bad ↦ absurd (err-ok (rw bad at h))
      | inr fine ↦
          elim (Bool-cases
            (same n (codes ".git") || starts (codes ".git/") n || contains n (codes "/.git/"))) [
              | inl bad ↦ absurd (err-ok (rw (fine, bad) at h))
              | inr out ↦
                  let (ab, c) =
                    neither (is_absolute n || starts dot_dot n) (among (split b'/' n) dot_dot)
                      fine in
                  let e : n ≡ p = ok-injective n p (rw (fine, out) at h) in
                  subst IsConfined e (record {
                    relative = (neither (is_absolute n) (starts dot_dot n) ab).0;
                    below = λ root. walk_without_up (split b'/' n) root [] c;
                    outside_git = out;
                  })
            ]
    ]

abbrev pub files_of : Action → List Text
files_of (patch k) = k.files
files_of _ = []

-- The other kinds have no files.
normal_file-files :
    (i : FileInput) (v : Text) (a : Action) → normal_file i v ≡ ok a → files_of a ≡ []
unfolding normal_file file_from
normal_file-files i v a h =
    let (u, c, h1) =
      bind-ok (checks (file_tests i)) (λ _. optional_script v "validate" >>= file_from i) h in
    let (w, d, e) = bind-ok (optional_script v "validate") (file_from i) h1 in
    ap files_of (sym (ok-injective _ a e))

normal_command-files : (i : CommandInput) (a : Action) → normal_command i ≡ ok a → files_of a ≡ []
unfolding normal_command command_from
normal_command-files i a h =
    let (s, c, h1) = bind-ok (checked_script i.script "script") (command_from i) h in
    let (u, d, e) = bind-ok (checks _) (λ _. _) h1 in ap files_of (sym (ok-injective _ a e))

normal_action-IsConfined :
    (i : Input) (a : Action) (f : Text)
    → normal_action i ≡ ok a
    → Memᴰ f (files_of a)
    → IsConfined f
unfolding normal_action
normal_action-IsConfined i a f h m = elim (Bool-cases (same i.kind (codes "patch"))) [
  | inl is ↦
      let (k, c, e) = normal_patch-files i.patch a (rw is at h) in
      collect-ok validate_patch_path IsConfined (diff_files i.patch.diff) k.files f
        validate_patch_path-IsConfined c (subst (λ x. Memᴰ f (files_of x)) (sym e) m)
  | inr other ↦ elim (Bool-cases (same i.kind (codes "file"))) [
    | inl is ↦
        elim (subst (λ x. Memᴰ f x) (normal_file-files i.file i.validate a (rw (other, is) at h))
          m) [ ]
    | inr is ↦
        elim (subst (λ x. Memᴰ f x) (normal_command-files i.command a (rw (other, is) at h)) m) [ ]
  ]
]

-- Every file of a patch that `normalizeProposal` lets through is a relative path which leads from
-- any directory to a place in it or below it, and not into a .git directory.
pub normalize_proposal-IsConfined :
    (parse_url : Text → Option Url) (i : Input) (p : Proposal) (k : Patch) (f : Text)
    → normalize_proposal parse_url i ≡ ok p
    → p.action ≡ patch k
    → Memᴰ f k.files
    → IsConfined f
normalize_proposal-IsConfined parse_url i p k f h is m =
    let parts = normalize_proposal-Parts parse_url i p h in
    normal_action-IsConfined i p.action f parts.from_action
      (subst (λ x. Memᴰ f (files_of x)) (sym is) m)
