-- ===== src/Dashboard/Views.antt =====
-- How a proposal is shown: `present`, `diffStats` and `currentContent` of src/routes/api/changes.js,
-- and the answers that list and show proposals.
use grouvi_nox.Prelude.{
  Bool, List, Option, String, [], codes, eqb, false, if◌then◌else◌, length, none, not, select, some,
  starts, take, true, ℕ, ◌&&◌, ◌++◌, ◌+◌, ◌==◌, ◌∷◌,
}
use grouvi_nox.Policy.Texts.{Text, among, split}
use grouvi_nox.Policy.Scripts.{classify_path}
use grouvi_nox.Policy.Proposals.{Action, Proposal, Url, patch, file, command}
use grouvi_nox.Policy.Classify.{Tier, classify_proposal, tier}
use grouvi_nox.Dashboard.{Files, Past, Rejections, is_remote, load_proposal, status_of}

-- added, removed
unfoldable pub count_line : Text → ℕ × ℕ → ℕ × ℕ
count_line line (added, removed) =
    if starts (codes "+") line && not (starts (codes "+++") line)
    then (added + 1, removed)
    else if starts (codes "-") line && not (starts (codes "---") line)
    then (added, removed + 1)
    else (added, removed)

unfoldable pub count_lines : List Text → ℕ × ℕ → ℕ × ℕ
count_lines [] n = n
count_lines (line ∷ more) n = count_lines more (count_line line n)

unfoldable pub diff_stats : Text → ℕ × ℕ
diff_stats diff = count_lines (split b'\n' diff) (0, 0)

-- What the file holds now that a proposal would write.
pub data Current : Type 0 where
  sensitive : Current
  missing : Current
  unreadable : Current
  content : Text → Current

-- The files of the host: the real path, none where there is no file, and what a regular file of at
-- most 200000 bytes holds.
pub record HostFiles : Type 0 where
  pub real_path : Text → Option Text
  pub read : Text → Option Text

abbrev pub or_unreadable : Option Text → Current
or_unreadable none = unreadable
or_unreadable (some s) = content s

unfoldable pub current_content : HostFiles → Text → Current
current_content host target =
    if not (eqb (length (classify_path target)) 0)
    then sensitive
    else elim (host.real_path target) [
      | none ↦ missing
      | some real ↦ or_unreadable (host.read real)
    ]

abbrev pub unknown_project : String
unknown_project = "target is not a discovered project"

unfoldable pub is_unknown : Text → List Text → Proposal → Bool
is_unknown own_id known p = elim p.action [
  | patch k ↦ not (is_remote own_id p.node) && not (among known k.project_path)
  | file f validate ↦ false
  | command k ↦ false
]

-- A view copies the fields of its proposal; `stats` is there for a patch and `current` for a file
-- in detail.
pub record View : Type 0 where
  pub proposal : Proposal
  pub hash : Text
  pub tier : Tier
  pub reasons : List String
  pub status : String
  pub change_id : Option Text
  pub target : Text
  pub stats : Option (ℕ × ℕ)
  pub current : Option Current

abbrev pub target_of : Action → Text
target_of (patch k) = k.project_path
target_of (file f validate) = f.path
target_of (command k) = k.cwd

abbrev pub stats_of : Action → Option (ℕ × ℕ)
stats_of (patch k) = some (diff_stats k.diff)
stats_of (file f validate) = none
stats_of (command k) = none

abbrev pub current_of : HostFiles → Bool → Action → Option Current
current_of host detail (patch k) = none
current_of host detail (file f validate) =
    if detail then some (current_content host f.path) else none
current_of host detail (command k) = none

module _ (hash : Proposal → Text) (parse_url : Text → Option Url) (host : HostFiles) (own_id : Text)
    (known : List Text) where
  unfoldable pub reasons_for : Proposal → List String
  reasons_for p =
      if is_unknown own_id known p
      then (classify_proposal p).1 ++ unknown_project ∷ []
      else (classify_proposal p).1

  unfoldable pub present : Proposal → Bool → String × Option Past → View
  present p detail (status, change) = record {
    proposal = p;
    hash = hash p;
    tier = tier (reasons_for p);
    reasons = reasons_for p;
    status = status;
    change_id = elim change [ none ↦ none | some c ↦ some c.change_id ];
    target = target_of p.action;
    stats = stats_of p.action;
    current = current_of host detail p.action;
  }

  -- GET /changes/proposals: the names are in the order in which they are shown.
  unfoldable pub list_views : Files → Rejections → List Past → List Text → List View
  list_views files rejections history [] = []
  list_views files rejections history (id ∷ ids) =
      let rest = list_views files rejections history ids in
      elim (load_proposal parse_url files id) [
        | none ↦ rest
        | some p ↦ present p false (status_of p.id rejections history) ∷ rest
      ]

  unfoldable pub get_proposals : Files → Rejections → List Past → List Text → List View × ℕ
  get_proposals files rejections history ids =
      let views = list_views files rejections history (take 60 ids) in
      (views, length (select (λ v. v.status == "pending") views))

  -- GET /changes/proposals/:id, none for 404
  unfoldable pub get_proposal : Files → Rejections → List Past → Text → Option View
  get_proposal files rejections history id = elim (load_proposal parse_url files id) [
    | none ↦ none
    | some p ↦ some (present p true (status_of p.id rejections history))
  ]
