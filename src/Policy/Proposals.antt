-- ===== src/Policy/Proposals.antt =====
-- `normalizeProposal` and `classifyProposal` of src/changes/policy.js. A field that is missing, or
-- that JavaScript takes for false, is the empty text or 0; a number is a natural number.
use Prim.Native.String
use grouvi_nox.Prelude.{
  Bool, List, Option, Result, String, [], any, codes, eqb, err, false, guard, if◌then◌else◌, leb,
  length, ltb, max, min, none, not, ok, plain_error, some, take, true, ℕ, ◌&&◌, ◌++◌, ◌+◌, ◌>>=◌,
  ◌>>◌, ◌||◌, ◌∷◌,
}
use grouvi_nox.Regex.{test}
use grouvi_nox.Regex.Syntax.{regex, regex_i}
use grouvi_nox.Policy.Texts.{Text, same, is_blank, among, trim, ends_with_unit, split}
use grouvi_nox.Policy.Paths.{
  is_absolute, normalize, validate_patch_path, diff_files, symlink_creation, dot_dot,
}

abbrev pub max_diff_bytes : ℕ
max_diff_bytes = 524288

abbrev pub max_file_bytes : ℕ
max_file_bytes = 1048576

abbrev pub max_script_chars : ℕ
max_script_chars = 8000

abbrev pub max_timeout_sec : ℕ
max_timeout_sec = 900

abbrev pub default_timeout_sec : ℕ
default_timeout_sec = 120

pub record PatchInput : Type 0 where
  pub project_path : Text
  pub base : Text
  pub diff : Text

pub record FileInput : Type 0 where
  pub path : Text
  pub content : Text

pub record CommandInput : Type 0 where
  pub script : Text
  pub cwd : Text
  pub timeout_sec : ℕ

pub record HealthInput : Type 0 where
  pub retries : ℕ
  pub delay_sec : ℕ
  pub url : Text
  pub expect_status : ℕ
  pub script : Text

pub record Input : Type 0 where
  pub kind : Text
  pub id : Text
  pub node : Text
  pub scope : Text
  pub title : Text
  pub why : Text
  pub created_at : ℕ
  pub patch : PatchInput
  pub file : FileInput
  pub command : CommandInput
  pub validate : Text
  pub post : List Text
  pub undo : Text
  pub healthcheck : Option HealthInput

pub record Patch : Type 0 where
  pub project_path : Text
  pub base : Text
  pub diff : Text
  pub files : List Text

pub data Action : Type 0 where
  patch : Patch → Action
  file : FileInput → Text → Action  -- with `validate`
  command : CommandInput → Action

pub data Probe : Type 0 where
  url : Text → ℕ → Probe
  script : Text → Probe

pub record Health : Type 0 where
  pub retries : ℕ
  pub delay_sec : ℕ
  pub probe : Probe

pub record Proposal : Type 0 where
  pub id : Text
  pub node : Text
  pub scope : Text
  pub title : Text
  pub why : Text
  pub created_at : ℕ
  pub action : Action
  pub post : List Text
  pub undo : Text
  pub healthcheck : Option Health

-- What `new URL` gives of a URL that it accepts.
pub record Url : Type 0 where
  pub protocol : Text
  pub hostname : Text
  pub username : Text
  pub password : Text
  pub href : Text

-- String(value).slice(0, max)
abbrev pub text : Text → ℕ → Text
text value max = take max value

abbrev pub or_text : Text → Text → Text
or_text s d = if is_blank s then d else s

abbrev pub or_number : ℕ → ℕ → ℕ
or_number n d = if eqb n 0 then d else n

-- Math.min(high, Math.max(low, n))
unfoldable pub clamp : ℕ → ℕ → ℕ → ℕ
clamp low high n = min high (max low n)

unfoldable pub checked_script : Text → String → Result Text
checked_script s field =
    if is_blank (trim s)
    then err (plain_error (String.◌++◌ "empty_" field))
    else if ltb max_script_chars (length s)
    then err (plain_error (String.◌++◌ field "_too_long"))
    else if any (eqb 0) s
    then err (plain_error (String.◌++◌ field "_invalid"))
    else ok s

-- Buffer.byteLength: UTF-8, of a text in UTF-16
unfoldable pub byte_length : Text → ℕ
byte_length [] = 0
byte_length (c ∷ []) = if ltb c 128 then 1 else if ltb c 2048 then 2 else 3
byte_length (c ∷ d ∷ s) = elim (leb 55296 c && ltb c 56320 && leb 56320 d && ltb d 57344) [
  | true ↦ 4 + byte_length s
  | false ↦ (if ltb c 128 then 1 else if ltb c 2048 then 2 else 3) + byte_length (d ∷ s)
]

unfoldable pub collect : {A : Type 0} → (Text → Result A) → List Text → Result (List A)
collect f [] = ok []
collect f (t ∷ ts) = do a ← f t; rest ← collect f ts; ok (a ∷ rest)

-- Tests that throw in their order, each with what it throws.
unfoldable pub checks : List (Bool × String) → Result (Unit {0})
checks [] = ok tt
checks ((passes, reason) ∷ rest) = elim passes [
  | true ↦ checks rest
  | false ↦ err (plain_error reason)
]

unfoldable pub patch_tests : PatchInput → List (Bool × String)
patch_tests source =
    (
      is_absolute source.project_path
          && not (any (eqb 0) source.project_path)
          && not (same source.project_path (codes "/")),
      "bad_project_path",
    )
    ∷ (not (is_blank (trim source.diff)), "empty_diff")
    ∷ (leb (byte_length source.diff) max_diff_bytes, "diff_too_large")
    ∷ (not (eqb (length (diff_files source.diff)) 0), "diff_has_no_files")
    ∷ (not (symlink_creation source.diff), "patch_creates_symlink")
    ∷ []

unfoldable pub patch_from : PatchInput → List Text → Result Action
patch_from source paths = ok (
    patch (record {
      project_path = normalize source.project_path;
      base = if test (regex "^[0-9a-f]{7,64}$") source.base then source.base else [];
      diff = if ends_with_unit b'\n' source.diff then source.diff else source.diff ++ b'\n' ∷ [];
      files = paths;
    }))

unfoldable pub normal_patch : PatchInput → Result Action
normal_patch source =
    checks (patch_tests source)
    >> (collect validate_patch_path (diff_files source.diff) >>= patch_from source)

abbrev pub optional_script : Text → String → Result Text
optional_script s field = if is_blank s then ok [] else checked_script s field

unfoldable pub file_tests : FileInput → List (Bool × String)
file_tests source =
    (
      is_absolute source.path
          && not (any (eqb 0) source.path)
          && not (among (split b'/' source.path) dot_dot)
          && not (ends_with_unit b'/' source.path),
      "bad_file_path",
    )
    ∷ (leb (byte_length source.content) max_file_bytes, "file_too_large")
    ∷ []

unfoldable pub file_from : FileInput → Text → Result Action
file_from source v = ok (file (record { path = normalize source.path; content = source.content }) v)

unfoldable pub normal_file : FileInput → Text → Result Action
normal_file source validate =
    checks (file_tests source) >> (optional_script validate "validate" >>= file_from source)

unfoldable pub command_from : CommandInput → Text → Result Action
command_from source s =
    let cwd = or_text source.cwd (codes "/") in
    checks ((is_absolute cwd && not (any (eqb 0) cwd), "bad_cwd") ∷ [])
    >> ok (
        command (record {
          script = s;
          cwd = cwd;
          timeout_sec = clamp 5 max_timeout_sec (or_number source.timeout_sec default_timeout_sec);
        }))

unfoldable pub normal_command : CommandInput → Result Action
normal_command source = checked_script source.script "script" >>= command_from source

unfoldable pub normal_action : Input → Result Action
normal_action i =
    if same i.kind (codes "patch")
    then normal_patch i.patch
    else if same i.kind (codes "file")
    then normal_file i.file i.validate
    else normal_command i.command

abbrev pub node_of : Input → Text
node_of i = or_text i.node (codes "local")

unfoldable pub proposal_tests : Input → List (Bool × String)
proposal_tests i =
    (among (codes "patch" ∷ codes "file" ∷ codes "command" ∷ []) i.kind, "bad_kind")
    ∷ (test (regex_i "^[a-z0-9][a-z0-9_-]{5,63}$") i.id, "bad_id")
    ∷ (
      same (node_of i) (codes "local") || test (regex_i "^[a-z0-9][a-z0-9_-]{1,63}$") (node_of i),
      "bad_node",
    )
    ∷ (not (is_blank (trim (text i.title 160))), "missing_title")
    ∷ []

unfoldable pub proposal_from : Input → Action → List Text → Text → Option Health → Result Proposal
proposal_from i action post undo health = ok (record {
  id = i.id;
  node = node_of i;
  scope = text (or_text i.scope (codes "vps")) 80;
  title = trim (text i.title 160);
  why = trim (text i.why 2000);
  created_at = i.created_at;
  action = action;
  post = post;
  undo = undo;
  healthcheck = health;
})

module _ (parse_url : Text → Option Url) where
  unfoldable pub normal_url : Option Url → ℕ → Result Probe
  normal_url none status = err (plain_error "bad_healthcheck_url")
  normal_url (some u) status = do
    guard (among (codes "http:" ∷ codes "https:" ∷ []) u.protocol)
        (plain_error "bad_healthcheck_url")
    ok (url u.href status)

  unfoldable pub normal_probe : HealthInput → Result Probe
  normal_probe h =
      if not (is_blank h.url)
      then normal_url (parse_url h.url) h.expect_status
      else if not (is_blank h.script)
      then (do s ← checked_script h.script "healthcheck"; ok (script s))
      else err (plain_error "empty_healthcheck")

  unfoldable pub normal_health : Option HealthInput → Result (Option Health)
  normal_health none = ok none
  normal_health (some h) = do
    p ← normal_probe h
    ok (
        some (record {
          retries = clamp 1 60 (or_number h.retries 10);
          delay_sec = clamp 1 60 (or_number h.delay_sec 3);
          probe = p;
        }))

  unfoldable pub with_undo : Input → Action → List Text → Text → Result Proposal
  with_undo i action post undo = normal_health i.healthcheck >>= proposal_from i action post undo

  unfoldable pub with_post : Input → Action → List Text → Result Proposal
  with_post i action post = optional_script i.undo "undo" >>= with_undo i action post

  unfoldable pub with_action : Input → Action → Result Proposal
  with_action i action =
      collect (λ s. checked_script s "post") (take 8 i.post) >>= with_post i action

  unfoldable pub normalize_proposal : Input → Result Proposal
  normalize_proposal i = checks (proposal_tests i) >> (normal_action i >>= with_action i)
