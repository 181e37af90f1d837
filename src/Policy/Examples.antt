-- ===== src/Policy/Examples.antt =====
-- Scripts, proposals and probes that src/changes/policy.js is run on.
use grouvi_nox.Prelude.{
  List, Memᴰ, Option, String, [], all, codes, false, none, ok, refl, some, true, ◌++◌, ◌||◌, ◌∷◌,
  ◌≡◌,
}
use grouvi_nox.Regex.{test, run, scan, rounds, at_first, at_last, at_edge, is_word}
use grouvi_nox.Regex.Places.{Occurs, test-Occurs}
use grouvi_nox.Regex.Syntax.{regex, regex_i, is_whole, is_space}
use grouvi_nox.Policy.Texts
use grouvi_nox.Policy.Texts.{Text}
use grouvi_nox.Policy.Paths
use grouvi_nox.Policy.Scripts
use grouvi_nox.Policy.Scripts.{Rule, dangerous_script, sensitive_path, rule_regex}
use grouvi_nox.Policy.Proposals
use grouvi_nox.Policy.Proposals.{
  Input, HealthInput, Proposal, Patch, patch, command, Url, normalize_proposal,
}
use grouvi_nox.Policy.Redaction
use grouvi_nox.Policy.Redaction.{redact}
use grouvi_nox.Policy.Classify
use grouvi_nox.Policy.Classify.{dangerous, classify_proposal, scripts}
use grouvi_nox.Policy.Reported.{dangerous_reported, sensitive_reported}
use grouvi_nox.Policy.Contained.{IsConfined, normalize_proposal-IsConfined}
use grouvi_nox.Policy.Bounds.{IsBounded, normalize_proposal-IsBounded}
use grouvi_nox.Policy.Lines.{recursive_rm_lines}
use grouvi_nox.Policy.Probes
use grouvi_nox.Policy.Allowed
use grouvi_nox.Policy.Allowed.{probe_allowed}
use grouvi_nox.Policy.Safe.{IsPlainProbe, probe_allowed-IsPlainProbe}

all_whole : all (λ r. is_whole r.pattern) (dangerous_script ++ sensitive_path) ≡ true
unfolding is_whole dangerous_script sensitive_path
all_whole = refl

abbrev dd : Text
dd = codes "dd if=/dev/zero of=/dev/sda"

abbrev no_url : Text → Option Url
no_url s = none

abbrev dd_input : Input
dd_input = record {
  kind = codes "command";
  id = codes "p-0001";
  node = [];
  scope = [];
  title = codes " Wipe ";
  why = [];
  created_at = 0;
  patch = record { project_path = []; base = []; diff = [] };
  file = record { path = []; content = [] };
  command = record { script = dd; cwd = []; timeout_sec = 9999 };
  validate = [];
  post = codes "true" ∷ [];
  undo = [];
  healthcheck = none;
}

abbrev dd_proposal : Proposal
dd_proposal = record {
  id = codes "p-0001";
  node = codes "local";
  scope = codes "vps";
  title = codes "Wipe";
  why = [];
  created_at = 0;
  action = command (record { script = dd; cwd = codes "/"; timeout_sec = 900 });
  post = codes "true" ∷ [];
  undo = [];
  healthcheck = none;
}

dd_normal : normalize_proposal no_url dd_input ≡ ok dd_proposal
unfolding normalize_proposal Proposals.proposal_tests Proposals.checks Proposals.normal_action
    Proposals.normal_command Proposals.command_from Proposals.checked_script Proposals.with_action
    Proposals.with_post Proposals.with_undo Proposals.proposal_from Proposals.normal_health
    Proposals.collect Proposals.clamp Texts.among Texts.same Texts.trim Texts.trim_start
    Texts.trim_end Texts.keep_before Paths.is_absolute test scan run rounds at_first at_last regex
    regex_i is_space is_word
dd_normal = refl

abbrev dd_rule : Rule
dd_rule = record {
  pattern = "\\bdd\\b[^\\n;|&]*\\bof=";
  any_case = false;
  reason = "raw write with dd";
}

dd_rule_known : Memᴰ dd_rule dangerous_script
unfolding dangerous_script
dd_rule_known = Memᴰ.tail (Memᴰ.head refl)

dd_runs : Memᴰ dd (scripts dd_proposal)
unfolding scripts Classify.action_scripts Classify.probe_scripts
dd_runs = Memᴰ.tail (Memᴰ.head refl)

dd-Occurs : Occurs (rule_regex dd_rule) dd
dd-Occurs =
    (test-Occurs (rule_regex dd_rule) dd).0
      (unfold test scan run rounds regex rule_regex at_edge is_word in refl)

dangerous_reported_example :
    Memᴰ "raw write with dd" (classify_proposal dd_proposal).1
    × ((classify_proposal dd_proposal).0 ≡ dangerous)
dangerous_reported_example =
    dangerous_reported dd_proposal dd_rule dd dd_rule_known dd_runs dd-Occurs

normalize_proposal-IsBounded_example : IsBounded dd_proposal
normalize_proposal-IsBounded_example =
    normalize_proposal-IsBounded no_url dd_input dd_proposal dd_normal

abbrev env_diff : Text
env_diff = codes "diff --git a/src/.env b/src/.env\n--- a/src/.env\n+++ b/src/.env\n"

abbrev patch_input : Input
patch_input = record dd_input {
  kind = codes "patch";
  patch = record { project_path = codes "/srv/app/"; base = codes "0123abc"; diff = env_diff };
}

abbrev env_patch : Patch
env_patch = record {
  project_path = codes "/srv/app/";
  base = codes "0123abc";
  diff = env_diff;
  files = codes "src/.env" ∷ [];
}

abbrev env_proposal : Proposal
env_proposal = record dd_proposal { action = patch env_patch }

env_normal : normalize_proposal no_url patch_input ≡ ok env_proposal
unfolding normalize_proposal Proposals.proposal_tests Proposals.checks Proposals.normal_action
    Proposals.normal_command Proposals.command_from Proposals.checked_script Proposals.with_action
    Proposals.with_post Proposals.with_undo Proposals.proposal_from Proposals.normal_health
    Proposals.collect Proposals.clamp Texts.among Texts.same Texts.trim Texts.trim_start
    Texts.trim_end Texts.keep_before Paths.is_absolute Proposals.normal_patch Proposals.patch_tests
    Proposals.patch_from Proposals.byte_length Paths.diff_files Paths.line_files Paths.add_new
    Paths.git_line Paths.file_line Paths.before_tab Paths.symlink_creation Paths.lines_from
    Paths.validate_patch_path Paths.normalize Paths.kept_segments Paths.push_segments
    Paths.push_segment Texts.split Texts.split_from Texts.join Texts.ends_with_unit Texts.contains
    test scan run rounds at_first at_last regex regex_i is_space is_word
env_normal = refl

normalize_proposal-IsConfined_example : IsConfined (codes "src/.env")
normalize_proposal-IsConfined_example =
    normalize_proposal-IsConfined no_url patch_input env_proposal env_patch (codes "src/.env")
      env_normal refl (Memᴰ.head refl)

abbrev env_rule : Rule
env_rule = record {
  pattern = "(?:^|\\/)\\.env(?:\\.[\\w.-]+)?$";
  any_case = false;
  reason = "environment file";
}

env_known : Memᴰ env_rule sensitive_path
unfolding sensitive_path
env_known = Memᴰ.head refl

env_written : Memᴰ (codes "src/.env") (Classify.paths env_proposal.action)
unfolding Classify.paths
env_written = Memᴰ.head refl

env-Occurs : Occurs (rule_regex env_rule) (Texts.swap_units b'\\' b'/' (codes "src/.env"))
env-Occurs =
    (test-Occurs (rule_regex env_rule) (Texts.swap_units b'\\' b'/' (codes "src/.env"))).0 (
      unfold test scan run rounds regex rule_regex at_first at_last is_word Texts.swap_units in
      refl)

sensitive_reported_example :
    Memᴰ "environment file" (classify_proposal env_proposal).1
    × ((classify_proposal env_proposal).0 ≡ dangerous)
sensitive_reported_example =
    sensitive_reported env_proposal env_rule (codes "src/.env") env_known env_written env-Occurs

recursive_rm_lines_example : Scripts.recursive_rm_unsafe (codes "cd /srv |\nsudo rm -rf data") ≡ (
    Scripts.recursive_rm_unsafe (codes "cd /srv |")
    || Scripts.recursive_rm_unsafe (codes "sudo rm -rf data"))
recursive_rm_lines_example = recursive_rm_lines (codes "cd /srv |") (codes "sudo rm -rf data")

rm_found : Scripts.recursive_rm_unsafe (codes "cd /srv |\nsudo rm -rf data") ≡ true
unfolding Scripts.recursive_rm_unsafe Scripts.segments Scripts.pieces Scripts.separator
    Scripts.unsafe_tokens Scripts.tokens Scripts.unsafe_rm Scripts.unsafe_target
    Scripts.without_quotes Scripts.without_last_quote Scripts.safe_rm_target Texts.words
    Texts.words_from Texts.without_start Texts.among Texts.same Texts.join_all Texts.contains
    Texts.trim Texts.trim_start Texts.trim_end Texts.keep_before test scan run rounds at_first
    at_last regex regex_i is_space is_word at_edge
rm_found = refl

rm_of_build : Scripts.recursive_rm_unsafe (codes "rm -rf ./dist && rm -r '/tmp/x y'") ≡ true
unfolding Scripts.recursive_rm_unsafe Scripts.segments Scripts.pieces Scripts.separator
    Scripts.unsafe_tokens Scripts.tokens Scripts.unsafe_rm Scripts.unsafe_target
    Scripts.without_quotes Scripts.without_last_quote Scripts.safe_rm_target Texts.words
    Texts.words_from Texts.without_start Texts.among Texts.same Texts.join_all Texts.contains
    Texts.trim Texts.trim_start Texts.trim_end Texts.keep_before test scan run rounds at_first
    at_last regex regex_i is_space is_word at_edge
rm_of_build = refl

secret_hidden : redact (codes "api_key=abcdef123 ok") ≡ codes "api_key=[redacted] ok"
unfolding redact Redaction.redact_with Redaction.redactions Redaction.replace_from
    Redaction.match_at test scan run rounds at_first at_last regex regex_i is_space is_word at_edge
secret_hidden = refl

url_hidden : redact (codes "at postgres://u:pw@db/x") ≡ codes "at postgres://u:[redacted]@db/x"
unfolding redact Redaction.redact_with Redaction.redactions Redaction.replace_from
    Redaction.match_at test scan run rounds at_first at_last regex regex_i is_space is_word at_edge
url_hidden = refl

abbrev compose_probe : List String
compose_probe = "docker" ∷ "compose" ∷ "-f" ∷ "/srv/app/docker-compose.yml" ∷ "ps" ∷ []

compose_allowed : probe_allowed no_url compose_probe ≡ none
unfolding probe_allowed Allowed.probe_command Probes.probe_docker Probes.compose_subcommand
    Probes.is_sensitive_read Probes.fits_i Texts.utf16 test scan run rounds at_first at_last regex
    regex_i is_space is_word at_edge
compose_allowed = refl

secret_refused : probe_allowed no_url ("cat" ∷ "/srv/app/.env.local" ∷ []) ≡ some "sensitive_path"
unfolding probe_allowed Allowed.probe_command Probes.is_sensitive_read Probes.fits_i Texts.utf16
    test scan run rounds at_first at_last regex regex_i is_space is_word at_edge
secret_refused = refl

probe_allowed-IsPlainProbe_example : IsPlainProbe compose_probe
probe_allowed-IsPlainProbe_example = probe_allowed-IsPlainProbe no_url compose_probe compose_allowed

abbrev some_url : Text → Option Url
some_url s = some (record {
  protocol = codes "https:";
  hostname = codes "example.org";
  username = [];
  password = [];
  href = s;
})

abbrev local_url : Text → Option Url
local_url s = some (record {
  protocol = codes "http:";
  hostname = codes "localhost";
  username = [];
  password = [];
  href = s;
})

abbrev head_args : List String
head_args = "-m" ∷ "5" ∷ "-sI" ∷ "https://example.org/" ∷ []

get_refused :
    Allowed.probe_curl some_url ("-s" ∷ "https://example.org/" ∷ [])
    ≡ some "curl_get_only_on_loopback"
unfolding Allowed.probe_curl Allowed.curl_args Allowed.curl_option Allowed.is_credential
    Allowed.curl_url Allowed.curl_verdict Allowed.is_loopback Allowed.is_metadata Probes.fits
    Probes.fits_i Texts.utf16 Texts.among Texts.same test scan run rounds at_first at_last regex
    regex_i is_space is_word at_edge
get_refused = refl

-- `--resolve` gives the name localhost another address.
resolve_allowed :
    Allowed.probe_curl local_url
      ("--resolve" ∷ "localhost:80:93.184.216.34" ∷ "http://localhost/" ∷ [])
    ≡ none
unfolding Allowed.probe_curl Allowed.curl_args Allowed.curl_option Allowed.is_credential
    Allowed.curl_url Allowed.curl_verdict Allowed.is_loopback Allowed.is_metadata Probes.fits
    Probes.fits_i Texts.utf16 Texts.among Texts.same test scan run rounds at_first at_last regex
    regex_i is_space is_word at_edge
resolve_allowed = refl
