-- ===== src/Dashboard/Examples.antt =====
-- Runs of the dashboard's handlers on one proposal file.
use grouvi_nox.Prelude.{
  Option, Result, String, [], arith, codes, length, none, ok, refl, some, true, ◌∷◌, ◌≡◌, ◌≤◌,
}
use grouvi_nox.Regex.{test, run, scan, rounds, at_first, at_last, at_edge, is_word}
use grouvi_nox.Regex.Syntax.{regex, regex_i, is_space}
use grouvi_nox.Policy.Texts
use grouvi_nox.Policy.Texts.{Text}
use grouvi_nox.Policy.Paths
use grouvi_nox.Policy.Proposals
use grouvi_nox.Policy.Proposals.{Input, Proposal, Url, command, normalize_proposal}
use grouvi_nox.Dashboard.{
  Files, Rejections, change_of, checked_proposal, file_named, is_remote, load_proposal, status_of,
}
use grouvi_nox.Dashboard.Decisions.{
  Call, Issued, Transport, apply_call, challenge_apply, challenge_sent, issued_for, job_started,
  matches, own_broker, post_apply, post_challenge, reject, transport_for,
}
use grouvi_nox.Dashboard.Passed.{IsApproved, post_apply-IsApproved, post_challenge_same_hash}
use grouvi_nox.Dashboard.Rejections.{Earlier, reject_shows}

abbrev no_url : Text → Option Url
no_url s = none

abbrev the_id : Text
the_id = codes "p-20260101120000-0a1b2c"

abbrev an_input : Input
an_input = record {
  kind = codes "command";
  id = the_id;
  node = [];
  scope = [];
  title = codes "Queue";
  why = codes "It hangs";
  created_at = 0;
  patch = record { project_path = []; base = []; diff = [] };
  file = record { path = []; content = [] };
  command = record { script = codes "true"; cwd = []; timeout_sec = 0 };
  validate = [];
  post = [];
  undo = [];
  healthcheck = none;
}

abbrev files : Files
files = (codes "p-20260101120000-0a1b2c.json", some an_input) ∷ []

abbrev the_proposal : Proposal
the_proposal = record {
  id = the_id;
  node = codes "local";
  scope = codes "vps";
  title = codes "Queue";
  why = codes "It hangs";
  created_at = 0;
  action = command (record { script = codes "true"; cwd = codes "/"; timeout_sec = 120 });
  post = [];
  undo = [];
  healthcheck = none;
}

is_loaded : load_proposal no_url files the_id ≡ some the_proposal
unfolding load_proposal checked_proposal file_named normalize_proposal Proposals.proposal_tests
    Proposals.checks Proposals.normal_action Proposals.normal_command Proposals.command_from
    Proposals.checked_script Proposals.with_action Proposals.with_post Proposals.with_undo
    Proposals.proposal_from Proposals.normal_health Proposals.collect Proposals.clamp Texts.among
    Texts.same Texts.trim Texts.trim_start Texts.trim_end Texts.keep_before Paths.is_absolute test
    scan run rounds at_first at_last regex regex_i is_space is_word at_edge
is_loaded = refl

-- A hash for the runs: the title.
abbrev title_hash : Proposal → Text
title_hash p = p.title

abbrev issued : Issued
issued = record { hash = codes "Queue"; nonce = "n-1"; challenge = "c-1"; expires_at = 90000 }

abbrev ask : Transport → Call String → Result Issued
ask to call = ok issued

is_started :
    post_apply title_hash no_url (codes "hub") ask files the_id (codes "Queue") "n-1" "signed"
    ≡ job_started own_broker (apply_call the_proposal "n-1" "signed")
unfolding post_apply transport_for is_remote Texts.same
is_started = rw (post_apply, is_loaded) refl

post_apply-IsApproved_example :
    IsApproved {Assertion = String} title_hash no_url
      (codes "hub")
      files
      the_id
      (codes "Queue")
      "n-1"
      "signed"
      own_broker
      (apply_call the_proposal "n-1" "signed")
post_apply-IsApproved_example =
    post_apply-IsApproved title_hash no_url (codes "hub") files the_id (codes "Queue") "n-1"
      "signed" own_broker (apply_call the_proposal "n-1" "signed") ask is_started

is_sent :
    post_challenge title_hash no_url (codes "hub") ask files the_id (some (codes "Queue"))
    ≡ challenge_sent issued
unfolding post_challenge issued_for Texts.same
is_sent = rw (post_challenge, is_loaded) refl

post_challenge_same_hash_example :
    (p : Proposal) × (load_proposal no_url files the_id ≡ some p)
    × (issued.hash ≡ title_hash p)
    × (matches title_hash no_url (codes "hub") ask (some (codes "Queue")) issued.hash ≡ true)
    × (ask (transport_for (codes "hub") p.node) (challenge_apply p) ≡ ok issued)
post_challenge_same_hash_example =
    post_challenge_same_hash title_hash no_url (codes "hub") ask files the_id (some (codes "Queue"))
      issued is_sent

abbrev before : Rejections
before = (codes "p-20250101120000-ffffff", 4000) ∷ []

no_change : change_of the_id [] ≡ none
unfolding change_of
no_change = refl

before-Earlier : Earlier 5000 before
before-Earlier = (omega arith, tt)

reject_shows_example :
    (status_of the_id (reject {Assertion = String} no_url 5000 files the_id before).0 []
      ≡ ("rejected", none))
    × (length (reject {Assertion = String} no_url 5000 files the_id before).0 ≤ 300)
reject_shows_example =
    reject_shows String no_url 5000 files the_id the_proposal before [] is_loaded (omega arith)
      before-Earlier no_change
