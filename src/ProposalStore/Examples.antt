-- ===== src/ProposalStore/Examples.antt =====
-- Proposals that are saved by src/changes/proposals.js.
use grouvi_nox.Prelude.{List, Option, [], arith, codes, none, refl, true, ◌++◌, ◌∷◌, ◌≡◌}
use grouvi_nox.Regex.{test, run, scan, rounds, at_first, at_last, at_edge, is_word}
use grouvi_nox.Regex.Syntax.{regex, is_space}
use grouvi_nox.Policy.Texts.{Text}
use grouvi_nox.Policy.Proposals.{Input, Url}
use grouvi_nox.ProposalStore.{count, is_name, new_id}
use grouvi_nox.ProposalStore.Bounds.{SaveCall, IsTidy, save_all, save_all-IsTidy}

abbrev no_url : Text → Option Url
no_url s = none

abbrev an_input : Input
an_input = record {
  kind = codes "command";
  id = [];
  node = [];
  scope = [];
  title = codes "Restart the queue";
  why = codes "It hangs";
  created_at = 0;
  patch = record { project_path = []; base = []; diff = [] };
  file = record { path = []; content = [] };
  command = record { script = codes "docker restart queue"; cwd = []; timeout_sec = 0 };
  validate = [];
  post = [];
  undo = [];
  healthcheck = none;
}

abbrev two_calls : List SaveCall
two_calls =
    record { now = 5000; stamp = codes "20260101120000"; code = codes "0a1b2c"; input = an_input }
    ∷ record { now = 6000; stamp = codes "20260101120001"; code = codes "ffffff"; input = an_input }
    ∷ []

empty-IsTidy : IsTidy []
unfolding count
empty-IsTidy = record { few = omega arith; bounded = λ f m. elim m [ ] }

save_all-IsTidy_example : IsTidy (save_all no_url two_calls [])
save_all-IsTidy_example = save_all-IsTidy no_url two_calls [] empty-IsTidy

id_is_name : is_name (new_id (codes "20260101120000") (codes "0a1b2c") ++ codes ".json") ≡ true
unfolding is_name new_id test scan run rounds at_first at_last regex is_space is_word at_edge
id_is_name = refl
