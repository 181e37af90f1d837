-- ===== src/ProposalStore.antt =====
-- Where proposals wait for the operator, src/changes/proposals.js: `createProposalStore` over a
-- directory, as a list of files. A file holds a proposal, which is written and read as JSON. Child
-- `Bounds` proves, `Examples` holds the runs.
pub mod Bounds
mod Examples
use grouvi_nox.Prelude.{
  Bool, Bool-cases, Failure, List, Memᴰ, Memᴰ-find?, Option, Option-cases, Result, String, [], all,
  all_codes, any, ap, arith, bind-ok, codes, drop, eq_iff, eq_refl, eqb, err, err-ok, failure,
  false, find?, get_last?, get_last?-append, guard, guard-ok, has_char, if◌then◌else◌, inl, inr,
  is_digit, is_hex, is_hex_of_length, js_length, leb, length, length-append, length-drop,
  length-select, length-take, ltb, map, max, min, none, not, ok, ok-injective, one_of, plain_error,
  refl, reverse, select, some, starts, starts_with, subst, suc, sym, take, take_last, tests, true,
  units, zero, ℕ, ◌%◌, ◌&&◌, ◌*◌, ◌++◌, ◌+◌, ◌-◌, ◌/◌, ◌<◌, ◌==◌, ◌>>=◌, ◌>>◌, ◌||◌, ◌↔◌, ◌∙◌, ◌∷◌,
  ◌≡◌, ◌≢◌, ◌≤◌, ◌⊎◌,
}
use grouvi_nox.Regex.{test}
use grouvi_nox.Regex.Syntax.{regex}
use grouvi_nox.Policy.Texts.{Text, same}
use grouvi_nox.Policy.Proposals.{Input, Proposal, Url, normalize_proposal}
use grouvi_nox.Policy.Classify.{Tier, classify_proposal}

abbrev pub max_waiting : ℕ
max_waiting = 40

abbrev pub max_age_ms : ℕ
max_age_ms = 24 * 3600000

pub record Filed : Type 0 where
  pub name : Text
  pub changed_at : ℕ
  pub content : Proposal

abbrev pub Directory : Type 0
Directory = List Filed

unfoldable pub is_name : Text → Bool
is_name n = test (regex "^p-[0-9]{14}-[0-9a-f]{6}\\.json$") n

unfoldable pub count : Directory → ℕ
count dir = length (select (λ f. is_name f.name) dir)

unfoldable pub prune : ℕ → Directory → Directory
prune now dir = select (λ f. not (is_name f.name && ltb (f.changed_at + max_age_ms) now)) dir

-- A rename puts the new file in the place of one of the same name.
unfoldable pub rename_to : Directory → Filed → Directory
rename_to [] new = new ∷ []
rename_to (f ∷ fs) new = if same f.name new.name then new ∷ fs else f ∷ rename_to fs new

-- The stamp is the digits of the time, and the code six random hexadecimal digits.
unfoldable pub new_id : Text → Text → Text
new_id stamp code = codes "p-" ++ (stamp ++ (codes "-" ++ code))

module _ (parse_url : Text → Option Url) where
  unfoldable pub save_normal :
      ℕ → Text → Directory → Result Proposal → Directory × Result (Text × (Tier × List String))
  save_normal now id dir (err failed) = (dir, err failed)
  save_normal now id dir (ok p) = (
    rename_to dir (record { name = id ++ codes ".json"; changed_at = now; content = p }),
    ok (id, classify_proposal p),
  )

  unfoldable pub save :
      ℕ → Text → Text → Input → Directory → Directory × Result (Text × (Tier × List String))
  save now stamp code input dir =
      let pruned = prune now dir in
      let id = new_id stamp code in
      if leb max_waiting (count pruned)
      then (pruned, err (failure 429 "too_many_pending_proposals"))
      else save_normal now id pruned
          (normalize_proposal parse_url (record input { id = id; created_at = now }))
