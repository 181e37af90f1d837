-- ===== src/Dashboard.antt =====
-- The dashboard's side of the changes, src/routes/api/changes.js: what is listed and shown, and what
-- is passed on to the broker here or on a node. Children: `Views` has the proposals as they are
-- shown, `Decisions` the handlers that pass on, `Passed` and `Rejections` prove, `Examples` has runs.
pub mod Views
pub mod Decisions
pub mod Passed
pub mod Rejections
mod Examples
use grouvi_nox.Prelude.{
  Bool, Bool-cases, Failure, List, Memᴰ, Memᴰ-find?, Option, Option-cases, Result, String, [], all,
  all_codes, any, ap, arith, bind-ok, codes, drop, eq_iff, eq_refl, eqb, err, err-ok, failure,
  false, find?, get_last?, get_last?-append, guard, guard-ok, has_char, if◌then◌else◌, inl, inr,
  is_digit, is_hex, is_hex_of_length, js_length, leb, length, length-append, length-drop,
  length-select, length-take, ltb, map, max, min, none, not, ok, ok-injective, one_of, plain_error,
  refl, reverse, select, some, starts, starts_with, subst, suc, sym, take, take_last, tests, true,
  units, zero, ℕ, ◌%◌, ◌&&◌, ◌*◌, ◌++◌, ◌+◌, ◌-◌, ◌/◌, ◌<◌, ◌==◌, ◌>>=◌, ◌>>◌, ◌||◌, ◌↔◌, ◌∙◌, ◌∷◌,
  ◌≡◌, ◌≢◌, ◌≤◌, ◌⊎◌,
}
use grouvi_nox.Regex.{test}
use grouvi_nox.Regex.Syntax.{regex}
use grouvi_nox.Policy.Texts.{Text, same, is_blank}
use grouvi_nox.Policy.Proposals.{Input, Proposal, Url, normalize_proposal}

-- Lists and maps of the file: a proposal's name with what its file holds, none for what is no
-- regular file, too large, or not JSON.
abbrev pub Files : Type 0
Files = List (Text × Option Input)

pub record FleetNode : Type 0 where
  pub id : Text
  pub public_url : Text
  pub online : Bool

-- A change as a broker lists it, with where it ran.
pub record Past : Type 0 where
  pub change_id : Text
  pub proposal_id : Text
  pub status : String
  pub started_at : ℕ
  pub host : Text

abbrev pub local : Text
local = codes "local"

unfoldable pub is_remote : Text → Text → Bool
is_remote own_id node = not (is_blank node) && not (same node local) && not (same node own_id)

-- The first secret that is long enough, and the node's address.
unfoldable pub lookup_node : List Text → List FleetNode → Text → Option (Text × Text)
lookup_node secrets nodes node_id = elim (find? (λ n. same n.id node_id) nodes) [
  | none ↦ none
  | some n ↦ if is_blank n.public_url then none else elim (find? (λ s. leb 32 (length s)) secrets) [
    | none ↦ none
    | some secret ↦ some (n.public_url, secret)
  ]
]

module _ {A : Type 0} (time : A → ℕ) where
  -- array.sort((a, b) => time(b) - time(a)), which is stable
  unfoldable pub insert_newest : A → List A → List A
  insert_newest x [] = x ∷ []
  insert_newest x (y ∷ ys) =
      let rest = insert_newest x ys in if leb (time y) (time x) then x ∷ y ∷ ys else y ∷ rest

  unfoldable pub sort_newest : List A → List A
  sort_newest [] = []
  sort_newest (x ∷ xs) = insert_newest x (sort_newest xs)

unfoldable pub joined : List (List Past) → List Past
joined [] = []
joined (rows ∷ more) = rows ++ joined more

-- The rows of this host's broker, none if it is off, and of the nodes that answered.
unfoldable pub history_all : Option (List Past) → List (List Past) → List Past
history_all own nodes = take 80 (
    sort_newest (λ (c : Past). c.started_at)
      (elim own [ none ↦ [] | some rows ↦ rows ] ++ joined nodes))

-- new Map(history.map(c => [c.proposalId, c])).get(id): of two with one key the later counts.
unfoldable pub change_of : Text → List Past → Option Past
change_of id [] = none
change_of id (c ∷ cs) = elim (change_of id cs) [
  | some later ↦ some later
  | none ↦ if same c.proposal_id id then some c else none
]

abbrev pub Rejections : Type 0
Rejections = List (Text × ℕ)

unfoldable pub rejected_at : Text → Rejections → Option ℕ
rejected_at id [] = none
rejected_at id ((k, at) ∷ more) = if same k id then some at else rejected_at id more

unfoldable pub put_rejection : Rejections → Text → ℕ → Rejections
put_rejection [] id now = (id, now) ∷ []
put_rejection ((k, at) ∷ more) id now =
    if same k id then (k, now) ∷ more else (k, at) ∷ put_rejection more id now

unfoldable pub write_rejections : Rejections → Rejections
write_rejections entries = take 300 (sort_newest (λ (e : Text × ℕ). e.1) entries)

-- A time of 0 reads as no rejection.
unfoldable pub status_of : Text → Rejections → List Past → String × Option Past
status_of id rejections history = elim (change_of id history) [
  | some c ↦ (c.status, some c)
  | none ↦ elim (rejected_at id rejections) [
    | none ↦ ("pending", none)
    | some at ↦ if eqb at 0 then ("pending", none) else ("rejected", none)
  ]
]

abbrev pub is_proposal_id : Text → Bool
is_proposal_id id = test (regex "^p-[0-9]{14}-[0-9a-f]{6}$") id

unfoldable pub file_named : Text → Files → Option Input
file_named name [] = none
file_named name ((n, content) ∷ more) = if same n name then content else file_named name more

module _ (parse_url : Text → Option Url) where
  unfoldable pub checked_proposal : Text → Result Proposal → Option Proposal
  checked_proposal id (err e) = none
  checked_proposal id (ok p) = if same p.id id then some p else none

  unfoldable pub load_proposal : Files → Text → Option Proposal
  load_proposal files id =
      if not (is_proposal_id id) then none else elim (file_named (id ++ codes ".json") files) [
        | none ↦ none
        | some input ↦ checked_proposal id (normalize_proposal parse_url input)
      ]
