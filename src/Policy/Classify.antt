-- ===== src/Policy/Classify.antt =====
-- `classifyProposal` of src/changes/policy.js: how loudly the operator is asked.
use grouvi_nox.Prelude.{
  List, Option, String, [], any, if◌then◌else◌, none, not, one_of, select, some, ◌++◌, ◌∷◌,
}
use grouvi_nox.Policy.Texts.{Text, is_blank}
use grouvi_nox.Policy.Scripts.{classify_script, classify_path, has_hidden_characters}
use grouvi_nox.Policy.Proposals.{Proposal, Action, patch, file, command, url, script, Health}

pub data Tier : Type 0 where
  routine dangerous : Tier

unfoldable pub action_scripts : Action → List Text
action_scripts (patch k) = []
action_scripts (file f validate) = validate ∷ []
action_scripts (command k) = k.script ∷ []

unfoldable pub probe_scripts : Option Health → List Text
probe_scripts none = []
probe_scripts (some h) = elim h.probe [ url u status ↦ [] | script s ↦ s ∷ [] ]

-- The scripts that root would run.
unfoldable pub scripts : Proposal → List Text
scripts p =
    select (λ s. not (is_blank s))
      (p.post ++ (p.undo ∷ action_scripts p.action ++ probe_scripts p.healthcheck))

-- The rest of what the operator reads.
unfoldable pub shown_parts : Action → List Text
shown_parts (patch k) = k.diff ∷ []
shown_parts (file f validate) = f.content ∷ f.path ∷ []
shown_parts (command k) = k.cwd ∷ []

unfoldable pub visible : Proposal → List Text
visible p = scripts p ++ (p.title ∷ p.why ∷ shown_parts p.action)

unfoldable pub paths : Action → List Text
paths (patch k) = k.files
paths (file f validate) = f.path ∷ []
paths (command k) = []

-- reasons.add for each of a list
unfoldable pub add_reasons : List String → List String → List String
add_reasons reasons [] = reasons
add_reasons reasons (r ∷ rs) =
    add_reasons (if one_of reasons r then reasons else reasons ++ r ∷ []) rs

unfoldable pub add_all : (Text → List String) → List String → List Text → List String
add_all f reasons [] = reasons
add_all f reasons (t ∷ ts) = add_all f (add_reasons reasons (f t)) ts

unfoldable pub reasons : Proposal → List String
reasons p =
    let hidden =
      if any has_hidden_characters (visible p)
      then "contains hidden control characters" ∷ []
      else [] in
    add_all classify_path (add_all classify_script hidden (scripts p)) (paths p.action)

unfoldable pub tier : List String → Tier
tier [] = routine
tier (r ∷ rs) = dangerous

unfoldable pub classify_proposal : Proposal → Tier × List String
classify_proposal p = (tier (reasons p), reasons p)
