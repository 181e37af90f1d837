-- ===== src/Executor/Change.antt =====
-- Proposals and change records of src/changes/executor.js, and its asynchronous functions as
-- actions on a host and the record of the running change. An action may throw; what it did before
-- stays done.
use grouvi_nox.Prelude.{
  false, true, Bool, Failure, List, Option, Result, String, [], err, ok, some, ℕ, ◌++◌, ◌∷◌,
}
use grouvi_nox.Executor.Host.{Host, World}

pub record Patch : Type 0 where
  pub project_path : String
  pub base : String
  pub diff : String
  pub files : List String

pub record NewFile : Type 0 where
  pub path : String
  pub content : String

pub record Command : Type 0 where
  pub script : String
  pub cwd : String
  pub timeout_sec : ℕ

-- `kind` with the part of the proposal that it names.
pub data Action : Type 0 where
  patch : Patch → Action
  file : NewFile → Action
  command : Command → Action

pub data Probe : Type 0 where
  url : String → ℕ → Probe  -- the expected status, 0 for any success
  script : String → Probe

pub record Health : Type 0 where
  pub retries : ℕ
  pub delay_sec : ℕ
  pub probe : Probe

-- What `normalizeProposal` returns, as far as the executor reads it.
pub record Proposal : Type 0 where
  pub id : String
  pub action : Action
  pub post : List String
  pub undo : Option String
  pub validate : Option String
  pub healthcheck : Option Health

pub data Status : Type 0 where
  running applied auto_rolled_back failed rolled_back interrupted : Status

pub record Step : Type 0 where
  pub name : String
  pub code : ℕ
  pub out : String

-- `record.rollbackData`, by kind. The digest of a file that is not there is `none`.
pub data Undo : Type 0 where
  patch_undo : String → List String → List (String × Option String) → Undo
  file_undo : String → Bool → String → Undo
  command_undo : Option String → Undo

pub record Change : Type 0 where
  pub change_id : String
  pub proposal_id : String
  pub hash : String
  pub status : Status
  pub reason : Option String
  pub finished_at : Option ℕ
  pub steps : List Step
  pub rollback_data : Option Undo

-- What a stage or a revert returns: `{ ok: true, cwd }` or `{ ok: false, reason, files }`.
pub data Stage : Type 0 where
  done : String → Stage
  refused : String → List String → Stage

-- stage.ok
abbrev pub is_done : Stage → Bool
is_done (done cwd) = true
is_done (refused reason files) = false

pub record Ctx (H : Host) : Type 0 where
  pub world : World H.Outside
  pub change : Change

abbrev pub Run : Host → Type 0 → Type 0
Run H A = Ctx H → Result A × Ctx H

module _ {H : Host} where
  abbrev pub pure : {A : Type 0} → A → Run H A
  pure a c = (ok a, c)

  abbrev pub throw : {A : Type 0} → Failure → Run H A
  throw e c = (err e, c)

  abbrev pub continue : {A B : Type 0} → (A → Run H B) → Result A × Ctx H → Result B × Ctx H
  continue f (ok a, c) = f a c
  continue f (err e, c) = (err e, c)

  infixl 5 ◌>>=◌ ◌>>◌
  abbrev pub ◌>>=◌ : {A B : Type 0} → Run H A → (A → Run H B) → Run H B
  ◌>>=◌ m f c = continue f (m c)

  abbrev pub ◌>>◌ : {A B : Type 0} → Run H A → Run H B → Run H B
  m >> k = m >>= λ _. k

  abbrev pub gets : {A : Type 0} → (World H.Outside → A) → Run H A
  gets f c = (ok (f c.world), c)

  abbrev pub alter : (World H.Outside → World H.Outside) → Run H (Unit {0})
  alter f c = (ok tt, record c { world = f c.world })

  -- A call of the outside that answers and may change the world.
  abbrev pub call : {A : Type 0} → (World H.Outside → A × World H.Outside) → Run H A
  call f c = let (a, w) = f c.world in (ok a, record c { world = w })

  -- The closure of `stepLogger`.
  unfoldable pub log : String → ℕ → String → Run H (Unit {0})
  log name code out c = (
    ok tt,
    record c {
      change = record c.change {
        steps = c.change.steps ++ (record { name = name; code = code; out = out } ∷ []);
      };
    },
  )

  unfoldable pub set_undo : Undo → Run H (Unit {0})
  set_undo u c = (ok tt, record c { change = record c.change { rollback_data = some u } })
