-- ===== src/Broker/Interfaces.antt =====
-- What the request handlers of src/changes/broker.js call: the policy (src/changes/policy.js), the
-- executor (src/changes/executor.js), the gate's and the journal's surroundings, and what Node gives.
use grouvi_nox.Prelude.{Bool, List, Option, Result, String, ℕ}
use grouvi_nox.Approval.{GateEnv}
use grouvi_nox.Journal.{JournalEnv}

-- policy.js: a proposal as it comes in, and one that `normalizeProposal` has passed.
pub record Policy : Type 1 where
  pub Input : Type 0
  pub Proposal : Type 0
  pub normalize : Input → Result Proposal
  pub proposal_hash : Proposal → String
  pub classify : Proposal → List String
  pub probe_allowed : List String → Option String  -- the reason of a refusal
  pub redact : List ℕ → List ℕ

-- The approval that `apply` is given.
pub record Consent : Type 0 where
  pub hash : String
  pub by : String
  pub credential_id : String

-- What `get` returns of a change, as far as the broker reads it.
pub record Change : Type 0 where
  pub change_id : String
  pub hash : String

-- executor.js, over its state.
pub record Executor (P : Policy) : Type 1 where
  pub State : Type 0
  pub Answer : Type 0
  pub apply : State → P.Proposal → Consent → State × Result Answer
  pub rollback : State → String → Bool → String → String → State × Result Answer
  pub find : State → String → Option Change
  pub list : State → ℕ → List Change

-- What a probe on the host or on a node of the fleet gives back.
pub record ProbeRun : Type 0 where
  pub code : ℕ
  pub out : List ℕ
  pub truncated : Bool

pub record BrokerEnv : Type 1 where
  pub policy : Policy
  pub executor : Executor policy
  pub gate : GateEnv
  pub journal : JournalEnv
  pub sha256_hex : String → String
  pub enabled : Bool
  pub args_safe : List String → Bool  -- `probeArgsSafe`, which asks the file system
  pub run_probe : List String → ℕ → ProbeRun
  pub relay_probe : Option (String → List String → ℕ → Result ProbeRun)
  pub decode : String → Option String  -- decodeURIComponent, which may throw
  pub save_proposal : Option (policy.Input → Result (String × List String))
