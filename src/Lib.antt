-- ===== src/Lib.antt =====
-- A verification library of Grouvi Nox, a passkey-only monitoring dashboard for Linux hosts. Its
-- main subject is the change broker (src/changes/): the process that runs as root, shows a proposal
-- of an agent to the operator, and applies it once the operator's passkey has signed exactly it.
--
-- The parts and the files that model them:
-- - src/changes/approval.js, `createApprovalGate`: Approval.antt. `issue`, `verify` and `sweep` are
--   functions from the pending map to its next state and the answer; the map is an association list
--   in the order of insertion (Prelude/JsMap). Approval/Trace has sequences of calls.
-- - src/changes/journal.js, `createJournal`: Journal.antt. The file is a list of lines, each blank, not
--   JSON, or a row; `read`, `append` and `verify` are functions of it. A row with a truthy key
--   `corrupt` counts as unreadable, as in the code.
-- - src/changes/broker.js: its failure and probe counters are Limits.antt, `shapeProbeOutput` is
--   ProbeOutput.antt, `probeRequest` and `recordFailure` are Broker.antt, and the two listeners
--   (`control` for the dashboard, `probe` for the agent) are Broker/Control.antt. What they call
--   elsewhere is Broker/Interfaces: the policy, the executor and the probe runner, each a record.
-- - src/changes/executor.js: Executor. Host has the files and what is asked of the shell, git and
--   the network; Change has the record of a change and the actions on it; Stages, Files and Patches
--   have the stages of each kind of change and their reverts; Runs has `apply`, `revert` and
--   `rollback` without their guards; Records has the guards, `exclusive`, the stored records and
--   `recoverInterrupted`, as steps between stores.
-- - src/security.js, `rateLimit`: RateLimit.antt, the middleware as a function of the buckets, a key
--   being the limiter's name with the address. The timer that removes ended buckets is left out: the
--   middleware replaces such a bucket by itself.
-- - src/changes/policy.js: Policy. Scripts and Classify have the rules for dangerous proposals, Paths
--   and Proposals `diffPaths` and `normalizeProposal`, Probes and Allowed `probeAllowed` command by
--   command, Redaction `redact`. A text is the list of its UTF-16 code units, as in JavaScript.
-- - Regex matches the regular expressions of that file as they are written there: Regex/Syntax reads
--   a pattern, Regex runs it with backtracking and continuations, in the order that ECMA-262 gives.
-- - src/changes/fleet-link.js: FleetLink.antt. The node's middleware (`router.use`) is `admit`, a
--   function of the state (`seen`, `jobs`, `hits`) and a request to the next state and either the
--   payload or an answer; what the hub signs is `control_request`, and FleetLink/Calls is its client.
-- - src/fleet.js with src/db/fleet.js: FleetHub.antt, `ingest` for a snapshot that a node pushes, over
--   the nonces, the buckets and the rows of the nodes.
-- - src/changes/proposals.js: ProposalStore.antt, the directory as a list of files. `save` calls
--   `normalize_proposal` and `classify_proposal` of the policy.
-- - src/auth.js: Auth.antt, with the handlers of src/routes/auth.js in Auth/Routes. `challenges` and the
--   store are two states, a handler takes both to the next ones and its answer; a stored time in the
--   ISO format is its milliseconds.
-- - src/store.js: StateFile.antt, what a process keeps of the file that it shares, and `prune`.
-- - src/db/incidents.js with src/routes/api/incidents.js: Incidents.antt, the two tables as lists and
--   an operation as a function of both; a transaction is one step.
-- - src/metrics/alerts.js: Alerts.antt, `evaluate` with a function for each part of a measurement; its
--   alerts are the argument of `sync_incidents`.
-- - src/routes/api/changes.js: Dashboard.antt. Views has the proposals as they are shown, Decisions
--   the handlers that keep a rejection or pass a challenge, an application or a rollback on.
-- The broker calls the gate before the executor, and the executor and the broker write the journal.
--
-- Parameters of the model are what is not in the repository: SHA-256, JSON.stringify, the random
-- nonce, the check of a WebAuthn assertion (@simplewebauthn/server), the clock, the shell, git and
-- the network. A digest is a function on texts, and a theorem that needs more says so in its
-- statement, with a collision as the other outcome. The parser of URLs is a parameter too, and so
-- are `insideRealRoot`, and the policy and the executor where the broker calls them, JSON and the
-- fields of a snapshot where the fleet uses them, and the numbers and localeCompare of the alerts.
--
-- Numbers are natural numbers: times are milliseconds since 1970, and a difference of times is
-- compared by moving the subtrahend to the other side. Loops are recursion on the list or on the
-- number of attempts. Fuel stands behind the decimal printing of a number n, with n + 1 units, more
-- than it has digits, and behind the reader of patterns, with as many units as the pattern has
-- characters, and behind the rounds of `call_and_wait`, one more than the waits of 1500 ms that fit
-- into its twenty minutes. A repetition in a pattern has as many rounds as the text has code units
-- left, since each round moves on in the text. A request is handled whole before the next one: the
-- broker's handlers wait for nothing between their check and their change of state but the
-- passkey's verification. There the gate deletes the nonce first, but the lock is looked at before
-- it and a failure is recorded after it, so what is said of the number of rejections does not cover
-- requests sent at once; the handlers of src/routes/auth.js are handled whole too, though they wait for the passkey's verification. A
-- write to the executor's own directory succeeds, and a health check waits for no time.
--
-- Not modelled: the web dashboard but for its rate limiter, its authentication, its state file, its
-- incidents and its changes, the other metrics and the database, where the incidents and the rows
-- of the fleet's nodes are modelled, and, in src/changes, client.js and of fleet-link.js the table
-- of routes; of policy.js `stable` and `proposalHash`, and a field of a proposal is a text or a
-- number, where JavaScript converts any value; of the executor `list`, `get` and the removal of old
-- snapshots; of the broker the raw HTTP reading (a body is what `readBody` resolves with) and the
-- start of a probe.
pub mod Prelude
pub mod Approval
pub mod Journal
pub mod Limits
pub mod ProbeOutput
pub mod Broker
pub mod Executor
pub mod RateLimit
pub mod Regex
pub mod FleetLink
pub mod FleetHub
pub mod Auth
pub mod StateFile
pub mod ProposalStore
pub mod Incidents
pub mod Alerts
pub mod Dashboard
pub mod Policy
