-- ===== src/Dashboard/Decisions.antt =====
-- The handlers of src/routes/api/changes.js that decide: a rejection is kept here, and a challenge, an
-- application or a rollback is passed on to the broker of this host or of a node.
use grouvi_nox.Prelude.{
  Bool, Failure, Option, Result, String, [], eqb, err, if◌then◌else◌, ltb, none, not, ok, some,
  true, ℕ, ◌&&◌, ◌||◌, ◌∷◌, ◌==◌,
}
use grouvi_nox.Policy.Texts.{Text, is_blank, same}
use grouvi_nox.Policy.Proposals.{Proposal, Url}
use grouvi_nox.Dashboard.{
  Files, Rejections, is_remote, load_proposal, local, put_rejection, write_rejections,
}

-- Where a call goes: `transportFor`.
pub data Transport : Type 0 where
  own_broker : Transport
  node_broker : Text → Transport

unfoldable pub transport_for : Text → Text → Transport
transport_for own_id node = if is_remote own_id node then node_broker node else own_broker

-- What is passed on: the payloads of `challenge`, `apply` and `rollback`.
pub data Call (Assertion : Type 0) : Type 0 where
  challenge_apply : Proposal → Call Assertion
  challenge_rollback : Text → Call Assertion
  apply_call : Proposal → String → Assertion → Call Assertion
  rollback_call : Text → String → Assertion → Bool → Call Assertion

pub record Issued : Type 0 where
  pub hash : Text
  pub nonce : String
  pub challenge : String
  pub expires_at : ℕ

-- An answer, the start of a job that makes a call, or the challenge for the browser, which goes with
-- the passkey's options and the tier that are left out here.
pub data Outcome (Assertion : Type 0) : Type 0 where
  refused : ℕ → String → Outcome Assertion
  done : Outcome Assertion
  job_started : Transport → Call Assertion → Outcome Assertion
  challenge_sent : Issued → Outcome Assertion

-- fail(res, error)
unfoldable pub failed_with : {Assertion : Type 0} → Failure → Outcome Assertion
failed_with error =
    refused
      (elim error.status [ none ↦ 500 | some s ↦ if not (eqb s 0) && ltb s 600 then s else 500 ])
      (if error.message == "" then "failed" else error.message)

-- POST /changes/proposals/:id/reject
unfoldable pub reject :
    {Assertion : Type 0}
    → (Text → Option Url)
    → ℕ
    → Files
    → Text
    → Rejections
    → Rejections × Outcome Assertion
reject parse_url now files id rejections = elim (load_proposal parse_url files id) [
  | none ↦ (rejections, refused 404 "not_found")
  | some p ↦ (write_rejections (put_rejection rejections p.id now), done)
]

module _ {Assertion : Type 0} (hash : Proposal → Text) (parse_url : Text → Option Url)
    (own_id : Text) (ask : Transport → Call Assertion → Result Issued) where
  abbrev pub matches : Option Text → Text → Bool
  matches none h = true
  matches (some sent) h = is_blank sent || same sent h

  unfoldable pub issued_for : Text → Result Issued → Outcome Assertion
  issued_for h (err e) = failed_with e
  issued_for h (ok issued) =
      if same issued.hash h then challenge_sent issued else refused 502 "node_hash_mismatch"

  -- POST /changes/proposals/:id/challenge
  unfoldable pub post_challenge : Files → Text → Option Text → Outcome Assertion
  post_challenge files id sent = elim (load_proposal parse_url files id) [
    | none ↦ refused 404 "not_found"
    | some p ↦
        if not (matches sent (hash p))
        then refused 409 "proposal_changed"
        else issued_for (hash p) (ask (transport_for own_id p.node) (challenge_apply p))
  ]

  -- POST /changes/proposals/:id/apply
  unfoldable pub post_apply : Files → Text → Text → String → Assertion → Outcome Assertion
  post_apply files id sent nonce assertion = elim (load_proposal parse_url files id) [
    | none ↦ refused 404 "not_found"
    | some p ↦
        if not (same sent (hash p))
        then refused 409 "proposal_changed"
        else job_started (transport_for own_id p.node) (apply_call p nonce assertion)
  ]

  abbrev pub or_local : Option Text → Text
  or_local none = local
  or_local (some []) = local
  or_local (some (c ∷ s)) = c ∷ s

  unfoldable pub issued_rollback : Result Issued → Outcome Assertion
  issued_rollback (err e) = failed_with e
  issued_rollback (ok issued) = challenge_sent issued

  -- POST /changes/history/:id/challenge and POST /changes/history/:id/rollback
  unfoldable pub post_rollback_challenge : Text → Option Text → Outcome Assertion
  post_rollback_challenge id node =
      issued_rollback (ask (transport_for own_id (or_local node)) (challenge_rollback id))

  unfoldable pub post_rollback : Text → Option Text → String → Assertion → Bool → Outcome Assertion
  post_rollback id node nonce assertion force =
      job_started (transport_for own_id (or_local node)) (rollback_call id nonce assertion force)
