-- ===== src/Approval/Examples.antt =====
-- Runs of the approval gate, and its theorems at concrete inputs.
use grouvi_nox.Prelude.{
  List, Memᴰ, String, [], err, failure, length, ok, one_of, refl, some, true, ◌==◌, ◌∷◌, ◌≡◌, ◌≤◌,
}
use grouvi_nox.Prelude.JsMap
use grouvi_nox.Approval.{
  Credential, GateEnv, Request, Who, sweep, issue, verify, label_of, challenge_text,
}
use grouvi_nox.Approval.Trace.{Call, issue_call, verify_call, run, issues, approvals}
use grouvi_nox.Approval.SingleUse.{approvals-le-issues}
use grouvi_nox.Approval.Binding.{approved_signature}
use grouvi_nox.Approval.Bounds.{pending_bounded}

-- A digest that is the text itself, and an authenticator that accepts an assertion for its id and
-- its challenge.
abbrev toy : GateEnv
toy = record {
  Assertion = String × String;
  assertion_id = λ a. some a.0;
  sha256 = λ s. s;
  authenticate = λ a c k. some (a.1 == c);
  ttl_ms = 90000;
}

abbrev some_hash : String
some_hash = "0123456789abcdef0123456789abcdef0123456789abcdef0123456789abcdef"

abbrev laptop : Credential
laptop = record { id = "key1"; public_key = "pk"; counter = 0; label = "" }

abbrev issued : List (Call toy)
issued = issue_call "n1" 1000 some_hash "apply" ∷ []

abbrev signed_request : Request toy
signed_request = record {
  nonce = "n1";
  hash = some_hash;
  purpose = "apply";
  assertion = some ("key1", challenge_text "apply" some_hash "n1");
}

abbrev keys : List Credential
keys = laptop ∷ []

abbrev passkey : Who
passkey = record { credential_id = "key1"; label = "Passkey" }

approves : (verify toy 5000 keys (run toy [] issued) signed_request).1 ≡ ok passkey
unfolding verify run issue sweep JsMap.put JsMap.get label_of challenge_text
approves = refl

refuses_late :
    (verify toy 91001 keys (run toy [] issued) signed_request).1
    ≡ err (failure 403 "approval_expired")
unfolding verify run issue sweep JsMap.put JsMap.get label_of challenge_text
refuses_late = refl

refuses_bad_hash : (issue toy "n2" 0 [] "abc" "apply").1 ≡ err (failure 400 "bad_hash")
unfolding issue
refuses_bad_hash = refl

-- The second of two equal requests is refused.
twice_counted :
    approvals toy "n1" [] (
      issue_call "n1" 1000 some_hash "apply"
      ∷ verify_call 5000 keys signed_request
      ∷ verify_call 5001 keys signed_request
      ∷ [])
    ≡ 1
unfolding approvals verify issue sweep JsMap.put JsMap.get JsMap.remove label_of challenge_text
twice_counted = refl

approvals-le-issues_example :
    approvals toy "n1" []
      (issue_call "n1" 1000 some_hash "apply" ∷ verify_call 5000 keys signed_request ∷ [])
    ≤ issues toy "n1"
        (issue_call "n1" 1000 some_hash "apply" ∷ verify_call 5000 keys signed_request ∷ [])
approvals-le-issues_example =
    approvals-le-issues toy "n1"
      (issue_call "n1" 1000 some_hash "apply" ∷ verify_call 5000 keys signed_request ∷ [])

approved_signature_example :
    (a : String × String) × (c : Credential) × (signed_request.assertion ≡ some a)
    × Memᴰ c keys
    × (toy.assertion_id a ≡ some c.id)
    × (toy.authenticate a (toy.sha256 (challenge_text "apply" some_hash "n1")) c ≡ some true)
    × (passkey ≡ record { credential_id = c.id; label = label_of c })
    × (one_of ("apply" ∷ "rollback" ∷ []) "apply" ≡ true)
approved_signature_example = approved_signature toy issued 5000 keys signed_request passkey approves

pending_bounded_example : length (run toy [] issued) ≤ 33
pending_bounded_example = pending_bounded toy issued
