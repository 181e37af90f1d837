-- ===== src/Approval.antt =====
-- The approval gate of the change broker, src/changes/approval.js: `createApprovalGate` with its
-- closures `sweep`, `issue` and `verify`. The `pending` map is the state; an operation returns the
-- new map beside its result. The random nonce and the clock are arguments. Children: `SingleUse`,
-- `Binding` and `Bounds` prove, `Examples` holds the concrete runs.
pub mod Cases
pub mod Trace
pub mod SingleUse
pub mod Binding
pub mod Bounds
mod Examples
use Prim.Native.String
use grouvi_nox.Prelude.{
  ℕ, ◌+◌, String, Bool, false, Option, none, some, List, [], ◌∷◌, Failure, Result, ok, err, failure,
  ◌>>=◌, ◌>>◌, guard, ltb, not, ◌==◌, ◌&&◌, if◌then◌else◌, length, select, find?, one_of,
  is_hex_of_length,
}
use grouvi_nox.Prelude.JsMap.{JsMap}
use grouvi_nox.Prelude.JsMap

pub record Entry : Type 0 where
  pub hash : String
  pub purpose : String
  pub challenge : String
  pub expires_at : ℕ

pub record Credential : Type 0 where
  pub id : String
  pub public_key : String
  pub counter : ℕ
  pub label : String

-- What `issue` hands to the browser.
pub record Challenge : Type 0 where
  pub nonce : String
  pub challenge : String
  pub expires_at : ℕ

pub record Who : Type 0 where
  pub credential_id : String
  pub label : String

-- What the gate takes from outside: the digest of node:crypto, the browser's assertion, and
-- `verifyAuthenticationResponse` of @simplewebauthn/server, which throws (`none`) or answers
-- `verified`.
pub record GateEnv : Type 1 where
  pub Assertion : Type 0
  pub assertion_id : Assertion → Option String
  pub sha256 : String → String
  pub authenticate : Assertion → String → Credential → Option Bool
  pub ttl_ms : ℕ

abbrev pub Pending : Type 0
Pending = JsMap Entry

abbrev pub max_pending : ℕ
max_pending = 32

-- while (pending.size > MAX_PENDING) delete the oldest
unfoldable pub evict : Pending → Pending
evict [] = []
evict (x ∷ xs) = let rest = evict xs in if ltb max_pending (length (x ∷ xs)) then rest else x ∷ xs

abbrev pub is_live : ℕ → (String × Entry) → Bool
is_live now kv = not (ltb (kv.1).expires_at now)

unfoldable pub sweep : ℕ → Pending → Pending
unfolding evict
sweep now pending = evict (select (is_live now) pending)

-- The text whose digest the passkey signs.
unfoldable pub challenge_text : String → String → String → String
challenge_text purpose hash nonce =
    String.◌++◌ purpose (String.◌++◌ "\n" (String.◌++◌ hash (String.◌++◌ "\n" nonce)))

-- entry.label || 'Passkey'
unfoldable pub label_of : Credential → String
label_of c = if c.label == "" then "Passkey" else c.label

-- An absent id is `undefined`, and no string is equal to that.
abbrev pub is_id : Option String → String → Bool
is_id none s = false
is_id (some i) s = s == i

module _ (env : GateEnv) where
  open env use {Assertion, assertion_id, sha256, authenticate, ttl_ms}

  pub record Request : Type 0 where
    pub nonce : String
    pub hash : String
    pub purpose : String
    pub assertion : Option Assertion

  unfoldable pub new_entry : String → String → String → ℕ → Entry
  new_entry nonce hash purpose now = record {
    hash = hash;
    purpose = purpose;
    challenge = sha256 (challenge_text purpose hash nonce);
    expires_at = now + ttl_ms;
  }

  -- `nonce` is the 24 random bytes that the call draws.
  unfoldable pub issue : String → ℕ → Pending → String → String → Pending × Result Challenge
  unfolding new_entry
  issue nonce now pending hash purpose =
      let swept = sweep now pending in
      let entry = new_entry nonce hash purpose now in
      if not (is_hex_of_length 64 hash)
      then (swept, err (failure 400 "bad_hash"))
      else if not (one_of ("apply" ∷ "rollback" ∷ []) purpose)
      then (swept, err (failure 400 "bad_purpose"))
      else (
        JsMap.put swept nonce entry,
        ok (record { nonce = nonce; challenge = entry.challenge; expires_at = entry.expires_at }),
      )

  -- c.id === assertion?.id
  abbrev pub is_named : Option Assertion → Credential → Bool
  is_named none c = false
  is_named (some a) c = is_id (assertion_id a) c.id

  unfoldable pub check_signature : Option Assertion → Entry → Credential → Result Who
  check_signature none entry c = err (failure 403 "approval_invalid")
  check_signature (some a) entry c = elim (authenticate a entry.challenge c) [
    | none ↦ err (failure 403 "approval_invalid")
    | some verified ↦ do
      guard verified (failure 403 "approval_invalid")
      ok (record { credential_id = c.id; label = label_of c })
  ]

  unfoldable pub check_credential : Option Assertion → Entry → Option Credential → Result Who
  check_credential a entry none = err (failure 403 "unknown_credential")
  check_credential a entry (some c) = check_signature a entry c

  unfoldable pub check_entry : ℕ → List Credential → Request → Option Entry → Result Who
  check_entry now credentials r none = err (failure 403 "approval_expired")
  check_entry now credentials r (some entry) = do
    guard (not (ltb entry.expires_at now)) (failure 403 "approval_expired")
    guard (entry.hash == r.hash && entry.purpose == r.purpose) (failure 403 "approval_mismatch")
    check_credential r.assertion entry (find? (is_named r.assertion) credentials)

  -- `credentials` is what `loadCredentials()` reads.
  unfoldable pub verify : ℕ → List Credential → Pending → Request → Pending × Result Who
  unfolding check_entry check_credential check_signature
  verify now credentials pending r =
      (JsMap.remove pending r.nonce, check_entry now credentials r (JsMap.get pending r.nonce))
