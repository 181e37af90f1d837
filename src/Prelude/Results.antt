-- ===== src/Prelude/Results.antt =====
-- A function that may throw. The status is the one that `Object.assign(new Error(m), { status })`
-- puts on an error; a plain `new Error(m)` has none.
use Prim.Native.Nat.{ℕ}
use Prim.Native.String.{String}
use mathlib.Core.Path.{◌≡◌, refl}
use mathlib.Core.Bool.{Bool, true, false}
use mathlib.Core.Option.{Option, none, some}

pub record Failure : Type 0 where
  pub status : Option ℕ
  pub message : String

pub data Result {ℓ} (A : Type ℓ) : Type ℓ where
  ok : A → Result A
  err : Failure → Result A

abbrev pub failure : ℕ → String → Failure
failure status message = record { status = some status; message = message }

abbrev pub plain_error : String → Failure
plain_error message = record { status = none; message = message }

-- `if (!passes) throw failed`
abbrev pub guard : Bool → Failure → Result (Unit {0})
guard false failed = err failed
guard true failed = ok tt

-- A statement that throws ends the block with its failure.
infixl 5 ◌>>=◌ ◌>>◌
abbrev pub ◌>>=◌ {ℓ κ} : {A : Type ℓ} {B : Type κ} → Result A → (A → Result B) → Result B
err failed >>= next = err failed
ok value >>= next = next value

abbrev pub ◌>>◌ {κ} : {B : Type κ} → Result (Unit {0}) → Result B → Result B
first >> next = first >>= λ _. next

-- A block that succeeds has passed its first guard.
pub guard-ok {ℓ} :
    {B : Type ℓ} (passes : Bool) (failed : Failure) (next : Result B) {x : B}
    → (guard passes failed >> next) ≡ ok x
    → (passes ≡ true) × (next ≡ ok x)
guard-ok false failed next h = cc
guard-ok true failed next h = (refl, h)

pub err-ok {ℓ} : {A : Type ℓ} {failed : Failure} {a : A} → err failed ≡ ok a → ⊥
err-ok h = cc

pub ok-injective {ℓ} : {A : Type ℓ} (a b : A) → ok a ≡ ok b → a ≡ b
ok-injective a b h = cc

-- A block that succeeds has passed its first step.
pub bind-ok {ℓ κ} :
    {A : Type ℓ} {B : Type κ} (first : Result A) (next : A → Result B) {b : B}
    → (first >>= next) ≡ ok b
    → (a : A) × (first ≡ ok a) × (next a ≡ ok b)
bind-ok (ok a) next h = (a, refl, h)
bind-ok (err failed) next h = absurd (err-ok h)
