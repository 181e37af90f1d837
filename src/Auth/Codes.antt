-- ===== src/Auth/Codes.antt =====
-- The recovery codes of src/auth.js: each is good for one recovery.
use grouvi_nox.Prelude.{
  Bool-cases, List, String, [], arith, eqb, if◌then◌else◌, inl, inr, length, ltb, refl, ℕ, ◌+◌, ◌<◌,
  ◌==◌, ◌||◌, ◌∷◌, ◌≡◌, ◌≤◌,
}
use grouvi_nox.Policy.Texts.{Text, trim}
use grouvi_nox.Auth.{
  AuthEnv, Store, RecoveryCode, is_used, generate_recovery_codes, spend_code, use_recovery_code,
}

-- How many codes are left.
abbrev unused : List RecoveryCode → ℕ
unused [] = 0
unused (rc ∷ rest) = (if is_used rc.used_at then 0 else 1) + unused rest

-- Attempts at later times than 0.
unfoldable pub AfterStart : List (ℕ × Text) → Type 0
AfterStart [] = Unit {0}
AfterStart ((now, input) ∷ rest) = (0 < now) × AfterStart rest

module _ (env : AuthEnv) where
  -- How many of a list of attempts are successful.
  unfoldable pub recoveries : List (ℕ × Text) → Store → ℕ
  recoveries [] st = 0
  recoveries ((now, input) ∷ rest) st =
      (if (use_recovery_code env input now st).1 then 1 else 0)
      + recoveries rest (use_recovery_code env input now st).0

  unused-spend_code :
      (code : Text) (now : ℕ) (codes : List RecoveryCode)
      → 0 < now
      → (if (spend_code env code now codes).1 then 1 else 0)
          + unused (spend_code env code now codes).0
        ≡ unused codes
  unfolding spend_code
  unused-spend_code code now [] h = refl
  unused-spend_code code now (rc ∷ rest) h =
      let in_rest = unused-spend_code code now rest h in
      elim (Bool-cases (is_used rc.used_at)) [
        | inl used ↦ rw used (rw used (omega (arith, in_rest)))
        | inr free ↦ elim (Bool-cases (rc.hash == env.scrypt code rc.salt)) [
          | inl fits ↦ rw (free, fits) (ground (arith, h))
          | inr other ↦ rw (free, other) (rw free (omega (arith, in_rest)))
        ]
      ]

  unused-use_recovery_code :
      (input : Text) (now : ℕ) (st : Store)
      → 0 < now
      → (if (use_recovery_code env input now st).1 then 1 else 0)
          + unused (use_recovery_code env input now st).0.recovery_codes
        ≡ unused st.recovery_codes
  unfolding use_recovery_code
  unused-use_recovery_code input now st h =
      let spent = unused-spend_code (env.to_upper (trim input)) now st.recovery_codes h in
      elim (Bool-cases (eqb (length input) 0 || ltb 32 (length input))) [
        | inl odd ↦ rw odd (omega arith)
        | inr even ↦ rw even spent
      ]

  recoveries-unused :
      (attempts : List (ℕ × Text)) (st : Store)
      → AfterStart attempts
      → recoveries attempts st ≤ unused st.recovery_codes
  unfolding recoveries AfterStart
  recoveries-unused [] st h = omega arith
  recoveries-unused ((now, input) ∷ rest) st (h, later) =
      let spent = unused-use_recovery_code input now st h in
      let more = recoveries-unused rest (use_recovery_code env input now st).0 later in
      omega (arith, spent, more)

  unused-generate :
      (drawn : List (Text × String)) (st : Store)
      → unused (generate_recovery_codes env drawn st).recovery_codes ≡ length drawn
  unfolding generate_recovery_codes
  unused-generate [] st = refl
  unused-generate (d ∷ drawn) st = omega (arith, unused-generate drawn st)

  -- After codes have been generated, at most as many recoveries succeed as there are codes, over
  -- every sequence of attempts at times after 0, whatever codes there were before.
  pub recoveries_bounded :
      (drawn : List (Text × String)) (attempts : List (ℕ × Text)) (st : Store)
      → AfterStart attempts
      → recoveries attempts (generate_recovery_codes env drawn st) ≤ length drawn
  recoveries_bounded drawn attempts st h = omega (
    arith,
    recoveries-unused attempts (generate_recovery_codes env drawn st) h,
    unused-generate drawn st,
  )
