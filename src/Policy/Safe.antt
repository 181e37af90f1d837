-- ===== src/Policy/Safe.antt =====
-- What every probe that src/changes/policy.js allows is like.
use grouvi_nox.Prelude.{
  ltb→le, Bool, List, Option, String, [], any, arith, drop, false, has_char, js_length, length, ltb,
  none, refl, select, true, ◌||◌, ◌∷◌, ◌≡◌, ◌≤◌,
}
use grouvi_nox.Policy.Texts.{Text}
use grouvi_nox.Policy.Proposals.{Url}
use grouvi_nox.Policy.Probes.{Verdict, if_bad, is_sensitive_read}
use grouvi_nox.Policy.Allowed.{is_path, probe_allowed}

pub if_bad-none :
    (b : Bool) (reason : String) (next : Verdict)
    → if_bad b reason next ≡ none
    → (b ≡ false) × (next ≡ none)
if_bad-none true reason next h = absurd (ground arith)
if_bad-none false reason next h = (refl, h)

pub record IsPlainProbe (argv : List String) : Type 0 where
  pub few : length argv ≤ 40
  pub clean_args : any (λ a. has_char 0 a || ltb 600 (js_length a)) argv ≡ false
  pub nothing_secret : any is_sensitive_read (select is_path (drop 1 argv)) ≡ false

-- A probe that is allowed has at most 40 arguments, each without NUL and of at most 600 code units,
-- and none of those that may be paths names a secret.
pub probe_allowed-IsPlainProbe :
    (parse_url : Text → Option Url) (argv : List String)
    → probe_allowed parse_url argv ≡ none
    → IsPlainProbe argv
unfolding probe_allowed
probe_allowed-IsPlainProbe parse_url [] h = absurd (ground arith)
probe_allowed-IsPlainProbe parse_url (cmd ∷ rest) h =
    let (a, h1) = if_bad-none _ _ _ h in
    let (b, h2) = if_bad-none _ _ _ h1 in
    let (c, h3) = if_bad-none _ _ _ h2 in
    let (d, h4) = if_bad-none _ _ _ h3 in
    record { few = ltb→le 40 (length (cmd ∷ rest)) a; clean_args = b; nothing_secret = d }
