-- ===== src/Policy/Redaction.antt =====
-- `redact` of src/changes/policy.js: secrets in the output of a probe are not shown.
use grouvi_nox.Prelude.{
  Bool, List, Option, String, [], codes, false, if◌then◌else◌, length, none, some, suc, true, zero,
  ℕ, ◌++◌, ◌-◌, ◌∷◌,
}
use grouvi_nox.Regex.{Regex, Pos, run}
use grouvi_nox.Regex.Syntax.{regex, regex_i}
use grouvi_nox.Policy.Texts.{Text}
use grouvi_nox.Policy.Paths.{text_from_to}

-- A pattern `(kept)dropped` and its replacement `$1shown`.
pub record Redaction : Type 0 where
  pub kept : String
  pub dropped : String
  pub any_case : Bool
  pub shown : String

unfoldable pub redactions : List Redaction
redactions =
    (record {
      kept = "";
      dropped = "-----BEGIN [A-Z ]*PRIVATE KEY-----[\\s\\S]*?-----END [A-Z ]*PRIVATE KEY-----";
      any_case = false;
      shown = "[redacted private key]";
    })
    ∷ (record {
      kept = "\\b[a-z][a-z0-9+.-]*:\\/\\/[^\\s:\\/@]+:";
      dropped = "[^\\s@\\/]+@";
      any_case = true;
      shown = "[redacted]@";
    })
    ∷ (record {
      kept = "";
      dropped = "\\beyJ[A-Za-z0-9_-]{10,}\\.[A-Za-z0-9_-]{10,}\\.[A-Za-z0-9_-]{10,}";
      any_case = false;
      shown = "[redacted jwt]";
    })
    ∷ (record {
      kept = "Authorization[\"']?\\s*[:=]\\s*[\"']?(?:Bearer|Basic|Token)\\s+";
      dropped = "[^\\s\"',;]+";
      any_case = true;
      shown = "[redacted]";
    })
    ∷ (record {
      kept = "";
      dropped = "\\b(?:sk|ghp|gho|ghs|github_pat|xox[bpa]|glpat|AKIA)[-_A-Za-z0-9]{16,}";
      any_case = false;
      shown = "[redacted token]";
    })
    ∷ (record {
      kept =
          "(?:token|secret|passw(?:or)?d|api[_-]?key|authorization|bearer|private[_-]?key|credential)[A-Za-z0-9_.-]*[\"']?\\s*[:=]\\s*[\"']?";
      dropped = "(?!\\[redacted)[^\\s\"',;]{4,}";
      any_case = true;
      shown = "[redacted]";
    })
    ∷ []

abbrev part : Redaction → String → Regex
part r s = if r.any_case then regex_i s else regex s

-- What a match here keeps, and how long it is.
unfoldable pub match_at : Redaction → Pos → Option (Text × ℕ)
match_at r p =
    run (part r r.kept) p
      λ q. run (part r r.dropped) q λ t. some (text_from_to p q, length p.1 - length t.1)

-- s.replace(pattern, shown), past `skip` code units of a match.
unfoldable pub replace_from : Redaction → ℕ → Option ℕ → Text → Text
replace_from r skip b [] = []
replace_from r (suc n) b (c ∷ s) = replace_from r n (some c) s
replace_from r zero b (c ∷ s) = elim (match_at r (b, c ∷ s)) [
  | none ↦ c ∷ replace_from r zero (some c) s
  | some (kept, n) ↦ kept ++ (codes r.shown ++ replace_from r (n - 1) (some c) s)
]

unfoldable pub redact_with : List Redaction → Text → Text
redact_with [] s = s
redact_with (r ∷ rs) s = redact_with rs (replace_from r zero none s)

unfoldable pub redact : Text → Text
redact s = redact_with redactions s
