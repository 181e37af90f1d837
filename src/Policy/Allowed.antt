-- ===== src/Policy/Allowed.antt =====
-- `probeCurl` and the whole of `probeAllowed` in src/changes/policy.js.
use grouvi_nox.Prelude.{
  Bool, List, Option, String, [], any, codes, false, has_char, if◌then◌else◌, inl, inr, js_length,
  length, ltb, none, not, one_of, select, some, true, ◌&&◌, ◌++◌, ◌==◌, ◌||◌, ◌∷◌, ◌⊎◌,
}
use grouvi_nox.Regex.{test}
use grouvi_nox.Regex.Syntax.{regex_i}
use grouvi_nox.Policy.Texts.{Text, utf16, among, is_blank}
use grouvi_nox.Policy.Proposals.{Url}
use grouvi_nox.Policy.Probes.{
  Verdict, if_bad, is_option, fits, fits_i, is_sensitive_read, probe_reader, probe_plain,
  probe_journalctl, probe_docker, probe_systemctl, probe_pm2, probe_nginx, probe_git, probe_small,
  probe_openssl, readers, plain,
}

abbrev pub curl_value_flags : List String
curl_value_flags =
    "-m" ∷ "--max-time" ∷ "--connect-timeout" ∷ "-w" ∷ "--write-out" ∷ "--resolve" ∷ "-H"
    ∷ "--header" ∷ "--retry" ∷ []

abbrev pub curl_allowed : List String
curl_allowed =
    "-s" ∷ "-S" ∷ "-sS" ∷ "-Ss" ∷ "-I" ∷ "--head" ∷ "-k" ∷ "--insecure" ∷ "-4" ∷ "-6" ∷ "-v" ∷ "-i"
    ∷ "--include" ∷ "-sI" ∷ "-sk" ∷ "-skI" ∷ "-sIk" ∷ "-sSI" ∷ "-sS" ∷ []

unfoldable pub is_loopback : Text → Bool
is_loopback host = test (regex_i "^(?:127\\.\\d+\\.\\d+\\.\\d+|localhost|\\[::1\\])$") host

unfoldable pub is_metadata : Text → Bool
is_metadata host = test (regex_i "^(?:169\\.254\\.|metadata\\.|fd00:ec2)") host

-- What the loop has found: whether a HEAD is asked for, and the words that are no options.
pub record CurlArgs : Type 0 where
  pub head : Bool
  pub urls : List String

unfoldable pub curl_option : String → CurlArgs → String ⊎ CurlArgs
curl_option a found =
    if not (is_option a)
    then inr (record found { urls = found.urls ++ a ∷ [] })
    else if not (one_of curl_allowed a)
    then inl "curl_flag_not_allowed"
    else if fits "^-[A-Za-z]*I[A-Za-z]*$|^--head$" a
    then inr (record found { head = true })
    else inr found

-- A header that would carry a credential.
unfoldable pub is_credential : String → String → Bool
is_credential a value =
    fits "^(?:-H|--header)$" a && fits_i "^(?:authorization|cookie|proxy-authorization)\\s*:" value

-- The loop, which takes the value of an option along with it.
unfoldable pub curl_args : List String → CurlArgs → String ⊎ CurlArgs
curl_args [] found = inr found
curl_args (a ∷ []) found = elim (one_of curl_value_flags a) [
  | true ↦ if is_credential a "" then inl "curl_credential_header" else inr found
  | false ↦ curl_option a found
]
curl_args (a ∷ b ∷ args) found = elim (one_of curl_value_flags a) [
  | true ↦ elim (is_credential a b) [
    | true ↦ inl "curl_credential_header"
    | false ↦ curl_args args found
  ]
  | false ↦ elim (curl_option a found) [
    | inl reason ↦ inl reason
    | inr more ↦ curl_args (b ∷ args) more
  ]
]

-- The arguments that may be paths.
abbrev pub is_path : String → Bool
is_path a = not (is_option a) || has_char b'/' a

module _ (parse_url : Text → Option Url) where
  unfoldable pub curl_url : Bool → Option Url → Verdict
  curl_url head none = some "curl_bad_url"
  curl_url head (some u) =
      if_bad
        (not (among (codes "http:" ∷ codes "https:" ∷ []) u.protocol)
          || not (is_blank u.username)
          || not (is_blank u.password))
        "curl_bad_url"
        (if_bad (is_metadata u.hostname) "curl_metadata_address"
          (if_bad (not head && not (is_loopback u.hostname)) "curl_get_only_on_loopback" none))

  unfoldable pub curl_verdict : String ⊎ CurlArgs → Verdict
  curl_verdict (inl reason) = some reason
  curl_verdict (inr found) = elim found.urls [
    | [] ↦ some "curl_needs_exactly_one_url"
    | u ∷ more ↦ elim more [
      | [] ↦ curl_url found.head (parse_url (utf16 u))
      | v ∷ vs ↦ some "curl_needs_exactly_one_url"
    ]
  ]

  unfoldable pub probe_curl : List String → Verdict
  probe_curl rest = curl_verdict (curl_args rest (record { head = false; urls = [] }))

  -- The commands one by one.
  unfoldable pub probe_command : String → List String → Verdict
  probe_command cmd rest =
      if one_of readers cmd
      then probe_reader cmd rest
      else if one_of plain cmd
      then probe_plain cmd rest
      else if cmd == "journalctl"
      then probe_journalctl rest
      else if cmd == "docker"
      then probe_docker rest
      else if cmd == "systemctl"
      then probe_systemctl rest
      else if cmd == "pm2"
      then probe_pm2 rest
      else if cmd == "nginx"
      then probe_nginx rest
      else if cmd == "git"
      then probe_git rest
      else if cmd == "openssl"
      then probe_openssl rest
      else if cmd == "curl"
      then probe_curl rest
      else probe_small cmd rest

  unfoldable pub probe_allowed : List String → Verdict
  probe_allowed [] = some "bad_argv"
  probe_allowed (cmd ∷ rest) = if_bad (ltb 40 (length (cmd ∷ rest))) "bad_argv" (
      if_bad (any (λ a. has_char 0 a || ltb 600 (js_length a)) (cmd ∷ rest)) "bad_argument" (
        if_bad (has_char b'/' cmd) "command_must_be_bare_name" (
          if_bad (any is_sensitive_read (select is_path rest)) "sensitive_path"
            (probe_command cmd rest))))
