-- ===== src/Policy/Probes.antt =====
-- The commands that an agent may run to look at the host: `probeAllowed` of src/changes/policy.js.
-- A verdict is the reason of a refusal, or `none`.
use grouvi_nox.Prelude.{
  Bool, List, Option, String, [], all, any, drop, eqb, false, find?, has_char, if◌then◌else◌, leb,
  length, none, not, one_of, some, starts_with, true, ◌&&◌, ◌==◌, ◌||◌, ◌∷◌,
}
use grouvi_nox.Regex.{test}
use grouvi_nox.Regex.Syntax.{regex, regex_i}
use grouvi_nox.Policy.Texts.{Text, utf16}

abbrev pub Verdict : Type 0
Verdict = Option String

abbrev pub unless_ok : Bool → String → Verdict
unless_ok true reason = none
unless_ok false reason = some reason

abbrev pub if_bad : Bool → String → Verdict → Verdict
if_bad true reason next = some reason
if_bad false reason next = next

-- list.includes(x) and set.has(x), where x may be undefined
abbrev pub has : List String → Option String → Bool
has xs none = false
has xs (some s) = one_of xs s

abbrev pub first_of : List String → Option String
first_of [] = none
first_of (a ∷ args) = some a

abbrev pub or_empty : Option String → String
or_empty none = ""
or_empty (some s) = s

abbrev pub is_option : String → Bool
is_option a = starts_with a "-"

-- /pattern/.test(a)
unfoldable pub fits : String → String → Bool
fits pattern a = test (regex pattern) (utf16 a)

unfoldable pub fits_i : String → String → Bool
fits_i pattern a = test (regex_i pattern) (utf16 a)

abbrev pub readers : List String
readers =
    "ls" ∷ "cat" ∷ "head" ∷ "tail" ∷ "wc" ∷ "stat" ∷ "file" ∷ "du" ∷ "grep" ∷ "find" ∷ "readlink"
    ∷ "sha256sum" ∷ "md5sum" ∷ "tree" ∷ []

abbrev pub plain : List String
plain =
    "ss" ∷ "df" ∷ "free" ∷ "uptime" ∷ "ps" ∷ "whoami" ∷ "id" ∷ "hostname" ∷ "uname" ∷ "date"
    ∷ "lsblk" ∷ "ip" ∷ "dig" ∷ "nslookup" ∷ "lsof" ∷ "mount" ∷ "findmnt" ∷ "last" ∷ "w" ∷ "who"
    ∷ "vmstat" ∷ "nproc" ∷ "lscpu" ∷ "lsb_release" ∷ []

abbrev ip_mutation : List String
ip_mutation =
    "set" ∷ "add" ∷ "del" ∷ "delete" ∷ "flush" ∷ "change" ∷ "replace" ∷ "append" ∷ "prepend"
    ∷ "exec" ∷ "netns" ∷ "monitor" ∷ "up" ∷ "down" ∷ "save" ∷ "restore" ∷ "tuntap" ∷ "batch" ∷ "-b"
    ∷ "-batch" ∷ "-force" ∷ []

abbrev docker_subcommands : List String
docker_subcommands =
    "ps" ∷ "logs" ∷ "images" ∷ "stats" ∷ "top" ∷ "port" ∷ "info" ∷ "version" ∷ "diff" ∷ "events"
    ∷ []

abbrev systemctl_subcommands : List String
systemctl_subcommands =
    "status" ∷ "is-active" ∷ "is-enabled" ∷ "is-failed" ∷ "list-units" ∷ "list-timers"
    ∷ "list-sockets" ∷ "show" ∷ "cat" ∷ "list-unit-files" ∷ "list-dependencies" ∷ []

abbrev pm2_subcommands : List String
pm2_subcommands = "list" ∷ "ls" ∷ "jlist" ∷ "status" ∷ "describe" ∷ "show" ∷ "prettylist" ∷ []

abbrev nginx_flags : List String
nginx_flags = "-t" ∷ "-T" ∷ "-v" ∷ "-V" ∷ []

unfoldable pub is_sensitive_read : String → Bool
is_sensitive_read a =
    fits_i
      "(?:^|\\/)(?:\\.env(?:\\.[\\w.-]+)?|id_(?:rsa|ed25519|ecdsa|dsa)|authorized_keys|\\.git-credentials|\\.netrc|\\.npmrc|\\.pypirc|shadow|gshadow|sudoers(?:\\.d)?|credentials?|secrets?|privkey\\d*\\.pem|[^/]*\\.(?:key|p12|pfx|kdbx)|(?!(?:cert|chain|fullchain)\\d*\\.pem$)[^/]*\\.pem|sentinel\\.db(?:-wal|-shm)?|state\\.json|integration-config\\.sock)(?:\\/|$)|\\/proc\\/[^/]+\\/(?:environ|mem)|\\/etc\\/(?:vps-sentinel|sentinel-ai)\\.env|\\/\\.ssh\\/|\\/\\.hermes\\/|^\\/var\\/lib\\/(?:postgresql|mysql|mariadb|redis|mongodb|docker\\/volumes)\\b|^\\/etc\\/(?:ssl\\/private|letsencrypt\\/accounts|wireguard|openvpn)\\b|\\/\\.(?:kube|aws|docker|config\\/gcloud)\\/|^\\/var\\/backups\\b|^\\/etc\\/(?:shadow|gshadow|sudoers)"
      a

unfoldable pub probe_reader : String → List String → Verdict
probe_reader cmd rest =
    if_bad
      (cmd == "find"
        && any (fits "^-(?:exec|execdir|ok|okdir|delete|fprint|fprint0|fprintf|fls)$") rest)
      "find_action_not_read_only"
      (if_bad
        (cmd == "grep"
          && any
              (fits
                "^-[a-zA-Z]*[rR]|^--recursive|^--dereference-recursive|^-d$|^--directories|^-f$|^--file")
              rest)
        "grep_recursive_or_file_patterns" none)

unfoldable pub probe_plain : String → List String → Verdict
probe_plain cmd rest =
    if_bad (cmd == "ip" && any (one_of ip_mutation) rest) "ip_mutation"
      (if_bad (cmd == "mount" && not (eqb (length rest) 0)) "mount_mutation" none)

unfoldable pub probe_journalctl : List String → Verdict
probe_journalctl rest =
    if_bad
      (any
        (fits
          "^--(?:vacuum|rotate|flush|relinquish|smart-relinquish|sync|setup-keys|update-catalog|new-id128|rotate)")
        rest)
      "journal_mutation" none

-- The subcommand of compose: the first word behind `before` that is no option and no option's value.
unfoldable pub compose_subcommand : String → List String → Option String
compose_subcommand before [] = none
compose_subcommand before (a ∷ args) =
    if not (is_option a) && not (one_of ("-f" ∷ "--file" ∷ "-p" ∷ "--project-name" ∷ []) before)
    then some a
    else compose_subcommand a args

-- The text behind the first `=`.
unfoldable pub behind_equals : Text → Text
behind_equals [] = []
behind_equals (c ∷ s) = if eqb c b'=' then s else behind_equals s

abbrev value_at : String → List String → Text
value_at a args =
    if has_char b'=' a then behind_equals (utf16 a) else utf16 (or_empty (first_of args))

-- The value of the first format option; `none` without one.
unfoldable pub format_value : List String → Option Text
format_value [] = none
format_value (a ∷ args) =
    if a == "--format" || a == "-f" || starts_with a "--format="
    then some (value_at a args)
    else format_value args

abbrev safe_format : Option Text → Bool
safe_format none = false
safe_format (some value) = not (test (regex "Env|Config\\b|Cmd|Entrypoint") value)

unfoldable pub probe_docker : List String → Verdict
probe_docker [] = some "docker_subcommand_not_read_only"
probe_docker (sub ∷ args) =
    if sub == "compose"
    then unless_ok
        (has ("ps" ∷ "logs" ∷ "ls" ∷ "top" ∷ "images" ∷ "port" ∷ "version" ∷ [])
          (compose_subcommand sub args))
        "compose_subcommand_not_read_only"
    else if sub == "inspect"
    then unless_ok (safe_format (format_value (sub ∷ args))) "docker_inspect_needs_safe_format"
    else if one_of ("network" ∷ "volume" ∷ "image" ∷ "container" ∷ "system" ∷ []) sub
    then unless_ok (has ("ls" ∷ "df" ∷ "history" ∷ []) (first_of args))
        "docker_subcommand_not_read_only"
    else unless_ok (one_of docker_subcommands sub) "docker_subcommand_not_read_only"

-- The arguments that name properties; `before` is the argument before.
unfoldable pub properties : String → List String → List String
properties before [] = []
properties before (a ∷ args) =
    let rest = properties a args in
    if fits "^(?:-p|--property)$" before || fits "^--property=" a then a ∷ rest else rest

unfoldable pub probe_systemctl : List String → Verdict
probe_systemctl rest =
    let sub = find? (λ a. not (is_option a)) rest in
    let props = properties "" rest in
    if_bad (not (has systemctl_subcommands sub)) "systemctl_subcommand_not_read_only" (
      if_bad (has ("show" ∷ []) sub && (eqb (length props) 0 || any (fits_i "environment") props))
        "systemctl_show_needs_safe_properties" none)

unfoldable pub probe_pm2 : List String → Verdict
probe_pm2 rest =
    if has ("logs" ∷ []) (first_of rest)
    then unless_ok (one_of rest "--nostream") "pm2_logs_needs_nostream"
    else unless_ok (has pm2_subcommands (first_of rest)) "pm2_subcommand_not_read_only"

unfoldable pub probe_nginx : List String → Verdict
probe_nginx rest =
    unless_ok (eqb (length rest) 1 && has nginx_flags (first_of rest)) "nginx_only_test_or_dump"

-- while (rest[i] === '-C') i += 2
unfoldable pub behind_directories : List String → List String
behind_directories [] = []
behind_directories (a ∷ []) = if a == "-C" then [] else a ∷ []
behind_directories (a ∷ b ∷ args) = if a == "-C" then behind_directories args else a ∷ b ∷ args

unfoldable pub git_subcommand : Option String → List String → List String → Verdict
git_subcommand sub args rest =
    if_bad
      (not (
        has
          ("log" ∷ "status" ∷ "diff" ∷ "show" ∷ "branch" ∷ "remote" ∷ "rev-parse" ∷ "ls-files"
            ∷ "blame" ∷ "describe" ∷ "tag" ∷ "shortlog" ∷ "config" ∷ [])
          sub))
      "git_subcommand_not_read_only"
      (if_bad
        (any
          (fits "^--output|^-c$|^--exec-path|^--upload-pack|^-[a-z]*D$|^--delete|^--set-upstream")
          rest)
        "git_flag_not_read_only"
        (if_bad
          (has ("config" ∷ []) sub
            && not (one_of rest "--get")
            && not (one_of rest "-l")
            && not (one_of rest "--list"))
          "git_config_write"
          (if_bad (has ("branch" ∷ []) sub && any (λ a. not (is_option a)) args) "git_branch_write"
            (if_bad (has ("tag" ∷ []) sub && any (λ a. not (is_option a)) args) "git_tag_write"
              none))))

unfoldable pub probe_git : List String → Verdict
probe_git rest =
    let from = behind_directories rest in git_subcommand (first_of from) (drop 1 from) rest

abbrev certbot_args : String → List String → Bool
certbot_args before [] = true
certbot_args before (a ∷ args) =
    (one_of ("--cert-name" ∷ "-d" ∷ []) a || one_of ("--cert-name" ∷ "-d" ∷ []) before)
    && certbot_args a args

-- Commands with one or two forms that only look.
unfoldable pub probe_small : String → List String → Verdict
probe_small cmd rest =
    let first = first_of rest in
    if cmd == "getent"
    then unless_ok (has ("hosts" ∷ "ahosts" ∷ "ahostsv4" ∷ "ahostsv6" ∷ []) first)
        "getent_database_not_allowed"
    else if cmd == "crontab"
    then unless_ok (eqb (length rest) 1 && has ("-l" ∷ []) first) "crontab_only_list"
    else if cmd == "ufw"
    then unless_ok
        ((eqb (length rest) 1 && has ("status" ∷ []) first)
          || (eqb (length rest) 2
              && has ("status" ∷ []) first
              && has ("verbose" ∷ []) (first_of (drop 1 rest))))
        "ufw_only_status"
    else if cmd == "iptables" || cmd == "ip6tables"
    then unless_ok
        (leb 1 (length rest)
          && all (fits "^(?:-S|-L|-n|-v|-t|filter|nat|mangle|--line-numbers|[A-Z_]+)$") rest
          && (one_of rest "-S" || one_of rest "-L"))
        "iptables_only_listing"
    else if cmd == "fail2ban-client"
    then unless_ok (has ("status" ∷ []) first && leb (length rest) 2) "fail2ban_only_status"
    else if cmd == "timedatectl"
    then unless_ok (eqb (length rest) 0 || (eqb (length rest) 1 && has ("status" ∷ []) first))
        "timedatectl_only_status"
    else if cmd == "apt"
    then unless_ok (has ("list" ∷ []) first) "apt_only_list"
    else if cmd == "dpkg"
    then unless_ok (has ("-l" ∷ "-s" ∷ "-L" ∷ "--list" ∷ "--status" ∷ []) first) "dpkg_only_queries"
    else if cmd == "certbot"
    then if_bad (not (has ("certificates" ∷ []) first)) "certbot_only_certificates"
        (unless_ok (certbot_args "" (drop 1 rest)) "certbot_flag_not_allowed")
    else some "command_not_in_probe_allowlist"

-- args[args.indexOf(flag) + 1] || ''; `none` if the flag is not there
unfoldable pub behind_flag : String → List String → Option String
behind_flag flag [] = none
behind_flag flag (a ∷ args) =
    if a == flag then some (or_empty (first_of args)) else behind_flag flag args

abbrev fits_some : String → Option String → Bool
fits_some pattern none = false
fits_some pattern (some a) = fits pattern a

unfoldable pub probe_openssl : List String → Verdict
probe_openssl rest =
    let sub = first_of rest in
    let args = drop 1 rest in
    if_bad
      (any
        (fits
          "^-(?:out|keyout|signkey|CA|CAkey|CAcreateserial|set_serial|extfile|key|cert|cert_chain|keylogfile|sess_out|sess_in|proxy|psk|pass|passin|passout|writerand|rand)$")
        args)
      "openssl_flag_not_allowed"
      (if has ("x509" ∷ []) sub
        then unless_ok (one_of args "-noout" && one_of args "-in") "openssl_x509_needs_noout_and_in"
        else if has ("s_client" ∷ []) sub
        then unless_ok (fits_some "^[A-Za-z0-9.-]+:\\d{1,5}$" (behind_flag "-connect" args))
            "openssl_s_client_needs_connect_host_port"
        else some "openssl_subcommand_not_allowed")
