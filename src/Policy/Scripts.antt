-- ===== src/Policy/Scripts.antt =====
-- The rules of src/changes/policy.js on scripts and paths: `classifyScript`, `classifyPath`.
use grouvi_nox.Prelude.{
  Bool, List, String, [], any, codes, eqb, false, if◌then◌else◌, leb, length, map, not, reverse,
  select, starts, true, ℕ, ◌&&◌, ◌++◌, ◌||◌, ◌∷◌,
}
use grouvi_nox.Regex.{Regex, test}
use grouvi_nox.Regex.Syntax.{regex, regex_i}
use grouvi_nox.Policy.Texts.{
  Text, same, is_blank, among, contains, trim, join_all, words, without_start, swap_units,
}

-- A pattern, whether it has the `i` flag, and the reason that it stands for.
pub record Rule : Type 0 where
  pub pattern : String
  pub any_case : Bool
  pub reason : String

abbrev rule : String → String → Rule
rule p r = record { pattern = p; any_case = false; reason = r }

abbrev rule_i : String → String → Rule
rule_i p r = record { pattern = p; any_case = true; reason = r }

unfoldable pub rule_regex : Rule → Regex
rule_regex r = if r.any_case then regex_i r.pattern else regex r.pattern

-- Whether the program's own files or units are named.
unfoldable pub self : Regex
self =
    regex
      "(?:\\/opt\\/vps-sentinel|\\/var\\/lib\\/vps-sentinel|\\/etc\\/vps-sentinel|\\/var\\/lib\\/sentinel-ai|\\/etc\\/sentinel-ai|\\bvps-sentinel(?:-[a-z]+)?(?:\\.service|\\.timer)?\\b|\\bsentinel-ai(?:-[a-z]+)?\\b|\\bnoxctl\\b|\\bsentinelctl\\b|\\bchange-broker\\b)"

unfoldable pub dangerous_script : List Rule
dangerous_script =
    rule
      "\\b(?:mkfs(?:\\.[a-z0-9]+)?|wipefs|fdisk|parted|sfdisk|cryptsetup|pvremove|vgremove|lvremove)\\b"
      "disk or filesystem tooling"
    ∷ rule "\\bdd\\b[^\\n;|&]*\\bof=" "raw write with dd"
    ∷ rule ">\\s*\\/dev\\/(?:sd|nvme|vd|xvd|disk)" "write to a block device"
    ∷ rule
        "\\b(?:shutdown|reboot|halt|poweroff)\\b|\\binit\\s+[06]\\b|\\bsystemctl\\s+(?:reboot|poweroff|halt|kexec)\\b"
        "power state"
    ∷ rule "\\b(?:iptables|ip6tables|ufw|nft|firewall-cmd|fail2ban-client)\\b" "firewall"
    ∷ rule "\\/etc\\/ssh\\b|\\bsshd?(?:_config)?\\b|authorized_keys|\\bssh-keygen\\b" "SSH access"
    ∷ rule
        "\\b(?:useradd|userdel|usermod|groupadd|groupdel|passwd|chpasswd|visudo|adduser|deluser)\\b|\\/etc\\/(?:sudoers|passwd|shadow|group|gshadow)"
        "users and privileges"
    ∷ rule "\\b(?:curl|wget)\\b[^\\n|;]*\\|\\s*(?:sudo\\s+)?(?:ba|z|da)?sh\\b"
        "pipes a download into a shell"
    ∷ rule
        "\\bapt(?:-get)?\\s+(?:-[a-z-]+\\s+)*(?:remove|purge|autoremove|dist-upgrade|full-upgrade)\\b|\\b(?:dpkg\\s+(?:-P|--purge|-r|--remove))\\b"
        "package removal or distro upgrade"
    ∷ rule
        "\\bdocker\\s+(?:system\\s+prune|volume\\s+(?:rm|prune)|network\\s+prune|image\\s+prune\\s+-a)\\b"
        "docker data removal"
    ∷ rule_i
        "\\b(?:DROP\\s+(?:TABLE|DATABASE|SCHEMA)|TRUNCATE\\s+TABLE|DELETE\\s+FROM\\s+\\w+\\s*(?:;|$|\"|'))"
        "destructive SQL"
    ∷ rule "\\bgit\\s+(?:reset\\s+--hard|clean\\s+-[a-z]*f|push\\s+(?:-f|--force))"
        "discards git work"
    ∷ rule
        "\\bsystemctl\\s+(?:disable|mask|stop)\\s+(?:--now\\s+)?(?:ssh|sshd|nginx|docker|containerd|networking|systemd-networkd|cloudflared)\\b"
        "stops a core service"
    ∷ rule "\\b(?:crontab\\s+-r|chattr|setfacl\\s+-R|chmod\\s+-R\\s+[0-7]*7\\b)"
        "permissions or cron wipe"
    ∷ rule "\\b(?:chown|chmod)\\s+-R\\s+\\S+\\s+\\/(?:\\s|$|etc|usr|var|bin|boot|root|home)"
        "recursive permissions on system paths"
    ∷ []

unfoldable pub sensitive_path : List Rule
sensitive_path =
    rule "(?:^|\\/)\\.env(?:\\.[\\w.-]+)?$" "environment file"
    ∷ rule
        "(?:^|\\/)(?:id_(?:rsa|ed25519|ecdsa|dsa)|authorized_keys|known_hosts)$|\\.(?:pem|key|p12|pfx|kdbx)$"
        "key material"
    ∷ rule
        "^\\/etc\\/(?:ssh|sudoers|passwd|shadow|group|gshadow|cron\\.[a-z]+|crontab|fstab|hosts|resolv\\.conf|ld\\.so)"
        "system access file"
    ∷ rule "^\\/root\\/\\.ssh\\/" "root SSH directory"
    ∷ rule
        "(?:^|\\/)\\.(?:git-credentials|netrc|npmrc|pypirc|aws|docker\\/config\\.json|kube\\/config)"
        "credential store"
    ∷ rule
        "^\\/(?:etc\\/systemd|lib\\/systemd|usr\\/lib\\/systemd|etc\\/init\\.d|etc\\/profile|etc\\/environment|etc\\/pam\\.d|etc\\/security|etc\\/ssl\\/private|etc\\/rc[0-9S.]*|usr\\/local\\/s?bin|usr\\/s?bin|s?bin)\\b"
        "startup or system executable"
    ∷ rule "^\\/root\\/\\.(?:bashrc|profile|bash_profile|bash_login)$" "root shell startup"
    ∷ []

unfoldable pub safe_rm_target : Regex
safe_rm_target =
    regex
      "(?:^|\\/)(?:node_modules|dist|build|\\.cache|\\.next|\\.nuxt|__pycache__|\\.pytest_cache|\\.turbo|coverage|target|\\.parcel-cache|tmp|\\.tmp)\\/?$"

-- `fits` of the rules, in their order: the reasons of those whose pattern is found.
unfoldable pub reasons_of : List Rule → Text → List String
reasons_of [] s = []
reasons_of (r ∷ rs) s =
    let rest = reasons_of rs s in if test (rule_regex r) s then r.reason ∷ rest else rest

-- How many code units separate two segments here: \n ; && || | (a single one).
unfoldable pub separator : ℕ → ℕ → ℕ
separator c d =
    if eqb c b'\n' || eqb c b';'
    then 1
    else if eqb c b'&' && eqb d b'&'
    then 2
    else if eqb c b'|'
    then (if eqb d b'|' then 2 else 1)
    else 0

-- The pieces of a script; what was read of the first one comes last first. 0 stands for the end.
unfoldable pub pieces : Text → Text → List Text
pieces acc [] = reverse acc ∷ []
pieces acc (c ∷ []) = elim (eqb (separator c 0) 0) [
  | true ↦ pieces (c ∷ acc) []
  | false ↦ reverse acc ∷ pieces [] []
]
pieces acc (c ∷ d ∷ s) = elim (eqb (separator c d) 0) [
  | true ↦ pieces (c ∷ acc) (d ∷ s)
  | false ↦ elim (eqb (separator c d) 2) [
    | true ↦ reverse acc ∷ pieces [] s
    | false ↦ reverse acc ∷ pieces [] (d ∷ s)
  ]
]

unfoldable pub segments : Text → List Text
segments script = select (λ s. not (is_blank s)) (map trim (pieces [] script))

abbrev is_flag : Text → Bool
is_flag t = starts (codes "-") t

abbrev is_quote : ℕ → Bool
is_quote c = eqb c b'"' || eqb c b'\''

unfoldable pub without_last_quote : Text → Text
without_last_quote [] = []
without_last_quote (c ∷ []) = if is_quote c then [] else c ∷ []
without_last_quote (c ∷ d ∷ s) = c ∷ without_last_quote (d ∷ s)

-- raw.replace(/^["']|["']$/g, '')
unfoldable pub without_quotes : Text → Text
without_quotes [] = []
without_quotes (c ∷ s) = without_last_quote (if is_quote c then s else c ∷ s)

abbrev is_wild : ℕ → Bool
is_wild c = eqb c b'*' || eqb c b'$' || eqb c b'`'

-- What the loop says of one target of `rm -r`.
unfoldable pub unsafe_target : Text → Bool
unsafe_target raw =
    let target = without_quotes raw in
    if any is_wild target && not (test safe_rm_target target)
    then true
    else if starts (codes "/tmp/") target && not (contains target (codes ".."))
    then false
    else if test safe_rm_target target && not (contains target (codes ".."))
    then false
    else true

-- The tokens of one segment.
unfoldable pub tokens : Text → List Text
tokens segment = words (without_start (regex "^(?:sudo|command|exec)\\s+") segment)

-- `rm` with these arguments.
unfoldable pub unsafe_rm : List Text → Bool
unsafe_rm args =
    let flags = join_all (select is_flag args) in
    let targets = select (λ t. not (is_flag t)) args in
    if not (any (λ c. eqb c b'r' || eqb c b'R') flags) && not (among args (codes "--recursive"))
    then false
    else if eqb (length targets) 0
    then true
    else any unsafe_target targets

unfoldable pub unsafe_tokens : List Text → Bool
unsafe_tokens [] = false
unsafe_tokens (command ∷ args) = same command (codes "rm") && unsafe_rm args

unfoldable pub recursive_rm_unsafe : Text → Bool
recursive_rm_unsafe script = any (λ s. unsafe_tokens (tokens s)) (segments script)

-- /[\u0000-\u0008\u000B\u000C\u000E-\u001F\u007F\u200B-\u200F…]/
unfoldable pub is_hidden : ℕ → Bool
is_hidden c =
    leb c 8
    || eqb c 11
    || eqb c 12
    || (leb 14 c && leb c 31)
    || eqb c 127
    || (leb 0x200B c && leb c 0x200F)
    || (leb 0x202A c && leb c 0x202E)
    || (leb 0x2060 c && leb c 0x2064)
    || (leb 0x2066 c && leb c 0x2069)
    || eqb c 0xFEFF

unfoldable pub has_hidden_characters : Text → Bool
has_hidden_characters s = any is_hidden s

abbrev when : Bool → String → List String
when b reason = if b then reason ∷ [] else []

unfoldable pub classify_script : Text → List String
classify_script s =
    reasons_of dangerous_script s
    ++ (when (recursive_rm_unsafe s) "recursive delete" ++ when (test self s) "touches Nox itself")

unfoldable pub classify_path : Text → List String
classify_path file =
    let normalized = swap_units b'\\' b'/' file in
    reasons_of sensitive_path normalized ++ when (test self normalized) "touches Nox itself"
