-- ===== src/Policy/Bounds.antt =====
-- The bounds that every proposal keeps once src/changes/policy.js has let it through.
use grouvi_nox.Prelude.{
  ltb→le, Bool, Bool-cases, List, Memᴰ, Option, String, [], any, arith, bind-ok, codes, eqb, err-ok,
  false, guard-ok, inl, inr, length, ltb, none, not, ok, ok-injective, plain_error, select, some,
  subst, suc, sym, take, true, zero, ℕ, ◌++◌, ◌>>=◌, ◌∷◌, ◌≡◌, ◌≤◌,
}
use grouvi_nox.Policy.Texts.{same, among, Text, trim, trim_start, trim_end, keep_before, is_blank}
use grouvi_nox.Regex.Syntax.{is_space}
use grouvi_nox.Policy.Proposals.{
  Input, FileInput, CommandInput, HealthInput, Proposal, Action, command, Url, Health, Probe, url,
  script, checks, max_script_chars, max_timeout_sec, default_timeout_sec, or_number, clamp,
  checked_script, optional_script, normal_action, normal_file, normal_command, file_tests,
  file_from, command_from, normal_health, normal_probe, normal_url, normalize_proposal,
}
use grouvi_nox.Policy.Classify.{scripts, action_scripts, probe_scripts}
use grouvi_nox.Policy.Parts.{
  normalize_proposal-Parts, normal_patch-files, collect-ok, length-collect,
}

-- A script that `script` lets through.
pub record IsScript (s : Text) : Type 0 where
  pub short : length s ≤ max_script_chars
  pub some_text : is_blank (trim s) ≡ false
  pub no_nul : any (eqb 0) s ≡ false

checked_script-IsScript :
    (s : Text) (field : String) (t : Text) → checked_script s field ≡ ok t → IsScript t
unfolding checked_script
checked_script-IsScript s field t h = elim (Bool-cases (is_blank (trim s))) [
  | inl bad ↦ absurd (err-ok (rw bad at h))
  | inr full ↦ elim (Bool-cases (ltb max_script_chars (length s))) [
    | inl bad ↦ absurd (err-ok (rw (full, bad) at h))
    | inr short ↦ elim (Bool-cases (any (eqb 0) s)) [
      | inl bad ↦ absurd (err-ok (rw (full, short, bad) at h))
      | inr clear ↦ subst IsScript (ok-injective s t (rw (full, short, clear) at h)) (record {
        short = ltb→le max_script_chars (length s) short;
        some_text = full;
        no_nul = clear;
      })
    ]
  ]
]

-- The empty text stands for no script.
abbrev OrNone : Text → Type 0
OrNone s = is_blank s ≡ false → IsScript s

optional_script-OrNone :
    (s : Text) (field : String) (t : Text) → optional_script s field ≡ ok t → OrNone t
optional_script-OrNone s field t h some' = elim (Bool-cases (is_blank s)) [
  | inl none' ↦
      absurd
        (clash (subst (λ x. is_blank x ≡ false) (sym (ok-injective [] t (rw none' at h))) some'))
  | inr full ↦ checked_script-IsScript s field t (rw full at h)
]
  where
    clash : true ≡ false → ⊥
    clash e = ground arith

abbrev All : (Text → Type 0) → List Text → Type 0
All P ts = (t : Text) → Memᴰ t ts → P t

module _ (P : Text → Type 0) where
  All-cons : (t : Text) (ts : List Text) → P t → All P ts → All P (t ∷ ts)
  All-cons t ts h k u (Memᴰ.head e) = subst P (sym e) h
  All-cons t ts h k u (Memᴰ.tail m) = k u m

  All-nil : All P []
  All-nil t m = elim m [ ]

  All-append : (ts us : List Text) → All P ts → All P us → All P (ts ++ us)
  All-append [] us h k t m = k t m
  All-append (x ∷ ts) us h k t (Memᴰ.head e) = h t (Memᴰ.head e)
  All-append (x ∷ ts) us h k t (Memᴰ.tail m) = All-append ts us (λ u n. h u (Memᴰ.tail n)) k t m

  All-select :
      (p : Text → Bool) (ts : List Text)
      → ((t : Text) → Memᴰ t ts → p t ≡ true → P t)
      → All P (select p ts)
  All-select p [] h t m = elim m [ ]
  All-select p (x ∷ ts) h t m = elim (Bool-cases (p x)) [
    | inl fits' ↦ elim (rw fits' at m) [
      | Memᴰ.head e ↦ h t (Memᴰ.head e) (subst (λ y. p y ≡ true) (sym e) fits')
      | Memᴰ.tail n ↦ All-select p ts (λ u k. h u (Memᴰ.tail k)) t n
    ]
    | inr other ↦ All-select p ts (λ u k. h u (Memᴰ.tail k)) t (rw other at m)
  ]

-- The time that a command is given.
abbrev pub HasTime : Action → Type 0
HasTime (command k) = (5 ≤ k.timeout_sec) × (k.timeout_sec ≤ max_timeout_sec)
HasTime _ = Unit {0}

clamp-bounds : (low high n : ℕ) → low ≤ high → (low ≤ clamp low high n) × (clamp low high n ≤ high)
unfolding clamp
clamp-bounds low high n h = (omega arith, omega arith)

abbrev Good : Action → Type 0
Good a = All OrNone (action_scripts a) × HasTime a

command-Good : (i : CommandInput) (a : Action) → normal_command i ≡ ok a → Good a
unfolding normal_command command_from
command-Good i a h =
    let (s, c, h1) = bind-ok (checked_script i.script "script") (command_from i) h in
    let (u, d, e) = bind-ok (checks _) (λ _. _) h1 in
    subst Good (ok-injective _ a e) (
      unfold action_scripts in
          All-cons OrNone s [] (λ _. checked_script-IsScript i.script "script" s c)
            (All-nil OrNone),
      clamp-bounds 5 max_timeout_sec (or_number i.timeout_sec default_timeout_sec) (omega arith),
    )

file-Good : (i : FileInput) (v : Text) (a : Action) → normal_file i v ≡ ok a → Good a
unfolding normal_file file_from
file-Good i v a h =
    let (u, c, h1) =
      bind-ok (checks (file_tests i)) (λ _. optional_script v "validate" >>= file_from i) h in
    let (w, d, e) = bind-ok (optional_script v "validate") (file_from i) h1 in
    subst Good (ok-injective _ a e) (
      unfold action_scripts in
          All-cons OrNone w [] (optional_script-OrNone v "validate" w d) (All-nil OrNone),
      tt,
    )

action-Good : (i : Input) (a : Action) → normal_action i ≡ ok a → Good a
unfolding normal_action
action-Good i a h = elim (Bool-cases (same i.kind (codes "patch"))) [
  | inl is ↦
      let (k, c, e) = normal_patch-files i.patch a (rw is at h) in
      subst Good e (unfold action_scripts in All-nil OrNone, tt)
  | inr other ↦ elim (Bool-cases (same i.kind (codes "file"))) [
    | inl is ↦ file-Good i.file i.validate a (rw (other, is) at h)
    | inr is ↦ command-Good i.command a (rw (other, is) at h)
  ]
]

abbrev probe_list : Probe → List Text
probe_list (url u n) = []
probe_list (script s) = s ∷ []

-- The rounds of a health check and the time between them.
abbrev pub HasRounds : Option Health → Type 0
HasRounds none = Unit {0}
HasRounds (some h) = (1 ≤ h.retries) × (h.retries ≤ 60) × (1 ≤ h.delay_sec) × (h.delay_sec ≤ 60)

module _ (parse_url : Text → Option Url) where
  url-Good :
      (u : Option Url) (n : ℕ) (p : Probe)
      → normal_url parse_url u n ≡ ok p
      → All OrNone (probe_list p)
  unfolding normal_url
  url-Good none n p h = absurd (err-ok h)
  url-Good (some u) n p h =
      let (t, e) =
        guard-ok (among (codes "http:" ∷ codes "https:" ∷ []) u.protocol)
          (plain_error "bad_healthcheck_url") (ok (url u.href n)) h in
      subst (λ x. All OrNone (probe_list x)) (ok-injective _ p e) (All-nil OrNone)

  probe-Good :
      (i : HealthInput) (p : Probe) → normal_probe parse_url i ≡ ok p → All OrNone (probe_list p)
  unfolding normal_probe
  probe-Good i p h = elim (Bool-cases (is_blank i.url)) [
    | inr some' ↦ url-Good (parse_url i.url) i.expect_status p (rw some' at h)
    | inl none' ↦ elim (Bool-cases (is_blank i.script)) [
      | inl bad ↦ absurd (err-ok (rw (none', bad) at h))
      | inr full ↦
          let (s, c, e) =
            bind-ok (checked_script i.script "healthcheck") (λ s. ok (script s))
              (rw (none', full) at h) in
          subst (λ x. All OrNone (probe_list x)) (ok-injective _ p e)
            (All-cons OrNone s [] (λ _. checked_script-IsScript i.script "healthcheck" s c)
              (All-nil OrNone))
    ]
  ]

  health-Good :
      (i : Option HealthInput) (h : Option Health)
      → normal_health parse_url i ≡ ok h
      → All OrNone (probe_scripts h) × HasRounds h
  unfolding normal_health
  health-Good none h e =
      subst (λ x. All OrNone (probe_scripts x) × HasRounds x) (ok-injective none h e)
        (unfold probe_scripts in All-nil OrNone, tt)
  health-Good (some i) h e =
      let (p, c, k) =
        bind-ok (normal_probe parse_url i)
          (λ p. ok (
            some (record {
              retries = clamp 1 60 (or_number i.retries 10);
              delay_sec = clamp 1 60 (or_number i.delay_sec 3);
              probe = p;
            })))
          e in
      let (a, b) = clamp-bounds 1 60 (or_number i.retries 10) (omega arith) in
      let (d, f) = clamp-bounds 1 60 (or_number i.delay_sec 3) (omega arith) in
      subst (λ x. All OrNone (probe_scripts x) × HasRounds x) (ok-injective _ h k)
        (of_probe p _ _ (probe-Good i p c), (a, b, d, f))
    where
      of_probe :
          (p : Probe) (r d : ℕ)
          → All OrNone (probe_list p)
          → All OrNone (probe_scripts (some (record { retries = r; delay_sec = d; probe = p })))
      of_probe (url u n) r d g = unfold probe_scripts in g
      of_probe (script s) r d g = unfold probe_scripts in g

length-trim_start : (s : Text) → length (trim_start s) ≤ length s
unfolding trim_start
length-trim_start [] = omega arith
length-trim_start (c ∷ s) = elim (Bool-cases (is_space c)) [
  | inl gone ↦ rw (length, gone) (omega (arith, length-trim_start s))
  | inr kept ↦ rw (length, kept) (omega arith)
]

length-keep_before : (c : ℕ) (s : Text) → length (keep_before c s) ≤ suc (length s)
unfolding keep_before
length-keep_before c [] = ground arith
length-keep_before c (d ∷ t) = omega arith

length-trim_end : (s : Text) → length (trim_end s) ≤ length s
unfolding trim_end
length-trim_end [] = omega arith
length-trim_end (c ∷ s) = omega (arith, length-keep_before c (trim_end s), length-trim_end s)

length-trim : (s : Text) → length (trim s) ≤ length s
unfolding trim
length-trim s = omega (arith, length-trim_end (trim_start s), length-trim_start s)

length-take-le : (n : ℕ) (s : Text) → length (take n s) ≤ n
length-take-le zero s = omega arith
length-take-le (suc n) [] = omega arith
length-take-le (suc n) (c ∷ s) = omega (arith, length-take-le n s)

length-take-le_list : (n : ℕ) (ts : List Text) → length (take n ts) ≤ n
length-take-le_list zero s = omega arith
length-take-le_list (suc n) [] = omega arith
length-take-le_list (suc n) (c ∷ s) = omega (arith, length-take-le_list n s)

blank_not : (b : Bool) → not b ≡ true → b ≡ false
blank_not b h = ground arith

pub record IsBounded (p : Proposal) : Type 0 where
  pub title_short : length p.title ≤ 160
  pub why_short : length p.why ≤ 2000
  pub few_posts : length p.post ≤ 8
  pub all_scripts : (s : Text) → Memᴰ s (scripts p) → IsScript s
  pub time : HasTime p.action
  pub rounds : HasRounds p.healthcheck

-- What `normalizeProposal` lets through keeps the limits: a title of at most 160 code units, at most
-- 8 post steps; every script that would run, the undo, the validation and the health check included,
-- has at most 8000 code units, is not blank and holds no NUL; a command runs for 5 to 900 seconds; a
-- health check has 1 to 60 rounds with 1 to 60 seconds between them.
pub normalize_proposal-IsBounded :
    (parse_url : Text → Option Url) (i : Input) (p : Proposal)
    → normalize_proposal parse_url i ≡ ok p
    → IsBounded p
normalize_proposal-IsBounded parse_url i p h =
    let parts = normalize_proposal-Parts parse_url i p h in
    let (acts, time) = action-Good i p.action parts.from_action in
    let (probes, rounds) = health-Good parse_url i.healthcheck p.healthcheck parts.from_health in
    let posts : All OrNone p.post = λ s m _.
      collect-ok (λ s. checked_script s "post") IsScript (take 8 i.post) p.post s
        (λ t a. checked_script-IsScript t "post" a) parts.from_post m in
    record {
      title_short =
          subst (λ x. length x ≤ 160) (sym parts.title)
            (omega (arith, length-trim (take 160 i.title), length-take-le 160 i.title));
      why_short =
          subst (λ x. length x ≤ 2000) (sym parts.why)
            (omega (arith, length-trim (take 2000 i.why), length-take-le 2000 i.why));
      few_posts =
          subst (λ n. n ≤ 8) (sym (length-collect _ (take 8 i.post) p.post parts.from_post))
            (length-take-le_list 8 i.post);
      all_scripts =
          unfold scripts in
          All-select IsScript _
            (p.post ++ (p.undo ∷ action_scripts p.action ++ probe_scripts p.healthcheck))
            (λ t m full.
              All-append OrNone p.post
                (p.undo ∷ action_scripts p.action ++ probe_scripts p.healthcheck) posts
                (All-cons OrNone p.undo _
                  (optional_script-OrNone i.undo "undo" p.undo parts.from_undo)
                  (All-append OrNone (action_scripts p.action) (probe_scripts p.healthcheck) acts
                    probes))
                t m (blank_not (is_blank t) full));
      time = time;
      rounds = rounds;
    }
