-- ===== src/Journal.antt =====
-- The broker's append-only record, src/changes/journal.js: `lineHash`, `read`, `append`, `verify`.
-- The file is the list of its lines, each as JSON.parse reads it. A row keeps `prev` and `hash`
-- beside its body, which is every other key. Children: `Chain` and `Tamper` prove, `Examples` runs.
pub mod Chain
pub mod Tamper
mod Examples
use Prim.Native.String
use grouvi_nox.Prelude.{
  Bool, Bool-cases, Failure, List, Memᴰ, Memᴰ-find?, Option, Option-cases, Result, String, [], all,
  all_codes, any, ap, arith, codes, drop, eq_iff, eq_refl, eqb, err, failure, false, find?,
  get_last?, get_last?-append, guard, guard-ok, has_char, if◌then◌else◌, inl, inr, is_digit, is_hex,
  is_hex_of_length, js_length, leb, length, length-append, length-drop, length-select, length-take,
  ltb, map, max, min, none, not, ok, one_of, plain_error, refl, reverse, select, some, starts,
  starts_with, subst, suc, sym, take, take_last, tests, true, units, zero, ℕ, ◌%◌, ◌&&◌, ◌*◌, ◌++◌,
  ◌+◌, ◌-◌, ◌/◌, ◌<◌, ◌==◌, ◌>>=◌, ◌>>◌, ◌||◌, ◌↔◌, ◌∙◌, ◌∷◌, ◌≡◌, ◌≢◌, ◌≤◌, ◌⊎◌,
}

-- An entry: keys, each with the JSON text of its value.
abbrev pub Fields : Type 0
Fields = List (String × String)

-- A row without `prev` and `hash`. A line that somebody edited may lack `seq`.
pub record Body : Type 0 where
  pub seq : Option ℕ
  pub ts : ℕ
  pub entry : Fields

pub record Row : Type 0 where
  pub body : Body
  pub prev : String
  pub hash : String

-- A line of the file: blank, not JSON, or an object.
pub data Line : Type 0 where
  blank unreadable : Line
  parsed : Row → Line

-- What `read` pushes: a row, or `{ corrupt }` for a line that is not JSON.
pub data Record : Type 0 where
  corrupt : Record
  row : Row → Record

pub data Verdict : Type 0 where
  intact : ℕ → String → Verdict
  broken : ℕ → String → Verdict

-- From outside: the digest of node:crypto in hexadecimal, which is never empty, and JSON.stringify.
pub record JournalEnv : Type 0 where
  pub sha256 : String → String
  pub stringify : Body → String
  pub sha256_nonempty : (s : String) → (sha256 s == "") ≡ false

-- '0'.repeat(64)
abbrev pub genesis : String
genesis = "0000000000000000000000000000000000000000000000000000000000000000"

abbrev pub reserved_keys : List String
reserved_keys = "seq" ∷ "ts" ∷ "prev" ∷ "hash" ∷ []

-- key in entry
unfoldable pub has_key : Fields → String → Bool
has_key entry key = any (λ kv. kv.0 == key) entry

-- The JSON texts of null, false, 0 and the empty text.
abbrev pub is_falsy : String → Bool
is_falsy text = text == "null" || text == "false" || text == "0" || text == "\"\""

-- row.corrupt
unfoldable pub is_marked : Fields → Bool
is_marked entry = any (λ kv. kv.0 == "corrupt" && not (is_falsy kv.1)) entry

unfoldable pub read : List Line → List Record
read [] = []
read (blank ∷ ls) = read ls
read (unreadable ∷ ls) = corrupt ∷ read ls
read (parsed r ∷ ls) = row r ∷ read ls

-- last?.hash || GENESIS
unfoldable pub last_hash : Option Record → String
last_hash none = genesis
last_hash (some corrupt) = genesis
last_hash (some (row r)) = if r.hash == "" then genesis else r.hash

abbrev pub or_zero : Option ℕ → ℕ
or_zero none = 0
or_zero (some n) = n

-- last?.seq || 0
unfoldable pub last_seq : Option Record → ℕ
last_seq none = 0
last_seq (some corrupt) = 0
last_seq (some (row r)) = or_zero r.body.seq

-- row.seq === expected
abbrev pub is_seq : Option ℕ → ℕ → Bool
is_seq none n = false
is_seq (some s) n = eqb s n

-- row.seq ?? expected
abbrev pub seq_or : Option ℕ → ℕ → ℕ
seq_or none n = n
seq_or (some s) n = s

-- The first reserved key that the entry uses.
unfoldable pub reserved_in : Fields → Option String
unfolding has_key
reserved_in entry = find? (has_key entry) reserved_keys

module _ (env : JournalEnv) where
  unfoldable pub line_hash : String → Body → String
  line_hash prev body = env.sha256 (String.◌++◌ prev (String.◌++◌ "\n" (env.stringify body)))

  unfoldable pub new_row : ℕ → Fields → Option Record → Row
  new_row now entry last =
      let prev = last_hash last in
      let body : Body = record { seq = some (last_seq last + 1); ts = now; entry = entry } in
      record { body = body; prev = prev; hash = line_hash prev body }

  unfoldable pub write_row : ℕ → Fields → List Line → Option String → List Line × Result Row
  write_row now entry file (some key) =
      (file, err (plain_error (String.◌++◌ "journal_reserved_key_" key)))
  write_row now entry file none =
      let r = new_row now entry (get_last? (read file)) in (file ++ parsed r ∷ [], ok r)

  -- The file with the new line, and the row. An error leaves the file alone.
  unfoldable pub append : ℕ → Fields → List Line → List Line × Result Row
  unfolding write_row
  append now entry file = write_row now entry file (reserved_in entry)

  -- rowPrev !== prev || hash !== lineHash(prev, body) || row.seq !== expected
  unfoldable pub mismatch : String → ℕ → Row → Bool
  mismatch prev expected r =
      not (r.prev == prev)
      || not (r.hash == line_hash prev r.body)
      || not (is_seq r.body.seq expected)

  -- The loop of `verify`, from the hash and the number that the next row must have.
  unfoldable pub verify_from : String → ℕ → List Record → Verdict
  verify_from prev expected [] = intact (expected - 1) prev
  verify_from prev expected (corrupt ∷ rows) = broken expected "unreadable_line"
  verify_from prev expected (row r ∷ rows) =
      let rest = verify_from r.hash (expected + 1) rows in
      if is_marked r.body.entry
      then broken expected "unreadable_line"
      else if mismatch prev expected r
      then broken (seq_or r.body.seq expected) "chain_mismatch"
      else rest

  unfoldable pub verify : List Line → Verdict
  unfolding verify_from
  verify file = verify_from genesis 1 (read file)
