-- ===== src/Executor/Host.antt =====
-- The host under src/changes/executor.js: files, the file-system calls of Node that it makes, and
-- what it asks of the shell, of git and of the network.
use Prim.Native.String
use Prim.Native.Char.{code}
use grouvi_nox.Prelude.{
  Bool, List, Option, String, eqb, false, if◌then◌else◌, none, one_of, some, true, ℕ, ◌==◌, ◌||◌,
}
use grouvi_nox.Prelude.JsMap
use grouvi_nox.Prelude.JsMap.{JsMap}

pub record Owner : Type 0 where
  pub uid : ℕ
  pub gid : ℕ

pub record File : Type 0 where
  pub content : String
  pub mode : ℕ
  pub owner : Owner

-- Files and directories by real path; `links` resolves a path that is not real.
pub record World (E : Type 0) : Type 0 where
  pub files : JsMap File
  pub dirs : List String
  pub links : JsMap String
  pub outside : E

-- What `runScript` resolves with.
pub record ScriptResult : Type 0 where
  pub code : ℕ
  pub timed_out : Bool
  pub out : String
  pub ms : ℕ

-- What `runGit` resolves with.
pub record GitResult : Type 0 where
  pub code : ℕ
  pub out : String
  pub err : String

-- The shell, git, fetch (`none`: it threw), the digest, and the two checks of a patched path that
-- ask the file system (`insideRealRoot`, `lstatSync(…).isSymbolicLink()`).
pub record Host : Type 1 where
  pub Outside : Type 0
  pub run_script : String → String → ℕ → World Outside → ScriptResult × World Outside
  pub run_git : List String → String → String → World Outside → GitResult × World Outside
  pub fetch_status : String → World Outside → Option ℕ × World Outside
  pub sha256 : String → String
  pub inside_real_root : World Outside → String → String → Bool
  pub is_symlink : World Outside → String → Bool
  pub owner_of_dir : String → Owner
  pub now : World Outside → ℕ

-- The text before the last "/".
unfoldable pub before_last_slash : String → Option String
before_last_slash String.[] = none
before_last_slash (String.◌∷◌ c s) = elim (before_last_slash s) [
  | some p ↦ some (String.◌∷◌ c p)
  | none ↦ if eqb (code c) b'/' then some "" else none
]

-- path.dirname of a path that does not end in "/"
unfoldable pub dirname : String → String
dirname p = elim (before_last_slash p) [ none ↦ "." | some d ↦ if d == "" then "/" else d ]

unfoldable pub join : String → String → String
join a b = String.◌++◌ a (String.◌++◌ "/" b)

abbrev pub is_some {ℓ} : {A : Type ℓ} → Option A → Bool
is_some none = false
is_some (some a) = true

-- fs.copyFileSync onto `old`: the content and the mode; a new file is owned by the process.
unfoldable pub copied : Option File → File → File
copied none f = record { content = f.content; mode = f.mode; owner = record { uid = 0; gid = 0 } }
copied (some old) f = record { content = f.content; mode = f.mode; owner = old.owner }

module _ {E : Type 0} where
  unfoldable pub resolve : World E → String → String
  resolve w p = elim (JsMap.get w.links p) [ some q ↦ q | none ↦ p ]

  unfoldable pub file_at : World E → String → Option File
  file_at w p = JsMap.get w.files p

  unfoldable pub is_dir : World E → String → Bool
  is_dir w p = one_of w.dirs p

  unfoldable pub exists : World E → String → Bool
  exists w p = is_some (file_at w p) || is_dir w p

  -- fs.realpathSync, which throws (`none`) if nothing is there
  unfoldable pub real_path : World E → String → Option String
  real_path w p = let q = resolve w p in if exists w q then some q else none

  -- fs.writeFileSync, chmodSync and lchownSync of a whole file
  unfoldable pub write_file : World E → String → File → World E
  write_file w p f = record w { files = JsMap.put w.files p f }

  -- fs.rmSync with `force`
  unfoldable pub remove_file : World E → String → World E
  remove_file w p = record w { files = JsMap.remove w.files p }

  unfoldable pub rename_with : World E → String → String → Option File → World E
  rename_with w from to none = w
  rename_with w from to (some f) = write_file (remove_file w from) to f

  -- fs.renameSync of a file that is there
  unfoldable pub rename : World E → String → String → World E
  rename w from to = rename_with w from to (file_at w from)

  -- `readRegularFile` refuses links and what is not a file.
  unfoldable pub read_regular : World E → String → Option String
  read_regular w p = elim (JsMap.get w.links p) [
    | some q ↦ none
    | none ↦ elim (file_at w p) [ none ↦ none | some f ↦ some f.content ]
  ]
