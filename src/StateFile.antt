-- ===== src/StateFile.antt =====
-- The state file that the web service and the commands share, src/store.js: what a process keeps of it
-- and when it reads it again, and the removal of ended sessions and tokens. Child
-- `Pruned` proves, `Examples` holds the runs. A write gives the file the time of the write.
pub mod Pruned
mod Examples
use grouvi_nox.Prelude.{
  Bool, Bool-cases, Failure, List, Memᴰ, Memᴰ-find?, Option, Option-cases, Result, String, [], all,
  all_codes, any, ap, arith, bind-ok, codes, drop, eq_iff, eq_refl, eqb, err, err-ok, failure,
  false, find?, get_last?, get_last?-append, guard, guard-ok, has_char, if◌then◌else◌, inl, inr,
  is_digit, is_hex, is_hex_of_length, js_length, leb, length, length-append, length-drop,
  length-select, length-take, ltb, map, max, min, none, not, ok, ok-injective, one_of, plain_error,
  refl, reverse, select, some, starts, starts_with, subst, suc, sym, take, take_last, tests, true,
  units, zero, ℕ, ◌%◌, ◌&&◌, ◌*◌, ◌++◌, ◌+◌, ◌-◌, ◌/◌, ◌<◌, ◌==◌, ◌>>=◌, ◌>>◌, ◌||◌, ◌↔◌, ◌∙◌, ◌∷◌,
  ◌≡◌, ◌≢◌, ◌≤◌, ◌⊎◌,
}
use grouvi_nox.Auth.{Store, Session, EnrollToken, is_used}

-- What the file does with a state as it is read: the fields with a default, and the secret.
pub record Fields (State : Type 0) : Type 0 where
  pub defaults : State
  pub normalise : State → State × Bool
  pub has_secret : State → Bool
  pub with_secret_of : State → State → State

-- The file: none where it is missing or not JSON, and its mtime, 0 where it is missing.
pub record Disk (State : Type 0) : Type 0 where
  pub content : Option State
  pub mtime : ℕ

pub record Process (State : Type 0) : Type 0 where
  pub state : Option State
  pub known_mtime : ℕ
  pub last_checked_at : ℕ

module _ {State : Type 0} (fields : Fields State) where
  unfoldable pub save : ℕ → State → Process State → Process State × Disk State
  save now s p = (
    record p { state = some s; known_mtime = now; last_checked_at = now },
    record { content = some s; mtime = now },
  )

  unfoldable pub load : ℕ → Process State → Disk State → Process State × Disk State
  load now p d = elim p.state [
    | some s ↦ (p, d)
    | none ↦ elim d.content [
      | some read ↦
          let p' = record p { known_mtime = d.mtime } in
          if (fields.normalise read).1
          then save now (fields.normalise read).0 p'
          else (record p' { state = some (fields.normalise read).0 }, d)
      | none ↦
          if (fields.normalise fields.defaults).1
          then save now (fields.normalise fields.defaults).0 p
          else (record p { state = some (fields.normalise fields.defaults).0 }, d)
    ]
  ]

  -- What is read of the file, with the secret of before where it has none.
  abbrev pub refreshed : State → State → State
  refreshed old read =
      (fields.normalise (
        if not (fields.has_secret read) && fields.has_secret old
        then fields.with_secret_of old read
        else read)).0

  unfoldable pub ensure_fresh : ℕ → State → Process State → Disk State → Process State
  ensure_fresh now old p d =
      if ltb now (p.last_checked_at + 250)
      then p
      else if eqb d.mtime 0 || eqb d.mtime p.known_mtime
      then record p { last_checked_at = now }
      else elim d.content [
        | none ↦ record p { last_checked_at = now }
        | some read ↦ record {
          state = some (refreshed old read);
          known_mtime = d.mtime;
          last_checked_at = now;
        }
      ]

  unfoldable pub get : ℕ → Process State → Disk State → Process State × Disk State
  get now p d = elim p.state [ none ↦ load now p d | some s ↦ (ensure_fresh now s p d, d) ]

abbrev pub is_live : ℕ → ℕ → Session → Bool
is_live ttl_ms now s = not (s.revoked || ltb (s.created_at + ttl_ms) now)

abbrev pub is_open : ℕ → EnrollToken → Bool
is_open now t = not (is_used t.used_at) && ltb now t.expires_at

-- The state afterwards; the file is written if something was dropped.
unfoldable pub prune : ℕ → ℕ → Store → Store
prune ttl_ms now st = record st {
  sessions = select (λ e. is_live ttl_ms now e.1) st.sessions;
  enroll_tokens = select (is_open now) st.enroll_tokens;
}
