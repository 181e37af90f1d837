-- ===== src/Limits.antt =====
-- The broker's limits, src/changes/broker.js: `locked` and `recordFailure` over `failures`,
-- `budgetExhausted` over `spent`, `repeatedTooOften` over `recent`. Times are milliseconds; a
-- difference of times stops at 0, where JavaScript's is negative: both fail `> window` and pass
-- `< window`. Children: `Window` bounds what a window lets through, `Repeats` is about `recent`.
pub mod Window
pub mod Repeats
pub mod Steps
mod Examples
use Prim.Native.String
use grouvi_nox.Prelude.{
  Bool, Bool-cases, Failure, List, Memᴰ, Memᴰ-find?, Option, Option-cases, Result, String, [], all,
  all_codes, any, ap, arith, codes, drop, eq_iff, eq_refl, eqb, err, failure, false, find?,
  get_last?, get_last?-append, guard, guard-ok, has_char, if◌then◌else◌, inl, inr, is_digit, is_hex,
  is_hex_of_length, js_length, leb, length, length-append, length-drop, length-select, length-take,
  ltb, map, max, min, none, not, ok, one_of, plain_error, refl, reverse, select, some, starts,
  starts_with, subst, suc, sym, take, take_last, tests, true, units, zero, ℕ, ◌%◌, ◌&&◌, ◌*◌, ◌++◌,
  ◌+◌, ◌-◌, ◌/◌, ◌<◌, ◌==◌, ◌>>=◌, ◌>>◌, ◌||◌, ◌↔◌, ◌∙◌, ◌∷◌, ◌≡◌, ◌≢◌, ◌≤◌, ◌⊎◌,
}
use grouvi_nox.Prelude.JsMap
use grouvi_nox.Prelude.JsMap.{JsMap}

abbrev pub failure_window_ms : ℕ
failure_window_ms = 600000

abbrev pub failure_limit : ℕ
failure_limit = 6

abbrev pub repeat_window_ms : ℕ
repeat_window_ms = 300000

abbrev pub repeat_limit : ℕ
repeat_limit = 8

abbrev pub budget_window_ms : ℕ
budget_window_ms = 360000

abbrev pub budget_limit : ℕ
budget_limit = 30

-- while (times.length && now - times[0] > window) times.shift()
unfoldable pub shift_old : ℕ → ℕ → List ℕ → List ℕ
shift_old window now [] = []
shift_old window now (t ∷ ts) =
    let rest = shift_old window now ts in if ltb window (now - t) then rest else t ∷ ts

-- `locked()`: the shifted `failures`, and whether they reach the limit.
unfoldable pub locked : ℕ → List ℕ → List ℕ × Bool
locked now failures =
    let left = shift_old failure_window_ms now failures in (left, leb failure_limit (length left))

-- `failures.push(now())`
unfoldable pub push : ℕ → List ℕ → List ℕ
push now times = times ++ now ∷ []

-- `budgetExhausted()`
unfoldable pub budget_exhausted : ℕ → List ℕ → List ℕ × Bool
budget_exhausted now spent =
    let left = shift_old budget_window_ms now spent in (left, leb budget_limit (length left))

-- argv.join('\u0000')
unfoldable pub join_nul : List String → String
join_nul [] = ""
join_nul (a ∷ []) = a
join_nul (a ∷ b ∷ as') = String.◌++◌ a (String.◌++◌ "\0" (join_nul (b ∷ as')))

abbrev pub Recent : Type 0
Recent = JsMap (List ℕ)

abbrev pub is_recent : ℕ → ℕ → Bool
is_recent now t = ltb (now - t) repeat_window_ms

abbrev pub stamps_or_none : Option (List ℕ) → List ℕ
stamps_or_none none = []
stamps_or_none (some ts) = ts

-- for (const [k, v] of recent) if (!v.some(live)) recent.delete(k)
unfoldable pub drop_idle : ℕ → Recent → Recent
drop_idle now [] = []
drop_idle now ((k, v) ∷ m) =
    if any (is_recent now) v then (k, v) ∷ drop_idle now m else drop_idle now m

unfoldable pub repeated_too_often : ℕ → List String → Recent → Recent × Bool
repeated_too_often now argv recent =
    let key = join_nul argv in
    let stamps = select (is_recent now) (stamps_or_none (JsMap.get recent key)) ++ now ∷ [] in
    let saved = JsMap.put recent key stamps in
    (
      if ltb 500 (length saved) then drop_idle now saved else saved,
      ltb repeat_limit (length stamps),
    )
