-- ===== src/RateLimit.antt =====
-- The rate limiter of the web server, `rateLimit` in src/security.js: one bucket for each address.
use grouvi_nox.Prelude.{
  Bool, Bool-cases, Failure, List, Memᴰ, Memᴰ-find?, Option, Option-cases, Result, String, [], all,
  all_codes, any, ap, arith, codes, drop, eq_iff, eq_refl, eqb, err, err-ok, failure, false, find?,
  get_last?, get_last?-append, has_char, if◌then◌else◌, inl, inr, is_digit, is_hex,
  is_hex_of_length, js_length, leb, length, length-append, length-drop, length-select, length-take,
  ltb, map, max, min, none, not, ok, ok-injective, one_of, plain_error, refl, reverse, select, some,
  starts, starts_with, subst, suc, sym, take, take_last, tests, true, units, zero, ℕ, ◌%◌, ◌&&◌,
  ◌*◌, ◌++◌, ◌+◌, ◌-◌, ◌/◌, ◌<◌, ◌==◌, ◌||◌, ◌↔◌, ◌∙◌, ◌∷◌, ◌≡◌, ◌≢◌, ◌≤◌, ◌⊎◌,
}
use grouvi_nox.Prelude.JsMap
use grouvi_nox.Prelude.JsMap.{JsMap}
pub mod Window
mod Examples

pub record Bucket : Type 0 where
  pub count : ℕ
  pub reset : ℕ

abbrev pub Buckets : Type 0
Buckets = JsMap Bucket

-- !b || now > b.reset
unfoldable pub bucket_for : ℕ → ℕ → Option Bucket → Bucket
bucket_for window_ms now none = record { count = 0; reset = now + window_ms }
bucket_for window_ms now (some b) =
    if ltb b.reset now then record { count = 0; reset = now + window_ms } else b

abbrev pub counted : Bucket → Bucket
counted b = record { count = b.count + 1; reset = b.reset }

-- The middleware for one request: the buckets afterwards, and whether it calls `next()`. Otherwise
-- it answers 429.
unfoldable pub rate_limit : ℕ → ℕ → String → ℕ → Buckets → Buckets × Bool
rate_limit window_ms max key now buckets =
    let b = counted (bucket_for window_ms now (JsMap.get buckets key)) in
    (JsMap.put buckets key b, not (ltb max b.count))
