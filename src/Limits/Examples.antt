-- ===== src/Limits/Examples.antt =====
-- Runs of the broker's limits, and their theorems at concrete inputs.
use grouvi_nox.Prelude.{
  List, [], arith, leb, length, ltb, refl, select, some, ℕ, ◌++◌, ◌+◌, ◌-◌, ◌∷◌, ◌≡◌,
}
use grouvi_nox.Prelude.JsMap
use grouvi_nox.Limits.{
  locked, is_recent, stamps_or_none, join_nul, repeated_too_often, repeat_limit, failure_limit,
  failure_window_ms, Recent,
}
use grouvi_nox.Limits.Window.{locked_exact}
use grouvi_nox.Limits.Repeats.{repeated_exact}

joined : join_nul ("ls" ∷ "-l" ∷ []) ≡ "ls\0-l"
unfolding join_nul
joined = refl

abbrev earlier : List ℕ
earlier = 1 ∷ 2 ∷ 700000 ∷ []

locked_exact_example :
    (locked 700001 earlier).1
    ≡ leb failure_limit (length (select (λ t. leb (700001 - t) failure_window_ms) earlier))
locked_exact_example = locked_exact 700001 earlier (omega arith)

abbrev seen : Recent
seen = ("ls", 10 ∷ 20 ∷ []) ∷ []

repeated_exact_example :
    let live = select (is_recent 30) (stamps_or_none (JsMap.get seen (join_nul ("ls" ∷ [])))) in
    ((repeated_too_often 30 ("ls" ∷ []) seen).1 ≡ ltb repeat_limit (length live + 1))
    × (JsMap.get (repeated_too_often 30 ("ls" ∷ []) seen).0 (join_nul ("ls" ∷ []))
        ≡ some (live ++ 30 ∷ []))
repeated_exact_example = repeated_exact 30 ("ls" ∷ []) seen
