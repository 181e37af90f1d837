-- ===== src/RateLimit/Examples.antt =====
-- The limiter of src/security.js at concrete requests.
use grouvi_nox.Prelude.{[], arith, refl, ◌∷◌, ◌≡◌, ◌≤◌}
use grouvi_nox.Prelude.JsMap
use grouvi_nox.RateLimit.{Buckets, rate_limit, bucket_for}
use grouvi_nox.RateLimit.Window.{Requests, Within, admitted, admitted_bounded, admitted_first}

abbrev some_requests : Requests
some_requests =
    ("a", 100) ∷ ("b", 110) ∷ ("a", 120) ∷ ("a", 130) ∷ ("a", 160) ∷ ("a", 170) ∷ ("a", 180) ∷ []

-- One request was counted before, and its bucket ends at 150.
abbrev earlier : Buckets
earlier = ("a", record { count = 1; reset = 150 }) ∷ []

-- One passes before the bucket ends and two behind it.
three_of_two : admitted 100 2 "a" some_requests earlier ≡ 3
unfolding admitted rate_limit bucket_for JsMap.get JsMap.put
three_of_two = refl

in_span : Within 100 200 some_requests
unfolding Within
in_span = omega arith

admitted_bounded_example : admitted 100 2 "a" some_requests earlier ≤ 4
admitted_bounded_example = admitted_bounded 100 2 "a" 100 some_requests earlier in_span

admitted_first_example : admitted 100 2 "a" some_requests [] ≤ 2
unfolding JsMap.get
admitted_first_example = admitted_first 100 2 "a" 100 some_requests [] refl in_span
