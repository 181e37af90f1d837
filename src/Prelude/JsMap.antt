-- ===== src/Prelude/JsMap.antt =====
-- JavaScript's `Map` with string keys, as its entries in the order of insertion.
use Prim.Native.Nat.{◌+◌, ◌≤◌}
use Prim.Native.String.{String}
use mathlib.Core.Path.{◌≡◌, refl}
use mathlib.Core.List.{List, [], ◌∷◌}
use mathlib.Core.Option.{Option, none, some, some-injective}
use mathlib.Core.Bool.{false}
use mathlib.Core.Logic.{◌≢◌, ◌⊎◌, inl, inr}
use native.Mathlib.Omega.{arith}
use text.Mathlib.TextEquality.{eq_iff}
use grouvi_nox.Prelude.Tests.{Bool-cases, ◌==◌, if◌then◌else◌}
use grouvi_nox.Prelude.Lists.{length}

abbrev pub JsMap {ℓ} : Type ℓ → Type ℓ
JsMap V = List (String × V)

module _ {ℓ} {V : Type ℓ} where
  unfoldable pub get : JsMap V → String → Option V
  get [] k = none
  get ((j, v) ∷ m) k = if j == k then some v else get m k

  -- `map.set(k, v)`: a key that is there keeps its place, a new one goes to the end.
  unfoldable pub put : JsMap V → String → V → JsMap V
  put [] k v = (k, v) ∷ []
  put ((j, w) ∷ m) k v = if j == k then (j, v) ∷ m else (j, w) ∷ put m k v

  -- `map.delete(k)`
  unfoldable pub remove : JsMap V → String → JsMap V
  remove [] k = []
  remove ((j, v) ∷ m) k = if j == k then remove m k else (j, v) ∷ remove m k

  pub get-put :
      (m : JsMap V) (k j : String) (v : V)
      → get (put m k v) j ≡ (if k == j then some v else get m j)
  unfolding get put
  get-put [] k j v = refl
  get-put ((i, w) ∷ m) k j v = ground (arith, eq_iff k j, eq_iff i k, eq_iff i j, get-put m k j v)

  pub get-remove :
      (m : JsMap V) (k j : String) → get (remove m k) j ≡ (if k == j then none else get m j)
  unfolding get remove
  get-remove [] k j = ground arith
  get-remove ((i, w) ∷ m) k j = ground (arith, eq_iff k j, eq_iff i k, eq_iff i j, get-remove m k j)

  pub length-remove : (m : JsMap V) (k : String) → length (remove m k) ≤ length m
  unfolding remove
  length-remove [] k = omega arith
  length-remove ((i, w) ∷ m) k = ground (arith, length-remove m k)

  pub length-put : (m : JsMap V) (k : String) (v : V) → length (put m k v) ≤ length m + 1
  unfolding put
  length-put [] k v = omega arith
  length-put ((i, w) ∷ m) k v = ground (arith, length-put m k v)

  -- What is there after a `put`: the new value at its key, and what was there elsewhere.
  pub entry_of_put :
      (m : JsMap V) (k j : String) (v w : V)
      → get (put m k v) j ≡ some w
      → ((k ≡ j) × (v ≡ w)) ⊎ ((k ≢ j) × (get m j ≡ some w))
  entry_of_put m k j v w h = elim (Bool-cases (k == j)) [
    | inl same ↦ inl ((eq_iff k j).0 same, some-injective v w (rw (get-put m k j v, same) at h))
    | inr other ↦ inr (λ e. differ other e, rw (get-put m k j v, other) at h)
  ]
    where
      differ : (k == j) ≡ false → k ≡ j → ⊥
      differ other e = ground (arith, eq_iff k j)
