-- ===== src/Limits/Repeats.antt =====
-- The count of equal probes, `repeatedTooOften` of src/changes/broker.js.
use grouvi_nox.Prelude.{
  some-injective, Bool-cases, List, String, [], any, ap, arith, eq_refl, inl, inr, length,
  length-append, ltb, refl, select, some, true, ℕ, ◌++◌, ◌+◌, ◌==◌, ◌∷◌, ◌≡◌,
}
use grouvi_nox.Prelude.JsMap
use grouvi_nox.Prelude.JsMap.{JsMap, get-put}
use grouvi_nox.Limits.{
  join_nul, Recent, is_recent, stamps_or_none, drop_idle, repeated_too_often, repeat_limit,
}

-- The cleanup keeps what is live.
get-drop_idle :
    (now : ℕ) (m : Recent) (k : String) (v : List ℕ)
    → JsMap.get m k ≡ some v
    → any (is_recent now) v ≡ true
    → JsMap.get (drop_idle now m) k ≡ some v
unfolding drop_idle JsMap.get
get-drop_idle now [] k v h live = cc
get-drop_idle now ((j, w) ∷ m) k v h live = elim (Bool-cases (j == k)) [
  | inl same ↦
      let w_eq : w ≡ v = some-injective w v (rw same at h) in
      let w_live : any (is_recent now) w ≡ true = rw w_eq live in rw w_live (rw same (ap some w_eq))
  | inr other ↦ elim (Bool-cases (any (is_recent now) w)) [
    | inl kept ↦ rw kept (rw other (get-drop_idle now m k v (rw other at h) live))
    | inr gone ↦ rw gone (get-drop_idle now m k v (rw other at h) live)
  ]
]

any-append : (now : ℕ) (ts : List ℕ) → any (is_recent now) (ts ++ now ∷ []) ≡ true
any-append now [] = ground arith
any-append now (t ∷ ts) = rw (any-append now ts) (ground arith)

-- A probe is a repeat exactly if the same argument list came more than `repeat_limit` times in the
-- window, this time included; and the map then holds its live times with the present one, also
-- after a cleanup.
pub repeated_exact :
    (now : ℕ) (argv : List String) (recent : Recent)
    → let live = select (is_recent now) (stamps_or_none (JsMap.get recent (join_nul argv))) in
      ((repeated_too_often now argv recent).1 ≡ ltb repeat_limit (length live + 1))
      × (JsMap.get (repeated_too_often now argv recent).0 (join_nul argv) ≡ some (live ++ now ∷ []))
unfolding repeated_too_often
repeated_exact now argv recent =
    let key = join_nul argv in
    let live = select (is_recent now) (stamps_or_none (JsMap.get recent key)) in
    let stamps = live ++ now ∷ [] in
    let saved = JsMap.put recent key stamps in
    let found : JsMap.get saved key ≡ some stamps =
      rw (get-put recent key key stamps, eq_refl key) refl in
    (
      ap (λ n. ltb repeat_limit n) (length-append live (now ∷ [])),
      elim (Bool-cases (ltb 500 (length saved))) [
        | inl many ↦ rw many (get-drop_idle now saved key stamps found (any-append now live))
        | inr few ↦ rw few found
      ],
    )
