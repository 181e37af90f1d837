-- ===== src/Incidents/Closing.antt =====
-- The second phase of `syncIncidents` (src/db/incidents.js) closes what is over, and the two phases
-- together.
use grouvi_nox.Prelude.{
  Bool, Bool-cases, List, Memᴰ, String, [], any, ap, arith, eq_iff, eqb, false, if◌then◌else◌, inl,
  inr, not, one_of, refl, select, sym, true, ℕ, ◌&&◌, ◌==◌, ◌||◌, ◌∙◌, ◌∷◌, ◌≡◌,
}
use grouvi_nox.Incidents.{
  Incident, Database, Alert, is_active, update_row, close, recovered, set_row, with_event,
  sync_alerts, is_over, close_over, keys_of, sync_incidents,
}
use grouvi_nox.Incidents.Rows.{Distinct, has_active, same_row}
use grouvi_nox.Incidents.Sound.{IsNumbered, sync_alerts-IsNumbered}
use grouvi_nox.Incidents.Active.{
  is_recent, any-congr, any-true, any-found, sync_alerts-active, sync_alerts-recent,
}

any-update_row_if :
    (q : Incident → Bool) (id : ℕ) (set : Incident → Incident) (rows : List Incident)
    → any q (update_row id set rows) ≡ any (λ r. q (if eqb r.id id then set r else r)) rows
unfolding update_row
any-update_row_if q id set [] = refl
any-update_row_if q id set (x ∷ xs) = rw (any-update_row_if q id set xs) refl

and_false : (b : Bool) → b && false ≡ false
and_false b = ground arith

module _ (now grace : ℕ) (keys : List String) where
  -- Whether the loop over `rs` closes the row.
  abbrev is_closed : List Incident → Incident → Bool
  is_closed rs r = any (λ u. eqb u.id r.id && is_over now grace keys u) rs

  abbrev is_left : String → List Incident → Incident → Bool
  is_left k rs r = is_active r && r.key == k && not (is_closed rs r)

  left_step :
      (k : String) (u : Incident) (rs : List Incident) (r : Incident)
      → is_over now grace keys u ≡ true
      → is_left k rs (if eqb r.id u.id then close now recovered r else r) ≡ is_left k (u ∷ rs) r
  left_step k u rs r over = elim (Bool-cases (eqb r.id u.id)) [
    | inl same ↦ rw (same, eqb_sym r.id u.id same, over) (ground arith)
    | inr other ↦ rw (other, eqb_sym_not r.id u.id other) refl
  ]
    where
      eqb_sym : (m n : ℕ) → eqb m n ≡ true → eqb n m ≡ true
      eqb_sym m n h = ground (arith, h)

      eqb_sym_not : (m n : ℕ) → eqb m n ≡ false → eqb n m ≡ false
      eqb_sym_not m n h = ground (arith, h)

  left_skip :
      (k : String) (u : Incident) (rs : List Incident) (r : Incident)
      → is_over now grace keys u ≡ false
      → is_left k rs r ≡ is_left k (u ∷ rs) r
  left_skip k u rs r lasts = rw lasts (rw (and_false (eqb u.id r.id)) refl)

  close_over-left :
      (k : String) (rs : List Incident) (db : Database)
      → has_active k (close_over now grace keys rs db).0.incidents ≡ any (is_left k rs) db.incidents
  unfolding close_over set_row with_event
  close_over-left k [] db = any-congr _ _ db.incidents (λ r m. ground arith)
  close_over-left k (u ∷ rs) db = elim (Bool-cases (is_over now grace keys u)) [
    | inr lasts ↦
        rw (close_over, lasts)
          (close_over-left k rs db ∙ any-congr _ _ db.incidents (λ r m. left_skip k u rs r lasts))
    | inl over ↦
        rw (close_over, over)
          (close_over-left k rs _
            ∙ any-update_row_if (is_left k rs) u.id (close now recovered) db.incidents
            ∙ any-congr _ _ db.incidents (λ r m. left_step k u rs r over))
  ]

  Memᴰ-active :
      (r : Incident) (rows : List Incident)
      → Memᴰ r rows
      → is_active r ≡ true
      → Memᴰ r (select is_active rows)
  Memᴰ-active r [] m h = elim m [ ]
  Memᴰ-active r (x ∷ xs) (Memᴰ.head e) h = rw (sym (ap is_active e) ∙ h) (Memᴰ.head e)
  Memᴰ-active r (x ∷ xs) (Memᴰ.tail m) h =
      let later = Memᴰ-active r xs m h in
      elim (Bool-cases (is_active x)) [
        | inl active ↦ rw active (Memᴰ.tail later)
        | inr ended ↦ rw ended later
      ]

  active-Memᴰ : (r : Incident) (rows : List Incident) → Memᴰ r (select is_active rows) → Memᴰ r rows
  active-Memᴰ r [] m = elim m [ ]
  active-Memᴰ r (x ∷ xs) m = elim (Bool-cases (is_active x)) [
    | inr ended ↦ Memᴰ.tail (active-Memᴰ r xs (rw ended at m))
    | inl active ↦ in_front (λ t. active-Memᴰ r xs t) (rw active at m)
  ]
    where
      in_front :
          (Memᴰ r (select is_active xs) → Memᴰ r xs)
          → Memᴰ r (x ∷ select is_active xs)
          → Memᴰ r (x ∷ xs)
      in_front later (Memᴰ.head e) = Memᴰ.head e
      in_front later (Memᴰ.tail t) = Memᴰ.tail (later t)

  -- The loop over all active rows closes exactly those that are over.
  is_closed-is_over :
      (r : Incident) (rows : List Incident)
      → Distinct rows
      → Memᴰ r rows
      → is_active r ≡ true
      → is_closed (select is_active rows) r ≡ is_over now grace keys r
  is_closed-is_over r rows d m active = elim (Bool-cases (is_over now grace keys r)) [
    | inl over ↦
        any-true (λ u. eqb u.id r.id && is_over now grace keys u) r (select is_active rows)
          (Memᴰ-active r rows m active) (both r.id over)
        ∙ sym over
    | inr lasts ↦ elim (Bool-cases (is_closed (select is_active rows) r)) [
      | inr none_closes ↦ none_closes ∙ sym lasts
      | inl closes ↦
          let (u, n, fits) = any-found _ (select is_active rows) closes in
          let (same_id, over) = parts _ _ fits in
          let e = same_row u r rows d (active-Memᴰ u rows n) m (equal_ids u.id r.id same_id) in
          let bad : true ≡ false = sym over ∙ (ap (is_over now grace keys) e ∙ lasts) in
          absurd (ground (arith, bad))
    ]
  ]
    where
      both : (n : ℕ) → is_over now grace keys r ≡ true → eqb n n && is_over now grace keys r ≡ true
      both n h = ground (arith, h)

      parts : (b c : Bool) → b && c ≡ true → (b ≡ true) × (c ≡ true)
      parts b c h = ground (arith, h)

      equal_ids : (m n : ℕ) → eqb m n ≡ true → m ≡ n
      equal_ids m n h = ground (arith, h)

  close_active :
      (k : String) (db : Database)
      → Distinct db.incidents
      → has_active k (close_over now grace keys (select is_active db.incidents) db).0.incidents
        ≡ any (λ r. is_active r && r.key == k && not (is_over now grace keys r)) db.incidents
  close_active k db d =
      close_over-left k (select is_active db.incidents) db
      ∙ any-congr _ _ db.incidents (λ r m. elim (Bool-cases (is_active r)) [
        | inr ended ↦ rw ended refl
        | inl active ↦ rw (active, is_closed-is_over r db.incidents d m active) refl
      ])

  left_listed :
      (k : String) (r : Incident)
      → one_of keys k ≡ true
      → (is_active r && r.key == k && not (is_over now grace keys r)) ≡ (is_active r && r.key == k)
  unfolding is_over
  left_listed k r listed = elim (Bool-cases (r.key == k)) [
    | inr other ↦ rw other (ground arith)
    | inl same ↦ rw (same, (eq_iff r.key k).0 same, listed) (ground arith)
  ]

  left_unlisted :
      (k : String) (r : Incident)
      → one_of keys k ≡ false
      → (is_active r && r.key == k && not (is_over now grace keys r)) ≡ is_recent now grace k r
  unfolding is_over
  left_unlisted k r unlisted = elim (Bool-cases (r.key == k)) [
    | inr other ↦ rw other (ground arith)
    | inl same ↦ rw (same, (eq_iff r.key k).0 same, unlisted) (ground arith)
  ]

-- After a measurement a key has an unresolved incident exactly if there is an alert for it, or if an
-- unresolved incident of it was seen within the grace time before; in a table
-- whose rows have ids of their own below the next one, as every operation keeps them.
pub sync_incidents-active :
    (now grace : ℕ) (alerts : List Alert) (db : Database) (k : String)
    → IsNumbered db
    → has_active k (sync_incidents now grace alerts db).0.incidents
      ≡ (one_of (keys_of alerts) k || any (is_recent now grace k) db.incidents)
unfolding sync_incidents
sync_incidents-active now grace alerts db k s =
    let keys = keys_of alerts in
    let seen = (sync_alerts now alerts db).0 in
    let sound = sync_alerts-IsNumbered now alerts db s in
    let closed = close_active now grace keys k seen sound.distinct in
    elim (Bool-cases (one_of keys k)) [
      | inl listed ↦
          let all_left =
            any-congr _ _ seen.incidents (λ r m. left_listed now grace keys k r listed) in
          let active : has_active k seen.incidents ≡ true =
            sync_alerts-active now alerts db k ∙ (rw listed refl) in
          rw listed (closed ∙ all_left ∙ active)
      | inr unlisted ↦
          let recent_left =
            any-congr _ _ seen.incidents (λ r m. left_unlisted now grace keys k r unlisted) in
          rw unlisted (closed ∙ recent_left ∙ sync_alerts-recent now grace alerts db k s unlisted)
    ]
