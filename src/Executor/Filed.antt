-- ===== src/Executor/Filed.antt =====
-- What the files of the changes in src/changes/executor.js say while tasks begin and end: a record
-- stands under its own name, and says "running" only for the task that runs.
use grouvi_nox.Prelude.{
  some-injective, Bool, Bool-cases, Option, String, [], arith, eq_iff, false, inl, inr, none, refl,
  some, subst, sym, true, ℕ, ◌==◌, ◌∙◌, ◌∷◌, ◌≡◌,
}
use grouvi_nox.Prelude.JsMap
use grouvi_nox.Prelude.JsMap.{JsMap, get-put, entry_of_put}
use grouvi_nox.Executor.Host.{World}
use grouvi_nox.Executor.Change.{Status, running, Change}
use grouvi_nox.Executor.Records.{
  Task, applying, rolling, Event, Store, is_running, is_applied, is_change_id, written,
  interrupted_at, recovered_record, recover_records, restart,
}
use grouvi_nox.Executor.Verdicts.{Ended}

-- The change that is being applied.
abbrev pub applying_id : Option Task → Option String
applying_id none = none
applying_id (some (applying p ch)) = some ch.change_id
applying_id (some (rolling p force ch)) = none

-- The task holds a copy of a filed record.
abbrev pub Holds : JsMap Change → Option Task → Type 0
Holds rs none = Unit {0}
Holds rs (some (applying p ch)) =
    (JsMap.get rs ch.change_id ≡ some ch) × (is_running ch.status ≡ true)
Holds rs (some (rolling p force ch)) =
    (JsMap.get rs ch.change_id ≡ some ch) × (is_applied ch.status ≡ true)

abbrev pub IsFiled : Option Task → String → Change → Type 0
IsFiled busy id ch =
    (ch.change_id ≡ id)
    × (is_change_id id ≡ true)
    × (is_running ch.status ≡ true → applying_id busy ≡ some id)

pub record WellFormed {E : Type 0} (s : Store E) : Type 0 where
  pub filed : (id : String) (ch : Change) → JsMap.get s.records id ≡ some ch → IsFiled s.busy id ch
  pub held : Holds s.records s.busy

pub none-some : {A : Type 0} {a : A} → none ≡ some a → ⊥
none-some h = ground arith

pub not_both : (b : Bool) → b ≡ false → b ≡ true → ⊥
not_both b e f = ground arith

pub running-applied : (t : Status) → is_applied t ≡ true → is_running t ≡ false
running-applied running e = absurd (not_both _ refl e)
running-applied _ e = refl

pub get-recover_records :
    (now : ℕ) (rs : JsMap Change) (id : String) (ch : Change)
    → JsMap.get (recover_records now rs) id ≡ some ch
    → (old : Change) × (JsMap.get rs id ≡ some old) × (recovered_record now id old ≡ ch)
unfolding recover_records JsMap.get
get-recover_records now [] id ch h = absurd (none-some h)
get-recover_records now ((j, c) ∷ rs) id ch h = elim (Bool-cases (j == id)) [
  | inl same ↦ rw same (
    c,
    refl,
    subst (λ x. recovered_record now x c ≡ ch) ((eq_iff j id).0 same)
        (some-injective _ _ (rw same at h)),
  )
  | inr other ↦ rw other (get-recover_records now rs id ch (rw other at h))
]

pub recovered-Ended :
    (now : ℕ) (id : String) (ch : Change)
    → ch.change_id ≡ id
    → is_change_id id ≡ true
    → Ended id (recovered_record now id ch)
unfolding recovered_record interrupted_at
recovered-Ended now id ch own named = elim (Bool-cases (is_running ch.status)) [
  | inl runs ↦ rw (named, runs) (own, refl)
  | inr still ↦ rw (named, still) (own, still)
]

module _ {E : Type 0} where
  pub written-WellFormed :
      (s : Store E) (id : String) (ch : Change) (w : World E) (e : Event)
      → Ended id ch
      → is_change_id id ≡ true
      → ((j : String) → applying_id s.busy ≡ some j → j ≡ id)
      → WellFormed s
      → WellFormed (written ch w e s)
  unfolding written
  written-WellFormed s id ch w e (here, stopped) named only wf = record {
    filed = λ j c h. elim (entry_of_put s.records ch.change_id j ch c h) [
      | inl (k, same) ↦ (
        subst (λ x. x.change_id ≡ j) same k,
        subst (λ x. is_change_id x ≡ true) (sym here ∙ k) named,
        λ r. absurd (not_both _ stopped (subst (λ x. is_running x.status ≡ true) (sym same) r)),
      )
      | inr (other, there) ↦
          let (i, n, busy) = wf.filed j c there in
          (i, n, λ r. absurd (other (here ∙ sym (only j (busy r)))))
    ];
    held = tt;
  }

  pub restart-WellFormed : (now : ℕ) (s : Store E) → WellFormed s → WellFormed (restart now s)
  unfolding restart
  restart-WellFormed now s wf = record {
    filed = λ id ch h.
        let (old, there, same) = get-recover_records now s.records id ch h in
        let (i, n, busy) = wf.filed id old there in
        let (own, stopped) = subst (Ended id) same (recovered-Ended now id old i n) in
        (own, n, λ r. absurd (not_both _ stopped r));
    held = tt;
  }
