-- ===== src/ProposalStore/Bounds.antt =====
-- What src/changes/proposals.js keeps.
use grouvi_nox.Prelude.{
  leb→lt, Bool, Bool-cases, Failure, List, Memᴰ, Option, Result, [], arith, err, inl, inr, leb, ok,
  refl, select, subst, sym, ℕ, ◌+◌, ◌<◌, ◌∷◌, ◌≡◌, ◌≤◌, ◌⊎◌,
}
use grouvi_nox.Policy.Texts.{Text, same}
use grouvi_nox.Policy.Proposals.{Input, Proposal, Url, normalize_proposal}
use grouvi_nox.Policy.Bounds.{IsBounded, normalize_proposal-IsBounded}
use grouvi_nox.ProposalStore.{
  Directory, Filed, max_waiting, count, prune, rename_to, new_id, save_normal, save,
}

-- A call of `save`: its time, the stamp, the random code and the input.
pub record SaveCall : Type 0 where
  pub now : ℕ
  pub stamp : Text
  pub code : Text
  pub input : Input

pub record IsTidy (dir : Directory) : Type 0 where
  pub few : count dir ≤ max_waiting
  pub bounded : (f : Filed) → Memᴰ f dir → IsBounded f.content

Memᴰ-select {ℓ} :
    {A : Type ℓ} (p : A → Bool) (x : A) (xs : List A) → Memᴰ x (select p xs) → Memᴰ x xs
Memᴰ-select p x [] m = elim m [ ]
Memᴰ-select p x (y ∷ ys) m = elim (Bool-cases (p y)) [
  | inr dropped ↦ Memᴰ.tail (Memᴰ-select p x ys (rw dropped at m))
  | inl kept ↦ in_kept (λ t. Memᴰ-select p x ys t) (rw kept at m)
]
  where
    in_kept : (Memᴰ x (select p ys) → Memᴰ x ys) → Memᴰ x (y ∷ select p ys) → Memᴰ x (y ∷ ys)
    in_kept later (Memᴰ.head e) = Memᴰ.head e
    in_kept later (Memᴰ.tail t) = Memᴰ.tail (later t)

count-prune : (now : ℕ) (dir : Directory) → count (prune now dir) ≤ count dir
unfolding count prune
count-prune now [] = omega arith
count-prune now (f ∷ fs) = ground (arith, count-prune now fs)

count-rename_to : (dir : Directory) (new : Filed) → count (rename_to dir new) ≤ count dir + 1
unfolding count rename_to
count-rename_to [] new = ground arith
count-rename_to (f ∷ fs) new = ground (arith, count-rename_to fs new)

Memᴰ-rename_to :
    (f new : Filed) (dir : Directory) → Memᴰ f (rename_to dir new) → Memᴰ f dir ⊎ (f ≡ new)
unfolding rename_to
Memᴰ-rename_to f new [] (Memᴰ.head e) = inr e
Memᴰ-rename_to f new [] (Memᴰ.tail m) = elim m [ ]
Memᴰ-rename_to f new (g ∷ gs) m = elim (Bool-cases (same g.name new.name)) [
  | inl replaced ↦ in_replaced (rw (rename_to, replaced) at m)
  | inr other ↦ in_other (λ t. Memᴰ-rename_to f new gs t) (rw (rename_to, other) at m)
]
  where
    in_replaced : Memᴰ f (new ∷ gs) → Memᴰ f (g ∷ gs) ⊎ (f ≡ new)
    in_replaced (Memᴰ.head e) = inr e
    in_replaced (Memᴰ.tail t) = inl (Memᴰ.tail t)

    in_other :
        (Memᴰ f (rename_to gs new) → Memᴰ f gs ⊎ (f ≡ new))
        → Memᴰ f (g ∷ rename_to gs new)
        → Memᴰ f (g ∷ gs) ⊎ (f ≡ new)
    in_other later (Memᴰ.head e) = inl (Memᴰ.head e)
    in_other later (Memᴰ.tail t) = elim (later t) [
      | inl there ↦ inl (Memᴰ.tail there)
      | inr e ↦ inr e
    ]

prune-IsTidy : (now : ℕ) (dir : Directory) → IsTidy dir → IsTidy (prune now dir)
unfolding prune
prune-IsTidy now dir tidy =
    let fewer = count-prune now dir in
    record {
      few = omega (arith, fewer, tidy.few);
      bounded = λ f m. tidy.bounded f (Memᴰ-select _ f dir m);
    }

rename_to-IsTidy :
    (dir : Directory) (new : Filed)
    → IsTidy dir
    → count dir < max_waiting
    → IsBounded new.content
    → IsTidy (rename_to dir new)
rename_to-IsTidy dir new tidy room fine =
    let more = count-rename_to dir new in
    record {
      few = omega (arith, more, room);
      bounded = λ f m. elim (Memᴰ-rename_to f new dir m) [
        | inl there ↦ tidy.bounded f there
        | inr e ↦ subst (λ g. IsBounded g.content) (sym e) fine
      ];
    }

module _ (parse_url : Text → Option Url) where
  unfoldable pub save_all : List SaveCall → Directory → Directory
  save_all [] dir = dir
  save_all (c ∷ rest) dir = save_all rest (save parse_url c.now c.stamp c.code c.input dir).0

  save_normal-IsTidy :
      (now : ℕ) (id : Text) (dir : Directory) (i : Input)
      → IsTidy dir
      → count dir < max_waiting
      → IsTidy (save_normal parse_url now id dir (normalize_proposal parse_url i)).0
  unfolding save_normal
  save_normal-IsTidy now id dir i tidy room = elim (result_cases (normalize_proposal parse_url i)) [
    | inl (failed, e) ↦ rw (save_normal, e) tidy
    | inr (p, e) ↦
        rw (save_normal, e)
          (rename_to-IsTidy dir _ tidy room (normalize_proposal-IsBounded parse_url i p e))
  ]
    where
      result_cases :
          (r : Result Proposal)
          → ((failed : Failure) × (r ≡ err failed)) ⊎ ((p : Proposal) × (r ≡ ok p))
      result_cases (err failed) = inl (failed, refl)
      result_cases (ok p) = inr (p, refl)

  save-IsTidy :
      (now : ℕ) (stamp code : Text) (input : Input) (dir : Directory)
      → IsTidy dir
      → IsTidy (save parse_url now stamp code input dir).0
  unfolding save
  save-IsTidy now stamp code input dir tidy =
      let pruned = prune-IsTidy now dir tidy in
      elim (Bool-cases (leb max_waiting (count (prune now dir)))) [
        | inl full ↦ rw full pruned
        | inr room ↦
            rw room (
              save_normal-IsTidy now (new_id stamp code) (prune now dir) _ pruned (leb→lt _ _ room))
      ]

  -- A directory in which at most 40 proposals wait, each of them within the bounds of a normalised
  -- one, stays so over every sequence of calls of `save`, whatever their inputs, times and codes.
  pub save_all-IsTidy :
      (calls : List SaveCall) (dir : Directory) → IsTidy dir → IsTidy (save_all calls dir)
  unfolding save_all
  save_all-IsTidy [] dir tidy = tidy
  save_all-IsTidy (c ∷ rest) dir tidy =
      save_all-IsTidy rest _ (save-IsTidy c.now c.stamp c.code c.input dir tidy)
