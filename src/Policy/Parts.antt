-- ===== src/Policy/Parts.antt =====
-- What a proposal that `normalizeProposal` of src/changes/policy.js lets through is made of.
use grouvi_nox.Prelude.{
  List, Memᴰ, Option, Result, [], ap, bind-ok, length, ok, ok-injective, refl, subst, suc, sym,
  take, ◌>>=◌, ◌∙◌, ◌∷◌, ◌≡◌,
}
use grouvi_nox.Policy.Texts.{Text, trim}
use grouvi_nox.Policy.Paths.{validate_patch_path, diff_files}
use grouvi_nox.Policy.Proposals.{
  Input, PatchInput, Proposal, Patch, Action, patch, Url, text, checks, patch_tests, patch_from,
  normal_patch, collect, checked_script, optional_script, normal_action, normal_health,
  proposal_tests, proposal_from, with_undo, with_post, with_action, normalize_proposal,
}

pub record Parts (parse_url : Text → Option Url) (i : Input) (p : Proposal) : Type 0 where
  pub checked : checks (proposal_tests i) ≡ ok tt
  pub from_action : normal_action i ≡ ok p.action
  pub from_post : collect (λ s. checked_script s "post") (take 8 i.post) ≡ ok p.post
  pub from_undo : optional_script i.undo "undo" ≡ ok p.undo
  pub from_health : normal_health parse_url i.healthcheck ≡ ok p.healthcheck
  pub title : p.title ≡ trim (text i.title 160)
  pub why : p.why ≡ trim (text i.why 2000)

unit_path : (u : Unit {0}) → u ≡ tt
unit_path u = refl

module _ (parse_url : Text → Option Url) where
  pub normalize_proposal-Parts :
      (i : Input) (p : Proposal) → normalize_proposal parse_url i ≡ ok p → Parts parse_url i p
  unfolding normalize_proposal with_action with_post with_undo proposal_from
  normalize_proposal-Parts i p h =
      let (u, checked, h1) =
        bind-ok (checks (proposal_tests i)) (λ _. normal_action i >>= with_action parse_url i) h in
      let (a, ha, h2) = bind-ok (normal_action i) (with_action parse_url i) h1 in
      let (post, hp, h3) =
        bind-ok (collect (λ s. checked_script s "post") (take 8 i.post)) (with_post parse_url i a)
          h2 in
      let (undo, hu, h4) =
        bind-ok (optional_script i.undo "undo") (with_undo parse_url i a post) h3 in
      let (health, hh, h5) =
        bind-ok (normal_health parse_url i.healthcheck) (proposal_from i a post undo) h4 in
      let e = ok-injective _ p h5 in
      record {
        checked = checked;
        from_action = ha ∙ ap (λ x. ok x.action) e;
        from_post = hp ∙ ap (λ x. ok x.post) e;
        from_undo = hu ∙ ap (λ x. ok x.undo) e;
        from_health = hh ∙ ap (λ x. ok x.healthcheck) e;
        title = sym (ap (λ x. x.title) e);
        why = sym (ap (λ x. x.why) e);
      }

pub normal_patch-files :
    (i : PatchInput) (a : Action)
    → normal_patch i ≡ ok a
    → (k : Patch) × (collect validate_patch_path (diff_files i.diff) ≡ ok k.files) × (patch k ≡ a)
unfolding normal_patch patch_from
normal_patch-files i a h =
    let (u, checked, h1) =
      bind-ok (checks (patch_tests i))
        (λ _. collect validate_patch_path (diff_files i.diff) >>= patch_from i) h in
    let (files, c, e) =
      bind-ok (collect validate_patch_path (diff_files i.diff)) (patch_from i) h1 in
    (_, c, ok-injective _ a e)

-- Each value that `collect` gives comes from the function.
pub collect-ok :
    {A : Type 0} (g : Text → Result A) (P : A → Type 0) (ts : List Text) (xs : List A) (x : A)
    → ((t : Text) (a : A) → g t ≡ ok a → P a)
    → collect g ts ≡ ok xs
    → Memᴰ x xs
    → P x
unfolding collect
collect-ok g P [] xs x each h m =
    let e = ok-injective _ _ h in elim (subst (λ ys. Memᴰ x ys) (sym e) m) [ ]
collect-ok g P (t ∷ ts) xs x each h m =
    let (a, ha, k) = bind-ok (g t) (λ a. collect g ts >>= λ rest. ok (a ∷ rest)) h in
    let (as', hs, k') = bind-ok (collect g ts) (λ rest. ok (a ∷ rest)) k in
    let e : a ∷ as' ≡ xs = ok-injective _ _ k' in
    elim (subst (λ ys. Memᴰ x ys) (sym e) m) [
      | Memᴰ.head q ↦ subst P (sym q) (each t a ha)
      | Memᴰ.tail n ↦ collect-ok g P ts as' x each hs n
    ]

pub length-collect :
    {A : Type 0} (g : Text → Result A) (ts : List Text) (xs : List A)
    → collect g ts ≡ ok xs
    → length xs ≡ length ts
unfolding collect
length-collect g [] xs h = ap length (sym (ok-injective _ xs h))
length-collect g (t ∷ ts) xs h =
    let (a, ha, k) = bind-ok (g t) (λ a. collect g ts >>= λ rest. ok (a ∷ rest)) h in
    let (as', hs, k') = bind-ok (collect g ts) (λ rest. ok (a ∷ rest)) k in
    ap length (sym (ok-injective _ xs k')) ∙ ap suc (length-collect g ts as' hs)
