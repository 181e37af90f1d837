-- ===== src/Dashboard/Passed.antt =====
-- What src/routes/api/changes.js passes on is what it showed.
use grouvi_nox.Prelude.{
  some-injective, Bool, Bool-cases, Memᴰ, Option, Option-cases, Result, String, [], ap, arith,
  codes, eqb, err, inl, inr, none, ok, refl, some, subst, sym, true, ℕ, ◌&&◌, ◌++◌, ◌∙◌, ◌∷◌, ◌≡◌,
}
use grouvi_nox.Policy.Texts.{Text, same}
use grouvi_nox.Policy.Proposals.{Input, Patch, Proposal, Url, patch, normalize_proposal}
use grouvi_nox.Policy.Contained.{IsConfined, normalize_proposal-IsConfined}
use grouvi_nox.Policy.Bounds.{IsBounded, normalize_proposal-IsBounded}
use grouvi_nox.Dashboard.{is_proposal_id, Files, file_named, checked_proposal, load_proposal}
use grouvi_nox.Dashboard.Decisions.{
  post_challenge, issued_for, matches, failed_with, challenge_sent, challenge_apply, Transport,
  Call, Issued, Outcome, apply_call, refused, job_started, transport_for, post_apply,
}

pub same→eq : (s t : Text) → same s t ≡ true → s ≡ t
unfolding same
same→eq [] [] h = refl
same→eq [] (d ∷ t) h = cc
same→eq (c ∷ s) [] h = cc
same→eq (c ∷ s) (d ∷ t) h =
    let (head, tail) = both (eqb c d) (same s t) h in
    let e = same→eq s t tail in
    let e' : c ≡ d = equal_units c d head in ap (λ x. x ∷ s) e' ∙ ap (λ x. d ∷ x) e
  where
    both : (a b : Bool) → a && b ≡ true → (a ≡ true) × (b ≡ true)
    both a b h = ground (arith, h)

    equal_units : (m n : ℕ) → eqb m n ≡ true → m ≡ n
    equal_units m n e = ground (arith, e)

-- A proposal that is loaded has the id that was asked for and is in its normal form.
pub record IsLoaded (parse_url : Text → Option Url) (files : Files) (id : Text) (p : Proposal)
    : Type 0 where
  pub own_id : p.id ≡ id
  pub bounded : IsBounded p
  pub confined : (k : Patch) (f : Text) → p.action ≡ patch k → Memᴰ f k.files → IsConfined f

checked_proposal-IsLoaded :
    (parse_url : Text → Option Url) (files : Files) (id : Text) (i : Input) (r : Result Proposal)
    (p : Proposal)
    → normalize_proposal parse_url i ≡ r
    → checked_proposal parse_url id r ≡ some p
    → IsLoaded parse_url files id p
unfolding checked_proposal
checked_proposal-IsLoaded parse_url files id i (err e) p n h = cc
checked_proposal-IsLoaded parse_url files id i (ok q) p n h = elim (Bool-cases (same q.id id)) [
  | inr other ↦
      let h' : none ≡ some p = rw (checked_proposal, other) at h in absurd (ground (arith, h'))
  | inl own ↦
      let e : q ≡ p = some-injective q p (rw (checked_proposal, own) at h) in
      subst (λ x. IsLoaded parse_url files id x) e
        (record {
          own_id = same→eq q.id id own;
          bounded = normalize_proposal-IsBounded parse_url i q n;
          confined = λ k f. normalize_proposal-IsConfined parse_url i q k f n;
        })
]

pub load_proposal-IsLoaded :
    (parse_url : Text → Option Url) (files : Files) (id : Text) (p : Proposal)
    → load_proposal parse_url files id ≡ some p
    → IsLoaded parse_url files id p
unfolding load_proposal
load_proposal-IsLoaded parse_url files id p h = elim (Bool-cases (is_proposal_id id)) [
  | inr other ↦
      let h' : none ≡ some p = rw (load_proposal, other) at h in absurd (ground (arith, h'))
  | inl named ↦ elim (Option-cases (file_named (id ++ codes ".json") files)) [
    | inl nothing ↦
        let h' : none ≡ some p = rw (load_proposal, named, nothing) at h in
        absurd (ground (arith, h'))
    | inr (i, found) ↦
        checked_proposal-IsLoaded parse_url files id i _ p refl
          (rw (load_proposal, named, found) at h)
  ]
]

module _ {Assertion : Type 0} (hash : Proposal → Text) (parse_url : Text → Option Url)
    (own_id : Text) where
  -- The call that a job makes: the proposal that is stored under the id, in its normal form, with
  -- the hash that the browser sent.
  pub record IsApproved (files : Files) (id sent : Text) (nonce : String) (assertion : Assertion)
      (to : Transport) (call : Call Assertion) : Type 0 where
    pub proposal : Proposal
    pub stored : load_proposal parse_url files id ≡ some proposal
    pub loaded : IsLoaded parse_url files id proposal
    pub same_hash : hash proposal ≡ sent
    pub its_place : to ≡ transport_for own_id proposal.node
    pub its_call : call ≡ apply_call proposal nonce assertion

  outcome_parts :
      (t to : Transport) (c call : Call Assertion)
      → ◌≡◌ {A = Outcome Assertion} (job_started t c) (job_started to call)
      → (t ≡ to) × (c ≡ call)
  outcome_parts t to c call h = (cc, cc)

  no_job :
      (status : ℕ) (reason : String) (to : Transport) (call : Call Assertion)
      → ◌≡◌ {A = Outcome Assertion} (refused status reason) (job_started to call)
      → ⊥
  no_job status reason to call h = cc

  -- A job that applies a proposal is started only for the proposal that is stored under the id
  -- and has the hash that the browser sent; it is within the bounds of a normal form, its files
  -- stay in its project, and it goes to the host that it names.
  pub post_apply-IsApproved :
      (files : Files) (id sent : Text) (nonce : String) (assertion : Assertion) (to : Transport)
      (call : Call Assertion) (ask : Transport → Call Assertion → Result Issued)
      → post_apply hash parse_url own_id ask files id sent nonce assertion ≡ job_started to call
      → IsApproved files id sent nonce assertion to call
  unfolding post_apply
  post_apply-IsApproved files id sent nonce assertion to call ask h =
      elim (Option-cases (load_proposal parse_url files id)) [
        | inl nothing ↦ absurd (no_job _ _ to call (rw (post_apply, nothing) at h))
        | inr (p, found) ↦ elim (Bool-cases (same sent (hash p))) [
          | inr differs ↦ absurd (no_job _ _ to call (rw (post_apply, found, differs) at h))
          | inl equal ↦
              let (t, c) = outcome_parts _ to _ call (rw (post_apply, found, equal) at h) in
              record {
                proposal = p;
                stored = found;
                loaded = load_proposal-IsLoaded parse_url files id p found;
                same_hash = sym (same→eq sent (hash p) equal);
                its_place = sym t;
                its_call = sym c;
              }
        ]
      ]

module _ {Assertion : Type 0} (hash : Proposal → Text) (parse_url : Text → Option Url)
    (own_id : Text) (ask : Transport → Call Assertion → Result Issued) where
  no_challenge :
      (status : ℕ) (reason : String) (issued : Issued)
      → ◌≡◌ {A = Outcome Assertion} (refused status reason) (challenge_sent issued)
      → ⊥
  no_challenge status reason issued h = cc

  issued_for_same :
      (h : Text) (answer : Result Issued) (issued : Issued)
      → issued_for hash parse_url own_id ask h answer ≡ challenge_sent issued
      → (answer ≡ ok issued) × (issued.hash ≡ h)
  unfolding issued_for failed_with
  issued_for_same h (err e) issued eq = absurd (no_challenge _ _ issued eq)
  issued_for_same h (ok got) issued eq = elim (Bool-cases (same got.hash h)) [
    | inr other ↦ absurd (no_challenge _ _ issued (rw (issued_for, other) at eq))
    | inl equal ↦
        let e : got ≡ issued = sent_same got issued (rw (issued_for, equal) at eq) in
        (ap ok e, ap (λ (x : Issued). x.hash) (sym e) ∙ same→eq got.hash h equal)
  ]
    where
      sent_same :
          (a b : Issued) → ◌≡◌ {A = Outcome Assertion} (challenge_sent a) (challenge_sent b) → a ≡ b
      sent_same a b e = cc

  -- The browser gets a challenge for a proposal only if the broker to which the proposal goes has
  -- issued it for the hash of the stored proposal, which is the one that the browser sent, if any.
  pub post_challenge_same_hash :
      (files : Files) (id : Text) (sent : Option Text) (issued : Issued)
      → post_challenge hash parse_url own_id ask files id sent ≡ challenge_sent issued
      → (p : Proposal) × (load_proposal parse_url files id ≡ some p)
        × (issued.hash ≡ hash p)
        × (matches hash parse_url own_id ask sent issued.hash ≡ true)
        × (ask (transport_for own_id p.node) (challenge_apply p) ≡ ok issued)
  unfolding post_challenge
  post_challenge_same_hash files id sent issued h =
      elim (Option-cases (load_proposal parse_url files id)) [
        | inl nothing ↦ absurd (no_challenge _ _ issued (rw (post_challenge, nothing) at h))
        | inr (p, found) ↦ elim (Bool-cases (matches hash parse_url own_id ask sent (hash p))) [
          | inr differs ↦
              absurd (no_challenge _ _ issued (rw (post_challenge, found, differs) at h))
          | inl fits ↦
              let (answer, same_hash) =
                issued_for_same (hash p) _ issued (rw (post_challenge, found, fits) at h) in
              (
                p,
                found,
                same_hash,
                subst (λ x. matches hash parse_url own_id ask sent x ≡ true) (sym same_hash) fits,
                answer,
              )
        ]
      ]
