-- ===== src/FleetLink/Jobs.antt =====
-- A job of the node of src/changes/fleet-link.js: what it ended with stays its answer for an hour.
use grouvi_nox.Prelude.{
  some-injective, Bool, Bool-cases, List, Option-cases, Result, String, [], ap, arith, eq_iff,
  eq_refl, eqb, inl, inr, length, ltb, not, one_of, refl, select, some, true, ℕ, ◌+◌, ◌==◌, ◌∙◌,
  ◌∷◌, ◌≡◌, ◌≢◌, ◌≤◌,
}
use grouvi_nox.Prelude.JsMap
use grouvi_nox.Prelude.JsMap.{JsMap, get-put}
use grouvi_nox.FleetLink.{
  LinkEnv, hit, plain_ip, Request, State, Job, running, sweep, check_request, limit_request, admit,
  start_job, settle_job, outcome_of, job_answer,
}
use grouvi_nox.FleetLink.Cases.{check_request-cases}
use grouvi_nox.FleetLink.Replay.{Arrival}

-- What happens to the node's jobs: a request, the start of one and its end.
pub data JobEvent (Json : Type 0) : Type 0 where
  arrived : Arrival → JobEvent Json
  started : String → ℕ → JobEvent Json
  settled : String → Result Json → JobEvent Json

-- Events by a time, none of which is a start or an end of the job `id`.
unfoldable pub Others : {Json : Type 0} → String → ℕ → List (JobEvent Json) → Type 0
Others id last [] = Unit {0}
Others id last (arrived a ∷ rest) = (a.at ≤ last) × Others id last rest
Others id last (started j now ∷ rest) = (j ≢ id) × Others id last rest
Others id last (settled j result ∷ rest) = (j ≢ id) × Others id last rest

get-select {ℓ} :
    {V : Type ℓ} (p : V → Bool) (m : JsMap V) (k : String) (v : V)
    → JsMap.get m k ≡ some v
    → p v ≡ true
    → JsMap.get (select (λ e. p e.1) m) k ≡ some v
unfolding JsMap.get
get-select p [] k v h keeps = cc
get-select p ((j, w) ∷ m) k v h keeps = elim (Bool-cases (j == k)) [
  | inl same ↦
      let e : w ≡ v = some-injective w v (rw same at h) in rw (ap p e ∙ keeps, same) (ap some e)
  | inr other ↦
      let rest = get-select p m k v (rw other at h) keeps in
      elim (Bool-cases (p w)) [ inl kept ↦ rw (kept, other) rest | inr gone ↦ rw gone rest ]
]

module _ (env : LinkEnv) where
  unfoldable pub job_step : State env.Json → JobEvent env.Json → State env.Json
  job_step st (arrived a) = (admit env a.ips a.secrets a.at a.request st).0
  job_step st (started id now) = start_job id now st
  job_step st (settled id result) = settle_job id result st

  unfoldable pub job_run : State env.Json → List (JobEvent env.Json) → State env.Json
  job_run st [] = st
  job_run st (e ∷ rest) = job_run (job_step st e) rest

  sweep-job :
      (id : String) (now : ℕ) (st : State env.Json) (job : Job env.Json)
      → JsMap.get st.jobs id ≡ some job
      → now ≤ job.created_at + 3600000
      → JsMap.get (sweep now st).jobs id ≡ some job
  unfolding sweep
  sweep-job id now st job h young =
      get-select (λ j. not (ltb (j.created_at + 3600000) now)) st.jobs id job h (ground arith)

  check_request-jobs :
      (secrets : List String) (now : ℕ) (r : Request) (st : State env.Json)
      → (check_request env secrets now r st).0.jobs ≡ st.jobs
  check_request-jobs secrets now r st = elim (check_request-cases env secrets now r st) [
    | inl away ↦ ap (λ x. x.jobs) away.same_state
    | inr entered ↦ rw entered.stored refl
  ]

  limit_request-jobs :
      (secrets : List String) (now : ℕ) (r : Request) (st : State env.Json)
      → (limit_request env secrets now r st).0.jobs ≡ st.jobs
  unfolding limit_request
  limit_request-jobs secrets now r st = elim (Bool-cases ((hit (plain_ip r.ip) now st.hits).1)) [
    | inl over ↦ rw over refl
    | inr under ↦ rw under (check_request-jobs secrets now r _)
  ]

  admit-jobs :
      (ips secrets : List String) (now : ℕ) (r : Request) (st : State env.Json)
      → (admit env ips secrets now r st).0.jobs ≡ (sweep now st).jobs
  unfolding admit
  admit-jobs ips secrets now r st = elim (Bool-cases (eqb (length ips) 0)) [
    | inl nobody ↦ rw nobody refl
    | inr some_ips ↦ elim (Bool-cases (one_of ips (plain_ip r.ip))) [
      | inl listed ↦ rw (some_ips, listed) (limit_request-jobs secrets now r (sweep now st))
      | inr other ↦ rw (some_ips, other) refl
    ]
  ]

  get-put_other :
      (j id : String) (m : JsMap (Job env.Json)) (new : Job env.Json) (job : Job env.Json)
      → j ≢ id
      → JsMap.get m id ≡ some job
      → JsMap.get (JsMap.put m j new) id ≡ some job
  get-put_other j id m new job other g = elim (Bool-cases (j == id)) [
    | inl same ↦ absurd (other ((eq_iff j id).0 same))
    | inr differs ↦ get-put m j id new ∙ (rw differs g)
  ]

  get-put_same :
      (id : String) (m : JsMap (Job env.Json)) (new : Job env.Json)
      → JsMap.get (JsMap.put m id new) id ≡ some new
  get-put_same id m new = get-put m id id new ∙ (rw (eq_refl id) refl)

  settle_job-other :
      (j id : String) (result : Result env.Json) (st : State env.Json) (job : Job env.Json)
      → j ≢ id
      → JsMap.get st.jobs id ≡ some job
      → JsMap.get (settle_job j result st).jobs id ≡ some job
  unfolding settle_job
  settle_job-other j id result st job other g = elim (Option-cases (JsMap.get st.jobs j)) [
    | inl gone ↦ rw (settle_job, gone) g
    | inr (old, found) ↦ rw (settle_job, found) (get-put_other j id st.jobs _ job other g)
  ]

  job_step-other :
      (id : String) (last : ℕ) (st : State env.Json) (e : JobEvent env.Json)
      (rest : List (JobEvent env.Json)) (job : Job env.Json)
      → Others id last (e ∷ rest)
      → last ≤ job.created_at + 3600000
      → JsMap.get st.jobs id ≡ some job
      → (JsMap.get (job_step st e).jobs id ≡ some job) × Others id last rest
  unfolding Others job_step start_job settle_job
  job_step-other id last st (arrived a) rest job (by, h) young g =
      let kept = sweep-job id a.at st job g (omega (arith, by, young)) in
      ((rw (admit-jobs a.ips a.secrets a.at a.request st) kept), h)
  job_step-other id last st (started j now) rest job (other, h) young g =
      (get-put_other j id st.jobs _ job other g, h)
  job_step-other id last st (settled j result) rest job (other, h) young g =
      (settle_job-other j id result st job other g, h)

  job_run-other :
      (id : String) (last : ℕ) (st : State env.Json) (events : List (JobEvent env.Json))
      (job : Job env.Json)
      → Others id last events
      → last ≤ job.created_at + 3600000
      → JsMap.get st.jobs id ≡ some job
      → JsMap.get (job_run st events).jobs id ≡ some job
  unfolding job_run
  job_run-other id last st [] job h young g = g
  job_run-other id last st (e ∷ rest) job h young g =
      let (g', h') = job_step-other id last st e rest job h young g in
      job_run-other id last (job_step st e) rest job h' young g'

  settled_job :
      (id : String) (created : ℕ) (result : Result env.Json) (st : State env.Json)
      → JsMap.get (settle_job id result (start_job id created st)).jobs id
        ≡ some (record { status = outcome_of result; created_at = created })
  unfolding settle_job start_job
  settled_job id created result st =
      rw (settle_job, get-put_same id st.jobs (record { status = running; created_at = created }))
        (get-put_same id _ (record { status = outcome_of result; created_at = created }))

  -- Once a job that was started has ended, its answer is what it ended with, after every sequence of
  -- requests and of starts and ends of other jobs in the hour after its start.
  pub settled_answer :
      (id : String) (created last : ℕ) (result : Result env.Json) (st : State env.Json)
      (events : List (JobEvent env.Json))
      → Others id last events
      → last ≤ created + 3600000
      → job_answer
          (JsMap.get (job_run (settle_job id result (start_job id created st)) events).jobs id)
        ≡ job_answer (some (record { status = outcome_of result; created_at = created }))
  settled_answer id created last result st events h young = ap job_answer (
      job_run-other id last (settle_job id result (start_job id created st)) events
        (record { status = outcome_of result; created_at = created }) h young
        (settled_job id created result st))
