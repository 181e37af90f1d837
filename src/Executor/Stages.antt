-- ===== src/Executor/Stages.antt =====
-- The stages of src/changes/executor.js: scripts and health checks, and for each kind of change the
-- function that applies it and the one that reverts it.
use Prim.Native.String
use grouvi_nox.Prelude.{
  ◌/◌, ◌%◌, Bool, List, Option, String, [], eqb, false, if◌then◌else◌, leb, ltb, none, some, suc,
  true, zero, ℕ, ◌&&◌, ◌+◌, ◌∷◌,
}
use grouvi_nox.Executor.Host.{Host}
use grouvi_nox.Executor.Change.{
  Command, Probe, url, script, Health, Proposal, command_undo, Stage, done, refused, Run, pure,
  ◌>>=◌, ◌>>◌, call, log, set_undo,
}

-- response.status === expectStatus, or in [200, 400) where none is expected
unfoldable pub is_healthy : ℕ → ℕ → Bool
is_healthy expected status =
    if eqb expected 0 then leb 200 status && ltb status 400 else eqb status expected

unfoldable pub fetch_ok : ℕ → Option ℕ → Bool
fetch_ok expected none = false
fetch_ok expected (some status) = is_healthy expected status

unfoldable pub digit_text : ℕ → String
digit_text n =
    if eqb n 0
    then "0"
    else if eqb n 1
    then "1"
    else if eqb n 2
    then "2"
    else if eqb n 3
    then "3"
    else if eqb n 4
    then "4"
    else if eqb n 5
    then "5"
    else if eqb n 6
    then "6"
    else if eqb n 7
    then "7"
    else if eqb n 8
    then "8"
    else "9"

-- A number in decimal, with one unit of fuel for each digit.
unfoldable pub number_text : ℕ → ℕ → String
number_text zero n = ""
number_text (suc fuel) n =
    let rest = number_text fuel (n / 10) in
    if ltb n 10 then digit_text n else String.◌++◌ rest (digit_text (n % 10))

-- The name of script number `n` in the log.
unfoldable pub numbered : String → ℕ → String
numbered label n = String.◌++◌ label (String.◌++◌ " " (number_text (n + 1) n))

module _ (H : Host) where
  -- The loop of `runSteps` from script number `n`.
  unfoldable pub run_steps : String → String → ℕ → List String → Run H Bool
  run_steps label cwd n [] = pure true
  run_steps label cwd n (s ∷ ss) =
      let rest = run_steps label cwd (n + 1) ss in
      do
        result ← call (H.run_script s cwd 300)
        log (numbered label n) result.code result.out
        if eqb result.code 0 then rest else pure false

  -- One attempt of `checkHealth`.
  unfoldable pub probe_once : Probe → String → Run H Bool
  probe_once (url u expected) cwd = do
    answer ← call (H.fetch_status u)
    pure (fetch_ok expected answer)
  probe_once (script s) cwd = do result ← call (H.run_script s cwd 30); pure (eqb result.code 0)

  -- The attempts left of `checkHealth`.
  unfoldable pub attempts : ℕ → Probe → String → Run H Bool
  attempts zero p cwd = do log "healthcheck" 1 "unhealthy"; pure false
  attempts (suc n) p cwd =
      let rest = attempts n p cwd in
      do healthy ← probe_once p cwd; if healthy then log "healthcheck" 0 "ok" >> pure true else rest

  unfoldable pub check_health : Option Health → String → Run H Bool
  check_health none cwd = pure true
  check_health (some h) cwd = attempts h.retries h.probe cwd

  unfoldable pub command_apply : Proposal → Command → Run H Stage
  command_apply p k = do
    result ← call (H.run_script k.script k.cwd k.timeout_sec)
    log "command" result.code result.out
    set_undo (command_undo p.undo)
    pure (
        if eqb result.code 0
        then done k.cwd
        else refused (if result.timed_out then "command_timed_out" else "command_failed") [])

  unfoldable pub command_revert : Option String → Command → Run H Stage
  command_revert none k = pure (refused "no_undo_defined" [])
  command_revert (some undo) k = do
    result ← call (H.run_script undo k.cwd k.timeout_sec)
    log "undo" result.code result.out
    pure (if eqb result.code 0 then done k.cwd else refused "undo_failed" [])
