-- ===== src/Execution/Examples.antt =====
-- Concrete runs of lipas/execution.py: a task whose run is claimed, fails, is reopened and fails again.
use lipas.Prelude.{
  ℕ_eq, String_eq, Option_eq, List_eq, Pair_eq, ok, ℤ_eq, ◌≡◌, refl, true, some, arith, none,
}
use lipas.Attempt.{raises}
use lipas.Dict.{get}
use lipas.Execution.Model.{Run, Db, Json_eq, completed}
use lipas.Execution.Runs.{new_run}
use lipas.Execution.Change.{Change}
use lipas.Execution.Command.{execute, execute-Change}
use lipas.Execution.Command.{claim_run, complete_run, fail_run, create_task}
use lipas.Execution.Invariants.{IsSound, run_calls, after_call, run_calls-IsSound}
use lipas.Execution.History.{IsLater, execute-IsLater, final_run_stays}
use lipas.Execution.Fencing.{fenced, claim_fences, claim_excludes}
use lipas.Execution.Completion.{claimed_run_completes}
use lipas.Execution.Reopening.{failure_recorded_once}
use lipas.Execution.Scenario.{
  Payload, Payload_mapping, empty, timeout, seen, first_calls, queued, claimed, reclaimed, row_of,
  finished, failure_event, queued_run, claim_returns, queued_distinct, finished_run,
  finished_distinct, finished_final, cancel_returns, reclaimed_run, stale_token, first_failure,
  other_failure, no_run_event, no_task_event,
}

empty_IsSound : IsSound (empty.runs)
unfolding get
empty_IsSound = record {
  distinct = tt;
  leased_runs = λ id r got. absurd (cc got);
  exclusive = λ a b r s got_a. absurd (cc got_a);
}

execute-Change_example : Change queued.runs claimed.runs
execute-Change_example =
    execute-Change (claim_run "r" "a" 10) 2 queued claimed queued_distinct claim_returns

run_calls-IsSound_example : IsSound (run_calls first_calls empty).runs
run_calls-IsSound_example = run_calls-IsSound first_calls empty empty_IsSound

execute-IsLater_example :
    (s : Run Payload) × (get "r" claimed.runs ≡ some s) × IsLater (new_run "t" 1) s
execute-IsLater_example =
    execute-IsLater (claim_run "r" "a" 10) 2 queued claimed "r" (new_run "t" 1) queued_distinct
      queued_run claim_returns

final_run_stays_example :
    get "r" (after_call finished (execute (create_task "next" "/w" true "u") 9 finished)).runs
    ≡ some (row_of finished)
final_run_stays_example =
    final_run_stays (create_task "next" "/w" true "u") 9 finished _ "r" (row_of finished)
      finished_distinct finished_run finished_final cancel_returns

fenced_example : raises (execute (complete_run "r" "a" seen) 6 reclaimed) ≡ true
fenced_example =
    fenced (complete_run "r" "a" seen) "r" "a" 6 reclaimed (row_of reclaimed) refl reclaimed_run
      stale_token

claim_fences_example : raises (execute (complete_run "r" "b" seen) 3 claimed) ≡ true
claim_fences_example =
    claim_fences "r" "a" "b" 10 2 3 queued claimed (new_run "t" 1) (complete_run "r" "b" seen)
      queued_run claim_returns refl refl

claim_excludes_example : raises (execute (claim_run "r" "b" 10) 11 claimed) ≡ true
claim_excludes_example =
    claim_excludes "r" "a" "b" 10 10 2 11 queued claimed (new_run "t" 1) queued_run claim_returns
      (omega arith)

failure_recorded_once_example : raises (execute (fail_run "r" "b" timeout) 6 reclaimed) ≡ true
failure_recorded_once_example =
    failure_recorded_once "r" "b" timeout 6 reclaimed (row_of reclaimed) failure_event reclaimed_run
      first_failure other_failure

claimed_run_completes_example :
    (d : Db Payload) × (s : Run Payload) × (execute (complete_run "r" "a" seen) 6 claimed ≡ ok d)
    × (get "r" d.runs ≡ some s)
    × (s.state ≡ completed)
    × (s.lease_token ≡ none)
    × (s.lease_expires ≡ none)
    × (s.result ≡ some seen)
claimed_run_completes_example =
    claimed_run_completes "r" "a" 10 2 6 queued claimed (new_run "t" 1) seen queued_run
      claim_returns (omega arith) refl no_run_event no_task_event
