-- ===== src/Execution/Scenario.antt =====
-- The tables of lipas/execution.py on the way of one task: its run is claimed, fails, is reopened and
-- claimed again, or is completed.
use lipas.Prelude.{
  ◌==◌, ℕ_eq, String_eq, Option_eq, List_eq, Pair_eq, ok, ℤ_eq, ℕ, String, ◌≡◌, refl, true, false,
  none, some, List, [], ◌∷◌,
}
use lipas.Attempt.{◌>>=◌, ◌>>◌, guard}
use lipas.Dict.{Dict, IsDict, get, put, has, exists}
use lipas.Execution.Model.{Run, Db, Json_eq, AuditEvent, non_empty_text}
use lipas.Execution.Steps.{holds_lease, write_run, insert_run, require_lease, record_audit_event}
use lipas.Execution.Runs.{new_run, claimable, leased}
use lipas.Execution.Finish.{Mapping, is_uncertain}
use lipas.Text.{strip, is_space}
use lipas.Execution.Runs.{
  create_task as op_create_task, create_run as op_create_run, claim_run as op_claim_run,
  renew_lease as op_renew_lease,
}
use lipas.Execution.Finish.{
  complete_run as op_complete_run, fail_run as op_fail_run, reopen_uncertain as op_reopen_uncertain,
}
use lipas.Execution.Command.{Command, execute}
use lipas.Execution.Command.{
  claim_run, renew_lease, complete_run, fail_run, create_task, create_run, reopen_uncertain,
}
use lipas.Execution.Invariants.{run_calls, after_call}
use lipas.Execution.History.{is_final}
use lipas.Execution.Completion.{completed_identity, task_identity}
use lipas.Execution.Reopening.{failed_identity, failed_fields}

-- Mappings from texts to texts.
abbrev pub Payload : Type 0
Payload = Dict String String

instance abbrev pub Payload_mapping : Mapping Payload
Payload_mapping = record {
  is_true = λ key p. get key p == some "true";
  text_at = get;
  reason = λ why. ("reason", why) ∷ [];
}

abbrev pub empty : Db Payload
empty = record { tasks = []; runs = []; checkpoints = []; interrupts = []; audit = [] }

abbrev pub uncertain : Payload
uncertain = ("recovery_required", "true") ∷ []

abbrev pub timeout : Payload
timeout = ("reason", "timeout") ∷ []

abbrev pub seen : Payload
seen = ("observation", "not delivered") ∷ []

abbrev pub first_calls : List (Command Payload × ℕ)
first_calls =
    (create_task "goal" "/w" true "t", 0) ∷ (create_run "t" "r", 1) ∷ (create_run "t" "q", 1) ∷ []

abbrev pub queued : Db Payload
queued = run_calls first_calls empty

abbrev pub claimed : Db Payload
claimed = after_call queued (execute (claim_run "r" "a" 10) 2 queued)

abbrev pub reclaimed : Db Payload
reclaimed =
    run_calls
      ((fail_run "r" "a" uncertain, 3)
        ∷ (reopen_uncertain "r" seen, 4)
        ∷ (claim_run "r" "b" 10, 5)
        ∷ [])
      claimed

abbrev pub row_of : Db Payload → Run Payload
row_of db = elim (get "r" db.runs) [ none ↦ new_run "t" 0 | some r ↦ r ]

abbrev pub finished : Db Payload
finished = run_calls ((complete_run "r" "a" seen, 3) ∷ []) claimed

abbrev pub failure_event : AuditEvent Payload
failure_event = record {
  tag = "execution_run_failed";
  fields = failed_fields "r" (leased "a" 10 2 (new_run "t" 1)) uncertain;
  created_at = 3;
}

pub queued_run : get "r" queued.runs ≡ some (new_run "t" 1)
unfolding ◌>>=◌ ◌>>◌ guard non_empty_text strip is_space get put has exists write_run insert_run
    holds_lease require_lease record_audit_event op_create_task op_create_run claimable op_claim_run
    op_renew_lease op_complete_run op_fail_run is_uncertain op_reopen_uncertain execute run_calls
    is_final
queued_run = refl

pub claim_returns : execute (claim_run "r" "a" 10) 2 queued ≡ ok claimed
unfolding ◌>>=◌ ◌>>◌ guard non_empty_text strip is_space get put has exists write_run insert_run
    holds_lease require_lease record_audit_event op_create_task op_create_run claimable op_claim_run
    op_renew_lease op_complete_run op_fail_run is_uncertain op_reopen_uncertain execute run_calls
    is_final
claim_returns = refl

pub claimed_run : get "r" claimed.runs ≡ some (leased "a" 10 2 (new_run "t" 1))
unfolding ◌>>=◌ ◌>>◌ guard non_empty_text strip is_space get put has exists write_run insert_run
    holds_lease require_lease record_audit_event op_create_task op_create_run claimable op_claim_run
    op_renew_lease op_complete_run op_fail_run is_uncertain op_reopen_uncertain execute run_calls
    is_final
claimed_run = refl

pub queued_distinct : IsDict queued.runs
unfolding ◌>>=◌ ◌>>◌ guard non_empty_text strip is_space get put has exists write_run insert_run
    holds_lease require_lease record_audit_event op_create_task op_create_run claimable op_claim_run
    op_renew_lease op_complete_run op_fail_run is_uncertain op_reopen_uncertain execute run_calls
    is_final
queued_distinct = (refl, tt)

pub renew_returns :
    execute (renew_lease "r" "a" 10) 3 claimed
    ≡ ok (after_call claimed (execute (renew_lease "r" "a" 10) 3 claimed))
unfolding ◌>>=◌ ◌>>◌ guard non_empty_text strip is_space get put has exists write_run insert_run
    holds_lease require_lease record_audit_event op_create_task op_create_run claimable op_claim_run
    op_renew_lease op_complete_run op_fail_run is_uncertain op_reopen_uncertain execute run_calls
    is_final
renew_returns = refl

pub claimed_distinct : IsDict claimed.runs
unfolding ◌>>=◌ ◌>>◌ guard non_empty_text strip is_space get put has exists write_run insert_run
    holds_lease require_lease record_audit_event op_create_task op_create_run claimable op_claim_run
    op_renew_lease op_complete_run op_fail_run is_uncertain op_reopen_uncertain execute run_calls
    is_final
claimed_distinct = (refl, tt)

pub finished_run : get "r" finished.runs ≡ some (row_of finished)
unfolding ◌>>=◌ ◌>>◌ guard non_empty_text strip is_space get put has exists write_run insert_run
    holds_lease require_lease record_audit_event op_create_task op_create_run claimable op_claim_run
    op_renew_lease op_complete_run op_fail_run is_uncertain op_reopen_uncertain execute run_calls
    is_final
finished_run = refl

pub finished_distinct : IsDict finished.runs
unfolding ◌>>=◌ ◌>>◌ guard non_empty_text strip is_space get put has exists write_run insert_run
    holds_lease require_lease record_audit_event op_create_task op_create_run claimable op_claim_run
    op_renew_lease op_complete_run op_fail_run is_uncertain op_reopen_uncertain execute run_calls
    is_final
finished_distinct = (refl, tt)

pub finished_final : is_final (row_of finished) ≡ true
unfolding ◌>>=◌ ◌>>◌ guard non_empty_text strip is_space get put has exists write_run insert_run
    holds_lease require_lease record_audit_event op_create_task op_create_run claimable op_claim_run
    op_renew_lease op_complete_run op_fail_run is_uncertain op_reopen_uncertain execute run_calls
    is_final
finished_final = refl

pub cancel_returns :
    execute (create_task "next" "/w" true "u") 9 finished
    ≡ ok (after_call finished (execute (create_task "next" "/w" true "u") 9 finished))
unfolding ◌>>=◌ ◌>>◌ guard non_empty_text strip is_space get put has exists write_run insert_run
    holds_lease require_lease record_audit_event op_create_task op_create_run claimable op_claim_run
    op_renew_lease op_complete_run op_fail_run is_uncertain op_reopen_uncertain execute run_calls
    is_final
cancel_returns = refl

pub reclaimed_run : get "r" reclaimed.runs ≡ some (row_of reclaimed)
unfolding ◌>>=◌ ◌>>◌ guard non_empty_text strip is_space get put has exists write_run insert_run
    holds_lease require_lease record_audit_event op_create_task op_create_run claimable op_claim_run
    op_renew_lease op_complete_run op_fail_run is_uncertain op_reopen_uncertain execute run_calls
    is_final
reclaimed_run = refl

pub stale_token : holds_lease "a" 6 (row_of reclaimed) ≡ false
unfolding ◌>>=◌ ◌>>◌ guard non_empty_text strip is_space get put has exists write_run insert_run
    holds_lease require_lease record_audit_event op_create_task op_create_run claimable op_claim_run
    op_renew_lease op_complete_run op_fail_run is_uncertain op_reopen_uncertain execute run_calls
    is_final
stale_token = refl

pub first_failure : get (failed_identity "r") reclaimed.audit ≡ some (failure_event)
unfolding ◌>>=◌ ◌>>◌ guard non_empty_text strip is_space get put has exists write_run insert_run
    holds_lease require_lease record_audit_event op_create_task op_create_run claimable op_claim_run
    op_renew_lease op_complete_run op_fail_run is_uncertain op_reopen_uncertain execute run_calls
    is_final
first_failure = refl

pub other_failure : (failure_event.fields == failed_fields "r" (row_of reclaimed) timeout) ≡ false
unfolding ◌>>=◌ ◌>>◌ guard non_empty_text strip is_space get put has exists write_run insert_run
    holds_lease require_lease record_audit_event op_create_task op_create_run claimable op_claim_run
    op_renew_lease op_complete_run op_fail_run is_uncertain op_reopen_uncertain execute run_calls
    is_final
other_failure = refl

pub no_run_event : get (completed_identity "r") claimed.audit ≡ none
unfolding ◌>>=◌ ◌>>◌ guard non_empty_text strip is_space get put has exists write_run insert_run
    holds_lease require_lease record_audit_event op_create_task op_create_run claimable op_claim_run
    op_renew_lease op_complete_run op_fail_run is_uncertain op_reopen_uncertain execute run_calls
    is_final
no_run_event = refl

pub no_task_event : get (task_identity "t") claimed.audit ≡ none
unfolding ◌>>=◌ ◌>>◌ guard non_empty_text strip is_space get put has exists write_run insert_run
    holds_lease require_lease record_audit_event op_create_task op_create_run claimable op_claim_run
    op_renew_lease op_complete_run op_fail_run is_uncertain op_reopen_uncertain execute run_calls
    is_final
no_task_event = refl
