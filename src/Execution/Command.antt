-- ===== src/Execution/Command.antt =====
-- lipas/execution.py: the operations of `ExecutionStore` as commands, and the state machine of runs as
-- what they promise.
use lipas.Prelude.{
  ℕ_eq, String_eq, Option_eq, List_eq, Pair_eq, Eq, ok, ℤ_eq, ℕ, String, ◌≡◌, Bool, Option,
}
use lipas.Attempt.{Post, Post-value}
use lipas.Dict.{IsDict}
use lipas.Execution.Model.{Exec, Db, Json_eq}
use lipas.Execution.Runs.{
  create_task as op_create_task, create_run as op_create_run, claim_run as op_claim_run,
  renew_lease as op_renew_lease,
}
use lipas.Execution.Progress.{
  save_checkpoint as op_save_checkpoint, suspend as op_suspend,
  resolve_interrupt as op_resolve_interrupt,
}
use lipas.Execution.Finish.{
  Mapping, complete_run as op_complete_run, fail_run as op_fail_run,
  finish_cancelled as op_finish_cancelled, reopen_uncertain as op_reopen_uncertain,
  request_cancel as op_request_cancel, cancel_task as op_cancel_task,
}
use lipas.Execution.Change.{Change}
use lipas.Execution.Refinement.{
  Changes, create_task-Change, create_run-Change, claim_run-Change, renew_lease-Change,
  complete_run-Change, fail_run-Change, finish_cancelled-Change, reopen_uncertain-Change,
}
use lipas.Execution.Refinement.Interrupts.{save_checkpoint-Change, suspend-Change}
use lipas.Execution.Refinement.Cancellation.{
  resolve_interrupt-Change, request_cancel-Change, cancel_task-Change,
}

-- A call of an operation that changes tasks, runs, checkpoints or interrupts.
pub data Command (P : Type 0) : Type 0 where
  create_task : String → String → Bool → String → Command P
  create_run : String → String → Command P
  claim_run : String → String → ℕ → Command P
  renew_lease : String → String → ℕ → Command P
  save_checkpoint : String → String → ℕ → String → P → Command P
  suspend : String → String → ℕ → String → P → String → P → String → Command P
  resolve_interrupt : String → Bool → Option P → Command P
  complete_run : String → String → P → Command P
  fail_run : String → String → P → Command P
  reopen_uncertain : String → P → Command P
  request_cancel : String → Command P
  finish_cancelled : String → String → Command P
  cancel_task : String → Command P

module _ {P : Type 0} ⦃e : Eq P⦄ ⦃j : Mapping P⦄ where
  -- The call at a time.
  unfoldable pub execute : Command P → ℕ → Db P → Exec (Db P)
  execute (create_task goal root is_dir id) now = op_create_task goal root is_dir id now
  execute (create_run task_id id) now = op_create_run task_id id now
  execute (claim_run id token seconds) now = op_claim_run id token seconds now
  execute (renew_lease id token seconds) now = op_renew_lease id token seconds now
  execute (save_checkpoint id token version phase state) now =
      op_save_checkpoint id token version phase state now
  execute (suspend id token version phase state kind request interrupt) now =
      op_suspend id token version phase state kind request interrupt now
  execute (resolve_interrupt id allow response) now = op_resolve_interrupt id allow response now
  execute (complete_run id token value) now = op_complete_run id token value now
  execute (fail_run id token error) now = op_fail_run id token error now
  execute (reopen_uncertain id evidence) now = op_reopen_uncertain id evidence now
  execute (request_cancel id) now = op_request_cancel id now
  execute (finish_cancelled id token) now = op_finish_cancelled id token now
  execute (cancel_task id) now = op_cancel_task id now

  command-Change :
      (c : Command P) (now : ℕ) (db : Db P) → IsDict db.runs → Post (Changes db) (execute c now db)
  unfolding execute
  command-Change (create_task a b c d) now db h = create_task-Change a b c d now db
  command-Change (create_run a b) now db h = create_run-Change a b now db
  command-Change (claim_run a b c) now db h = claim_run-Change a b c now db
  command-Change (renew_lease a b c) now db h = renew_lease-Change a b c now db
  command-Change (save_checkpoint a b c d x) now db h = save_checkpoint-Change a b c d x now db
  command-Change (suspend a b c d x f g i) now db h = suspend-Change a b c d x f g i now db
  command-Change (resolve_interrupt a b c) now db h = resolve_interrupt-Change a b c now db
  command-Change (complete_run a b c) now db h = complete_run-Change a b c now db
  command-Change (fail_run a b c) now db h = fail_run-Change a b c now db
  command-Change (reopen_uncertain a b) now db h = reopen_uncertain-Change a b now db
  command-Change (request_cancel a) now db h = request_cancel-Change a now db
  command-Change (finish_cancelled a b) now db h = finish_cancelled-Change a b now db
  command-Change (cancel_task a) now db h = cancel_task-Change a now db h

  -- On a run table whose ids are distinct: whatever operation returns, it has left the run table
  -- alone, added one pending run whose task has no other active run, or moved exactly one run by a
  -- transition of the state machine `Step`: each guarded by the lease, by the state or by the
  -- recorded uncertainty that the transition asks for.
  pub execute-Change :
      (c : Command P) (now : ℕ) (db d : Db P)
      → IsDict db.runs
      → execute c now db ≡ ok d
      → Change db.runs d.runs
  execute-Change c now db d distinct returned =
      Post-value (command-Change c now db distinct) returned
