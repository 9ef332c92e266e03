-- ===== src/Execution/Finish.antt =====
-- lipas/execution.py: terminal transitions, reconciliation and cancellation.
use lipas.Prelude.{
  ◌==◌, ℕ_eq, String_eq, Option_eq, List_eq, Pair_eq, Eq, ok, err, ℤ_eq, if◌then◌else◌, ℕ, String,
  Bool, true, false, not, ◌&&◌, Option, none, some, [], ◌∷◌,
}
use lipas.Attempt.{◌>>=◌, ◌>>◌, guard}
use lipas.Dict.{Dict, put}
use lipas.Execution.Model.{
  TaskState, task_open, task_completed, task_cancelled, RunState, pending, completed, failed,
  cancelled, interrupt_denied, state_error, Exec, run_value, interrupt_value, is_active, is_running,
  is_waiting, is_open, is_pending, text, number, mapping, Json_eq, Run, Interrupt, Db, found,
  non_empty_text, Task,
}
use lipas.Execution.Steps.{
  get_task, get_run, write_run, write_task, move_task, require_lease, record_audit_event,
  record_terminal, record_task, record_resolved, record_cancel_requested,
}

-- What the operations read and write inside a JSON mapping: whether `value.get(key) is True`, the
-- text under a key, and the mapping `{"reason": reason}`.
pub record Mapping (P : Type 0) : Type 0 where
  pub is_true : String → P → Bool
  pub text_at : String → P → Option String
  pub reason : String → P

abbrev pub text_or_empty : Option String → String
text_or_empty none = ""
text_or_empty (some t) = t

abbrev pub is_completed : TaskState → Bool
is_completed task_completed = true
is_completed _ = false

abbrev pub is_failed : RunState → Bool
is_failed failed = true
is_failed _ = false

module _ {P : Type 0} ⦃e : Eq P⦄ where
  -- The run without its lease, in a new state.
  abbrev pub released : RunState → ℕ → Run P → Run P
  released state now run = record run {
    state = state;
    lease_token = none;
    lease_expires = none;
    updated_at = now;
  }

  -- `complete_run`
  unfoldable pub complete_run : String → String → P → ℕ → Db P → Exec (Db P)
  complete_run run_id token result now db = do
    run ← require_lease run_id token now db
    guard (not run.cancel_requested) state_error
    written ← write_run run_id (record (released completed now run) { result = some result }) db
    let moved : Db P =
        move_task (get_task run.task_id written) is_open task_completed now run.task_id written
    recorded ← record_terminal run_id "execution_run_completed" run completed [] now moved
    record_task run.task_id "execution_task_completed" task_completed now recorded

  -- `fail_run`
  unfoldable pub fail_run : String → String → P → ℕ → Db P → Exec (Db P)
  fail_run run_id token error now db = do
    run ← require_lease run_id token now db
    written ← write_run run_id (record (released failed now run) { error = some error }) db
    record_terminal run_id "execution_run_failed" run failed (("error", mapping error) ∷ []) now
        written

  -- `finish_cancelled`
  unfoldable pub finish_cancelled : String → String → ℕ → Db P → Exec (Db P)
  finish_cancelled run_id token now db = do
    run ← require_lease run_id token now db
    guard run.cancel_requested state_error
    written ← write_run run_id (released cancelled now run) db
    record_terminal run_id "execution_run_cancelled" run cancelled [] now written

  -- A run that goes back to the queue after its outcome was reconciled.
  abbrev pub reopened : ℕ → Run P → Run P
  reopened now run = record run {
    state = pending;
    error = none;
    cancel_requested = false;
    updated_at = now;
  }

  -- The interrupt of a run that is still pending, if there is one.
  abbrev pub pending_interrupt : String → Dict String (Interrupt P) → Option (String × Interrupt P)
  pending_interrupt run_id [] = none
  pending_interrupt run_id ((id, row) ∷ rows) =
      let rest = pending_interrupt run_id rows in
      if row.run_id == run_id && is_pending row.state then some (id, row) else rest

  -- The run is cancelled at once.
  abbrev pub cancelled_now : ℕ → Run P → Run P
  cancelled_now now run = record (released cancelled now run) { cancel_requested = true }

  -- The update that denies a pending interrupt.
  abbrev pub deny : P → ℕ → Option (String × Interrupt P) → Db P → Db P
  deny reason now none db = db
  deny reason now (some (id, row)) db =
      let denied = record row {
        state = interrupt_denied;
        response = some reason;
        resolved_at = some now;
      } in
      record db { interrupts = put id denied db.interrupts }

  abbrev pub record_denial : String → ℕ → Option (String × Interrupt P) → Db P → Exec (Db P)
  record_denial run_id now none db = ok db
  record_denial run_id now (some (id, row)) db =
      record_resolved id run_id row.kind (interrupt_value interrupt_denied) now db

  -- The interrupt that a cancellation denies.
  abbrev pub denied_interrupt : String → Run P → Db P → Option (String × Interrupt P)
  denied_interrupt run_id run db =
      if is_waiting run.state then pending_interrupt run_id db.interrupts else none

  -- The events of a cancelled run: `cancel_task` records the denied interrupt first.
  abbrev pub record_stop :
      Bool → String → Run P → Option (String × Interrupt P) → ℕ → Db P → Exec (Db P)
  record_stop true run_id run asked now db =
      record_denial run_id now asked db
      >>= record_terminal run_id "execution_run_cancelled" run cancelled [] now
  record_stop false run_id run asked now db =
      record_terminal run_id "execution_run_cancelled" run cancelled [] now db
      >>= record_denial run_id now asked

  -- The two branches of a cancellation: a running run is asked to stop, another one is cancelled.
  unfoldable pub stop_run : Bool → P → String → Run P → ℕ → Db P → Exec (Db P)
  stop_run interrupt_first reason run_id run now db =
      if is_running run.state
      then write_run run_id (record run { cancel_requested = true; updated_at = now }) db
      else do
        let asked = denied_interrupt run_id run db
        written ← write_run run_id (cancelled_now now run) db
        record_stop interrupt_first run_id run asked now (deny reason now asked written)

  -- The transaction of `request_cancel`.
  unfoldable pub cancel_active : Bool → P → String → Run P → ℕ → Db P → Exec (Db P)
  cancel_active interrupt_first reason run_id run now db = do
    recorded ← record_cancel_requested run_id run.task_id now db
    stop_run interrupt_first reason run_id run now recorded

  -- The id of the active run of a task.
  abbrev pub active_run : String → Dict String (Run P) → Option String
  active_run task_id [] = none
  active_run task_id ((id, row) ∷ rows) =
      let rest = active_run task_id rows in
      if row.task_id == task_id && is_active row.state then some id else rest

  abbrev pub cancel_active_of : P → Option String → ℕ → Db P → Exec (Db P)
  cancel_active_of reason none now db = ok db
  cancel_active_of reason (some id) now db =
      found id (get_run id db) >>= λ run. cancel_active true reason id run now db

module _ {P : Type 0} ⦃e : Eq P⦄ ⦃j : Mapping P⦄ where
  -- The run failed with an uncertain outcome.
  unfoldable pub is_uncertain : Run P → Bool
  is_uncertain run =
      is_failed run.state
      && elim run.error [ none ↦ false | some error ↦ j.is_true "recovery_required" error ]

  -- `reopen_uncertain`
  unfoldable pub reopen_uncertain : String → P → ℕ → Db P → Exec (Db P)
  reopen_uncertain run_id evidence now db = do
    _ ← non_empty_text (text_or_empty (j.text_at "observation" evidence))
    run ← found run_id (get_run run_id db)
    guard (is_uncertain run) state_error
    written ← write_run run_id (reopened now run) db
    let moved : Db P =
        move_task (get_task run.task_id written) is_completed task_open now run.task_id written
    record_audit_event (text "run" ∷ text run_id ∷ text "reopened" ∷ number run.attempt ∷ [])
        "execution_run_reopened"
        (("run_id", text run_id)
          ∷ ("task_id", text run.task_id)
          ∷ ("state", text (run_value pending))
          ∷ ("reason", text "operator_reconciled_uncertain")
          ∷ ("evidence", mapping evidence)
          ∷ [])
        now moved

  -- `request_cancel`: a run in a terminal state is left as it is.
  unfoldable pub request_cancel : String → ℕ → Db P → Exec (Db P)
  request_cancel run_id now db = do
    run ← found run_id (get_run run_id db)
    if is_active run.state
        then cancel_active false (j.reason "run_cancelled") run_id run now db
        else ok db

  -- `cancel_task`, for a task in the given state.
  abbrev pub cancel_in : TaskState → String → Task → ℕ → Db P → Exec (Db P)
  cancel_in task_cancelled task_id task now db = ok db
  cancel_in task_completed task_id task now db = err state_error
  cancel_in task_open task_id task now db = do
    stopped ← cancel_active_of (j.reason "task_cancelled") (active_run task_id db.runs) now db
    let moved : Db P =
        write_task task_id (record task { state = task_cancelled; updated_at = now }) stopped
    record_task task_id "execution_task_cancelled" task_cancelled now moved

  -- `cancel_task`
  unfoldable pub cancel_task : String → ℕ → Db P → Exec (Db P)
  cancel_task task_id now db =
      found task_id (get_task task_id db) >>= λ task. cancel_in task.state task_id task now db
