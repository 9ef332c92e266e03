-- ===== src/Execution/Steps.antt =====
-- lipas/execution.py: the reads and writes that the operations of `ExecutionStore` share.
use lipas.Prelude.{
  ◌==◌, ℕ_eq, String_eq, Option_eq, List_eq, Pair_eq, Eq, ok, err, ℤ_eq, ltb, leb, if◌then◌else◌, ℕ,
  String, Bool, false, not, ◌&&◌, Option, none, some, List, [], ◌∷◌, ◌++◌,
}
use lipas.Attempt.{◌>>=◌, ◌>>◌, guard}
use lipas.Dict.{get, put, has, exists}
use lipas.Execution.Model.{
  TaskState, RunState, state_error, lease_error, integrity_error, Exec, task_value, run_value,
  is_active, is_running, Json, text, number, Json_eq, AuditEvent, Task, Run, Interrupt, Db, found,
}

abbrev pub expires_after : ℕ → Option ℕ → Bool
expires_after now none = false
expires_after now (some t) = ltb now t

abbrev pub expired_by : ℕ → Option ℕ → Bool
expired_by now none = false
expired_by now (some t) = leb t now

module _ {P : Type 0} where
  abbrev pub get_task : String → Db P → Option Task
  get_task id db = get id db.tasks

  abbrev pub get_run : String → Db P → Option (Run P)
  get_run id db = get id db.runs

  abbrev pub get_interrupt : String → Db P → Option (Interrupt P)
  get_interrupt id db = get id db.interrupts

  -- Another row of the run's task is active: the unique index refuses the row.
  abbrev pub is_rival : String → Run P → String → Run P → Bool
  is_rival id run other row =
      (row.task_id == run.task_id && is_active row.state) && not (other == id)

  -- An `INSERT` or `UPDATE` of a run, under `idx_execution_one_active_run`.
  unfoldable pub write_run : String → Run P → Db P → Exec (Db P)
  write_run id run db =
      if is_active run.state && exists (is_rival id run) db.runs
      then err integrity_error
      else ok (record db { runs = put id run db.runs })

  -- `INSERT INTO execution_runs`: the primary key is new.
  unfoldable pub insert_run : String → Run P → Db P → Exec (Db P)
  insert_run id run db = if has id db.runs then err integrity_error else write_run id run db

  abbrev pub write_task : String → Task → Db P → Db P
  write_task id task db = record db { tasks = put id task db.tasks }

  -- `UPDATE execution_tasks SET state=?,updated_at=? WHERE id=? AND state=?`
  abbrev pub move_task : Option Task → (TaskState → Bool) → TaskState → ℕ → String → Db P → Db P
  move_task none from target now id db = db
  move_task (some task) from target now id db =
      if from task.state
      then write_task id (record task { state = target; updated_at = now }) db
      else db

  -- The lease test of every update that needs one: the run is running under the token, and the
  -- lease has not expired.
  unfoldable pub holds_lease : String → ℕ → Run P → Bool
  holds_lease token now run =
      is_running run.state && run.lease_token == some token && expires_after now run.lease_expires

  -- `_require_lease`
  unfoldable pub require_lease : String → String → ℕ → Db P → Exec (Run P)
  require_lease id token now db = do
    run ← found id (get_run id db)
    guard (holds_lease token now run) lease_error
    ok run

module _ {P : Type 0} ⦃e : Eq P⦄ where
  -- `_record_audit_event`, given the event that has the identity.
  abbrev pub record_new : Option (AuditEvent P) → List (Json P) → AuditEvent P → Db P → Exec (Db P)
  record_new none identity event db = ok (record db { audit = put identity event db.audit })
  record_new (some old) identity event db =
      if old.tag == event.tag && old.fields == event.fields then ok db else err state_error

  unfoldable pub record_audit_event :
      List (Json P) → String → List (String × Json P) → ℕ → Db P → Exec (Db P)
  record_audit_event identity tag fields created_at db =
      record_new (get identity db.audit) identity
        (record { tag = tag; fields = fields; created_at = created_at }) db

  -- The event of a run that reached a terminal state.
  abbrev pub record_terminal :
      String → String → Run P → RunState → List (String × Json P) → ℕ → Db P → Exec (Db P)
  record_terminal id tag run state more now db =
      record_audit_event (text "run" ∷ text id ∷ text "state" ∷ text (run_value state) ∷ []) tag
        ((("run_id", text id)
            ∷ ("task_id", text run.task_id)
            ∷ ("state", text (run_value state))
            ∷ ("checkpoint_version", number run.checkpoint_version)
            ∷ [])
          ++ more)
        now db

  -- The event of a task that reached a terminal state.
  abbrev pub record_task : String → String → TaskState → ℕ → Db P → Exec (Db P)
  record_task id tag state now db =
      record_audit_event (text "task" ∷ text id ∷ text "state" ∷ text (task_value state) ∷ []) tag
        (("task_id", text id) ∷ ("state", text (task_value state)) ∷ []) now db

  -- The event of an interrupt that was decided.
  abbrev pub record_resolved : String → String → String → String → ℕ → Db P → Exec (Db P)
  record_resolved id run_id kind state now db =
      record_audit_event (text "interrupt" ∷ text id ∷ text "resolved" ∷ [])
        "execution_interrupt_resolved"
        (("interrupt_id", text id)
          ∷ ("run_id", text run_id)
          ∷ ("kind", text kind)
          ∷ ("state", text state)
          ∷ [])
        now db

  abbrev pub record_checkpoint : String → ℕ → String → ℕ → Db P → Exec (Db P)
  record_checkpoint id version phase now db =
      record_audit_event (text "run" ∷ text id ∷ text "checkpoint" ∷ number version ∷ [])
        "execution_checkpoint_saved"
        (("run_id", text id) ∷ ("version", number version) ∷ ("phase", text phase) ∷ []) now db

  abbrev pub record_cancel_requested : String → String → ℕ → Db P → Exec (Db P)
  record_cancel_requested id task_id now db =
      record_audit_event (text "run" ∷ text id ∷ text "cancel-requested" ∷ [])
        "execution_cancel_requested" (("run_id", text id) ∷ ("task_id", text task_id) ∷ []) now db
