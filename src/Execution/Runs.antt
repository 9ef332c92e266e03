-- ===== src/Execution/Runs.antt =====
-- lipas/execution.py: tasks, runs and leases. Every operation returns the tables after its
-- transaction; the object that the code returns is read back from them. Fresh ids and lease tokens
-- and the current time are arguments.
use lipas.Prelude.{
  ℕ_eq, String_eq, Option_eq, List_eq, Pair_eq, Eq, ℤ_eq, ltb, ℕ, ◌+◌, String, Bool, false, not,
  none, some, [], ◌∷◌,
}
use lipas.Attempt.{◌>>=◌, ◌>>◌, guard}
use lipas.Dict.{has}
use lipas.Execution.Model.{
  task_open, pending, running, value_error, state_error, lease_error, integrity_error, Exec,
  task_value, run_value, is_open, text, number, instant, Json_eq, Run, Db, found, non_empty_text,
  on_integrity,
}
use lipas.Execution.Steps.{
  get_task, get_run, write_run, insert_run, write_task, expired_by, require_lease,
  record_audit_event,
}

module _ {P : Type 0} ⦃e : Eq P⦄ where
  -- `create_task`, where `root` is the resolved workspace.
  unfoldable pub create_task : String → String → Bool → String → ℕ → Db P → Exec (Db P)
  create_task goal root is_dir task_id now db = do
    goal ← non_empty_text goal
    guard is_dir value_error
    task_id ← non_empty_text task_id
    on_integrity (do
      guard (not (has task_id db.tasks)) integrity_error
      record_audit_event (text "task" ∷ text task_id ∷ text "created" ∷ []) "execution_task_created"
          (("task_id", text task_id)
            ∷ ("goal", text goal)
            ∷ ("workspace", text root)
            ∷ ("state", text (task_value task_open))
            ∷ [])
          now
          (write_task task_id
            (record {
              goal = goal;
              workspace = root;
              state = task_open;
              created_at = now;
              updated_at = now;
            })
            db))

  -- The row that `create_run` inserts.
  abbrev pub new_run : String → ℕ → Run P
  new_run task_id now = record {
    task_id = task_id;
    state = pending;
    attempt = 0;
    checkpoint_version = 0;
    lease_token = none;
    lease_expires = none;
    cancel_requested = false;
    result = none;
    error = none;
    created_at = now;
    updated_at = now;
  }

  -- `create_run`
  unfoldable pub create_run : String → String → ℕ → Db P → Exec (Db P)
  create_run task_id run_id now db = do
    task_id ← non_empty_text task_id
    task ← found task_id (get_task task_id db)
    guard (is_open task.state) state_error
    run_id ← non_empty_text run_id
    on_integrity (do
      inserted ← insert_run run_id (new_run task_id now) db
      record_audit_event (text "run" ∷ text run_id ∷ text "created" ∷ []) "execution_run_created"
          (("run_id", text run_id)
            ∷ ("task_id", text task_id)
            ∷ ("state", text (run_value pending))
            ∷ [])
          now inserted)

  -- The condition of the update in `claim_run`.
  unfoldable pub claimable : ℕ → Run P → Bool
  claimable now run = elim run.state [
    | pending ↦ not run.cancel_requested
    | running ↦ expired_by now run.lease_expires
    | _ ↦ false
  ]

  -- A run under a new lease.
  abbrev pub leased : String → ℕ → ℕ → Run P → Run P
  leased token lease_seconds now run = record run {
    state = running;
    attempt = run.attempt + 1;
    lease_token = some token;
    lease_expires = some (now + lease_seconds);
    updated_at = now;
  }

  -- `claim_run`
  unfoldable pub claim_run : String → String → ℕ → ℕ → Db P → Exec (Db P)
  claim_run run_id token lease_seconds now db = do
    guard (ltb 0 lease_seconds) value_error
    run ← found run_id (get_run run_id db)
    guard (claimable now run) lease_error
    let claimed = leased token lease_seconds now run
    written ← write_run run_id claimed db
    record_audit_event (text "run" ∷ text run_id ∷ text "claimed" ∷ number claimed.attempt ∷ [])
        "execution_run_claimed"
        (("run_id", text run_id)
          ∷ ("task_id", text claimed.task_id)
          ∷ ("attempt", number claimed.attempt)
          ∷ ("lease_expires", instant claimed.lease_expires)
          ∷ [])
        now written

  -- `renew_lease`
  unfoldable pub renew_lease : String → String → ℕ → ℕ → Db P → Exec (Db P)
  renew_lease run_id token lease_seconds now db = do
    guard (ltb 0 lease_seconds) value_error
    _ ← non_empty_text token
    run ← require_lease run_id token now db
    let renewed : Run P = record run {
      lease_expires = some (now + lease_seconds);
      updated_at = now;
    }
    written ← write_run run_id renewed db
    record_audit_event
        (text "run"
          ∷ text run_id
          ∷ text "lease-renewed"
          ∷ number renewed.attempt
          ∷ instant renewed.lease_expires
          ∷ [])
        "execution_lease_renewed"
        (("run_id", text run_id)
          ∷ ("task_id", text renewed.task_id)
          ∷ ("attempt", number renewed.attempt)
          ∷ ("lease_expires", instant renewed.lease_expires)
          ∷ [])
        now written
