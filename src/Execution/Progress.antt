-- ===== src/Execution/Progress.antt =====
-- lipas/execution.py: checkpoints and interrupts.
use lipas.Prelude.{
  ◌==◌, ℕ_eq, String_eq, Option_eq, List_eq, Pair_eq, Eq, ok, err, ℤ_eq, nat_eq, if◌then◌else◌, ℕ,
  ◌+◌, String, Bool, true, false, ◌&&◌, ◌||◌, Option, none, some, [], ◌∷◌,
}
use lipas.Attempt.{◌>>=◌, ◌>>◌, guard}
use lipas.Dict.{put, has, exists}
use lipas.Execution.Model.{
  pending, waiting, cancelled, interrupt_pending, interrupt_allowed, interrupt_denied, state_error,
  checkpoint_conflict, integrity_error, Exec, interrupt_value, is_waiting, is_pending, text,
  Json_eq, Run, Checkpoint, Interrupt, Db, found, non_empty_text, on_integrity,
}
use lipas.Execution.Steps.{
  get_run, get_interrupt, write_run, require_lease, record_audit_event, record_terminal,
  record_resolved, record_checkpoint,
}

module _ {P : Type 0} ⦃e : Eq P⦄ where
  -- `INSERT INTO execution_checkpoints`
  unfoldable pub insert_checkpoint : String → ℕ → Checkpoint P → Db P → Exec (Db P)
  insert_checkpoint run_id version point db =
      if has (run_id, version) db.checkpoints
      then err integrity_error
      else ok (record db { checkpoints = put (run_id, version) point db.checkpoints })

  -- `save_checkpoint`
  unfoldable pub save_checkpoint : String → String → ℕ → String → P → ℕ → Db P → Exec (Db P)
  save_checkpoint run_id token expected_version phase state now db = do
    phase ← non_empty_text phase
    run ← require_lease run_id token now db
    guard (nat_eq run.checkpoint_version expected_version) checkpoint_conflict
    let version = expected_version + 1
    inserted ←
        insert_checkpoint run_id version (record { phase = phase; state = state; created_at = now })
          db
    written ←
        write_run run_id (record run { checkpoint_version = version; updated_at = now }) inserted
    record_checkpoint run_id version phase now written

  abbrev pub is_pending_of : String → String → Interrupt P → Bool
  is_pending_of run_id id row = row.run_id == run_id && is_pending row.state

  -- `INSERT INTO execution_interrupts`, under `idx_execution_one_pending_interrupt`.
  unfoldable pub insert_interrupt : String → Interrupt P → Db P → Exec (Db P)
  insert_interrupt id row db =
      if has id db.interrupts || exists (is_pending_of row.run_id) db.interrupts
      then err integrity_error
      else ok (record db { interrupts = put id row db.interrupts })

  -- A run that waits for an interrupt.
  abbrev pub suspended : ℕ → ℕ → Run P → Run P
  suspended version now run = record run {
    state = waiting;
    checkpoint_version = version;
    lease_token = none;
    lease_expires = none;
    updated_at = now;
  }

  -- `suspend`
  unfoldable pub suspend :
      String → String → ℕ → String → P → String → P → String → ℕ → Db P → Exec (Db P)
  suspend run_id token expected_version phase checkpoint_state kind request interrupt_id now db = do
    kind ← non_empty_text kind
    phase ← non_empty_text phase
    interrupt_id ← non_empty_text interrupt_id
    on_integrity (do
      run ← require_lease run_id token now db
      guard (nat_eq run.checkpoint_version expected_version) checkpoint_conflict
      let version = expected_version + 1
      inserted ←
          insert_checkpoint run_id version
            (record { phase = phase; state = checkpoint_state; created_at = now }) db
      asked ←
          insert_interrupt interrupt_id
            (record {
              run_id = run_id;
              kind = kind;
              request = request;
              state = interrupt_pending;
              response = none;
              created_at = now;
              resolved_at = none;
            })
            inserted
      written ← write_run run_id (suspended version now run) asked
      saved ← record_checkpoint run_id version phase now written
      record_audit_event (text "interrupt" ∷ text interrupt_id ∷ text "requested" ∷ [])
          "execution_interrupt_requested"
          (("interrupt_id", text interrupt_id)
            ∷ ("run_id", text run_id)
            ∷ ("kind", text kind)
            ∷ ("state", text (interrupt_value interrupt_pending))
            ∷ [])
          now saved)

  -- The event of the run that a denial cancels.
  abbrev pub record_denied : Bool → String → Run P → ℕ → Db P → Exec (Db P)
  record_denied true run_id run now db = ok db
  record_denied false run_id run now db =
      record_terminal run_id "execution_run_cancelled" run cancelled [] now db

  -- The run that the update in `resolve_interrupt` changes.
  abbrev pub waiting_run : Option (Run P) → Exec (Run P)
  waiting_run none = err state_error
  waiting_run (some run) = guard (is_waiting run.state) state_error >> ok run

  -- The transaction of `resolve_interrupt`, for an interrupt that is pending.
  unfoldable pub decide : String → Bool → Interrupt P → Option P → ℕ → Db P → Exec (Db P)
  decide interrupt_id allow current response now db = do
    run ← waiting_run (get_run current.run_id db)
    let target = if allow then interrupt_allowed else interrupt_denied
    let answered : Interrupt P = record current {
      state = target;
      response = response;
      resolved_at = some now;
    }
    let moved : Run P = record run {
      state = if allow then pending else cancelled;
      updated_at = now;
    }
    written ←
        write_run current.run_id moved
          (record db { interrupts = put interrupt_id answered db.interrupts })
    resolved ←
        record_resolved interrupt_id current.run_id current.kind (interrupt_value target) now
          written
    record_denied allow current.run_id moved now resolved

  -- `resolve_interrupt`: the same decision again is a no-op, another one an error. The row is read
  -- under the stripped id and updated under the given one.
  unfoldable pub resolve_interrupt : String → Bool → Option P → ℕ → Db P → Exec (Db P)
  resolve_interrupt interrupt_id allow response now db = do
    id ← non_empty_text interrupt_id
    existing ← found id (get_interrupt id db)
    let target = if allow then interrupt_allowed else interrupt_denied
    let repeated =
        interrupt_value existing.state == interrupt_value target && existing.response == response
    if is_pending existing.state
        then guard (id == interrupt_id) state_error >> decide id allow existing response now db
        else guard repeated state_error >> ok db
