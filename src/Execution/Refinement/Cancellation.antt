-- ===== src/Execution/Refinement/Cancellation.antt =====
-- lipas/execution.py: the refinement for decided interrupts and for cancellation.
use lipas.Prelude.{
  ℕ_eq, String_eq, Option_eq, List_eq, Pair_eq, Eq, ok, ℤ_eq, if◌then◌else◌, ℕ, String, ◌≡◌, refl,
  Bool, true, false, Option, none, some, [], ◌∷◌, arith,
}
use lipas.Attempt.{
  ◌>>◌, guard, Post, returns, Post-value, Post-bind, Post-guard, Post-if, Post-ok, Post-err,
}
use lipas.Dict.{Dict, IsDict, get, has}
use lipas.Execution.Model.{
  task_open, task_completed, task_cancelled, pending, cancelled, is_active, is_running, is_waiting,
  is_pending, Run, Db, Json_eq, Interrupt,
}
use lipas.Execution.Steps.{get_run}
use lipas.Execution.Progress.{resolve_interrupt, decide, waiting_run, record_denied}
use lipas.Execution.Finish.{
  Mapping, request_cancel, cancel_task, stop_run, cancel_active, record_stop, record_denial, deny,
  denied_interrupt, active_run, cancel_active_of, cancel_in,
}
use lipas.Execution.Change.{Step, resumes, denies, asks, cancels, Change, keeps}
use lipas.Execution.Inversion.{found-eq-ok, record_audit_event-runs}
use lipas.Execution.Refinement.{Changes, then_record, write_run-Change-elsewhere}

module _ {P : Type 0} ⦃e : Eq P⦄ ⦃j : Mapping P⦄ where
  waiting_run-eq-ok :
      (o : Option (Run P)) {run : Run P}
      → waiting_run o ≡ ok run
      → (o ≡ some run) × (is_waiting run.state ≡ true)
  unfolding ◌>>◌ guard
  waiting_run-eq-ok none h = ground arith
  waiting_run-eq-ok (some r) h = ground arith

  decided :
      (allow : Bool) (now : ℕ) (r : Run P)
      → is_waiting r.state ≡ true
      → Step r (record r { state = if allow then pending else cancelled; updated_at = now })
  decided true now r w = resumes now w refl
  decided false now r w = denies now w refl

  decide-Change :
      (id : String) (allow : Bool) (row : Interrupt P) (response : Option P) (now : ℕ) (db : Db P)
      → Post (Changes db) (decide id allow row response now db)
  unfolding decide
  decide-Change id allow row response now db = Post-bind _ _ λ run got. Post-bind _ _ λ w written.
      Post-bind _ _ λ d resolved.
        let (there, waits) = waiting_run-eq-ok (get_run row.run_id db) got in
        let moved =
          Post-value
            (then_record db _ _ _ _ _ (
              write_run-Change-elsewhere row.run_id run _ db _ refl there written
                (decided allow now run waits)))
            resolved in
        elim allow
          as (λ b. Post (Changes db) (
            record_denied b row.run_id
              (record run { state = if allow then pending else cancelled; updated_at = now }) now
              d)) [ true ↦ Post-ok moved | false ↦ then_record db _ _ _ _ _ moved ]

  pub resolve_interrupt-Change :
      (id : String) (allow : Bool) (response : Option P) (now : ℕ) (db : Db P)
      → Post (Changes db) (resolve_interrupt id allow response now db)
  unfolding resolve_interrupt
  resolve_interrupt-Change id allow response now db = Post-bind _ _ λ id' _. Post-bind _ _ λ row _.
      Post-if (is_pending row.state) _ _
        (λ _. Post-guard _ _ _ λ _. decide-Change id' allow row response now db)
        (λ _. Post-guard _ _ _ λ _. Post-ok (keeps refl))

  -- Denying an interrupt and recording it change no run.
  deny-Change :
      (reason : P) (now : ℕ) (o : Option (String × Interrupt P)) (db w : Db P)
      → Change db.runs w.runs
      → Change db.runs (deny reason now o w).runs
  deny-Change reason now none db w c = c
  deny-Change reason now (some row) db w c = c

  record_denial-Change :
      (run_id : String) (now : ℕ) (o : Option (String × Interrupt P)) (db w : Db P)
      → Change db.runs w.runs
      → Post (Changes db) (record_denial run_id now o w)
  record_denial-Change run_id now none db w c = Post-ok c
  record_denial-Change run_id now (some row) db w c = then_record db _ _ _ _ _ c

  record_stop-Change :
      (first : Bool) (id : String) (run : Run P) (o : Option (String × Interrupt P)) (now : ℕ)
      (db w : Db P)
      → Change db.runs w.runs
      → Post (Changes db) (record_stop first id run o now w)
  record_stop-Change true id run o now db w c = Post-bind _ _ λ d recorded.
      then_record db _ _ _ _ _ (Post-value (record_denial-Change id now o db w c) recorded)
  record_stop-Change false id run o now db w c = Post-bind _ _ λ d recorded.
      record_denial-Change id now o db d (Post-value (then_record db _ _ _ _ _ c) recorded)

  stop_run-Change :
      (first : Bool) (reason : P) (id : String) (run : Run P) (now : ℕ) (db d : Db P)
      → d.runs ≡ db.runs
      → get id db.runs ≡ some run
      → is_active run.state ≡ true
      → Post (Changes db) (stop_run first reason id run now d)
  unfolding stop_run
  stop_run-Change first reason id run now db d same got active =
      Post-if (is_running run.state) _ _
        (λ runs. returns λ w written.
          write_run-Change-elsewhere id run _ db d same got written (asks now runs refl))
        (λ idle. Post-bind _ _ λ w written. record_stop-Change first id run _ now db _ (
          deny-Change reason now (denied_interrupt id run d) db w (
            write_run-Change-elsewhere id run _ db d same got written
              (cancels now active idle refl))))

  cancel_active-Change :
      (first : Bool) (reason : P) (id : String) (run : Run P) (now : ℕ) (db : Db P)
      → get id db.runs ≡ some run
      → is_active run.state ≡ true
      → Post (Changes db) (cancel_active first reason id run now db)
  unfolding cancel_active
  cancel_active-Change first reason id run now db got active = Post-bind _ _ λ d recorded.
      stop_run-Change first reason id run now db d
        (Post-value (record_audit_event-runs _ _ _ _ db) recorded) got active

  pub request_cancel-Change :
      (id : String) (now : ℕ) (db : Db P) → Post (Changes db) (request_cancel id now db)
  unfolding request_cancel
  request_cancel-Change id now db = Post-bind _ _ λ run got.
      Post-if (is_active run.state) _ _
        (λ active.
          cancel_active-Change false _ id run now db (found-eq-ok id (get_run id db) got) active)
        (λ _. Post-ok (keeps refl))

  active_run-has :
      (task : String) (runs : Dict String (Run P)) (id : String)
      → active_run task runs ≡ some id
      → has id runs ≡ true
  unfolding has
  active_run-has task [] id h = ground arith
  active_run-has task ((k, row) ∷ runs) id h =
      ground (arith, active_run-has task runs id, String_eq.eqb_iff k id)

  active_run-active :
      (task : String) (runs : Dict String (Run P)) (id : String) (run : Run P)
      → IsDict runs
      → active_run task runs ≡ some id
      → get id runs ≡ some run
      → is_active run.state ≡ true
  unfolding get has
  active_run-active task [] id run d h g = ground arith
  active_run-active task ((k, row) ∷ runs) id run d h g = ground (
    arith,
    active_run-active task runs id run,
    active_run-has task runs id,
    String_eq.eqb_iff k id,
  )

  cancel_active_of-Change :
      (reason : P) (o : Option String) (task : String) (now : ℕ) (db : Db P)
      → IsDict db.runs
      → active_run task db.runs ≡ o
      → Post (Changes db) (cancel_active_of reason o now db)
  cancel_active_of-Change reason none task now db d h = Post-ok (keeps refl)
  cancel_active_of-Change reason (some id) task now db d h = Post-bind _ _ λ run got.
      let there = found-eq-ok id (get_run id db) got in
      cancel_active-Change true reason id run now db there
        (active_run-active task db.runs id run d h there)

  pub cancel_task-Change :
      (task_id : String) (now : ℕ) (db : Db P)
      → IsDict db.runs
      → Post (Changes db) (cancel_task task_id now db)
  unfolding cancel_task
  cancel_task-Change task_id now db d = Post-bind _ _ λ task _.
      elim task.state as (λ s. Post (Changes db) (cancel_in s task_id task now db)) [
        | task_cancelled ↦ Post-ok (keeps refl)
        | task_completed ↦ Post-err
        | task_open ↦ Post-bind _ _ λ w stopped.
            then_record db _ _ _ _ _
              (Post-value (cancel_active_of-Change _ _ task_id now db d refl) stopped)
      ]
