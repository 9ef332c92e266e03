-- ===== src/Execution/Refinement.antt =====
-- lipas/execution.py: every operation moves the run table as the state machine allows.
pub mod Interrupts
pub mod Cancellation
use lipas.Prelude.{
  ◌==◌, ℕ_eq, String_eq, option_beq, option_eqb_iff, Option_eq, list_beq, list_eqb_iff, List_eq,
  pair_beq, pair_eqb_iff, Pair_eq, beq_refl, beq_sym, eq_of_beq, beq_false, beq_true, Eq,
  Result-cases, Result, ok, err, int_leb, int_beq, int_eqb_iff, ℤ_eq, ℤ, pos, negsuc, length,
  get_elem?, filter, all, length-append, filter-append, get_elem?-append_middle, contains,
  contains-append, ltb, leb, nat_eq, if◌then◌else◌, nat_eq_iff, Bool-cases, Option-cases, or_left,
  or_right, zero, ℕ, suc, ◌+◌, ◌-◌, ◌*◌, ◌^◌, ◌≤◌, ◌<◌, max, String, ◌≡◌, refl, sym, ◌∙◌, ap, subst,
  ◌≢◌, ◌↔◌, ◌⊎◌, inl, inr, Bool, true, false, not, ◌&&◌, ◌||◌, Option, none, some, List, [], ◌∷◌,
  ◌++◌, map, append-nil, append_assoc, arith,
}
use lipas.Attempt.{
  ◌>>=◌, ◌>>◌, guard, Post, Post-value, Post-bind, Post-guard, Post-if, Post-ok, Post-err,
  Post-weaken,
}
use lipas.Execution.Finish.{is_completed}
use lipas.Execution.Model.{is_open}
use lipas.Dict.{Dict, get, put, has, exists, keys}
use lipas.Execution.Model.{
  TaskState, task_open, task_completed, task_cancelled, RunState, pending, running, waiting,
  completed, failed, cancelled, ExecutionError, Exec, value_error, state_error, lease_error,
  is_active, is_running, is_waiting, Run, Db, Task, Json, Json_eq, Interrupt, Checkpoint,
  non_empty_text, found, on_integrity,
}
use lipas.Execution.Steps.{
  is_rival, holds_lease, write_run, insert_run, require_lease, record_audit_event, get_run,
  get_task, get_interrupt, move_task, write_task,
}
use lipas.Execution.Runs.{
  create_task, create_run, claim_run, renew_lease, new_run, claimable, leased,
}
use lipas.Execution.Progress.{
  suspended, save_checkpoint, suspend, resolve_interrupt, decide, insert_checkpoint,
  insert_interrupt, waiting_run, record_denied,
}
use lipas.Execution.Finish.{
  Mapping, released, reopened, cancelled_now, is_uncertain, complete_run, fail_run,
  finish_cancelled, reopen_uncertain, request_cancel, cancel_task, stop_run, cancel_active,
  record_stop, active_run, cancel_active_of,
}
use lipas.Execution.Change.{
  Step, claims, renews, saves, suspends, resumes, denies, completes, fails, stops, reopens, asks,
  cancels, IsFree, Change, keeps, adds, moves,
}
use lipas.Execution.Inversion.{
  Post-integrity, found-eq-ok, require_lease-eq-ok, write_run-eq-ok, insert_run-eq-ok,
  record_audit_event-runs,
}

not-true : (b : Bool) → not b ≡ true → b ≡ false
not-true b h = ground arith

module _ {P : Type 0} ⦃e : Eq P⦄ ⦃j : Mapping P⦄ where
  abbrev pub Changes : Db P → Db P → Type 0
  Changes db d = Change db.runs d.runs

  -- Recording an event afterwards changes no run.
  pub then_record :
      (db : Db P) (identity : List (Json P)) (tag : String) (fields : List (String × Json P))
      (now : ℕ) (written : Db P)
      → Change db.runs written.runs
      → Post (Changes db) (record_audit_event identity tag fields now written)
  then_record db identity tag fields now written c =
      Post-weaken (record_audit_event-runs identity tag fields now written)
        (λ d h. subst (λ r. Change db.runs r) (sym h) c)

  -- A written run is a move.
  pub write_run-Change :
      (id : String) (r s : Run P) (db : Db P) {written : Db P}
      → get id db.runs ≡ some r
      → write_run id s db ≡ ok written
      → Step r s
      → Change db.runs written.runs
  write_run-Change id r s db got w step =
      let (free, put_there) = write_run-eq-ok id s db w in moves id r s got free put_there step

  -- The same from tables that differ elsewhere.
  pub write_run-Change-elsewhere :
      (id : String) (r s : Run P) (db d : Db P) {written : Db P}
      → d.runs ≡ db.runs
      → get id db.runs ≡ some r
      → write_run id s d ≡ ok written
      → Step r s
      → Change db.runs written.runs
  write_run-Change-elsewhere id r s db d {written} same got w step =
      subst (λ runs. Change runs written.runs) same
        (write_run-Change id r s d (cc (got, same)) w step)

  pub create_task-Change :
      (goal root : String) (is_dir : Bool) (task_id : String) (now : ℕ) (db : Db P)
      → Post (Changes db) (create_task goal root is_dir task_id now db)
  unfolding create_task
  create_task-Change goal root is_dir task_id now db = Post-bind _ _ λ goal' _.
      Post-guard _ _ _ λ _.
        Post-bind _ _ λ task_id' _.
          Post-integrity _ (Post-guard _ _ _ λ _. then_record db _ _ _ _ _ (keeps refl))

  pub create_run-Change :
      (task_id run_id : String) (now : ℕ) (db : Db P)
      → Post (Changes db) (create_run task_id run_id now db)
  unfolding create_run
  create_run-Change task_id run_id now db = Post-bind _ _ λ task_id' _. Post-bind _ _ λ task _.
      Post-guard _ _ _ λ _. Post-bind _ _ λ id _. Post-integrity _ (
        Post-bind _ _ λ inserted w.
          let (new, free, put_there) = insert_run-eq-ok id (new_run task_id' now) db w in
          then_record db _ _ _ _ _ (adds id task_id' now new free put_there))

  -- An update of a task changes no run.
  move_task-Change :
      (db : Db P) (o : Option Task) (from : TaskState → Bool) (target : TaskState) (now : ℕ)
      (id : String) (w : Db P)
      → Change db.runs w.runs
      → Change db.runs (move_task o from target now id w).runs
  move_task-Change db none from target now id w c = c
  move_task-Change db (some task) from target now id w c =
      elim (from task.state)
        as (λ b.
          Change db.runs
            (if b
              then write_task id (record task { state = target; updated_at = now }) w
              else w).runs) [ true ↦ c | false ↦ c ]

  pub claim_run-Change :
      (id token : String) (seconds now : ℕ) (db : Db P)
      → Post (Changes db) (claim_run id token seconds now db)
  unfolding claim_run
  claim_run-Change id token seconds now db = Post-guard _ _ _ λ _. Post-bind _ _ λ run got.
      Post-guard _ _ _ λ may. Post-bind _ _ λ w written. then_record db _ _ _ _ _ (
        write_run-Change id run _ db (found-eq-ok id (get_run id db) got) written
          (claims token seconds now may refl))

  pub renew_lease-Change :
      (id token : String) (seconds now : ℕ) (db : Db P)
      → Post (Changes db) (renew_lease id token seconds now db)
  unfolding renew_lease
  renew_lease-Change id token seconds now db = Post-guard _ _ _ λ _. Post-bind _ _ λ _ _.
      Post-bind _ _ λ run held. Post-bind _ _ λ w written.
        let (got, holds) = require_lease-eq-ok id token now db held in
        then_record db _ _ _ _ _
          (write_run-Change id run _ db got written (renews token seconds now holds refl))

  pub complete_run-Change :
      (id token : String) (value : P) (now : ℕ) (db : Db P)
      → Post (Changes db) (complete_run id token value now db)
  unfolding complete_run
  complete_run-Change id token value now db = Post-bind _ _ λ run held. Post-guard _ _ _ λ calm.
      Post-bind _ _ λ w written.
        let (got, holds) = require_lease-eq-ok id token now db held in
        let moved =
          write_run-Change id run _ db got written
            (completes token now value holds (not-true run.cancel_requested calm) refl) in
        Post-bind _ _ λ d recorded. then_record db _ _ _ _ _ (
          Post-value
            (then_record db _ _ _ _ _ (
              move_task-Change db (get_task run.task_id w) is_open task_completed now run.task_id w
                moved))
            recorded)

  pub fail_run-Change :
      (id token : String) (value : P) (now : ℕ) (db : Db P)
      → Post (Changes db) (fail_run id token value now db)
  unfolding fail_run
  fail_run-Change id token value now db = Post-bind _ _ λ run held. Post-bind _ _ λ w written.
      let (got, holds) = require_lease-eq-ok id token now db held in
      then_record db _ _ _ _ _
        (write_run-Change id run _ db got written (fails token now value holds refl))

  pub finish_cancelled-Change :
      (id token : String) (now : ℕ) (db : Db P)
      → Post (Changes db) (finish_cancelled id token now db)
  unfolding finish_cancelled
  finish_cancelled-Change id token now db = Post-bind _ _ λ run held. Post-guard _ _ _ λ asked.
      Post-bind _ _ λ w written.
        let (got, holds) = require_lease-eq-ok id token now db held in
        then_record db _ _ _ _ _
          (write_run-Change id run _ db got written (stops token now holds asked refl))

  pub reopen_uncertain-Change :
      (id : String) (evidence : P) (now : ℕ) (db : Db P)
      → Post (Changes db) (reopen_uncertain id evidence now db)
  unfolding reopen_uncertain
  reopen_uncertain-Change id evidence now db = Post-bind _ _ λ _ _. Post-bind _ _ λ run got.
      Post-guard _ _ _ λ unsure. Post-bind _ _ λ w written. then_record db _ _ _ _ _ (
        move_task-Change db (get_task run.task_id w) is_completed task_open now run.task_id w (
          write_run-Change id run _ db (found-eq-ok id (get_run id db) got) written
            (reopens now unsure refl)))
