-- ===== src/Execution/Completion.antt =====
-- lipas/execution.py: the worker that claims a run can complete it.
use lipas.Execution.Fencing.{claim_run-row}
use lipas.Execution.Runs.{leased}
use lipas.Prelude.{
  ◌==◌, ℕ_eq, String_eq, Option_eq, List_eq, Pair_eq, beq_refl, Eq, ok, ℤ_eq, if◌then◌else◌, ℕ,
  String, ◌≡◌, refl, ◌∙◌, ap, Bool, true, false, not, Option, none, some, List, [], ◌∷◌, arith, ◌<◌,
  ◌+◌,
}
use lipas.Attempt.{◌>>=◌, ◌>>◌, guard, Post-value}
use lipas.Dict.{get, put, get-put}
use lipas.Execution.Model.{
  TaskState, task_completed, completed, ExecutionError, Exec, state_error, is_open, Run, Db, Task,
  Json, text, number, Json_eq, AuditEvent, run_value,
}
use lipas.Execution.Steps.{
  holds_lease, write_run, require_lease, record_audit_event, get_task, move_task, write_task,
}
use lipas.Execution.Finish.{Mapping, released}
use lipas.Execution.Command.{execute, claim_run}
use lipas.Execution.Finish.{complete_run as op_complete_run}
use lipas.Execution.Command.{complete_run}

guard_passes :
    {A : Type 0} (b : Bool) (x : ExecutionError) (m : Exec A) → b ≡ true → (guard b x >> m) ≡ m
unfolding guard ◌>>◌
guard_passes b x m h = rw (h) refl

module _ {P : Type 0} ⦃e : Eq P⦄ ⦃j : Mapping P⦄ where
  -- The identities of the events that `complete_run` records.
  abbrev pub completed_identity : String → List (Json P)
  completed_identity id = text "run" ∷ text id ∷ text "state" ∷ text (run_value completed) ∷ []

  abbrev pub task_identity : String → List (Json P)
  task_identity id = text "task" ∷ text id ∷ text "state" ∷ text "completed" ∷ []

  abbrev completed_fields : String → Run P → List (String × Json P)
  completed_fields id r =
      ("run_id", text id)
      ∷ ("task_id", text r.task_id)
      ∷ ("state", text (run_value completed))
      ∷ ("checkpoint_version", number r.checkpoint_version)
      ∷ []

  require_lease-held :
      (id token : String) (now : ℕ) (db : Db P) (r : Run P)
      → get id db.runs ≡ some r
      → holds_lease token now r ≡ true
      → require_lease id token now db ≡ ok r
  unfolding require_lease ◌>>=◌ ◌>>◌ guard
  require_lease-held id token now db r got holds = rw (got, holds) refl

  record_audit_event-new :
      (identity : List (Json P)) (tag : String) (fields : List (String × Json P)) (now : ℕ)
      (db : Db P)
      → get identity db.audit ≡ none
      → record_audit_event identity tag fields now db
        ≡ ok (record db {
          audit = put identity (record { tag = tag; fields = fields; created_at = now }) db.audit;
        })
  unfolding record_audit_event
  record_audit_event-new identity tag fields now db new = rw (new) refl

  -- Two events that are both new are both recorded, and no run changes.
  two_events :
      (i k : List (Json P)) (tag tag' : String) (fields fields' : List (String × Json P)) (now : ℕ)
      (w : Db P)
      → (i == k) ≡ false
      → get i w.audit ≡ none
      → get k w.audit ≡ none
      → (d : Db P) × ((record_audit_event i tag fields now w >>= λ x.
            record_audit_event k tag' fields' now x)
          ≡ ok d)
        × (d.runs ≡ w.runs)
  unfolding ◌>>=◌
  two_events i k tag tag' fields fields' now w differ new_i new_k =
      let event : AuditEvent P = record { tag = tag; fields = fields; created_at = now } in
      let first : Db P = record w { audit = put i event w.audit } in
      let still : get k first.audit ≡ none =
        ground (arith, get-put i k event w.audit, differ, new_k) in
      let event' : AuditEvent P = record { tag = tag'; fields = fields'; created_at = now } in
      (
        record first { audit = put k event' first.audit },
        rw (record_audit_event-new i tag fields now w new_i)
            (record_audit_event-new k tag' fields' now first still),
        refl,
      )

  -- Moving a task changes neither the runs nor the recorded events.
  move_task-keeps :
      (o : Option Task) (from : TaskState → Bool) (target : TaskState) (now : ℕ) (id : String)
      (w : Db P)
      → ((move_task o from target now id w).audit ≡ w.audit)
        × ((move_task o from target now id w).runs ≡ w.runs)
  move_task-keeps none from target now id w = (refl, refl)
  move_task-keeps (some task) from target now id w =
      elim (from task.state)
        as (λ b.
          ((if b
              then write_task id (record task { state = target; updated_at = now }) w
              else w).audit
            ≡ w.audit)
          × ((if b
                then write_task id (record task { state = target; updated_at = now }) w
                else w).runs
              ≡ w.runs)) [ true ↦ (refl, refl) | false ↦ (refl, refl) ]

  -- `complete_run` under a held lease, when neither completion is recorded.
  complete_run-returns :
      (id token : String) (value : P) (now : ℕ) (db : Db P) (r : Run P)
      → get id db.runs ≡ some r
      → holds_lease token now r ≡ true
      → r.cancel_requested ≡ false
      → get (completed_identity id) db.audit ≡ none
      → get (task_identity r.task_id) db.audit ≡ none
      → (d : Db P) × (execute (complete_run id token value) now db ≡ ok d)
        × (get id d.runs ≡ some (record (released completed now r) { result = some value }))
  unfolding execute op_complete_run ◌>>=◌ write_run
  complete_run-returns id token value now db r got holds calm new_run_event new_task_event =
      (let finished : Run P = record (released completed now r) { result = some value } in
        let written : Db P = record db { runs = put id finished db.runs } in
        let moved : Db P =
          move_task (get_task r.task_id db) is_open task_completed now r.task_id written in
        let (events, rows) =
          move_task-keeps (get_task r.task_id db) is_open task_completed now r.task_id written in
        let run_new : get (completed_identity id) moved.audit ≡ none = rw (events) new_run_event in
        let task_new : get (task_identity r.task_id) moved.audit ≡ none =
          rw (events) new_task_event in
        let (d, returned, kept) =
          two_events (completed_identity id) (task_identity r.task_id) "execution_run_completed"
            "execution_task_completed" (completed_fields id r)
            (("task_id", text r.task_id) ∷ ("state", text "completed") ∷ []) now moved refl run_new
            task_new in
        (
          d,
          rw (require_lease-held id token now db r got holds)
              (guard_passes (not r.cancel_requested) state_error _ (ap not calm) ∙ returned),
          ap (get id) (kept ∙ rows) ∙ get-put id id finished db.runs ∙ rw (beq_refl id) refl,
        ))

  -- The worker whose claim of a run returned can complete it in the tables that the claim left, at any
  -- time before its lease expires, if no cancellation was requested and neither the run nor its task has a
  -- completion recorded: `complete_run` returns, and the run is completed, with the given result, and
  -- with neither a lease token nor an expiry.
  pub claimed_run_completes :
      (id token : String) (seconds now later : ℕ) (db d : Db P) (r : Run P) (value : P)
      → get id db.runs ≡ some r
      → execute (claim_run id token seconds) now db ≡ ok d
      → later < now + seconds
      → r.cancel_requested ≡ false
      → get (completed_identity id) d.audit ≡ none
      → get (task_identity r.task_id) d.audit ≡ none
      → (d' : Db P) × (s : Run P) × (execute (complete_run id token value) later d ≡ ok d')
        × (get id d'.runs ≡ some s)
        × (s.state ≡ completed)
        × (s.lease_token ≡ none)
        × (s.lease_expires ≡ none)
        × (s.result ≡ some value)
  unfolding holds_lease
  claimed_run_completes id token seconds now later db d r value got claimed early calm new_run_event
        new_task_event =
      let run = leased token seconds now r in
      let row = Post-value (claim_run-row id token seconds now db r got) claimed in
      let held : holds_lease token later run ≡ true = ground (arith, beq_refl token, early) in
      let (d', returned, there) =
        complete_run-returns id token value later d run row held calm new_run_event
          new_task_event in
      (
        d',
        record (released completed later run) { result = some value },
        returned,
        there,
        refl,
        refl,
        refl,
        refl,
      )
