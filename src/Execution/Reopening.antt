-- ===== src/Execution/Reopening.antt =====
-- lipas/execution.py: a run that failed, was reopened and fails again.
use lipas.Prelude.{
  ◌==◌, ℕ_eq, String_eq, Option_eq, List_eq, Pair_eq, Eq, ok, err, ℤ_eq, ℕ, String, ◌≡◌, sym, subst,
  false, some, List, [], ◌∷◌, arith, true,
}
use lipas.Attempt.{Post, Post-bind, Post-err, raises}
use lipas.Dict.{get}
use lipas.Execution.Model.{
  failed, state_error, Run, Db, Json, text, number, mapping, Json_eq, AuditEvent, run_value,
}
use lipas.Execution.Steps.{write_run, record_audit_event}
use lipas.Execution.Finish.{Mapping, released}
use lipas.Execution.Command.{execute}
use lipas.Execution.Steps.{record_new}
use lipas.Execution.Finish.{fail_run as op_fail_run}
use lipas.Execution.Inversion.{require_lease-eq-ok}
use lipas.Execution.Command.{fail_run}
use lipas.Execution.Fencing.{raises-Post}

module _ {P : Type 0} ⦃e : Eq P⦄ ⦃j : Mapping P⦄ where
  -- The identity of the event that `fail_run` records, and its fields.
  abbrev pub failed_identity : String → List (Json P)
  failed_identity id = text "run" ∷ text id ∷ text "state" ∷ text (run_value failed) ∷ []

  abbrev pub failed_fields : String → Run P → P → List (String × Json P)
  failed_fields id r error =
      ("run_id", text id)
      ∷ ("task_id", text r.task_id)
      ∷ ("state", text (run_value failed))
      ∷ ("checkpoint_version", number r.checkpoint_version)
      ∷ ("error", mapping error)
      ∷ []

  write_run-audit :
      (id : String) (run : Run P) (db : Db P) {w : Db P}
      → write_run id run db ≡ ok w
      → w.audit ≡ db.audit
  unfolding write_run
  write_run-audit id run db h = ground arith

  record_conflict :
      (old event : AuditEvent P) (identity : List (Json P)) (db : Db P)
      → (old.fields == event.fields) ≡ false
      → record_new (some old) identity event db ≡ err state_error
  record_conflict old event identity db differs = ground arith

  record_audit_event-conflict :
      (old : AuditEvent P) (identity : List (Json P)) (tag : String)
      (fields : List (String × Json P)) (now : ℕ) (db : Db P)
      → get identity db.audit ≡ some old
      → (old.fields == fields) ≡ false
      → record_audit_event identity tag fields now db ≡ err state_error
  unfolding record_audit_event
  record_audit_event-conflict old identity tag fields now db known differs = rw (known) (
      record_conflict old (record { tag = tag; fields = fields; created_at = now }) identity db
        differs)

  refail :
      (id token : String) (error : P) (now : ℕ) (db : Db P) (r : Run P) (old : AuditEvent P)
      → get id db.runs ≡ some r
      → get (failed_identity id) db.audit ≡ some old
      → (old.fields == failed_fields id r error) ≡ false
      → Post (λ _. ⊥) (execute (fail_run id token error) now db)
  unfolding execute op_fail_run
  refail id token error now db r old got known differs = Post-bind _ _ λ run held.
      Post-bind _ _ λ w written.
        let (there, holds) = require_lease-eq-ok id token now db held in
        let is_r : run ≡ r = cc (got, there) in
        subst (Post (λ _. ⊥))
          (sym (
            record_audit_event-conflict old (failed_identity id) _ (failed_fields id run error) now
              w
              (rw
                (write_run-audit id (record (released failed now run) { error = some error }) db
                  written)
                known)
              (rw (is_r) differs)))
          Post-err

  -- The event of a failed run is recorded under an identity without the attempt. Once a failure was
  -- recorded, no later `fail_run` of that run with another error or at another checkpoint version
  -- returns, whoever holds the lease: the run cannot be marked failed.
  pub failure_recorded_once :
      (id token : String) (error : P) (now : ℕ) (db : Db P) (r : Run P) (old : AuditEvent P)
      → get id db.runs ≡ some r
      → get (failed_identity id) db.audit ≡ some old
      → (old.fields == failed_fields id r error) ≡ false
      → raises (execute (fail_run id token error) now db) ≡ true
  failure_recorded_once id token error now db r old got known differs =
      raises-Post _ (refail id token error now db r old got known differs)
