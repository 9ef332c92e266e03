-- ===== src/Execution/Inversion.antt =====
-- lipas/execution.py: what the shared steps of a transaction have done when they return.
use lipas.Prelude.{
  ◌==◌, ℕ_eq, String_eq, Option_eq, List_eq, Pair_eq, Eq, ok, err, ℤ_eq, ℕ, String, ◌≡◌, refl, true,
  false, ◌&&◌, Option, none, some, List, arith,
}
use lipas.Attempt.{◌>>=◌, ◌>>◌, guard, Post, Post-ok, Post-err, Post-if}
use lipas.Dict.{get, put, has, exists}
use lipas.Execution.Model.{
  key_error, value_error, state_error, lease_error, checkpoint_conflict, integrity_error, Exec,
  is_active, Json, Json_eq, AuditEvent, Run, Db, found, on_integrity,
}
use lipas.Execution.Steps.{
  is_rival, holds_lease, write_run, insert_run, require_lease, record_new, record_audit_event,
}

pub Post-integrity : {A : Type 0} {Q : A → Type 0} (m : Exec A) → Post Q m → Post Q (on_integrity m)
Post-integrity (ok a) h = h
Post-integrity (err (key_error k)) h = Post-err
Post-integrity (err value_error) h = Post-err
Post-integrity (err state_error) h = Post-err
Post-integrity (err lease_error) h = Post-err
Post-integrity (err checkpoint_conflict) h = Post-err
Post-integrity (err integrity_error) h = Post-err

pub found-eq-ok :
    {A : Type 0} (key : String) (o : Option A) {a : A} → found key o ≡ ok a → o ≡ some a
found-eq-ok key none h = absurd (cc h)
found-eq-ok key (some b) h = cc h

module _ {P : Type 0} ⦃e : Eq P⦄ where
  pub require_lease-eq-ok :
      (id token : String) (now : ℕ) (db : Db P) {run : Run P}
      → require_lease id token now db ≡ ok run
      → (get id db.runs ≡ some run) × (holds_lease token now run ≡ true)
  unfolding require_lease ◌>>=◌ ◌>>◌ guard
  require_lease-eq-ok id token now db h = ground arith

  pub write_run-eq-ok :
      (id : String) (run : Run P) (db : Db P) {db' : Db P}
      → write_run id run db ≡ ok db'
      → ((is_active run.state && exists (is_rival id run) db.runs) ≡ false)
        × (db'.runs ≡ put id run db.runs)
  unfolding write_run
  write_run-eq-ok id run db h = ground arith

  pub insert_run-eq-ok :
      (id : String) (run : Run P) (db : Db P) {db' : Db P}
      → insert_run id run db ≡ ok db'
      → (has id db.runs ≡ false)
        × ((is_active run.state && exists (is_rival id run) db.runs) ≡ false)
        × (db'.runs ≡ put id run db.runs)
  unfolding insert_run
  insert_run-eq-ok id run db {db'} h = ground (arith, write_run-eq-ok id run db {db' = db'})

  record_new-runs :
      (o : Option (AuditEvent P)) (identity : List (Json P)) (event : AuditEvent P) (db : Db P)
      → Post (λ d. d.runs ≡ db.runs) (record_new o identity event db)
  record_new-runs none identity event db = Post-ok refl
  record_new-runs (some old) identity event db =
      Post-if (old.tag == event.tag && old.fields == event.fields) (ok db) (err state_error)
        (λ _. Post-ok refl) (λ _. Post-err)

  -- An audit event leaves the other tables.
  pub record_audit_event-runs :
      (identity : List (Json P)) (tag : String) (fields : List (String × Json P)) (now : ℕ)
      (db : Db P)
      → Post (λ d. d.runs ≡ db.runs) (record_audit_event identity tag fields now db)
  unfolding record_audit_event
  record_audit_event-runs identity tag fields now db =
      record_new-runs (get identity db.audit) identity _ db
