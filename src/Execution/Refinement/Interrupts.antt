-- ===== src/Execution/Refinement/Interrupts.antt =====
-- lipas/execution.py: the refinement for checkpoints, interrupts and cancellation.
use lipas.Prelude.{
  ℕ_eq, String_eq, Option_eq, List_eq, Pair_eq, Eq, ok, ℤ_eq, nat_eq, nat_eq_iff, ℕ, ◌+◌, String,
  ◌≡◌, sym, ◌∙◌, ap, true, arith,
}
use lipas.Attempt.{Post, Post-value, Post-bind, Post-guard}
use lipas.Execution.Model.{Run, Db, Json_eq, Interrupt, Checkpoint}
use lipas.Execution.Steps.{holds_lease}
use lipas.Execution.Progress.{
  suspended, save_checkpoint, suspend, insert_checkpoint, insert_interrupt,
}
use lipas.Execution.Finish.{Mapping}
use lipas.Execution.Change.{Step, saves, suspends}
use lipas.Execution.Inversion.{Post-integrity, require_lease-eq-ok}
use lipas.Execution.Refinement.{Changes, then_record, write_run-Change-elsewhere}

module _ {P : Type 0} ⦃e : Eq P⦄ ⦃j : Mapping P⦄ where
  insert_checkpoint-runs :
      (id : String) (version : ℕ) (point : Checkpoint P) (db : Db P) {d : Db P}
      → insert_checkpoint id version point db ≡ ok d
      → d.runs ≡ db.runs
  unfolding insert_checkpoint
  insert_checkpoint-runs id version point db h = ground arith

  insert_interrupt-runs :
      (id : String) (row : Interrupt P) (db : Db P) {d : Db P}
      → insert_interrupt id row db ≡ ok d
      → d.runs ≡ db.runs
  unfolding insert_interrupt
  insert_interrupt-runs id row db h = ground arith

  -- The version that a caller expects is the run's.
  saves_version :
      (token : String) (now : ℕ) (r : Run P) (expected : ℕ)
      → holds_lease token now r ≡ true
      → nat_eq r.checkpoint_version expected ≡ true
      → Step r (record r { checkpoint_version = expected + 1; updated_at = now })
  saves_version token now r expected holds same = saves token now holds (
      ap (λ v. record r { checkpoint_version = v + 1; updated_at = now })
        (sym ((nat_eq_iff r.checkpoint_version expected).0 same)))

  suspends_version :
      (token : String) (now : ℕ) (r : Run P) (expected : ℕ)
      → holds_lease token now r ≡ true
      → nat_eq r.checkpoint_version expected ≡ true
      → Step r (suspended (expected + 1) now r)
  suspends_version token now r expected holds same =
      suspends token now holds (
        ap (λ v. suspended (v + 1) now r) (sym ((nat_eq_iff r.checkpoint_version expected).0 same)))

  pub save_checkpoint-Change :
      (id token : String) (expected : ℕ) (phase : String) (state : P) (now : ℕ) (db : Db P)
      → Post (Changes db) (save_checkpoint id token expected phase state now db)
  unfolding save_checkpoint
  save_checkpoint-Change id token expected phase state now db = Post-bind _ _ λ phase' _.
      Post-bind _ _ λ run held. Post-guard _ _ _ λ same. Post-bind _ _ λ d inserted.
        Post-bind _ _ λ w written.
          let (got, holds) = require_lease-eq-ok id token now db held in
          then_record db _ _ _ _ _ (
            write_run-Change-elsewhere id run _ db d
              (insert_checkpoint-runs id (expected + 1) _ db inserted) got written
              (saves_version token now run expected holds same))

  pub suspend-Change :
      (id token : String) (expected : ℕ) (phase : String) (state : P) (kind : String) (request : P)
      (interrupt : String) (now : ℕ) (db : Db P)
      → Post (Changes db) (suspend id token expected phase state kind request interrupt now db)
  unfolding suspend
  suspend-Change id token expected phase state kind request interrupt now db = Post-bind _ _ λ _ _.
      Post-bind _ _ λ _ _. Post-bind _ _ λ asked_id _. Post-integrity _ (
        Post-bind _ _ λ run held. Post-guard _ _ _ λ same. Post-bind _ _ λ d inserted.
          Post-bind _ _ λ a asked. Post-bind _ _ λ w written. Post-bind _ _ λ s saved.
            let (got, holds) = require_lease-eq-ok id token now db held in
            let same_runs =
              insert_interrupt-runs asked_id _ d asked
              ∙ insert_checkpoint-runs id (expected + 1) _ db inserted in
            then_record db _ _ _ _ _ (
              Post-value
                (then_record db _ _ _ _ _ (
                  write_run-Change-elsewhere id run _ db a same_runs got written
                    (suspends_version token now run expected holds same)))
                saved))
