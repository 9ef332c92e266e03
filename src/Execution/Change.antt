-- ===== src/Execution/Change.antt =====
-- lipas/execution.py: the state machine of a run, and what a transaction may do to the run table.
use lipas.Prelude.{
  ℕ_eq, String_eq, Option_eq, List_eq, Pair_eq, Eq, ℤ_eq, ℕ, ◌+◌, String, ◌≡◌, true, false, ◌&&◌,
  some,
}
use lipas.Dict.{Dict, get, put, has, exists}
use lipas.Execution.Model.{
  pending, completed, failed, cancelled, is_active, is_running, is_waiting, Run,
}
use lipas.Execution.Steps.{is_rival, holds_lease}
use lipas.Execution.Runs.{new_run, claimable, leased}
use lipas.Execution.Progress.{suspended}
use lipas.Execution.Finish.{Mapping, released, reopened, cancelled_now, is_uncertain}

module _ {P : Type 0} ⦃e : Eq P⦄ ⦃j : Mapping P⦄ where
  -- The transitions of a run, with what each asks of it.
  pub data Step (r s : Run P) : Type 0 where
    claims :
        (token : String) (seconds now : ℕ)
        → claimable now r ≡ true
        → s ≡ leased token seconds now r
        → Step r s
    renews :
        (token : String) (seconds now : ℕ)
        → holds_lease token now r ≡ true
        → s ≡ record r { lease_expires = some (now + seconds); updated_at = now }
        → Step r s
    saves :
        (token : String) (now : ℕ)
        → holds_lease token now r ≡ true
        → s ≡ record r { checkpoint_version = r.checkpoint_version + 1; updated_at = now }
        → Step r s
    suspends :
        (token : String) (now : ℕ)
        → holds_lease token now r ≡ true
        → s ≡ suspended (r.checkpoint_version + 1) now r
        → Step r s
    resumes :
        (now : ℕ)
        → is_waiting r.state ≡ true
        → s ≡ record r { state = pending; updated_at = now }
        → Step r s
    denies :
        (now : ℕ)
        → is_waiting r.state ≡ true
        → s ≡ record r { state = cancelled; updated_at = now }
        → Step r s
    completes :
        (token : String) (now : ℕ) (value : P)
        → holds_lease token now r ≡ true
        → r.cancel_requested ≡ false
        → s ≡ record (released completed now r) { result = some value }
        → Step r s
    fails :
        (token : String) (now : ℕ) (value : P)
        → holds_lease token now r ≡ true
        → s ≡ record (released failed now r) { error = some value }
        → Step r s
    stops :
        (token : String) (now : ℕ)
        → holds_lease token now r ≡ true
        → r.cancel_requested ≡ true
        → s ≡ released cancelled now r
        → Step r s
    reopens : (now : ℕ) → is_uncertain r ≡ true → s ≡ reopened now r → Step r s
    asks :
        (now : ℕ)
        → is_running r.state ≡ true
        → s ≡ record r { cancel_requested = true; updated_at = now }
        → Step r s
    cancels :
        (now : ℕ)
        → is_active r.state ≡ true
        → is_running r.state ≡ false
        → s ≡ cancelled_now now r
        → Step r s

  -- The unique index of the run table has no objection to the row.
  abbrev pub IsFree : String → Run P → Dict String (Run P) → Type 0
  IsFree id run runs = (is_active run.state && exists (is_rival id run) runs) ≡ false

  -- What one transaction may do: leave the run table, add a pending run, or move one run by a step.
  pub data Change (runs runs' : Dict String (Run P)) : Type 0 where
    keeps : runs' ≡ runs → Change runs runs'
    adds :
        (id task_id : String) (now : ℕ)
        → has id runs ≡ false
        → IsFree id (new_run task_id now) runs
        → runs' ≡ put id (new_run task_id now) runs
        → Change runs runs'
    moves :
        (id : String) (r s : Run P)
        → get id runs ≡ some r
        → IsFree id s runs
        → runs' ≡ put id s runs
        → Step r s
        → Change runs runs'
