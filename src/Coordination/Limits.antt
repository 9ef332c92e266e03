-- ===== src/Coordination/Limits.antt =====
-- lipas/execution.py: sequences of calls on the shared budget, and a reservation that is repeated.
use lipas.Prelude.{
  ℕ_eq, String_eq, Option_eq, List_eq, Pair_eq, Result, ok, err, ℤ_eq, String, ◌≡◌, refl, sym,
  subst, Bool, false, Option, some, List, [], ◌∷◌,
}
use lipas.Attempt.{Post, Post-value}
use lipas.Dict.{Dict, get}
use lipas.Rows.Float.{Float}
use lipas.Coordination.Budget.{BudgetFailure, SharedBudget, Budgets, amount_in, configure, reserve}
use lipas.Coordination.Funding.{no_budgets, reserved, reserved_from, IsSolvent}
use lipas.Coordination.Reservations.{
  BudgetCall, configures, reserves, configure-IsSolvent, reserve-IsSolvent,
}

module _ (float : Float) (same : float.F → float.F → Bool)
    (same_json : Dict String float.F → Dict String float.F → Bool) {V : Type 0}
    (read : V → Option float.F) where
  open float use {F, zero as f0, add, lt, is_finite}

  -- The tables after a call: a call that raises is rolled back.
  abbrev kept : Result BudgetFailure (Dict String F × Budgets F) → Budgets F → Budgets F
  kept (ok (mapping, db')) db = db'
  kept (err x) db = db

  unfoldable pub call : BudgetCall V → Budgets F → Budgets F
  call (configures scope limits now) db =
      kept (configure float same same_json read scope limits now db) db
  call (reserves scope handoff estimate now) db =
      kept (reserve float same same_json read scope handoff estimate now db) db

  unfoldable pub calls : List (BudgetCall V) → Budgets F → Budgets F
  calls [] db = db
  calls (c ∷ cs) db = calls cs (call c db)

  kept-IsSolvent :
      (m : Result BudgetFailure (Dict String F × Budgets F)) (db : Budgets F)
      → Post (λ x. IsSolvent float x.1) m
      → IsSolvent float db
      → IsSolvent float (kept m db)
  kept-IsSolvent (ok (mapping, db')) db p h = Post-value p refl
  kept-IsSolvent (err x) db p h = h

  call-IsSolvent :
      (c : BudgetCall V) (db : Budgets F) → IsSolvent float db → IsSolvent float (call c db)
  unfolding call
  call-IsSolvent (configures scope limits now) db h =
      kept-IsSolvent _ db (configure-IsSolvent float same same_json read scope limits now db h) h
  call-IsSolvent (reserves scope handoff estimate now) db h =
      kept-IsSolvent _ db
        (reserve-IsSolvent float same same_json read scope handoff estimate now db h) h

  calls-IsSolvent :
      (cs : List (BudgetCall V)) (db : Budgets F)
      → IsSolvent float db
      → IsSolvent float (calls cs db)
  unfolding calls
  calls-IsSolvent [] db h = h
  calls-IsSolvent (c ∷ cs) db h = calls-IsSolvent cs (call c db) (call-IsSolvent c db h)

  no_budgets-IsSolvent : IsSolvent float (no_budgets float)
  unfolding get reserved_from
  no_budgets-IsSolvent = (λ scope row there. absurd (cc there), λ scope missing bucket. refl)

  -- Whatever workers configure and reserve, in whatever order, and whichever calls raise: in a
  -- configured scope the sum of all admitted estimates of a bucket, in the order of their admission,
  -- is the stored spend, and it is not above the bucket's limit.
  pub reserved_within_limits :
      (cs : List (BudgetCall V)) (scope : String) (row : SharedBudget F) (bucket : String)
      (limit : F)
      → get scope (calls cs (no_budgets float)).scopes ≡ some row
      → get bucket row.limits ≡ some limit
      → (reserved float scope bucket (calls cs (no_budgets float))
          ≡ amount_in float bucket row.spent)
        × (lt limit (reserved float scope bucket (calls cs (no_budgets float))) ≡ false)
  reserved_within_limits cs scope row bucket limit got declared =
      let funded = (calls-IsSolvent cs (no_budgets float) no_budgets-IsSolvent).0 scope row got in
      (
        sym (funded.3 bucket),
        subst (λ x. lt limit x ≡ false) (funded.3 bucket) (funded.2 bucket limit declared),
      )
