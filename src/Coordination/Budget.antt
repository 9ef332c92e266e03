-- ===== src/Coordination/Budget.antt =====
-- lipas/execution.py: `_budget_mapping`, configure_coordination_budget, reserve_coordination_budget and
-- coordination_budget_snapshot, over the tables of budgets, admissions and their audit events.
use lipas.Prelude.{
  ◌==◌, ℕ_eq, String_eq, Option_eq, List_eq, Pair_eq, Result, ok, ℤ_eq, length, all, nat_eq, ℕ,
  String, Bool, false, not, ◌&&◌, Option, none, some, [], ◌∷◌,
}
use lipas.Attempt.{◌>>=◌, ◌>>◌, guard, required}
use lipas.Dict.{Dict, get, put, has}
use lipas.Text.{strip, join}
use lipas.Rows.Float.{Float}

pub data BudgetFailure : Type 0 where
  value_error : BudgetFailure
  state_error : BudgetFailure
  key_error : BudgetFailure

-- A row of execution_coordination_budgets.
pub record SharedBudget (F : Type 0) : Type 0 where
  pub limits : Dict String F
  pub spent : Dict String F
  pub updated_at : ℕ

-- A row of execution_coordination_admissions.
pub record Admission (F : Type 0) : Type 0 where
  pub estimate : Dict String F
  pub created_at : ℕ

-- The fields of the audit event of a reservation.
pub record Reserved (F : Type 0) : Type 0 where
  pub scope : String
  pub handoff_id : String
  pub estimate : Dict String F

pub record Budgets (F : Type 0) : Type 0 where
  pub scopes : Dict String (SharedBudget F)
  pub admissions : Dict (String × String) (Admission F)
  pub audit : Dict String (Reserved F)

-- `_non_empty_text`
unfoldable pub budget_text : String → Result BudgetFailure String
budget_text s = guard (not (strip s == "")) value_error >> ok (strip s)

-- The identity of the audit event, `coordination-budget:{scope}:{handoff_id}`.
abbrev pub reservation_id : String → String → String
reservation_id scope handoff = join "coordination-budget:" (join scope (join ":" handoff))

module _ (float : Float) where
  open float use {F, zero as f0, add, lt, is_finite}

  -- `_budget_mapping`, given `_finite_float` before its test for finite values.
  unfoldable pub budget_mapping :
      {V : Type 0}
      → (V → Option F)
      → Dict String V
      → Dict String F
      → Result BudgetFailure (Dict String F)
  budget_mapping read [] normalized = ok normalized
  budget_mapping read ((bucket, amount) ∷ rest) normalized = do
    guard (not (strip bucket == "")) value_error
    guard (not (has (strip bucket) normalized)) value_error
    x ← required value_error (read amount)
    guard (is_finite x && not (lt x f0)) value_error
    budget_mapping read rest (put (strip bucket) x normalized)

  -- `d.get(bucket, 0.0)`
  unfoldable pub amount_in : String → Dict String F → F
  amount_in bucket d = elim (get bucket d) [ none ↦ f0 | some x ↦ x ]

  -- The loop over the buckets of an estimate.
  unfoldable pub admit :
      Dict String F → Dict String F → Dict String F → Result BudgetFailure (Dict String F)
  admit limits [] spent = ok spent
  admit limits ((bucket, amount) ∷ rest) spent = do
    limit ← required state_error (get bucket limits)
    guard (not (lt limit (add (amount_in bucket spent) amount))) state_error
    admit limits rest (put bucket (add (amount_in bucket spent) amount) spent)

  module _ (same : F → F → Bool) (same_json : Dict String F → Dict String F → Bool) where
    -- `a == b` of two mappings.
    abbrev pub entry_in : Dict String F → String × F → Bool
    entry_in b entry = elim (get entry.0 b) [ none ↦ false | some y ↦ same entry.1 y ]

    abbrev pub same_mapping : Dict String F → Dict String F → Bool
    same_mapping a b = nat_eq (length a) (length b) && all (entry_in b) a

    abbrev pub same_event : Reserved F → Reserved F → Bool
    same_event a b =
        a.scope == b.scope && a.handoff_id == b.handoff_id && same_json a.estimate b.estimate

    -- `_record_audit_event`
    unfoldable pub record_reserved : Reserved F → Budgets F → Result BudgetFailure (Budgets F)
    record_reserved event db =
        let id = reservation_id event.scope event.handoff_id in
        elim (get id db.audit) [
          | none ↦ ok (record db { audit = put id event db.audit })
          | some old ↦ guard (same_event old event) state_error >> ok db
        ]

    -- The transaction of configure_coordination_budget.
    abbrev pub configure_row :
        Option (SharedBudget F)
        → String
        → Dict String F
        → ℕ
        → Budgets F
        → Result BudgetFailure (Budgets F)
    configure_row none scope limits now db =
        let row : SharedBudget F = record { limits = limits; spent = []; updated_at = now } in
        ok (record db { scopes = put scope row db.scopes })
    configure_row (some row) scope limits now db =
        guard (same_mapping row.limits limits) state_error >> ok db

    unfoldable pub configure :
        {V : Type 0}
        → (V → Option F)
        → String
        → Dict String V
        → ℕ
        → Budgets F
        → Result BudgetFailure (Dict String F × Budgets F)
    configure read scope limits now db = do
      normalized ← budget_mapping read limits []
      name ← budget_text scope
      db' ← configure_row (get name db.scopes) name normalized now db
      ok (normalized, db')

    -- A reservation of a handoff that has none yet.
    unfoldable pub reserve_new :
        String
        → String
        → Dict String F
        → ℕ
        → SharedBudget F
        → Budgets F
        → Result BudgetFailure (Budgets F)
    reserve_new scope handoff estimate now row db = do
      limits ← budget_mapping (λ x. some x) row.limits []
      spent ← budget_mapping (λ x. some x) row.spent []
      spent' ← admit limits estimate spent
      let admission : Admission F = record { estimate = estimate; created_at = now }
      let row' : SharedBudget F = record row { spent = spent'; updated_at = now }
      record_reserved (record { scope = scope; handoff_id = handoff; estimate = estimate })
          (record db {
            admissions = put (scope, handoff) admission db.admissions;
            scopes = put scope row' db.scopes;
          })

    -- The same estimate again is a no-op.
    abbrev pub reserve_row :
        Option (Admission F)
        → String
        → String
        → Dict String F
        → ℕ
        → SharedBudget F
        → Budgets F
        → Result BudgetFailure (Budgets F)
    reserve_row none scope handoff estimate now row db =
        reserve_new scope handoff estimate now row db
    reserve_row (some prior) scope handoff estimate now row db =
        guard (same_mapping prior.estimate estimate) state_error >> ok db

    unfoldable pub reserve :
        {V : Type 0}
        → (V → Option F)
        → String
        → String
        → Dict String V
        → ℕ
        → Budgets F
        → Result BudgetFailure (Dict String F × Budgets F)
    reserve read scope handoff estimate now db = do
      name ← budget_text scope
      id ← budget_text handoff
      normalized ← budget_mapping read estimate []
      row ← required state_error (get name db.scopes)
      db' ← reserve_row (get (name, id) db.admissions) name id normalized now row db
      ok (normalized, db')
