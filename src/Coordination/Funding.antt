-- ===== src/Coordination/Funding.antt =====
-- lipas/execution.py: the spend of a scope as the sum of the estimates that were admitted.
use lipas.Prelude.{
  ◌==◌, ℕ_eq, String_eq, Option_eq, List_eq, Pair_eq, beq_refl, ok, ℤ_eq, if◌then◌else◌, ℕ, String,
  ◌≡◌, refl, sym, false, none, some, [], ◌∷◌, ◌++◌,
}
use lipas.Attempt.{Post-value}
use lipas.Dict.{Dict, get, put, has-false_of_get, put-new}
use lipas.Rows.Float.{Float}
use lipas.Coordination.Budget.{SharedBudget, Admission, Budgets, amount_in, admit}
use lipas.Coordination.Mapping.{IsBudget}
use lipas.Coordination.Amounts.{
  get-IsAmount, IsUnder, charge, admit-charge, admit-IsBudget, admit-IsUnder,
}

module _ (float : Float) where
  open float use {F, zero as f0, add, lt, is_finite}

  abbrev pub no_budgets : Budgets F
  no_budgets = record { scopes = []; admissions = []; audit = [] }

  -- The sum of the estimates of a scope's admissions, in the order in which they were admitted.
  unfoldable pub reserved_from : String → String → F → Dict (String × String) (Admission F) → F
  reserved_from scope bucket t [] = t
  reserved_from scope bucket t ((id, a) ∷ rest) =
      reserved_from scope bucket (if id.0 == scope then charge float bucket a.estimate t else t)
        rest

  abbrev pub reserved : String → String → Budgets F → F
  reserved scope bucket db = reserved_from scope bucket f0 db.admissions

  -- A configured scope's limits and spend: the spend is the sum of the admissions, within the limits.
  abbrev pub IsFunded : Budgets F → String → SharedBudget F → Type 0
  IsFunded db scope row =
      IsBudget float row.limits
      × IsBudget float row.spent
      × IsUnder float row.limits row.spent
      × ((bucket : String) → amount_in float bucket row.spent ≡ reserved scope bucket db)

  -- Every scope is funded, and a scope that is not configured has no admissions.
  abbrev pub IsSolvent : Budgets F → Type 0
  IsSolvent db =
      ((scope : String) (row : SharedBudget F)
        → get scope db.scopes ≡ some row
        → IsFunded db scope row)
      × ((scope : String)
          → get scope db.scopes ≡ none
          → (bucket : String) → reserved scope bucket db ≡ f0)

  pub reserved_from-snoc :
      (scope bucket : String) (m : Dict (String × String) (Admission F)) (id : String × String)
      (a : Admission F) (t : F)
      → reserved_from scope bucket t (m ++ (id, a) ∷ []) ≡ (
          if id.0 == scope
          then charge float bucket a.estimate (reserved_from scope bucket t m)
          else reserved_from scope bucket t m)
  unfolding reserved_from
  reserved_from-snoc scope bucket [] id a t = refl
  reserved_from-snoc scope bucket ((j, b) ∷ m) id a t = reserved_from-snoc scope bucket m id a _

  pub reserved-put :
      (scope bucket : String) (id : String × String) (a : Admission F)
      (m : Dict (String × String) (Admission F))
      → get id m ≡ none
      → reserved_from scope bucket f0 (put id a m) ≡ (
          if id.0 == scope
          then charge float bucket a.estimate (reserved_from scope bucket f0 m)
          else reserved_from scope bucket f0 m)
  reserved-put scope bucket id a m new =
      rw (put-new id a m (has-false_of_get id m new)) (reserved_from-snoc scope bucket m id a f0)

  pub reserved-elsewhere :
      (scope other bucket handoff : String) (estimate : Dict String F) (now : ℕ) (db : Budgets F)
      → get (scope, handoff) db.admissions ≡ none
      → (scope == other) ≡ false
      → reserved_from other bucket f0
          (put (scope, handoff) (record { estimate = estimate; created_at = now }) db.admissions)
        ≡ reserved other bucket db
  reserved-elsewhere scope other bucket handoff estimate now db new differs =
      rw
        (
          reserved-put other bucket (scope, handoff)
              (record { estimate = estimate; created_at = now }) db.admissions new,
          differs,
        )
        refl

  pub configured-IsFunded :
      (scope : String) (limits : Dict String F) (now : ℕ) (db : Budgets F)
      → get scope db.scopes ≡ none
      → IsBudget float limits
      → IsSolvent db
      → IsFunded db scope (record { limits = limits; spent = []; updated_at = now })
  unfolding amount_in get
  configured-IsFunded scope limits now db new budget h = (
    budget,
    tt,
    λ bucket limit there. (get-IsAmount float bucket limits limit budget there).1,
    λ bucket. sym (h.1 scope new bucket),
  )

  pub admitted-IsFunded :
      (scope handoff : String) (estimate spent : Dict String F) (now later : ℕ)
      (row : SharedBudget F) (db : Budgets F)
      → get (scope, handoff) db.admissions ≡ none
      → IsBudget float estimate
      → IsFunded db scope row
      → admit float row.limits estimate row.spent ≡ ok spent
      → IsFunded
          (record db {
            admissions =
                put
                  (scope, handoff)
                  (record { estimate = estimate; created_at = now })
                  db.admissions;
          })
          scope
          (record row { spent = spent; updated_at = later })
  admitted-IsFunded scope handoff estimate spent now later row db new budget h admitted = (
    h.0,
    Post-value (admit-IsBudget float row.limits estimate row.spent h.0 budget h.1) admitted,
    Post-value (admit-IsUnder float row.limits estimate row.spent h.2) admitted,
    λ bucket.
        rw
          (
            Post-value (admit-charge float row.limits estimate row.spent budget) admitted bucket,
            h.3 bucket,
            reserved-put scope bucket (scope, handoff)
                (record { estimate = estimate; created_at = now }) db.admissions new,
            beq_refl scope,
          )
          refl,
  )
