-- ===== src/Rows/Examples.antt =====
-- The theorems on lipas/rows/ at a concrete session, and tests.
use lipas.Text.{strip}
use lipas.Prelude.{
  ◌==◌, ℕ_eq, String_eq, Option_eq, Eq, ok, ℤ_eq, pos, ltb, nat_eq_iff, ℕ, String, ◌≡◌, refl, ◌↔◌,
  ◌⊎◌, Bool, true, false, Option, none, some, [], ◌∷◌, arith,
}
use lipas.Dict.{get, Dict, put, has, keys}
use lipas.Calculus.Context.{BeliefContext}
use lipas.Calculus.Claim.{
  Claim, StrategyRegistry, unassigned, merge, merge_keys, all_keys, value, merge_field,
  strategy_for,
}
use lipas.Store.{ClaimStore, new_store, fold, filter_claims}
use lipas.Store.Invariant.{IsConsistent, new_store-IsConsistent}
use lipas.Rows.SmallFloat.{small_float}
use lipas.Rows.Base.{fold_rows, owners, violations}
use lipas.Rows.Base.Gate.{composed, fold_rows-gate}
use lipas.Rows.Capability.{
  Payload, capability_row, normalize, spent, check_invariants, valid_amount, add_amount, delivered,
  amount_of, bucket_of, finite_float, gate_after,
}
use lipas.Rows.Capability.Budget.{AreLimits, IsWithin}
use lipas.Rows.Capability.Ledger.{
  fold_rows-IsWithin, budget_never_exceeded, normalize-AreLimits, after_fold, session,
  new_store-IsWithin,
}

pub data Field : Type 0 where
  text : String → Field
  number : ℕ → Field

abbrev field_beq : Field → Field → Bool
field_beq (text a) (text b) = a == b
field_beq (number a) (number b) = a == b
field_beq _ _ = false

field_eqb_iff : (a b : Field) → (field_beq a b ≡ true) ↔ (a ≡ b)
field_eqb_iff (text a) (text b) =
    (λ h. ground (arith, String_eq.eqb_iff a b), λ h. ground (arith, String_eq.eqb_iff a b))
field_eqb_iff (number a) (number b) =
    (λ h. ground (arith, nat_eq_iff a b), λ h. ground (arith, nat_eq_iff a b))
field_eqb_iff (text a) (number b) = (λ h. cc, λ h. cc)
field_eqb_iff (number a) (text b) = (λ h. cc, λ h. cc)

instance abbrev Field_eq : Eq Field
Field_eq = record { eqb = field_beq; eqb_iff = field_eqb_iff }

abbrev text_of : Field → Option String
text_of (text s) = some s
text_of (number n) = none

abbrev number_of : Field → Option ℕ
number_of (text s) = none
number_of (number n) = some n

abbrev fields : Payload Field ℕ
fields = record { as_text = text_of; to_float = number_of }

none_limited : AreLimits small_float fields []
unfolding get
none_limited bucket limit p = cc

abbrev budgets : Dict String ℕ
budgets = ("tokens", 10) ∷ []

budgets_accepted : normalize small_float fields ((" tokens ", number 10) ∷ []) [] ≡ ok budgets
unfolding normalize strip put has
budgets_accepted = refl

budgets_limited : AreLimits small_float fields budgets
budgets_limited =
    normalize-AreLimits small_float fields ((" tokens ", number 10) ∷ []) [] budgets none_limited
      budgets_accepted

abbrev spend : String → ℕ → Claim Field
spend id n = record {
  tag = "resource_spent";
  fields = ("bucket", some (text "tokens")) ∷ ("amount", some (number n)) ∷ [];
  kind = none;
  priority = pos 0;
  source = "";
  claim_id = id;
  seq = unassigned;
}

abbrev registry : StrategyRegistry Field
registry = record { table = []; default = λ a b ctx. ok b }

abbrev calm : BeliefContext
calm = record { fail_counts = []; caution_threshold = 3 }

abbrev start : ClaimStore Field
start = new_store "b" registry calm

-- A spend of 7 is admitted, a second one refused.
abbrev after_two : ClaimStore Field
after_two =
    session small_float fields budgets [] [] (("m", spend "a" 7) ∷ ("n", spend "c" 7) ∷ []) start

after_two_test : spent small_float fields after_two "tokens" ≡ ok 7
unfolding spent fold_rows capability_row fold merge merge_keys get put has new_store filter_claims
    check_invariants strip owners violations all_keys keys value merge_field strategy_for
    valid_amount add_amount delivered amount_of bucket_of finite_float gate_after
after_two_test = refl

fold_rows-IsWithin_example :
    IsConsistent (after_fold small_float fields budgets [] [] "m" (spend "a" 7) start)
    × IsWithin small_float fields budgets
        (after_fold small_float fields budgets [] [] "m" (spend "a" 7) start)
fold_rows-IsWithin_example =
    fold_rows-IsWithin small_float fields budgets [] [] "m" (spend "a" 7) start budgets_limited
      (new_store-IsConsistent "b" registry calm)
      (new_store-IsWithin small_float fields budgets "b" registry calm budgets_limited)

budget_never_exceeded_example :
    (t : ℕ) × (spent small_float fields after_two "tokens" ≡ ok t)
    × (ltb t 1000 ≡ true)
    × (ltb 10 t ≡ false)
unfolding get
budget_never_exceeded_example =
    budget_never_exceeded small_float fields ((" tokens ", number 10) ∷ []) budgets [] []
      (("m", spend "a" 7) ∷ ("n", spend "c" 7) ∷ []) "b" registry calm "tokens" 10 budgets_accepted
      refl

fold_rows-gate_example :
    ((fold_rows "m"
        (spend "a" 11)
        (composed start [] (capability_row small_float fields budgets) [])).1.store
      ≡ start)
    ⊎ (((fold_rows "m"
            (spend "a" 11)
            (composed start [] (capability_row small_float fields budgets) [])).1.store
          ≡ (fold "m" (spend "a" 11) start).1)
        × (check_invariants small_float fields budgets (spend "a" 11) start ≡ ok []))
unfolding capability_row
fold_rows-gate_example =
    fold_rows-gate "m" (spend "a" 11) start (capability_row small_float fields budgets) [] [] refl
