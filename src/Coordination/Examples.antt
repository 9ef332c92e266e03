-- ===== src/Coordination/Examples.antt =====
-- lipas/execution.py: the shared budget at a concrete scope.
use lipas.Prelude.{
  ℕ_eq, String_eq, Option_eq, List_eq, Pair_eq, ok, err, ℤ_eq, length, ltb, nat_eq, nat_eq_iff, ℕ,
  String, ◌≡◌, refl, Bool, true, false, Option, some, List, [], ◌∷◌, arith,
}
use lipas.Attempt.{◌>>=◌, ◌>>◌, guard, required}
use lipas.Dict.{Dict, get, put, has}
use lipas.Text.{strip}
use lipas.Rows.SmallFloat.{small_float}
use lipas.Coordination.Budget.{
  state_error, SharedBudget, Budgets, budget_text, amount_in, admit, budget_mapping, configure,
  reserve, reserve_new, record_reserved,
}
use lipas.Coordination.Funding.{no_budgets, reserved}
use lipas.Coordination.Reservations.{BudgetCall, configures, reserves}
use lipas.Coordination.Limits.{call, calls, reserved_within_limits}
use lipas.Coordination.Repeats.{reserve_twice}

abbrev same_text : Dict String ℕ → Dict String ℕ → Bool
same_text a b = nat_eq (length a) (length b)

abbrev read : ℕ → Option ℕ
read n = some n

-- The third reservation does not fit.
abbrev three_reservations : List (BudgetCall ℕ)
three_reservations =
    configures " team " (("tokens", 10) ∷ []) 1
    ∷ reserves "team" "h1" (("tokens", 4) ∷ []) 2
    ∷ reserves "team" "h2" (("tokens", 5) ∷ []) 3
    ∷ reserves "team" "h3" (("tokens", 3) ∷ []) 4
    ∷ []

abbrev nine_spent : SharedBudget ℕ
nine_spent = record { limits = ("tokens", 10) ∷ []; spent = ("tokens", 9) ∷ []; updated_at = 3 }

abbrev after_three : Budgets ℕ
after_three = calls small_float nat_eq same_text read three_reservations (no_budgets small_float)

three_test : get "team" after_three.scopes ≡ some nine_spent
unfolding call calls ◌>>=◌ ◌>>◌ guard required get put has strip budget_text amount_in admit
    budget_mapping configure reserve reserve_new record_reserved
three_test = refl

tokens_test : get "tokens" nine_spent.limits ≡ some 10
unfolding get
tokens_test = refl

reserved_within_limits_example :
    (reserved small_float "team" "tokens" after_three
      ≡ amount_in small_float "tokens" nine_spent.spent)
    × (ltb 10 (reserved small_float "team" "tokens" after_three) ≡ false)
reserved_within_limits_example =
    reserved_within_limits small_float nat_eq same_text read three_reservations "team" nine_spent
      "tokens" 10 three_test tokens_test

abbrev team_only : Budgets ℕ
team_only =
    calls small_float nat_eq same_text read (configures "team" (("tokens", 10) ∷ []) 1 ∷ [])
      (no_budgets small_float)

abbrev one_reserved : Budgets ℕ
one_reserved =
    calls small_float nat_eq same_text read (reserves "team" "h1" (("tokens", 4) ∷ []) 2 ∷ [])
      team_only

first_test :
    reserve small_float nat_eq same_text read "team" "h1" (("tokens", 4) ∷ []) 2 team_only
    ≡ ok (("tokens", 4) ∷ [], one_reserved)
unfolding call calls ◌>>=◌ ◌>>◌ guard required get put has strip budget_text amount_in admit
    budget_mapping configure reserve reserve_new record_reserved
first_test = refl

nat_same : (x : ℕ) → ltb x 1000 ≡ true → nat_eq x x ≡ true
nat_same x h = ground (arith, nat_eq_iff x x)

reserve_twice_example :
    reserve small_float nat_eq same_text read "team" "h1" (("tokens", 4) ∷ []) 9 one_reserved
    ≡ ok (("tokens", 4) ∷ [], one_reserved)
reserve_twice_example =
    reserve_twice small_float nat_eq same_text read "team" "h1" (("tokens", 4) ∷ []) 2 9 team_only
      one_reserved (("tokens", 4) ∷ []) nat_same first_test

-- A colon in a scope or in a handoff id: two reservations share the identity of their audit event, and
-- the second one is refused although it fits.
abbrev colons : Budgets ℕ
colons =
    calls small_float nat_eq same_text read
      (configures "a" (("tokens", 10) ∷ []) 1
        ∷ configures "a:b" (("tokens", 10) ∷ []) 1
        ∷ reserves "a:b" "c" (("tokens", 1) ∷ []) 2
        ∷ [])
      (no_budgets small_float)

colons_test :
    reserve small_float nat_eq same_text read "a" "b:c" (("tokens", 1) ∷ []) 3 colons
    ≡ err state_error
unfolding call calls ◌>>=◌ ◌>>◌ guard required get put has strip budget_text amount_in admit
    budget_mapping configure reserve reserve_new record_reserved
colons_test = refl
