-- ===== src/Calculus/Examples.antt =====
-- The theorems on lipas/calculus.py at concrete claims and values, and tests.
use lipas.Calculus.Sets.{SameSet, strategy_union-IsJoin, IsIncluded}
use lipas.Calculus.Assignments.{assignments_of_runs, received}
use lipas.Calculus.Expectations.{ExpectsLess, SameExpectations, strategy_expectations_merge-IsJoin}
use lipas.Prelude.{
  ℕ_eq, String_eq, Option_eq, beq_true, ok, int_leb, ℤ_eq, ℤ, pos, negsuc, ℕ, String, ◌≡◌, refl, ap,
  ◌≢◌, ◌||◌, Option, none, some, List, [], ◌∷◌, true, arith,
}
use lipas.Dict.{get, Dict, has, keys, put}
use lipas.Calculus.Context.{pair, Key_eq, BeliefContext, total_failures, fail_count_for}
use lipas.Calculus.Strategies.{
  strategy_max, strategy_min, strategy_union, strategy_keep, strategy_last_write,
  strategy_counter_max, strategy_expectations_merge, strategy_belief_adaptive, update_each,
}
use lipas.Calculus.Claim.{
  Claim, StrategyRegistry, merge, value, unassigned, bottom_tag, strategy_for, bottom, merge_field,
  merge_keys, all_keys,
}
use lipas.Calculus.Defaults.{Value, int, text, ℤ_order, make_default_registry}
use lipas.Calculus.Semilattice.{IsJoinAt, strategy_max-IsJoin, strategy_min-IsJoin, below, reversed}
use lipas.Calculus.Counters.{SameCounts, AtMost, HoldsCounts, strategy_counter_max-IsJoin}
use lipas.Calculus.Merge.{merge-IsMerged, IsMergedField, IsTop}
use lipas.Calculus.Lattice.{merge_comm, merge_idem}

abbrev calm : BeliefContext
calm = record { fail_counts = (pair "search" "timeout", 2) ∷ []; caution_threshold = 3 }

abbrev claim : String → ℤ → Dict String (Option Value) → Claim Value
claim tag priority fields = record {
  tag = tag;
  fields = fields;
  kind = none;
  priority = priority;
  source = "";
  claim_id = "c";
  seq = unassigned;
}

abbrev fact : Claim Value
fact = claim "fact" (pos 1) (("priority", some (int (pos 3))) ∷ ("note", some (text "a")) ∷ [])

abbrev doubt : Claim Value
doubt = claim "doubt" (pos 1) (("priority", some (int (pos 2))) ∷ ("note", none) ∷ [])

-- The result of merging the two, by hand.
abbrev merged_fact : Claim Value
merged_fact =
    record (claim "fact" (pos 1)
      (("priority", some (int (pos 3))) ∷ ("note", some (text "a")) ∷ [])) { claim_id = "m" }

merge_test : merge "m" fact doubt calm make_default_registry ≡ ok merged_fact
unfolding merge merge_keys all_keys keys has value merge_field make_default_registry strategy_for
    get
merge_test = refl

failures_test :
    (total_failures calm ≡ 2)
    × (fail_count_for calm (some "search") ≡ 2)
    × (fail_count_for calm none ≡ 0)
unfolding total_failures fail_count_for
failures_test = (refl, refl, refl)

-- In defensive mode the existing value is kept.
adaptive_test :
    (strategy_belief_adaptive {A = ℕ} (some 1) (some 2) (some calm) ≡ some 2)
    × (strategy_belief_adaptive {A = ℕ}
          (some 1)
          (some 2)
          (some (record calm { caution_threshold = 2 }))
        ≡ some 1)
unfolding strategy_belief_adaptive total_failures
adaptive_test = (refl, refl)

not_bottom_fact : "fact" ≢ bottom_tag
not_bottom_fact h = cc (beq_true "fact" bottom_tag h)

not_bottom_doubt : "doubt" ≢ bottom_tag
not_bottom_doubt h = cc (beq_true "doubt" bottom_tag h)

strategy_max-IsJoin_example :
    IsJoinAt ◌≡◌
      (λ x y. below int_leb x y ≡ true)
      (λ x y. strategy_max x y calm)
      (some (pos 2))
      none
      (some (negsuc 4))
strategy_max-IsJoin_example = strategy_max-IsJoin calm (some (pos 2)) none (some (negsuc 4))

strategy_min-IsJoin_example :
    IsJoinAt ◌≡◌
      (λ x y. below reversed x y ≡ true)
      (λ x y. strategy_min x y calm)
      (some (pos 2))
      (some (pos 7))
      (some (negsuc 4))
strategy_min-IsJoin_example =
    strategy_min-IsJoin calm (some (pos 2)) (some (pos 7)) (some (negsuc 4))

strategy_union-IsJoin_example :
    IsJoinAt
      (SameSet {A = String})
      IsIncluded
      (λ x y. strategy_union x y calm)
      (some ("a" ∷ "b" ∷ []))
      none
      (some ("b" ∷ []))
strategy_union-IsJoin_example =
    strategy_union-IsJoin calm (some ("a" ∷ "b" ∷ [])) none (some ("b" ∷ []))

abbrev two_counts : Option (Dict String ℤ)
two_counts = some (("x", pos 1) ∷ ("y", pos 5) ∷ [])

abbrev one_count : Option (Dict String ℤ)
one_count = some (("x", pos 4) ∷ [])

two_counts-HoldsCounts : HoldsCounts two_counts
unfolding has get
two_counts-HoldsCounts = ((refl, (refl, tt)), λ k. ground arith)

one_count-HoldsCounts : HoldsCounts one_count
unfolding has get
one_count-HoldsCounts = ((refl, tt), λ k. ground arith)

no_counts-HoldsCounts : HoldsCounts {K = String} none
unfolding get
no_counts-HoldsCounts = (tt, λ k. refl)

strategy_counter_max-IsJoin_example :
    IsJoinAt SameCounts AtMost (λ x y. strategy_counter_max x y calm) two_counts one_count none
strategy_counter_max-IsJoin_example =
    strategy_counter_max-IsJoin calm two_counts one_count none two_counts-HoldsCounts
      one_count-HoldsCounts no_counts-HoldsCounts

-- A negative count depends on the order: the missing count on the left stands for 0.
negative_count_test :
    (strategy_counter_max {K = String} (some (("x", negsuc 0) ∷ [])) none calm
      ≡ some (("x", negsuc 0) ∷ []))
    × (strategy_counter_max {K = String} none (some (("x", negsuc 0) ∷ [])) calm
        ≡ some (("x", pos 0) ∷ []))
unfolding strategy_counter_max update_each get put
negative_count_test = (refl, refl)

abbrev one_expectation : Option (Dict String (List String))
one_expectation = some (("search", "ok" ∷ "timeout" ∷ []) ∷ [])

abbrev other_expectation : Option (Dict String (List String))
other_expectation = some (("search", "timeout" ∷ "denied" ∷ []) ∷ [])

strategy_expectations_merge-IsJoin_example :
    IsJoinAt SameExpectations ExpectsLess
      (λ x y. strategy_expectations_merge x y calm)
      one_expectation
      other_expectation
      none
unfolding has
strategy_expectations_merge-IsJoin_example =
    strategy_expectations_merge-IsJoin calm one_expectation other_expectation none (refl, tt)
      (refl, tt) tt

merge-IsMerged_example :
    ((k : String)
      → (has k merged_fact.fields ≡ (has k fact.fields || has k doubt.fields))
        × IsMergedField make_default_registry calm k
            (value k fact.fields)
            (value k doubt.fields)
            (value k merged_fact.fields))
    × IsTop make_default_registry calm fact doubt (pos 1) "fact"
merge-IsMerged_example =
    merge-IsMerged make_default_registry calm "m" fact doubt merged_fact not_bottom_fact
      not_bottom_doubt merge_test

-- A registry whose every strategy is `max`, over integer fields.
abbrev max_registry : StrategyRegistry ℤ
max_registry = record { table = []; default = λ a b ctx. ok (strategy_max a b ctx) }

abbrev reading : String → ℤ → ℤ → Claim ℤ
reading tag priority n = record {
  tag = tag;
  fields = ("level", some n) ∷ [];
  kind = none;
  priority = priority;
  source = "";
  claim_id = "r";
  seq = unassigned;
}

max_registry_comm :
    (k : String) (a b : Option ℤ)
    → strategy_for max_registry k a b calm ≡ strategy_for max_registry k b a calm
unfolding strategy_for get
max_registry_comm k a b = ap (λ (x : Option ℤ). ok x) ((strategy_max-IsJoin calm a b none).0)

max_registry_idem :
    (k : String) (a : ℤ) → strategy_for max_registry k (some a) (some a) calm ≡ ok (some a)
unfolding strategy_for get
max_registry_idem k a =
    ap (λ (x : Option ℤ). ok x) ((strategy_max-IsJoin calm (some a) none none).2)

high_first :
    merge "m" (reading "fact" (pos 1) (pos 7)) (reading "doubt" (pos 0) (pos 4)) calm max_registry
    ≡ ok (record (reading "fact" (pos 1) (pos 7)) { claim_id = "m" })
unfolding merge merge_keys all_keys keys has value merge_field strategy_for get strategy_max
high_first = refl

merge_comm_example :
    (m' : Claim ℤ) × (merge "n"
        (reading "doubt" (pos 0) (pos 4))
        (reading "fact" (pos 1) (pos 7))
        calm
        max_registry
      ≡ ok m')
    × ((k : String)
        → (has k m'.fields ≡ has k (("level", some (pos 7)) ∷ []))
          × (value k m'.fields ≡ value k (("level", some (pos 7)) ∷ [])))
    × (m'.priority ≡ pos 1)
merge_comm_example =
    merge_comm max_registry calm "m" "n" (reading "fact" (pos 1) (pos 7))
      (reading "doubt" (pos 0) (pos 4)) (record (reading "fact" (pos 1) (pos 7)) { claim_id = "m" })
      max_registry_comm not_bottom_fact not_bottom_doubt high_first

merge_idem_example :
    (m : Claim ℤ) × (merge "m"
        (reading "fact" (pos 1) (pos 7))
        (reading "fact" (pos 1) (pos 7))
        calm
        max_registry
      ≡ ok m)
    × ((k : String)
        → (has k m.fields ≡ has k (("level", some (pos 7)) ∷ []))
          × (value k m.fields ≡ value k (("level", some (pos 7)) ∷ [])))
    × (m.tag ≡ "fact")
    × (m.priority ≡ pos 1)
merge_idem_example =
    merge_idem max_registry calm "m" (reading "fact" (pos 1) (pos 7)) max_registry_idem
      not_bottom_fact

-- On a tie of the priorities the tag is the left claim's, so the tags depend on the order.
doubt_first :
    merge "n" doubt fact calm make_default_registry
    ≡ ok (record merged_fact { tag = "doubt"; claim_id = "n" })
unfolding merge merge_keys all_keys keys has value merge_field make_default_registry strategy_for
    get
doubt_first = refl

-- A claim with the tag of ⊥ is lost, although its fields and its id are not those of ⊥.
bottom_tagged_test :
    merge "m"
      (claim bottom_tag (pos 5) (("level", some (int (pos 1))) ∷ []))
      (bottom "b")
      calm
      make_default_registry
    ≡ ok (bottom "b")
unfolding merge bottom
bottom_tagged_test = refl

abbrev readings : List (Option ℕ)
readings = none ∷ some 1 ∷ some 2 ∷ none ∷ []

assignments_of_runs_example :
    (received strategy_keep calm none readings ≡ some 1)
    × (received strategy_last_write calm none readings ≡ some 2)
assignments_of_runs_example = assignments_of_runs calm readings
