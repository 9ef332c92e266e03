-- ===== src/Calculus/Defaults.antt =====
-- lipas/calculus.py, `make_default_registry`, over field values of the domains that the built-in
-- strategies declare. A value outside a strategy's domain makes it raise.
use lipas.Prelude.{
  String, Option, none, some, List, [], ◌≡◌, ◌⊎◌, Result, ok, err, ◌>>=◌, ℤ, pos, negsuc, int_leb,
  true, arith,
}
use lipas.Dict.{Dict, put}
use lipas.Calculus.Context.{Key, Key_eq, BeliefContext}
use lipas.Calculus.Strategies.{
  Order, strategy_max, strategy_min, strategy_append, strategy_last_write, strategy_counter_max,
  strategy_expectations_merge,
}
use lipas.Calculus.Claim.{StrategyError, raised, MergeStrategy, StrategyRegistry, register}

pub data Value : Type 0 where
  int : ℤ → Value
  text : String → Value
  items : List Key → Value
  counters : Dict Key ℤ → Value
  expectations : Dict Key (List Key) → Value

pub int_le_trans : (a b c : ℤ) → int_leb a b ≡ true → int_leb b c ≡ true → int_leb a c ≡ true
int_le_trans (pos a) (pos b) (pos c) h k = ground arith
int_le_trans (pos a) (pos b) (negsuc c) h k = ground arith
int_le_trans (pos a) (negsuc b) c h k = ground arith
int_le_trans (negsuc a) (pos b) (pos c) h k = ground arith
int_le_trans (negsuc a) (pos b) (negsuc c) h k = ground arith
int_le_trans (negsuc a) (negsuc b) (pos c) h k = ground arith
int_le_trans (negsuc a) (negsuc b) (negsuc c) h k = ground arith

pub int_le_refl : (a : ℤ) → int_leb a a ≡ true
int_le_refl (pos a) = ground arith
int_le_refl (negsuc a) = ground arith

pub int_le_antisymm : (a b : ℤ) → int_leb a b ≡ true → int_leb b a ≡ true → a ≡ b
int_le_antisymm (pos a) (pos b) h k = ground arith
int_le_antisymm (pos a) (negsuc b) h k = ground arith
int_le_antisymm (negsuc a) (pos b) h k = ground arith
int_le_antisymm (negsuc a) (negsuc b) h k = ground arith

pub int_le_total : (a b : ℤ) → (int_leb a b ≡ true) ⊎ (int_leb b a ≡ true)
int_le_total (pos a) (pos b) = grind arith
int_le_total (pos a) (negsuc b) = ground arith
int_le_total (negsuc a) (pos b) = ground arith
int_le_total (negsuc a) (negsuc b) = grind arith

instance abbrev pub ℤ_order : Order ℤ
ℤ_order = record {
  le = int_leb;
  le_refl = int_le_refl;
  le_trans = int_le_trans;
  le_antisymm = int_le_antisymm;
  le_total = int_le_total;
}

-- How a strategy over a domain acts on values: `read` finds the domain, `show` returns to it.
abbrev pub lift :
    {A : Type 0}
    → (Value → Option A)
    → (A → Value)
    → (Option A → Option A → BeliefContext → Option A)
    → MergeStrategy Value
lift {A} read show f a b ctx = do a' ← domain a; b' ← domain b; ok (wrap (f a' b' ctx))
  where
    domain : Option Value → Result StrategyError (Option A)
    domain none = ok none
    domain (some v) = elim (read v) [ none ↦ err (raised "TypeError") | some x ↦ ok (some x) ]

    wrap : Option A → Option Value
    wrap none = none
    wrap (some x) = some (show x)

abbrev pub as_int : Value → Option ℤ
as_int (int n) = some n
as_int _ = none

abbrev pub as_items : Value → Option (List Key)
as_items (items xs) = some xs
as_items _ = none

abbrev pub as_counters : Value → Option (Dict Key ℤ)
as_counters (counters d) = some d
as_counters _ = none

abbrev pub as_expectations : Value → Option (Dict Key (List Key))
as_expectations (expectations d) = some d
as_expectations _ = none

-- `StrategyRegistry()`
unfoldable pub new_registry : {V : Type 0} → StrategyRegistry V
unfolding strategy_last_write
new_registry = record { table = []; default = λ a b ctx. ok (strategy_last_write a b ctx) }

unfoldable pub make_default_registry : StrategyRegistry Value
unfolding new_registry register put strategy_append strategy_counter_max strategy_expectations_merge
    strategy_max strategy_min
make_default_registry = register "deadline" (lift as_int int strategy_min) (
    register "priority" (lift as_int int strategy_max) (
      register "_expectations" (lift as_expectations expectations strategy_expectations_merge) (
        register "_fail_counts" (lift as_counters counters strategy_counter_max) (
          register "_fail_log" (lift as_items items strategy_append)
            (register "_history" (lift as_items items strategy_append) new_registry)))))
