-- ===== src/Calculus/Strategies.antt =====
-- lipas/calculus.py, the built-in strategies. A strategy has the domain that its docstring declares:
-- ordered values for `max` and `min`, sets, lists, counter dicts, dicts of sets, any value.
-- Python's `None` is `none`.
use lipas.Prelude.{
  Bool, true, not, Option, none, some, List, [], ◌∷◌, ◌++◌, ◌≡◌, ◌⊎◌, leb, if◌then◌else◌, Eq,
  contains, filter, ℤ, int_leb, pos,
}
use lipas.Dict.{Dict, get, put}
use lipas.Calculus.Context.{BeliefContext, total_failures}

-- Values that Python's `<` orders totally.
pub record Order {ℓ} (A : Type ℓ) : Type ℓ where
  pub le : A → A → Bool
  pub le_refl : (a : A) → le a a ≡ true
  pub le_trans : (a b c : A) → le a b ≡ true → le b c ≡ true → le a c ≡ true
  pub le_antisymm : (a b : A) → le a b ≡ true → le b a ≡ true → a ≡ b
  pub le_total : (a b : A) → (le a b ≡ true) ⊎ (le b a ≡ true)

-- `a or []`, `a or {}`
abbrev pub or_empty {ℓ} : {A : Type ℓ} → Option (List A) → List A
or_empty none = []
or_empty (some a) = a

module _ {ℓ} {A : Type ℓ} ⦃o : Order A⦄ where
  -- Python's `max(a, b)` is `b` only if `b > a`.
  unfoldable pub strategy_max : Option A → Option A → BeliefContext → Option A
  strategy_max none b ctx = b
  strategy_max (some a) none ctx = some a
  strategy_max (some a) (some b) ctx = some (if o.le b a then a else b)

  -- Python's `min(a, b)` is `b` only if `b < a`.
  unfoldable pub strategy_min : Option A → Option A → BeliefContext → Option A
  strategy_min none b ctx = b
  strategy_min (some a) none ctx = some a
  strategy_min (some a) (some b) ctx = some (if o.le a b then a else b)

module _ {ℓ} {A : Type ℓ} ⦃e : Eq A⦄ where
  -- `set(xs)`: each value once.
  abbrev pub to_set : List A → List A
  to_set [] = []
  to_set (x ∷ xs) = let rest = to_set xs in if contains rest x then rest else x ∷ rest

  -- `xs | ys` on sets
  abbrev pub union : List A → List A → List A
  union xs ys = xs ++ filter (λ y. not (contains xs y)) ys

  unfoldable pub strategy_union :
      Option (List A) → Option (List A) → BeliefContext → Option (List A)
  strategy_union a b ctx = some (union (to_set (or_empty a)) (to_set (or_empty b)))

module _ {ℓ} {A : Type ℓ} where
  unfoldable pub strategy_append :
      Option (List A) → Option (List A) → BeliefContext → Option (List A)
  strategy_append a b ctx = some (or_empty a ++ or_empty b)

  unfoldable pub strategy_keep : Option A → Option A → BeliefContext → Option A
  strategy_keep none b ctx = b
  strategy_keep (some a) b ctx = some a

  unfoldable pub strategy_last_write : Option A → Option A → BeliefContext → Option A
  strategy_last_write a none ctx = a
  strategy_last_write a (some b) ctx = some b

  -- This one strategy may be called with no context.
  unfoldable pub strategy_belief_adaptive : Option A → Option A → Option BeliefContext → Option A
  strategy_belief_adaptive none b _ = b
  strategy_belief_adaptive (some a) none _ = some a
  strategy_belief_adaptive (some a) (some b) none = some b
  strategy_belief_adaptive (some a) (some b) (some ctx) =
      if leb ctx.caution_threshold (total_failures ctx) then some a else some b

-- `for k, v in b.items(): result[k] = f(result.get(k), v)`, the loop of the two dict strategies.
module _ {ℓ κ μ} {K : Type ℓ} ⦃e : Eq K⦄ {V : Type κ} {W : Type μ} where
  unfoldable pub update_each : (Option V → W → V) → Dict K V → Dict K W → Dict K V
  update_each f result [] = result
  update_each f result ((k, v) ∷ b) = update_each f (put k (f (get k result) v) result) b

-- Python's `max(a, b)` on integers is `b` only if `b > a`.
abbrev pub max_int : ℤ → ℤ → ℤ
max_int a b = if int_leb b a then a else b

-- `max(result.get(k, 0), v)`
abbrev pub max_count : Option ℤ → ℤ → ℤ
max_count none v = max_int (pos 0) v
max_count (some c) v = max_int c v

module _ {ℓ} {K : Type ℓ} ⦃e : Eq K⦄ where
  unfoldable pub strategy_counter_max :
      Option (Dict K ℤ) → Option (Dict K ℤ) → BeliefContext → Option (Dict K ℤ)
  strategy_counter_max a b ctx = some (update_each max_count (or_empty a) (or_empty b))

-- `result.get(k, set()) | set(v)`
abbrev pub add_tags {ℓ} : {T : Type ℓ} ⦃e : Eq T⦄ → Option (List T) → List T → List T
add_tags known v = union (or_empty known) (to_set v)

module _ {ℓ κ} {K : Type ℓ} ⦃e : Eq K⦄ {T : Type κ} ⦃t : Eq T⦄ where
  unfoldable pub strategy_expectations_merge :
      Option (Dict K (List T)) → Option (Dict K (List T)) → BeliefContext → Option (Dict K (List T))
  strategy_expectations_merge a b ctx = some (update_each add_tags (or_empty a) (or_empty b))
