-- ===== src/Calculus/Semilattice.antt =====
-- lipas/calculus.py, the joins that the docstrings of the strategies declare: `max` and `min`.
use lipas.Prelude.{Bool, ◌&&◌, Option, none, some, ◌≡◌, refl, arith, ◌↔◌, true, false}
use lipas.Calculus.Context.{BeliefContext}
use lipas.Calculus.Strategies.{Order, strategy_max, strategy_min}

-- `f` is a join for the order `Le`, at three values, where `Same` says that two values are the same in
-- Python: commutative, associative and idempotent, above both its arguments, and below any value that
-- is above both.
abbrev pub IsJoinAt :
    {A : Type 0} → (A → A → Type 0) → (A → A → Type 0) → (A → A → A) → A → A → A → Type 0
IsJoinAt Same Le f a b c =
    Same (f a b) (f b a)
    × Same (f (f a b) c) (f a (f b c))
    × Same (f a a) a
    × Le a (f a b)
    × Le b (f a b)
    × (Le (f a b) c ↔ (Le a c × Le b c))

-- An order on values, with `None` under all of them.
abbrev pub below : {A : Type 0} → (A → A → Bool) → Option A → Option A → Bool
below le none b = true
below le (some a) none = false
below le (some a) (some b) = le a b

-- The order of `min`: a smaller value is above a larger one.
abbrev pub reversed : {A : Type 0} ⦃o : Order A⦄ → A → A → Bool
reversed ⦃o⦄ a b = o.le b a

pub both_iff : (p q r : Bool) → p ≡ (q && r) → (p ≡ true) ↔ ((q ≡ true) × (r ≡ true))
both_iff p q r h = (λ yes'. (ground arith, ground arith), λ (a, b). ground arith)

-- A bound that holds at each index.
pub each_iff :
    {I : Type 0} (p q r : I → Bool)
    → ((i : I) → p i ≡ (q i && r i))
    → ((i : I) → p i ≡ true) ↔ (((i : I) → q i ≡ true) × ((i : I) → r i ≡ true))
each_iff p q r h = (
  λ all_p. (
    λ i. ((both_iff (p i) (q i) (r i) (h i)).0 (all_p i)).0,
    λ i. ((both_iff (p i) (q i) (r i) (h i)).0 (all_p i)).1,
  ),
  λ (all_q, all_r) i. (both_iff (p i) (q i) (r i) (h i)).1 (all_q i, all_r i),
)

module _ {A : Type 0} ⦃o : Order A⦄ (ctx : BeliefContext) where
  pub max_comm : (a b : Option A) → strategy_max a b ctx ≡ strategy_max b a ctx
  unfolding strategy_max
  max_comm none none = refl
  max_comm none (some b) = refl
  max_comm (some a) none = refl
  max_comm (some a) (some b) = ground (arith, o.le_total a b, o.le_antisymm a b)

  pub max_assoc :
      (a b c : Option A)
      → strategy_max (strategy_max a b ctx) c ctx ≡ strategy_max a (strategy_max b c ctx) ctx
  unfolding strategy_max
  max_assoc none b c = refl
  max_assoc (some a) none c = refl
  max_assoc (some a) (some b) none = refl
  max_assoc (some a) (some b) (some c) = ground (
    arith,
    o.le_total a b,
    o.le_total b c,
    o.le_trans b a c,
    o.le_trans c b a,
    o.le_trans a b c,
    o.le_antisymm a b,
    o.le_trans c a b,
    o.le_total a c,
  )

  min_comm : (a b : Option A) → strategy_min a b ctx ≡ strategy_min b a ctx
  unfolding strategy_min
  min_comm none none = refl
  min_comm none (some b) = refl
  min_comm (some a) none = refl
  min_comm (some a) (some b) = ground (arith, o.le_total a b, o.le_antisymm a b)

  min_assoc :
      (a b c : Option A)
      → strategy_min (strategy_min a b ctx) c ctx ≡ strategy_min a (strategy_min b c ctx) ctx
  unfolding strategy_min
  min_assoc none b c = refl
  min_assoc (some a) none c = refl
  min_assoc (some a) (some b) none = ground arith
  min_assoc (some a) (some b) (some c) = ground (
    arith,
    o.le_total a b,
    o.le_total b c,
    o.le_trans a b c,
    o.le_trans c b a,
    o.le_trans b a c,
    o.le_antisymm a b,
    o.le_trans c a b,
    o.le_total a c,
  )

  idem_of_refl :
      (f : Option A → Option A → BeliefContext → Option A)
      → f none none ctx ≡ none
      → ((a : A) → f (some a) (some a) ctx ≡ some a)
      → (a : Option A) → f a a ctx ≡ a
  idem_of_refl f p q none = p
  idem_of_refl f p q (some a) = q a

  pub max_above :
      (a b : Option A)
      → (below o.le a (strategy_max a b ctx) ≡ true) × (below o.le b (strategy_max a b ctx) ≡ true)
  unfolding strategy_max
  max_above none none = (refl, refl)
  max_above none (some b) = (refl, o.le_refl b)
  max_above (some a) none = (o.le_refl a, refl)
  max_above (some a) (some b) = (
    ground (arith, o.le_total a b, o.le_refl a, o.le_refl b),
    ground (arith, o.le_total a b, o.le_refl a, o.le_refl b),
  )

  pub max_least :
      (a b c : Option A) → below o.le (strategy_max a b ctx) c ≡ (below o.le a c && below o.le b c)
  unfolding strategy_max
  max_least none b c = refl
  max_least (some a) none c = ground arith
  max_least (some a) (some b) none = refl
  max_least (some a) (some b) (some c) =
      ground (arith, o.le_total a b, o.le_trans a b c, o.le_trans b a c)

  min_above :
      (a b : Option A)
      → (below reversed a (strategy_min a b ctx) ≡ true)
        × (below reversed b (strategy_min a b ctx) ≡ true)
  unfolding strategy_min
  min_above none none = (refl, refl)
  min_above none (some b) = (refl, o.le_refl b)
  min_above (some a) none = (o.le_refl a, refl)
  min_above (some a) (some b) = (
    ground (arith, o.le_total a b, o.le_refl a, o.le_refl b),
    ground (arith, o.le_total a b, o.le_refl a, o.le_refl b),
  )

  min_least :
      (a b c : Option A)
      → below reversed (strategy_min a b ctx) c ≡ (below reversed a c && below reversed b c)
  unfolding strategy_min
  min_least none b c = refl
  min_least (some a) none c = ground arith
  min_least (some a) (some b) none = refl
  min_least (some a) (some b) (some c) =
      ground (arith, o.le_total a b, o.le_trans c a b, o.le_trans c b a)

  -- `strategy_max` is the join of the order that `<` gives, `None` under all values: commutative,
  -- associative and idempotent, above both arguments, and below any value that is above both.
  pub strategy_max-IsJoin :
      (a b c : Option A)
      → IsJoinAt ◌≡◌ (λ x y. below o.le x y ≡ true) (λ x y. strategy_max x y ctx) a b c
  unfolding strategy_max
  strategy_max-IsJoin a b c = (
    max_comm a b,
    max_assoc a b c,
    idem_of_refl strategy_max refl (λ x. ground (arith, o.le_refl x)) a,
    (max_above a b).0,
    (max_above a b).1,
    both_iff (below o.le (strategy_max a b ctx) c) (below o.le a c) (below o.le b c)
        (max_least a b c),
  )

  -- `strategy_min` is the join of the reversed order, `None` again under all values.
  pub strategy_min-IsJoin :
      (a b c : Option A)
      → IsJoinAt ◌≡◌ (λ x y. below reversed x y ≡ true) (λ x y. strategy_min x y ctx) a b c
  unfolding strategy_min
  strategy_min-IsJoin a b c = (
    min_comm a b,
    min_assoc a b c,
    idem_of_refl strategy_min refl (λ x. ground (arith, o.le_refl x)) a,
    (min_above a b).0,
    (min_above a b).1,
    both_iff (below reversed (strategy_min a b ctx) c) (below reversed a c) (below reversed b c)
        (min_least a b c),
  )
