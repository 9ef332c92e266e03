-- ===== src/Calculus/Sets.antt =====
-- lipas/calculus.py, the union of sets.
use lipas.Prelude.{
  Bool, not, ◌||◌, ◌&&◌, Option, List, [], ◌∷◌, ◌≡◌, refl, arith, Eq, contains, contains-append,
  filter, true,
}
use lipas.Calculus.Context.{BeliefContext}
use lipas.Calculus.Strategies.{or_empty, to_set, union, strategy_union}
use lipas.Calculus.Semilattice.{IsJoinAt, each_iff}

-- Sets, as the lists of their members: the same set has the same members.
module _ {A : Type 0} ⦃e : Eq A⦄ where
  pub contains-to_set : (xs : List A) (x : A) → contains (to_set xs) x ≡ contains xs x
  contains-to_set [] x = refl
  contains-to_set (y ∷ xs) x =
      ground (arith, contains-to_set xs x, contains-to_set xs y, e.eqb_iff y x)

  pub contains-filter :
      (p : A → Bool) (ys : List A) (x : A) → contains (filter p ys) x ≡ (contains ys x && p x)
  contains-filter p [] x = refl
  contains-filter p (y ∷ ys) x = ground (arith, contains-filter p ys x, e.eqb_iff y x)

  pub contains-union :
      (xs ys : List A) (x : A) → contains (union xs ys) x ≡ (contains xs x || contains ys x)
  contains-union xs ys x = ground (
    arith,
    contains-append xs (filter (λ y. not (contains xs y)) ys) x,
    contains-filter (λ y. not (contains xs y)) ys x,
  )

abbrev pub SameSet : {A : Type 0} ⦃e : Eq A⦄ → Option (List A) → Option (List A) → Type 0
SameSet {A} a b = (x : A) → contains (or_empty a) x ≡ contains (or_empty b) x

-- `x` is in the second set if it is in the first one.
abbrev pub includes : {A : Type 0} ⦃e : Eq A⦄ → Option (List A) → Option (List A) → A → Bool
includes a b x = not (contains (or_empty a) x) || contains (or_empty b) x

abbrev pub IsIncluded : {A : Type 0} ⦃e : Eq A⦄ → Option (List A) → Option (List A) → Type 0
IsIncluded {A} a b = (x : A) → includes a b x ≡ true

module _ {A : Type 0} ⦃e : Eq A⦄ (ctx : BeliefContext) where
  contains-strategy_union :
      (a b : Option (List A)) (x : A)
      → contains (or_empty (strategy_union a b ctx)) x
        ≡ (contains (or_empty a) x || contains (or_empty b) x)
  unfolding strategy_union
  contains-strategy_union a b x = ground (
    arith,
    contains-union (to_set (or_empty a)) (to_set (or_empty b)) x,
    contains-to_set (or_empty a) x,
    contains-to_set (or_empty b) x,
  )

  -- `strategy_union` is the join of the inclusion of sets, `None` counting as the empty set:
  -- commutative, associative and idempotent, a set that includes both arguments, and included in any
  -- set that includes both.
  pub strategy_union-IsJoin :
      (a b c : Option (List A)) → IsJoinAt SameSet IsIncluded (λ x y. strategy_union x y ctx) a b c
  strategy_union-IsJoin a b c = (
    λ x. ground (arith, contains-strategy_union a b x, contains-strategy_union b a x),
    λ x. ground (
      arith,
      contains-strategy_union a b x,
      contains-strategy_union b c x,
      contains-strategy_union (strategy_union a b ctx) c x,
      contains-strategy_union a (strategy_union b c ctx) x,
    ),
    λ x. ground (arith, contains-strategy_union a a x),
    λ x. ground (arith, contains-strategy_union a b x),
    λ x. ground (arith, contains-strategy_union a b x),
    each_iff (includes (strategy_union a b ctx) c) (includes a c) (includes b c)
        (λ x. ground (arith, contains-strategy_union a b x)),
  )
