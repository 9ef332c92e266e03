-- ===== src/Calculus/Expectations.antt =====
-- lipas/calculus.py, the merge of dicts of sets.
use lipas.Calculus.Sets.{contains-union, contains-to_set}
use lipas.Prelude.{
  Bool, ◌||◌, Option, none, some, List, [], ◌≡◌, refl, arith, Eq, contains, ◌∙◌, ap, not, ◌↔◌, true,
  ◌&&◌,
}
use lipas.Calculus.Defaults.{ℤ_order}
use lipas.Dict.{Dict, get}
use lipas.Calculus.Context.{BeliefContext}
use lipas.Calculus.Strategies.{or_empty, to_set, add_tags, strategy_expectations_merge}
use lipas.Calculus.Semilattice.{IsJoinAt, below, each_iff}
use lipas.Calculus.Counters.{combine, get-update_each, update_each-IsDict, HoldsDict}

abbrev pub implies : Bool → Bool → Bool
implies a b = not a || b

-- A key's commitment type is absent, or expects exactly some outcome tags.
abbrev pub expects : {T : Type 0} ⦃t : Eq T⦄ → Option (List T) → T → Option Bool
expects none x = none
expects (some tags) x = some (contains tags x)

abbrev pub SameExpectations :
    {K T : Type 0} ⦃e : Eq K⦄ ⦃t : Eq T⦄
    → Option (Dict K (List T))
    → Option (Dict K (List T))
    → Type 0
SameExpectations {K} {T} a b =
    (k : K) (x : T) → expects (get k (or_empty a)) x ≡ expects (get k (or_empty b)) x

-- Every key of the first dict is in the second one, which expects all its tags under that key.
abbrev pub ExpectsLess :
    {K T : Type 0} ⦃e : Eq K⦄ ⦃t : Eq T⦄
    → Option (Dict K (List T))
    → Option (Dict K (List T))
    → Type 0
ExpectsLess {K} {T} a b =
    (k : K) (x : T)
    → below implies (expects (get k (or_empty a)) x) (expects (get k (or_empty b)) x) ≡ true

either : Option Bool → Option Bool → Option Bool
either none b = b
either (some a) none = some a
either (some a) (some b) = some (a || b)

either_comm : (a b : Option Bool) → either a b ≡ either b a
unfolding either
either_comm a b = ground arith

either_assoc : (a b c : Option Bool) → either (either a b) c ≡ either a (either b c)
unfolding either
either_assoc a b c = ground arith

either_idem : (a : Option Bool) → either a a ≡ a
unfolding either
either_idem a = ground arith

either_above :
    (a b : Option Bool)
    → (below implies a (either a b) ≡ true) × (below implies b (either a b) ≡ true)
unfolding either
either_above none none = (refl, refl)
either_above none (some b) = (refl, ground arith)
either_above (some a) none = (ground arith, refl)
either_above (some a) (some b) = (ground arith, ground arith)

either_least :
    (a b c : Option Bool) → below implies (either a b) c ≡ (below implies a c && below implies b c)
unfolding either
either_least none b c = refl
either_least (some a) none c = ground arith
either_least (some a) (some b) none = refl
either_least (some a) (some b) (some c) = ground arith

expects-combine :
    {T : Type 0} ⦃t : Eq T⦄ (a b : Option (List T)) (x : T)
    → expects (combine add_tags a b) x ≡ either (expects a x) (expects b x)
unfolding either
expects-combine none none x = refl
expects-combine (some a) none x = refl
expects-combine none (some b) x =
    ap (λ (v : Bool). some v) (contains-union [] (to_set b) x ∙ contains-to_set b x)
expects-combine (some a) (some b) x =
    ap (λ (v : Bool). some v)
      (contains-union a (to_set b) x ∙ ap (λ (v : Bool). contains a x || v) (contains-to_set b x))

-- A bound that holds at each key.
by_key :
    {I : Type 0} {P Q R : I → Type 0}
    → ((i : I) → P i ↔ (Q i × R i))
    → ((i : I) → P i) ↔ (((i : I) → Q i) × ((i : I) → R i))
by_key h = (
  λ all_p. (λ i. ((h i).0 (all_p i)).0, λ i. ((h i).0 (all_p i)).1),
  λ (all_q, all_r) i. (h i).1 (all_q i, all_r i),
)

module _ {K T : Type 0} ⦃e : Eq K⦄ ⦃t : Eq T⦄ (ctx : BeliefContext) where
  expects-merge :
      (a b : Option (Dict K (List T))) (k : K) (x : T)
      → HoldsDict b
      → expects (get k (or_empty (strategy_expectations_merge a b ctx))) x
        ≡ either (expects (get k (or_empty a)) x) (expects (get k (or_empty b)) x)
  unfolding strategy_expectations_merge
  expects-merge a b k x h =
      ap (λ (v : Option (List T)). expects v x)
        (get-update_each add_tags k (or_empty a) (or_empty b) h)
      ∙ expects-combine _ _ x

  expectations-HoldsDict :
      (a b : Option (Dict K (List T)))
      → HoldsDict a
      → HoldsDict (strategy_expectations_merge a b ctx)
  unfolding strategy_expectations_merge
  expectations-HoldsDict a b h = update_each-IsDict add_tags (or_empty a) (or_empty b) h

  -- `strategy_expectations_merge` is the join of dicts of sets, where a dict is under another one if
  -- the other has all its keys, with all their tags: up to the keys and their tags it is commutative,
  -- associative and idempotent, its result is above both arguments, and under any dict that is above
  -- both.
  pub strategy_expectations_merge-IsJoin :
      (a b c : Option (Dict K (List T)))
      → HoldsDict a
      → HoldsDict b
      → HoldsDict c
      → IsJoinAt SameExpectations ExpectsLess (λ x y. strategy_expectations_merge x y ctx) a b c
  strategy_expectations_merge-IsJoin a b c ha hb hc = (
    λ k x. rw (expects-merge a b k x hb, expects-merge b a k x ha) (either_comm _ _),
    λ k x.
        rw
          (
            expects-merge (strategy_expectations_merge a b ctx) c k x hc,
            expects-merge a b k x hb,
            expects-merge a (strategy_expectations_merge b c ctx) k x
                (expectations-HoldsDict b c hb),
            expects-merge b c k x hc,
          )
          (either_assoc _ _ _),
    λ k x. rw (expects-merge a a k x ha) (either_idem _),
    λ k x. rw (expects-merge a b k x hb) (either_above _ _).0,
    λ k x. rw (expects-merge a b k x hb) (either_above _ _).1,
    by_key (λ k.
        each_iff
          (λ x.
            below implies (expects (get k (or_empty (strategy_expectations_merge a b ctx))) x)
              (expects (get k (or_empty c)) x))
          (λ x. below implies (expects (get k (or_empty a)) x) (expects (get k (or_empty c)) x))
          (λ x. below implies (expects (get k (or_empty b)) x) (expects (get k (or_empty c)) x))
          (λ x. rw (expects-merge a b k x hb) (either_least _ _ _))),
  )
