-- ===== src/Calculus/Counters.antt =====
-- lipas/calculus.py, the merge of dicts key by key, and counter dicts.
use lipas.Calculus.Defaults.{int_le_antisymm}
use lipas.Prelude.{
  Bool, Option, none, some, [], ◌∷◌, ◌≡◌, refl, arith, Eq, ◌∙◌, ℤ, true, int_leb, ◌&&◌, pos,
}
use lipas.Calculus.Defaults.{ℤ_order, int_le_antisymm}
use lipas.Dict.{Dict, IsDict, get, put, get-put, get-none_of_has, put-IsDict}
use lipas.Calculus.Context.{BeliefContext}
use lipas.Calculus.Strategies.{
  or_empty, update_each, max_count, strategy_counter_max, strategy_max, max_int,
}
use lipas.Calculus.Semilattice.{
  IsJoinAt, below, each_iff, max_comm, max_assoc, strategy_max-IsJoin, max_above, max_least,
}

abbrev pub combine : {V W : Type 0} → (Option V → W → V) → Option V → Option W → Option V
combine f known none = known
combine f known (some w) = some (f known w)

module _ {K V W : Type 0} ⦃e : Eq K⦄ (f : Option V → W → V) where
  pub get-update_each :
      (k : K) (a : Dict K V) (b : Dict K W)
      → IsDict b
      → get k (update_each f a b) ≡ combine f (get k a) (get k b)
  unfolding update_each get
  get-update_each k a [] h = refl
  get-update_each k a ((j, w) ∷ b) h = ground (
    arith,
    get-update_each k (put j (f (get j a) w) a) b h.1,
    get-put j k (f (get j a) w) a,
    e.eqb_iff j k,
    get-none_of_has j b h.0,
  )

  pub update_each-IsDict : (a : Dict K V) (b : Dict K W) → IsDict a → IsDict (update_each f a b)
  unfolding update_each
  update_each-IsDict a [] h = h
  update_each-IsDict a ((j, w) ∷ b) h =
      update_each-IsDict (put j (f (get j a) w) a) b (put-IsDict j (f (get j a) w) a h)

abbrev pub HoldsDict : {K V : Type 0} ⦃e : Eq K⦄ → Option (Dict K V) → Type 0
HoldsDict a = IsDict (or_empty a)

-- The count of a key is absent, or not negative.
abbrev pub is_count : Option ℤ → Bool
is_count none = true
is_count (some n) = int_leb (pos 0) n

-- A dict whose counts are not negative.
abbrev pub HoldsCounts : {K : Type 0} ⦃e : Eq K⦄ → Option (Dict K ℤ) → Type 0
HoldsCounts {K} a = HoldsDict a × ((k : K) → is_count (get k (or_empty a)) ≡ true)

abbrev pub SameCounts : {K : Type 0} ⦃e : Eq K⦄ → Option (Dict K ℤ) → Option (Dict K ℤ) → Type 0
SameCounts {K} a b = (k : K) → get k (or_empty a) ≡ get k (or_empty b)

-- Every key of the first dict is in the second one, with a count at least as large.
abbrev pub AtMost : {K : Type 0} ⦃e : Eq K⦄ → Option (Dict K ℤ) → Option (Dict K ℤ) → Type 0
AtMost {K} a b = (k : K) → below int_leb (get k (or_empty a)) (get k (or_empty b)) ≡ true

join : Option ℤ → Option ℤ → Option ℤ
join none b = b
join (some a) none = some a
join (some a) (some b) = some (max_int a b)

combine-join : (a b : Option ℤ) → is_count b ≡ true → combine max_count a b ≡ join a b
unfolding join
combine-join none none h = refl
combine-join none (some b) h = ground (arith, int_le_antisymm (pos 0) b)
combine-join (some a) none h = refl
combine-join (some a) (some b) h = refl

-- The join of two counts is what `max` gives, a missing one being under all others.
join-max : (ctx : BeliefContext) (a b : Option ℤ) → join a b ≡ strategy_max a b ctx
unfolding join strategy_max
join-max ctx none b = refl
join-max ctx (some a) none = refl
join-max ctx (some a) (some b) = refl

module _ (ctx : BeliefContext) where
  join_comm : (a b : Option ℤ) → join a b ≡ join b a
  join_comm a b = rw (join-max ctx a b, join-max ctx b a) (max_comm ctx a b)

  join_assoc : (a b c : Option ℤ) → join (join a b) c ≡ join a (join b c)
  join_assoc a b c =
      rw
        (
          join-max ctx a b,
          join-max ctx (strategy_max a b ctx) c,
          join-max ctx b c,
          join-max ctx a (strategy_max b c ctx),
        )
        (max_assoc ctx a b c)

  join_idem : (a : Option ℤ) → join a a ≡ a
  join_idem a = join-max ctx a a ∙ (strategy_max-IsJoin ctx a a a).2

  join_above :
      (a b : Option ℤ) → (below int_leb a (join a b) ≡ true) × (below int_leb b (join a b) ≡ true)
  join_above a b = rw (join-max ctx a b) (max_above ctx a b)

  join_least :
      (a b c : Option ℤ) → below int_leb (join a b) c ≡ (below int_leb a c && below int_leb b c)
  join_least a b c = rw (join-max ctx a b) (max_least ctx a b c)

join-is_count :
    (a b : Option ℤ) → is_count a ≡ true → is_count b ≡ true → is_count (join a b) ≡ true
unfolding join
join-is_count none b h k = k
join-is_count (some a) none h k = h
join-is_count (some a) (some b) h k = ground arith

module _ {K : Type 0} ⦃e : Eq K⦄ (ctx : BeliefContext) where
  -- The count of a key after the merge: the larger of the two, a key on one side being kept.
  get-strategy_counter_max :
      (a b : Option (Dict K ℤ)) (k : K)
      → HoldsCounts b
      → get k (or_empty (strategy_counter_max a b ctx))
        ≡ join (get k (or_empty a)) (get k (or_empty b))
  unfolding strategy_counter_max
  get-strategy_counter_max a b k (h, counts) =
      get-update_each max_count k (or_empty a) (or_empty b) h ∙ combine-join _ _ (counts k)

  counter_max-HoldsDict :
      (a b : Option (Dict K ℤ)) → HoldsDict a → HoldsDict (strategy_counter_max a b ctx)
  unfolding strategy_counter_max
  counter_max-HoldsDict a b h = update_each-IsDict max_count (or_empty a) (or_empty b) h

  counter_max-HoldsCounts :
      (a b : Option (Dict K ℤ))
      → HoldsCounts a
      → HoldsCounts b
      → HoldsCounts (strategy_counter_max a b ctx)
  counter_max-HoldsCounts a b (ha, na) (hb, nb) = (
    counter_max-HoldsDict a b ha,
    λ k. rw (get-strategy_counter_max a b k (hb, nb)) (join-is_count _ _ (na k) (nb k)),
  )

  -- `strategy_counter_max` is the join of counter dicts whose counts are not negative, where a dict is
  -- under another one if the other has all its keys, with counts at least as large: up to the keys and
  -- their counts it is commutative, associative and idempotent, its result is above both arguments, and
  -- under any dict of counts that is above both.
  pub strategy_counter_max-IsJoin :
      (a b c : Option (Dict K ℤ))
      → HoldsCounts a
      → HoldsCounts b
      → HoldsCounts c
      → IsJoinAt SameCounts AtMost (λ x y. strategy_counter_max x y ctx) a b c
  strategy_counter_max-IsJoin a b c ha hb hc = (
    λ k.
        rw (get-strategy_counter_max a b k hb, get-strategy_counter_max b a k ha)
          (join_comm ctx _ _),
    λ k.
        rw
          (
            get-strategy_counter_max (strategy_counter_max a b ctx) c k hc,
            get-strategy_counter_max a b k hb,
            get-strategy_counter_max a (strategy_counter_max b c ctx) k
                (counter_max-HoldsCounts b c hb hc),
            get-strategy_counter_max b c k hc,
          )
          (join_assoc ctx _ _ _),
    λ k. rw (get-strategy_counter_max a a k ha) (join_idem ctx _),
    λ k. rw (get-strategy_counter_max a b k hb) (join_above ctx _ _).0,
    λ k. rw (get-strategy_counter_max a b k hb) (join_above ctx _ _).1,
    each_iff
        (λ k. below int_leb (get k (or_empty (strategy_counter_max a b ctx))) (get k (or_empty c)))
        (λ k. below int_leb (get k (or_empty a)) (get k (or_empty c)))
        (λ k. below int_leb (get k (or_empty b)) (get k (or_empty c)))
        (λ k. rw (get-strategy_counter_max a b k hb) (join_least ctx _ _ _)),
  )
