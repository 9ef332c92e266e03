-- ===== src/Calculus/Merge.antt =====
-- What `merge` of lipas/calculus.py makes of two claims.
use lipas.Prelude.{
  String, true, false, ◌||◌, not, Option, none, List, [], ◌∷◌, ◌≡◌, refl, ◌≢◌, arith, ok, >>=-eq-ok,
  filter, contains, contains-append, ◌==◌, String_eq, ◌∙◌, if◌then◌else◌, Bool-cases, inl, int_leb,
  inr, beq_false, or_left, or_right, some, subst, ℤ, Option-cases, ◌⊎◌,
}
use lipas.Calculus.Defaults.{int_le_refl, int_le_total}
use lipas.Dict.{Dict, get, has, keys, contains-keys, get-none_of_has}
use lipas.Calculus.Context.{BeliefContext}
use lipas.Calculus.Sets.{contains-filter}
use lipas.Calculus.Claim.{
  Claim, StrategyRegistry, MergeStrategy, strategy_for, bottom_tag, value, merge_field, merge_keys,
  all_keys, merge,
}

value-cons :
    {V : Type 0} (j k : String) (v : Option V) (m : Dict String (Option V))
    → value k ((j, v) ∷ m) ≡ (if j == k then v else value k m)
unfolding value get
value-cons j k v m = ground arith

module _ {V : Type 0} (r : StrategyRegistry V) (ctx : BeliefContext) where
  contains-all_keys :
      (f1 f2 : Dict String (Option V)) (k : String)
      → contains (all_keys f1 f2) k ≡ (has k f1 || has k f2)
  unfolding all_keys
  contains-all_keys f1 f2 k = ground (
    arith,
    contains-append (keys f1) (filter (λ j. not (has j f1)) (keys f2)) k,
    contains-filter (λ j. not (has j f1)) (keys f2) k,
    contains-keys k f1,
    contains-keys k f2,
  )

  has-merge_keys :
      (f1 f2 : Dict String (Option V)) (ks : List String) (m : Dict String (Option V)) (k : String)
      → merge_keys r ctx f1 f2 ks ≡ ok m
      → has k m ≡ contains ks k
  unfolding merge_keys has
  has-merge_keys f1 f2 [] m k h = ground arith
  has-merge_keys f1 f2 (j ∷ ks) m k h =
      let (v, _, h') = >>=-eq-ok (merge_field r ctx j (value j f1) (value j f2)) _ h in
      let (rest, e, h'') = >>=-eq-ok (merge_keys r ctx f1 f2 ks) _ h' in
      ground (arith, has-merge_keys f1 f2 ks rest k e)

  value-merge_keys :
      (f1 f2 : Dict String (Option V)) (ks : List String) (m : Dict String (Option V)) (k : String)
      → merge_keys r ctx f1 f2 ks ≡ ok m
      → contains ks k ≡ true
      → merge_field r ctx k (value k f1) (value k f2) ≡ ok (value k m)
  unfolding merge_keys
  value-merge_keys f1 f2 [] m k h c = ground arith
  value-merge_keys f1 f2 (j ∷ ks) m k h c =
      let (v, e, h') = >>=-eq-ok (merge_field r ctx j (value j f1) (value j f2)) _ h in
      let (rest, e', h'') = >>=-eq-ok (merge_keys r ctx f1 f2 ks) _ h' in
      ground
        (arith, value-merge_keys f1 f2 ks rest k e', String_eq.eqb_iff j k, value-cons j k v rest)

  value-none_of_has : (k : String) (m : Dict String (Option V)) → has k m ≡ false → value k m ≡ none
  unfolding value
  value-none_of_has k m h = rw (get-none_of_has k m h, value)

  value-merge_all :
      (f1 f2 m : Dict String (Option V)) (k : String)
      → merge_keys r ctx f1 f2 (all_keys f1 f2) ≡ ok m
      → (has k m ≡ (has k f1 || has k f2))
        × (merge_field r ctx k (value k f1) (value k f2) ≡ ok (value k m))
  unfolding merge_field
  value-merge_all f1 f2 m k h =
      let p = has-merge_keys f1 f2 (all_keys f1 f2) m k h ∙ contains-all_keys f1 f2 k in
      (
        p,
        elim (Bool-cases (has k f1 || has k f2)) [
          | inl yes' ↦
              value-merge_keys f1 f2 (all_keys f1 f2) m k h (contains-all_keys f1 f2 k ∙ yes')
          | inr no' ↦ rw (
            value-none_of_has k f1 (or_left (has k f1) (has k f2) no'),
            value-none_of_has k f2 (or_right (has k f1) (has k f2) no'),
            value-none_of_has k m (p ∙ no'),
            merge_field,
          )
        ],
      )

  -- What the loop of `merge` gives for each field, and the choice of the priority and the tag.
  pub merge_fieldwise :
      (fresh : String) (c1 c2 m : Claim V)
      → c1.tag ≢ bottom_tag
      → c2.tag ≢ bottom_tag
      → merge fresh c1 c2 ctx r ≡ ok m
      → ((k : String)
          → (has k m.fields ≡ (has k c1.fields || has k c2.fields))
            × (merge_field r ctx k (value k c1.fields) (value k c2.fields) ≡ ok (value k m.fields)))
        × (m.priority ≡ (if int_leb c2.priority c1.priority then c1.priority else c2.priority))
        × (m.tag ≡ (if int_leb c2.priority c1.priority then c1.tag else c2.tag))
  unfolding merge
  merge_fieldwise fresh c1 c2 m n1 n2 h =
      let h' = rw (beq_false c1.tag bottom_tag n1, beq_false c2.tag bottom_tag n2) at h in
      let (fields, e, h'') =
        >>=-eq-ok (merge_keys r ctx c1.fields c2.fields (all_keys c1.fields c2.fields)) _ h' in
      let same : fields ≡ m.fields = cc in
      (
        λ k. value-merge_all c1.fields c2.fields m.fields k (rw (← same) e),
        ground arith,
        ground arith,
      )

  -- The value of a merged field, from its values in the two claims: the one that is not `None`, or what
  -- the strategy registered for the field, or else the default one, returns for the two.
  pub data IsMergedField (k : String) : Option V → Option V → Option V → Type 0 where
    neither : IsMergedField k none none none
    left_only : (a : V) → IsMergedField k (some a) none (some a)
    right_only : (b : V) → IsMergedField k none (some b) (some b)
    by_registered :
        (f : MergeStrategy V) (a b : V) (v : Option V)
        → get k r.table ≡ some f
        → f (some a) (some b) ctx ≡ ok v
        → IsMergedField k (some a) (some b) v
    by_default :
        (a b : V) (v : Option V)
        → get k r.table ≡ none
        → r.default (some a) (some b) ctx ≡ ok v
        → IsMergedField k (some a) (some b) v

  merge_field-IsMergedField :
      (k : String) (a b v : Option V) → merge_field r ctx k a b ≡ ok v → IsMergedField k a b v
  unfolding merge_field strategy_for
  merge_field-IsMergedField k none none v h = subst (IsMergedField k none none) (cc h) neither
  merge_field-IsMergedField k none (some b) v h =
      subst (IsMergedField k none (some b)) (cc h) (right_only b)
  merge_field-IsMergedField k (some a) none v h =
      subst (IsMergedField k (some a) none) (cc h) (left_only a)
  merge_field-IsMergedField k (some a) (some b) v h = elim (Option-cases (get k r.table)) [
    | inl missing ↦ by_default a b v missing (rw (missing, merge_field, strategy_for) at h)
    | inr (f, registered) ↦
        by_registered f a b v registered (rw (registered, merge_field, strategy_for) at h)
  ]

  -- A priority and a tag are those of the claim with the higher priority, the left one on a tie.
  abbrev pub IsTop : Claim V → Claim V → ℤ → String → Type 0
  IsTop c1 c2 priority tag =
      (int_leb c1.priority priority ≡ true)
      × (int_leb c2.priority priority ≡ true)
      × (((priority ≡ c1.priority) × (tag ≡ c1.tag))
          ⊎ ((priority ≡ c2.priority) × (tag ≡ c2.tag) × (int_leb c2.priority c1.priority ≡ false)))

  -- When `merge` of two claims that are not ⊥ returns, the result has exactly the fields of either claim.
  -- The value of each is the one that is not `None`, or what the strategy registered for the field, the
  -- default one if there is none, returns for the two values. The priority is at least both priorities,
  -- and it and the tag are those of one claim, the right one only if its priority is the higher.
  pub merge-IsMerged :
      (fresh : String) (c1 c2 m : Claim V)
      → c1.tag ≢ bottom_tag
      → c2.tag ≢ bottom_tag
      → merge fresh c1 c2 ctx r ≡ ok m
      → ((k : String)
          → (has k m.fields ≡ (has k c1.fields || has k c2.fields))
            × IsMergedField k (value k c1.fields) (value k c2.fields) (value k m.fields))
        × IsTop c1 c2 m.priority m.tag
  merge-IsMerged fresh c1 c2 m n1 n2 h =
      let (fields, pri, tag) = merge_fieldwise fresh c1 c2 m n1 n2 h in
      (
        λ k. (
          (fields k).0,
          merge_field-IsMergedField k (value k c1.fields) (value k c2.fields) (value k m.fields)
              (fields k).1,
        ),
        elim (Bool-cases (int_leb c2.priority c1.priority)) [
          | inl left ↦ (
            rw (pri, left) (int_le_refl c1.priority),
            rw (pri, left) left,
            inl (pri ∙ rw (left) refl, tag ∙ rw (left) refl),
          )
          | inr right ↦ (
            rw (pri, right) (ground (arith, int_le_total c1.priority c2.priority)),
            rw (pri, right) (int_le_refl c2.priority),
            inr (pri ∙ rw (right) refl, tag ∙ rw (right) refl, right),
          )
        ],
      )
