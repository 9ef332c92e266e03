-- ===== src/Calculus/Lattice.antt =====
-- The laws of `merge` of lipas/calculus.py that follow from laws of the registered strategies.
use lipas.Calculus.Defaults.{int_le_total, int_le_antisymm}
use lipas.Prelude.{
  ℕ_eq, String_eq, Option_eq, beq_false, ok, int_leb, ℤ_eq, if◌then◌else◌, String, ◌≡◌, refl, ◌∙◌,
  ◌≢◌, Option, none, some, List, [], ◌∷◌, arith,
}
use lipas.Dict.{Dict, has}
use Prim.Native.String.{String, ◌∷◌}
use lipas.Calculus.Merge.{merge_fieldwise}
use lipas.Calculus.Context.{BeliefContext}
use lipas.Calculus.Claim.{
  Claim, StrategyRegistry, bottom_tag, value, merge_field, merge_keys, all_keys, merge,
  strategy_for, or_text, unassigned,
}

module _ {V : Type 0} (r : StrategyRegistry V) (ctx : BeliefContext) where
  merge_keys_total :
      (f1 f2 : Dict String (Option V)) (ks : List String)
      → ((k : String) → (v : Option V) × (merge_field r ctx k (value k f1) (value k f2) ≡ ok v))
      → (m : Dict String (Option V)) × (merge_keys r ctx f1 f2 ks ≡ ok m)
  unfolding merge_keys
  merge_keys_total f1 f2 [] total = ([], refl)
  merge_keys_total f1 f2 (k ∷ ks) total =
      let (v, p) = total k in
      let (m, q) = merge_keys_total f1 f2 ks total in ((k, v) ∷ m, rw (p, q))

  merge_total :
      (fresh : String) (c1 c2 : Claim V)
      → c1.tag ≢ bottom_tag
      → c2.tag ≢ bottom_tag
      → ((k : String)
          → (v : Option V) × (merge_field r ctx k (value k c1.fields) (value k c2.fields) ≡ ok v))
      → (m : Claim V) × (merge fresh c1 c2 ctx r ≡ ok m)
  unfolding merge
  merge_total fresh c1 c2 n1 n2 total =
      let (fields, p) = merge_keys_total c1.fields c2.fields (all_keys c1.fields c2.fields) total in
      (
        record {
          tag = if int_leb c2.priority c1.priority then c1.tag else c2.tag;
          fields = fields;
          kind = or_text c1.kind c2.kind;
          priority = if int_leb c2.priority c1.priority then c1.priority else c2.priority;
          source = "";
          claim_id = fresh;
          seq = unassigned;
        },
        rw (beq_false c1.tag bottom_tag n1, beq_false c2.tag bottom_tag n2, p),
      )

  merge_field_comm :
      (k : String)
      → ((a b : Option V) → strategy_for r k a b ctx ≡ strategy_for r k b a ctx)
      → (a b : Option V) → merge_field r ctx k a b ≡ merge_field r ctx k b a
  unfolding merge_field
  merge_field_comm k comm none none = refl
  merge_field_comm k comm none (some b) = refl
  merge_field_comm k comm (some a) none = refl
  merge_field_comm k comm (some a) (some b) = comm (some a) (some b)

  -- If every registered strategy is commutative, a merge that returns also returns with its
  -- arguments swapped, and the two claims have the same fields with the same values and the same
  -- priority.
  pub merge_comm :
      (fresh fresh' : String) (c1 c2 m : Claim V)
      → ((k : String) (a b : Option V) → strategy_for r k a b ctx ≡ strategy_for r k b a ctx)
      → c1.tag ≢ bottom_tag
      → c2.tag ≢ bottom_tag
      → merge fresh c1 c2 ctx r ≡ ok m
      → (m' : Claim V) × (merge fresh' c2 c1 ctx r ≡ ok m')
        × ((k : String)
            → (has k m'.fields ≡ has k m.fields) × (value k m'.fields ≡ value k m.fields))
        × (m'.priority ≡ m.priority)
  merge_comm fresh fresh' c1 c2 m comm n1 n2 h =
      let (fields, pri, _) = merge_fieldwise r ctx fresh c1 c2 m n1 n2 h in
      let swapped = λ (k : String).
        merge_field_comm k (comm k) (value k c2.fields) (value k c1.fields) ∙ (fields k).1 in
      let (m', h') = merge_total fresh' c2 c1 n2 n1 (λ k. (value k m.fields, swapped k)) in
      let (fields', pri', _) = merge_fieldwise r ctx fresh' c2 c1 m' n2 n1 h' in
      (
        m',
        h',
        λ k. (ground (arith, (fields k).0, (fields' k).0), cc ((fields' k).1, swapped k)),
        ground
            (arith, int_le_total c1.priority c2.priority, int_le_antisymm c1.priority c2.priority),
      )

  merge_field_idem :
      (k : String)
      → ((a : V) → strategy_for r k (some a) (some a) ctx ≡ ok (some a))
      → (a : Option V) → merge_field r ctx k a a ≡ ok a
  unfolding merge_field
  merge_field_idem k idem none = refl
  merge_field_idem k idem (some a) = idem a

  -- If every registered strategy is idempotent, merging a claim with itself returns, keeps each
  -- field's value, and keeps the tag and the priority.
  pub merge_idem :
      (fresh : String) (c : Claim V)
      → ((k : String) (a : V) → strategy_for r k (some a) (some a) ctx ≡ ok (some a))
      → c.tag ≢ bottom_tag
      → (m : Claim V) × (merge fresh c c ctx r ≡ ok m)
        × ((k : String) → (has k m.fields ≡ has k c.fields) × (value k m.fields ≡ value k c.fields))
        × (m.tag ≡ c.tag)
        × (m.priority ≡ c.priority)
  merge_idem fresh c idem n =
      let each = λ (k : String). merge_field_idem k (idem k) (value k c.fields) in
      let (m, h) = merge_total fresh c c n n (λ k. (value k c.fields, each k)) in
      let (fields, pri, tag) = merge_fieldwise r ctx fresh c c m n n h in
      (
        m,
        h,
        λ k. (ground (arith, (fields k).0), cc ((fields k).1, each k)),
        ground arith,
        ground arith,
      )
