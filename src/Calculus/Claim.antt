-- ===== src/Calculus/Claim.antt =====
-- lipas/calculus.py: the strategy registry, claims, `merge` and `reduce`. `V` is the type of a
-- field's value; a field that is present with the value `None` is `some none` under its key.
use lipas.Prelude.{
  String, not, Option, none, some, List, [], ◌∷◌, ◌++◌, if◌then◌else◌, ◌==◌, String_eq, Result, ok,
  ◌>>=◌, ℤ, pos, negsuc, int_leb, filter,
}
use lipas.Dict.{Dict, get, put, has, keys}
use lipas.Calculus.Context.{BeliefContext}

-- A strategy may raise; the message of the exception is kept.
pub data StrategyError : Type 0 where
  raised : String → StrategyError

abbrev pub MergeStrategy : Type 0 → Type 0
MergeStrategy V = Option V → Option V → BeliefContext → Result StrategyError (Option V)

pub record StrategyRegistry (V : Type 0) : Type 0 where
  pub table : Dict String (MergeStrategy V)
  pub default : MergeStrategy V

-- `x or y` on texts, where `""` counts as absent.
abbrev pub or_text : Option String → Option String → Option String
or_text none y = y
or_text (some x) y = if x == "" then y else some x

pub record Claim (V : Type 0) : Type 0 where
  pub tag : String
  pub fields : Dict String (Option V)
  pub kind : Option String
  pub priority : ℤ
  pub source : String
  pub claim_id : String
  pub seq : ℤ

-- `seq = -1`: not yet assigned by a store.
abbrev pub unassigned : ℤ
unassigned = negsuc 0

abbrev pub bottom_tag : String
bottom_tag = "⊥"

-- `claim_id or self.claim_id`
abbrev pub own_id : Option String → String → String
own_id none self = self
own_id (some id) self = if id == "" then self else id

module _ {V : Type 0} where
  unfoldable pub register : String → MergeStrategy V → StrategyRegistry V → StrategyRegistry V
  register field_name strategy r = record r { table = put field_name strategy r.table }

  unfoldable pub set_default : MergeStrategy V → StrategyRegistry V → StrategyRegistry V
  set_default strategy r = record r { default = strategy }

  -- `StrategyRegistry.get`
  unfoldable pub strategy_for : StrategyRegistry V → String → MergeStrategy V
  strategy_for r field_name = elim (get field_name r.table) [ none ↦ r.default | some s ↦ s ]

  -- `fields.get(key)`: an absent field and a field with the value `None` both give `None`.
  unfoldable pub value : String → Dict String (Option V) → Option V
  value key fields = elim (get key fields) [ none ↦ none | some v ↦ v ]

  -- `{**fields, **updates}`
  unfoldable pub update : Dict String (Option V) → Dict String (Option V) → Dict String (Option V)
  update fields [] = fields
  update fields ((k, v) ∷ updates) = update (put k v fields) updates

  unfoldable pub with_fields : Claim V → Dict String (Option V) → Option String → Claim V
  with_fields c updates id = record c {
    fields = update c.fields updates;
    claim_id = own_id id c.claim_id;
    seq = unassigned;
  }

  unfoldable pub with_field : Claim V → String → Option V → Option String → Claim V
  with_field c key v id = record c {
    fields = put key v c.fields;
    claim_id = own_id id c.claim_id;
    seq = unassigned;
  }

  -- `BOTTOM`, with the id that was drawn for it.
  unfoldable pub bottom : String → Claim V
  bottom id = record {
    tag = bottom_tag;
    fields = [];
    kind = none;
    priority = pos 0;
    source = "";
    claim_id = id;
    seq = unassigned;
  }

  -- One round of the loop of `merge`: the value of a field from its values in the two claims.
  unfoldable pub merge_field :
      StrategyRegistry V
      → BeliefContext
      → String
      → Option V
      → Option V
      → Result StrategyError (Option V)
  merge_field r ctx key none v2 = ok v2
  merge_field r ctx key (some v1) none = ok (some v1)
  merge_field r ctx key (some v1) (some v2) = strategy_for r key (some v1) (some v2) ctx

  unfoldable pub merge_keys :
      StrategyRegistry V
      → BeliefContext
      → Dict String (Option V)
      → Dict String (Option V)
      → List String
      → Result StrategyError (Dict String (Option V))
  merge_keys r ctx f1 f2 [] = ok []
  merge_keys r ctx f1 f2 (key ∷ rest) = do
    v ← merge_field r ctx key (value key f1) (value key f2)
    merged ← merge_keys r ctx f1 f2 rest
    ok ((key, v) ∷ merged)

  -- `set(f1) | set(f2)`, in one of the orders in which Python may walk it.
  unfoldable pub all_keys : Dict String (Option V) → Dict String (Option V) → List String
  all_keys f1 f2 = keys f1 ++ filter (λ k. not (has k f1)) (keys f2)

  -- `fresh` is the id that the constructor of the merged claim draws.
  unfoldable pub merge :
      String
      → Claim V
      → Claim V
      → BeliefContext
      → StrategyRegistry V
      → Result StrategyError (Claim V)
  merge fresh c1 c2 ctx r =
      if c1.tag == bottom_tag then ok c2 else if c2.tag == bottom_tag then ok c1 else do
        fields ← merge_keys r ctx c1.fields c2.fields (all_keys c1.fields c2.fields)
        ok (record {
          tag = if int_leb c2.priority c1.priority then c1.tag else c2.tag;
          fields = fields;
          kind = or_text c1.kind c2.kind;
          priority = if int_leb c2.priority c1.priority then c1.priority else c2.priority;
          source = "";
          claim_id = fresh;
          seq = unassigned;
        })

  unfoldable pub reduce :
      String
      → String
      → Claim V
      → Claim V
      → Claim V
      → BeliefContext
      → StrategyRegistry V
      → Result StrategyError (Claim V)
  reduce fresh1 fresh2 belief_claim c1 c2 ctx r = do
    merged ← merge fresh1 c1 c2 ctx r
    merge fresh2 belief_claim merged ctx r
