-- ===== src/Rows/Capability.antt =====
-- lipas/rows/capability.py: the budget row. `V` is the type of field values, read through `Payload`.
pub mod Budget
pub mod Ledger
use lipas.Prelude.{
  ◌==◌, ℕ_eq, String_eq, option_beq, option_eqb_iff, Option_eq, beq_refl, beq_sym, eq_of_beq,
  beq_false, Eq, ◌>>=◌, ◌>>◌, guard, >>=-eq-ok, Result, ok, err, int_leb, int_beq, int_eqb_iff,
  ℤ_eq, ℤ, pos, negsuc, length, get_elem?, filter, all, length-append, filter-append,
  get_elem?-append_middle, contains, contains-append, ltb, leb, nat_eq, if◌then◌else◌, nat_eq_iff,
  Bool-cases, Option-cases, zero, ℕ, suc, ◌+◌, ◌-◌, ◌*◌, ◌^◌, ◌≤◌, ◌<◌, max, String, ◌≡◌, refl, sym,
  ◌∙◌, ap, ◌≢◌, ◌↔◌, ◌⊎◌, inl, inr, Bool, true, false, not, ◌&&◌, ◌||◌, Option, none, some, List,
  [], ◌∷◌, ◌++◌, map, append-nil, append_assoc, arith,
}
use lipas.Dict.{Dict, get, put, has}
use lipas.Text.{strip}
use lipas.Rows.Float.{Float}
use lipas.Rows.Base.{Row}
use lipas.Calculus.Claim.{Claim}
use lipas.Store.{ClaimStore, filter_claims}

abbrev pub tag_resource_spent : String
tag_resource_spent = "resource_spent"

abbrev pub tag_quota_used : String
tag_quota_used = "quota_used"

abbrev pub tag_rate_event : String
tag_rate_event = "rate_event"

abbrev pub tag_budget_overrun : String
tag_budget_overrun = "budget_overrun"

-- What Python's `isinstance` and `float()` see in a field value: `as_text` the `str` values,
-- `to_float` the ints and floats that `float()` converts (no `bool`, and no int that overflows).
pub record Payload (V F : Type 0) : Type 0 where
  pub as_text : V → Option String
  pub to_float : V → Option F

pub data BudgetError : Type 0 where
  empty_name : BudgetError
  bad_limit : String → BudgetError
  duplicate_name : String → BudgetError

pub data Message (F : Type 0) : Type 0 where
  invalid_amount : Message F
  budget_exhausted : String → F → F → F → Message F

-- `ValueError` of `_finite_sum`, `TypeError` of `float()`, `IndexError` of the store.
pub data RowError : Type 0 where
  sum_overflowed : RowError
  not_a_number : RowError
  index_error : RowError

pub record BucketView (F : Type 0) : Type 0 where
  pub limit : F
  pub spent : F
  pub exhausted : Bool
  pub overrun : F
  pub true_spent : F

module _ (float : Float) {V : Type 0} (payload : Payload V float.F) where
  open float use {F, zero as f0, add, lt, is_finite}

  unfoldable pub finite_float : V → Option F
  finite_float v = elim (payload.to_float v) [
    | none ↦ none
    | some x ↦ if is_finite x then some x else none
  ]

  -- The loop of `__post_init__`.
  unfoldable pub normalize : Dict String V → Dict String F → Result BudgetError (Dict String F)
  unfolding finite_float
  normalize [] normalized = ok normalized
  normalize ((bucket, limit) ∷ budgets) normalized =
      let bucket_name = strip bucket in
      let rest = λ (x : F). normalize budgets (put bucket_name x normalized) in
      if bucket_name == "" then err empty_name else elim (finite_float limit) [
        | none ↦ err (bad_limit bucket)
        | some x ↦
            if lt x f0
            then err (bad_limit bucket)
            else if has bucket_name normalized
            then err (duplicate_name bucket)
            else rest x
      ]

  unfoldable pub finite_sum : F → F → Result RowError F
  finite_sum left right =
      if is_finite (add left right) then ok (add left right) else err sum_overflowed

  -- `fields.get(F_BUCKET)`, where it is a text.
  unfoldable pub bucket_of : Claim V → Option String
  bucket_of c = elim (get "bucket" c.fields) [
    | none ↦ none
    | some none ↦ none
    | some (some v) ↦ payload.as_text v
  ]

  -- `_finite_float(fields.get(F_AMOUNT, 0))`
  unfoldable pub amount_of : Claim V → Option F
  unfolding finite_float
  amount_of c = elim (get "amount" c.fields) [
    | none ↦ some f0
    | some none ↦ none
    | some (some v) ↦ finite_float v
  ]

  -- `float(fields.get(F_AMOUNT, 0))`
  unfoldable pub float_amount : Claim V → Result RowError F
  float_amount c = elim (get "amount" c.fields) [
    | none ↦ ok f0
    | some none ↦ err not_a_number
    | some (some v) ↦ elim (payload.to_float v) [ none ↦ err not_a_number | some x ↦ ok x ]
  ]

  -- `_valid_amount`, with the bucket and the number that it accepts.
  unfoldable pub valid_amount : Option String → Option F → Option (String × F)
  valid_amount (some bucket) (some amount) =
      if not (bucket == "") && bucket == strip bucket && not (lt amount f0)
      then some (bucket, amount)
      else none
  valid_amount _ _ = none

  -- `total = _finite_sum(total, float(c.fields.get(F_AMOUNT, 0)))`
  unfoldable pub add_amount : F → Claim V → Result RowError F
  unfolding float_amount finite_sum
  add_amount total c = do x ← float_amount c; finite_sum total x

  -- The loop of `_spent` and `_overrun` over the claims of one tag.
  unfoldable pub sum_bucket : String → List String → F → List (Claim V) → Result RowError F
  sum_bucket bucket seen total [] = ok total
  sum_bucket bucket seen total (c ∷ cs) =
      let skip = sum_bucket bucket seen total cs in
      let take = λ (t : F). sum_bucket bucket (c.claim_id ∷ seen) t cs in
      if bucket_of c == some bucket && not (contains seen c.claim_id)
      then (do t ← add_amount total c; take t)
      else skip

  abbrev pub tagged_claims : String → ClaimStore V → Result RowError (List (Claim V))
  tagged_claims tag store = elim (filter_claims (some tag) none none store) [
    | none ↦ err index_error
    | some cs ↦ ok cs
  ]

  unfoldable pub spent : ClaimStore V → String → Result RowError F
  unfolding sum_bucket
  spent store bucket = do cs ← tagged_claims tag_resource_spent store; sum_bucket bucket [] f0 cs

  unfoldable pub overrun : ClaimStore V → String → Result RowError F
  unfolding sum_bucket
  overrun store bucket = do cs ← tagged_claims tag_budget_overrun store; sum_bucket bucket [] f0 cs

  unfoldable pub delivered : String → List (Claim V) → Bool
  delivered id [] = false
  delivered id (c ∷ cs) = c.claim_id == id || delivered id cs

  -- The end of the gate: an id that was delivered before passes at once.
  unfoldable pub gate_after :
      Bool → ClaimStore V → String → F → F → Result RowError (List (Message F))
  gate_after true store bucket amount limit = ok []
  gate_after false store bucket amount limit = do
    current ← spent store bucket
    if lt limit (add current amount)
        then ok (budget_exhausted bucket current amount limit ∷ [])
        else ok []

  -- The gate of a budgeted bucket.
  unfoldable pub gate : Claim V → ClaimStore V → String → F → F → Result RowError (List (Message F))
  unfolding delivered gate_after
  gate claim store bucket amount limit = do
    cs ← tagged_claims tag_resource_spent store
    gate_after (delivered claim.claim_id cs) store bucket amount limit

  unfoldable pub check_spent :
      Dict String F → Claim V → ClaimStore V → Result RowError (List (Message F))
  unfolding gate valid_amount bucket_of amount_of
  check_spent budgets claim store = elim (valid_amount (bucket_of claim) (amount_of claim)) [
    | none ↦ ok (invalid_amount ∷ [])
    | some (bucket, amount) ↦ elim (get bucket budgets) [
      | none ↦ ok []
      | some limit ↦ gate claim store bucket amount limit
    ]
  ]

  unfoldable pub check_overrun : Claim V → Result RowError (List (Message F))
  unfolding valid_amount bucket_of amount_of
  check_overrun claim = elim (valid_amount (bucket_of claim) (amount_of claim)) [
    | none ↦ ok (invalid_amount ∷ [])
    | some _ ↦ ok []
  ]

  unfoldable pub check_invariants :
      Dict String F → Claim V → ClaimStore V → Result RowError (List (Message F))
  unfolding check_spent check_overrun
  check_invariants budgets claim store =
      if claim.tag == tag_resource_spent
      then check_spent budgets claim store
      else if claim.tag == tag_budget_overrun
      then check_overrun claim
      else ok []

  abbrev pub capability_namespace : String → Bool
  capability_namespace tag =
      tag == tag_resource_spent
      || tag == tag_quota_used
      || tag == tag_rate_event
      || tag == tag_budget_overrun

  unfoldable pub project_bucket : ClaimStore V → String → F → Result RowError (BucketView F)
  unfolding spent overrun finite_sum
  project_bucket store bucket limit = do
    s ← spent store bucket
    o ← overrun store bucket
    t ← finite_sum s o
    ok (record {
      limit = limit;
      spent = s;
      exhausted = not (lt s limit);
      overrun = o;
      true_spent = t;
    })

  -- `project`, with `remaining` left out: it is the difference of two members.
  unfoldable pub project :
      ClaimStore V → Dict String F → Result RowError (Dict String (BucketView F))
  unfolding project_bucket
  project store [] = ok []
  project store ((bucket, limit) ∷ budgets) = do
    view ← project_bucket store bucket limit
    rest ← project store budgets
    ok ((bucket, view) ∷ rest)

  -- `CapabilityRow` as a member of a row set.
  unfoldable pub capability_row : Dict String F → Row V (Message F) RowError
  unfolding check_invariants
  capability_row budgets = record {
    name = "capability";
    in_namespace = capability_namespace;
    check_invariants = check_invariants budgets;
  }
