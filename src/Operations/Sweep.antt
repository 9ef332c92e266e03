-- ===== src/Operations/Sweep.antt =====
-- lipas/operations.py: `reconcile_pending`. Rows are visited in the order of their insertion.
use lipas.Prelude.{
  ℕ_eq, String_eq, Option_eq, List_eq, Pair_eq, Eq, Result, ok, err, ℤ_eq, if◌then◌else◌, String,
  Bool, true, false, Option, none, some, List, [], ◌∷◌, ◌++◌,
}
use lipas.Dict.{Dict, get}
use lipas.Operations.Model.{
  pending, uncertain, OperationError, value_error, provider_error, Operation, Journal, Values,
}
use lipas.Operations.Execute.{
  Lookup, finds, finds_nothing, malformed, throws, is_state_error, settle, fail, mark_uncertain,
}

module _ {P : Type 0} where
  -- `state in states`
  abbrev pub is_swept : Bool → Operation P → Bool
  is_swept include_pending row = elim row.state [
    | pending ↦ include_pending
    | uncertain ↦ true
    | _ ↦ false
  ]

  -- The keys that the query selects.
  abbrev pub swept_keys : Bool → Dict String (Operation P) → List String
  swept_keys include_pending [] = []
  swept_keys include_pending ((key, row) ∷ rows) =
      let rest = swept_keys include_pending rows in
      if is_swept include_pending row then key ∷ rest else rest

module _ {V P X : Type 0} ⦃e : Eq P⦄ (v : Values V P X) where
  -- `isinstance(exc, Exception)`
  abbrev pub is_plain : OperationError X → Bool
  is_plain (provider_error x) = v.is_exception x
  is_plain _ = true

  -- The body of the `try`.
  unfoldable pub settle_with :
      String → Lookup V X → Journal P → Result (OperationError X) (Operation P × Journal P)
  settle_with key (finds result reference) j = settle v key result reference j
  settle_with key finds_nothing j = fail v key v.not_found j
  settle_with key malformed j = err value_error
  settle_with key (throws x) j = err (provider_error x)

  -- `latest = self.get(key)`
  abbrev pub latest :
      OperationError X
      → Journal P
      → Option (Operation P)
      → Result (OperationError X) (Operation P) × Journal P
  latest y j none = (err y, j)
  latest y j (some row) = (ok row, j)

  abbrev pub lost :
      Bool
      → OperationError X
      → String
      → Journal P
      → Result (OperationError X) (Operation P) × Journal P
  lost true y key j = latest y j (get key j.operations)
  lost false y key j = (err y, j)

  -- The handler: the row becomes uncertain unless another worker settled it.
  abbrev pub diagnosed :
      String
      → Journal P
      → Result (OperationError X) (Operation P × Journal P)
      → Result (OperationError X) (Operation P) × Journal P
  diagnosed key j (ok (op, j')) = (ok op, j')
  diagnosed key j (err y) = lost (is_state_error y) y key j

  -- An interrupt of the process is raised again.
  abbrev pub reraised :
      OperationError X
      → Result (OperationError X) (Operation P) × Journal P
      → Result (OperationError X) (Operation P) × Journal P
  reraised x (err y, j) = (err y, j)
  reraised x (ok op, j) = (if is_plain x then ok op else err x, j)

  -- One round of the loop.
  abbrev pub handled :
      String
      → Journal P
      → Result (OperationError X) (Operation P × Journal P)
      → Result (OperationError X) (Operation P) × Journal P
  handled key j (ok (op, j')) = (ok op, j')
  handled key j (err x) =
      reraised x (diagnosed key j (mark_uncertain v key (some (v.describe_lookup x)) j))

  abbrev pub one :
      Result (OperationError X) (Operation P) × Journal P
      → Result (OperationError X) (List (Operation P)) × Journal P
  one (err x, j) = (err x, j)
  one (ok op, j) = (ok (op ∷ []), j)

  abbrev pub visited :
      Bool
      → (Operation P → Lookup V X)
      → String
      → Journal P
      → Operation P
      → Result (OperationError X) (List (Operation P)) × Journal P
  visited true lookup key j row = one (handled key j (settle_with key (lookup row) j))
  visited false lookup key j row = (ok [], j)

  unfoldable pub sweep_row :
      Bool
      → (Operation P → Lookup V X)
      → String
      → Journal P
      → Option (Operation P)
      → Result (OperationError X) (List (Operation P)) × Journal P
  sweep_row include_pending lookup key j none = (ok [], j)
  sweep_row include_pending lookup key j (some row) =
      visited (is_swept include_pending row) lookup key j row

  -- `settled.append(current)`
  abbrev pub before :
      List (Operation P)
      → Result (OperationError X) (List (Operation P)) × Journal P
      → Result (OperationError X) (List (Operation P)) × Journal P
  before ops (err x, j) = (err x, j)
  before ops (ok rest, j) = (ok (ops ++ rest), j)

  abbrev pub continue :
      Result (OperationError X) (List (Operation P)) × Journal P
      → (Journal P → Result (OperationError X) (List (Operation P)) × Journal P)
      → Result (OperationError X) (List (Operation P)) × Journal P
  continue (err x, j) rest = (err x, j)
  continue (ok ops, j) rest = before ops (rest j)

  unfoldable pub sweep :
      Bool
      → (Operation P → Lookup V X)
      → List String
      → Journal P
      → Result (OperationError X) (List (Operation P)) × Journal P
  sweep include_pending lookup [] j = (ok [], j)
  sweep include_pending lookup (key ∷ keys) j =
      continue (sweep_row include_pending lookup key j (get key j.operations))
        (λ j'. sweep include_pending lookup keys j')

  -- `reconcile_pending`
  unfoldable pub reconcile_pending :
      (Operation P → Lookup V X)
      → Bool
      → Journal P
      → Result (OperationError X) (List (Operation P)) × Journal P
  reconcile_pending lookup include_pending j =
      sweep include_pending lookup (swept_keys include_pending j.operations) j
