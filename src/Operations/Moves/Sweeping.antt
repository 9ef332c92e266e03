-- ===== src/Operations/Moves/Sweeping.antt =====
-- lipas/operations.py: the moves of `reconcile_pending`.
use lipas.Prelude.{
  ℕ_eq, String_eq, Option_eq, List_eq, Pair_eq, Eq, Result, ok, err, ℤ_eq, String, refl, Bool, true,
  false, Option, none, some, List, [], ◌∷◌,
}
use lipas.Attempt.{Post, Post-value, Post-err}
use lipas.Dict.{get}
use lipas.Operations.Model.{OperationError, Operation, Journal, Values}
use lipas.Operations.Execute.{Lookup, finds, finds_nothing, malformed, throws, is_state_error}
use lipas.Operations.Sweep.{
  settle_with, latest, diagnosed, reraised, handled, sweep_row, one, continue, before, sweep,
  reconcile_pending, is_swept, lost, visited,
}
use lipas.Operations.Moves.{
  Moves, stays, Moves-trans, settle-Moves, fail-Moves, mark_uncertain-Moves,
}

module _ {V P X : Type 0} ⦃e : Eq P⦄ (v : Values V P X) where
  settle_with-Moves :
      (key : String) (answer : Lookup V X) (j : Journal P)
      → Post (λ r. Moves j.operations r.1.operations) (settle_with v key answer j)
  unfolding settle_with
  settle_with-Moves key (finds result reference) j = settle-Moves v key result reference j
  settle_with-Moves key finds_nothing j = fail-Moves v key v.not_found j
  settle_with-Moves key malformed j = Post-err
  settle_with-Moves key (throws x) j = Post-err

  latest-Moves :
      (y : OperationError X) (j : Journal P) (o : Option (Operation P))
      → Moves j.operations (latest v y j o).1.operations
  latest-Moves y j none = stays refl
  latest-Moves y j (some row) = stays refl

  diagnosed-Moves :
      (key : String) (j : Journal P) (m : Result (OperationError X) (Operation P × Journal P))
      → Post (λ r. Moves j.operations r.1.operations) m
      → Moves j.operations (diagnosed v key j m).1.operations
  diagnosed-Moves key j (ok (op, j')) h = Post-value h refl
  diagnosed-Moves key j (err y) h =
      elim (is_state_error y) as (λ b. Moves j.operations (lost v b y key j).1.operations) [
        | true ↦ latest-Moves y j (get key j.operations)
        | false ↦ stays refl
      ]

  reraised-Moves :
      (x : OperationError X) (j : Journal P)
      (m : Result (OperationError X) (Operation P) × Journal P)
      → Moves j.operations m.1.operations
      → Moves j.operations (reraised v x m).1.operations
  reraised-Moves x j (err y, j') h = h
  reraised-Moves x j (ok op, j') h = h

  handled-Moves :
      (key : String) (j : Journal P) (m : Result (OperationError X) (Operation P × Journal P))
      → Post (λ r. Moves j.operations r.1.operations) m
      → Moves j.operations (handled v key j m).1.operations
  handled-Moves key j (ok (op, j')) h = Post-value h refl
  handled-Moves key j (err x) h =
      reraised-Moves x j _ (diagnosed-Moves key j _ (mark_uncertain-Moves v key _ j))

  one-Moves :
      (j : Journal P) (m : Result (OperationError X) (Operation P) × Journal P)
      → Moves j.operations m.1.operations
      → Moves j.operations (one v m).1.operations
  one-Moves j (err x, j') h = h
  one-Moves j (ok op, j') h = h

  sweep_row-Moves :
      (include_pending : Bool) (lookup : Operation P → Lookup V X) (key : String) (j : Journal P)
      (o : Option (Operation P))
      → Moves j.operations (sweep_row v include_pending lookup key j o).1.operations
  unfolding sweep_row
  sweep_row-Moves include_pending lookup key j none = stays refl
  sweep_row-Moves include_pending lookup key j (some row) =
      elim (is_swept include_pending row)
        as (λ b. Moves j.operations (visited v b lookup key j row).1.operations) [
          | true ↦ one-Moves j _ (handled-Moves key j _ (settle_with-Moves key (lookup row) j))
          | false ↦ stays refl
        ]

  before-Moves :
      (ops : List (Operation P)) (j : Journal P)
      (m : Result (OperationError X) (List (Operation P)) × Journal P)
      → Moves j.operations m.1.operations
      → Moves j.operations (before v ops m).1.operations
  before-Moves ops j (err x, j') h = h
  before-Moves ops j (ok rest, j') h = h

  continue-Moves :
      (j : Journal P) (m : Result (OperationError X) (List (Operation P)) × Journal P)
      (rest : Journal P → Result (OperationError X) (List (Operation P)) × Journal P)
      → Moves j.operations m.1.operations
      → ((k : Journal P) → Moves k.operations (rest k).1.operations)
      → Moves j.operations (continue v m rest).1.operations
  continue-Moves j (err x, k) rest h r = h
  continue-Moves j (ok ops, k) rest h r = before-Moves ops j (rest k) (Moves-trans h (r k))

  sweep-Moves :
      (include_pending : Bool) (lookup : Operation P → Lookup V X) (keys : List String)
      (j : Journal P)
      → Moves j.operations (sweep v include_pending lookup keys j).1.operations
  unfolding sweep
  sweep-Moves include_pending lookup [] j = stays refl
  sweep-Moves include_pending lookup (key ∷ keys) j =
      continue-Moves j (sweep_row v include_pending lookup key j (get key j.operations))
        (λ k. sweep v include_pending lookup keys k)
        (sweep_row-Moves include_pending lookup key j (get key j.operations))
        (sweep-Moves include_pending lookup keys)

  pub reconcile_pending-Moves :
      (lookup : Operation P → Lookup V X) (include_pending : Bool) (j : Journal P)
      → Moves j.operations (reconcile_pending v lookup include_pending j).1.operations
  unfolding reconcile_pending
  reconcile_pending-Moves lookup include_pending j = sweep-Moves include_pending lookup _ j
