-- ===== src/Operations/Execute.antt =====
-- lipas/operations.py: the public methods of `OperationJournal`. A method that raises may have written
-- before it raised, so each gives its result beside the journal.
use lipas.Prelude.{
  ℕ_eq, String_eq, Option_eq, List_eq, Pair_eq, Eq, Result, ok, err, ℤ_eq, if◌then◌else◌, String,
  Bool, true, false, not, Option, none, some,
}
use lipas.Attempt.{◌>>=◌, required}
use lipas.Dict.{get}
use lipas.Operations.Model.{
  pending, succeeded, failed, uncertain, state_beq, is_terminal, OperationError, key_error,
  value_error, state_error, pending_operation, provider_error, Operation, Journal, Values,
  operation_text, optional_text, OperationState,
}
use lipas.Operations.Journal.{prepare, transition}

-- What `execute` does after it prepared the operation.
pub data Begun (P : Type 0) : Type 0 where
  returns_op : Operation P → Begun P
  submits : Begun P

-- What a provider lookup answers: the result of an operation that it knows, that it has none, an answer
-- whose flag is not a Boolean, or an exception.
pub data Lookup (V X : Type 0) : Type 0 where
  finds : V → Option String → Lookup V X
  finds_nothing : Lookup V X
  malformed : Lookup V X
  throws : X → Lookup V X

abbrev pub is_state_error : {X : Type 0} → OperationError X → Bool
is_state_error state_error = true
is_state_error _ = false

-- A result beside the journal; an error leaves the journal.
abbrev pub beside :
    {A P X : Type 0}
    → Journal P
    → Result (OperationError X) (A × Journal P)
    → Result (OperationError X) A × Journal P
beside j (err x) = (err x, j)
beside j (ok (a, j')) = (ok a, j')

module _ {V P X : Type 0} ⦃e : Eq P⦄ (v : Values V P X) where
  unfoldable pub settle :
      String → V → Option String → Journal P → Result (OperationError X) (Operation P × Journal P)
  settle key result reference j = transition v key succeeded (some result) reference none none j

  unfoldable pub fail : String → V → Journal P → Result (OperationError X) (Operation P × Journal P)
  fail key error j = transition v key failed none none (some error) none j

  unfoldable pub mark_uncertain :
      String → Option V → Journal P → Result (OperationError X) (Operation P × Journal P)
  mark_uncertain key error j = transition v key uncertain none none error none j

  -- `execute` up to the call of the provider: only the owner of a new row submits.
  abbrev pub next_step : Operation P → Bool → Result (OperationError X) (Begun P)
  next_step op owns =
      if state_beq op.state succeeded
      then ok (returns_op op)
      else (if not owns then err pending_operation else ok submits)

  abbrev pub begun :
      Journal P
      → Result (OperationError X) ((Operation P × Bool) × Journal P)
      → Result (OperationError X) (Begun P) × Journal P
  begun j (err x) = (err x, j)
  begun j (ok ((op, owns), j')) = (next_step op owns, j')

  unfoldable pub begin :
      String
      → String
      → V
      → Option String
      → Option String
      → Journal P
      → Result (OperationError X) (Begun P) × Journal P
  begin key kind request effect_id provider_request_id j =
      begun j (prepare v key kind request effect_id provider_request_id j)

  abbrev pub unmarked :
      Bool
      → OperationError X
      → OperationError X
      → Journal P
      → Result (OperationError X) (Operation P) × Journal P
  unmarked true x y j = (err x, j)
  unmarked false x y j = (err y, j)

  -- The handler in `_mark_uncertain_after_submission`; the first exception is raised again.
  abbrev pub marked :
      OperationError X
      → String
      → Journal P
      → Result (OperationError X) (Operation P × Journal P)
      → Result (OperationError X) (Operation P) × Journal P
  marked x key j (ok (op, j')) = (err x, j')
  marked x key j (err y) = unmarked (is_state_error y) x y j

  -- `_mark_uncertain_after_submission`, for a row in a state.
  abbrev pub give_up_in :
      OperationState
      → OperationError X
      → String
      → Journal P
      → Result (OperationError X) (Operation P) × Journal P
  give_up_in pending x key j = marked x key j (mark_uncertain key (some (v.describe x)) j)
  give_up_in _ x key j = (err x, j)

  abbrev pub give_up_row :
      OperationError X
      → String
      → Journal P
      → Option (Operation P)
      → Result (OperationError X) (Operation P) × Journal P
  give_up_row x key j none = (err x, j)
  give_up_row x key j (some row) = give_up_in row.state x key j

  abbrev pub give_up_at :
      OperationError X
      → String
      → Journal P
      → Result (OperationError X) String
      → Result (OperationError X) (Operation P) × Journal P
  give_up_at x key j (err y) = (err y, j)
  give_up_at x key j (ok key') = give_up_row x key j (get key' j.operations)

  unfoldable pub give_up :
      OperationError X → String → Journal P → Result (OperationError X) (Operation P) × Journal P
  give_up x key j = give_up_at x key j (operation_text key)

  -- The end of `execute`, given what the provider and the extraction of its reference returned.
  abbrev pub settled :
      String
      → Journal P
      → Result (OperationError X) (Operation P × Journal P)
      → Result (OperationError X) (Operation P) × Journal P
  settled key j (ok (op, j')) = (ok op, j')
  settled key j (err x) = give_up x key j

  unfoldable pub finish :
      String
      → Result X (V × Option String)
      → Journal P
      → Result (OperationError X) (Operation P) × Journal P
  finish key (ok (value, reference)) j = settled key j (settle key value reference j)
  finish key (err x) j = give_up (provider_error x) key j

  -- `execute`: `during` is what other workers commit while the provider runs.
  abbrev pub executed :
      String
      → Result X (V × Option String)
      → (Journal P → Journal P)
      → Result (OperationError X) (Begun P) × Journal P
      → Result (OperationError X) (Operation P) × Journal P
  executed key reply during (err x, j) = (err x, j)
  executed key reply during (ok (returns_op op), j) = (ok op, j)
  executed key reply during (ok submits, j) = finish key reply (during j)

  unfoldable pub execute :
      String
      → String
      → V
      → Option String
      → Option String
      → Result X (V × Option String)
      → (Journal P → Journal P)
      → Journal P
      → Result (OperationError X) (Operation P) × Journal P
  execute key kind request effect_id provider_request_id reply during j =
      executed key reply during (begin key kind request effect_id provider_request_id j)

  -- What `reconcile` does with an answer.
  unfoldable pub reconcile_with :
      String
      → Lookup V X
      → Option String
      → Journal P
      → Result (OperationError X) (Operation P) × Journal P
  reconcile_with key (finds result reference) observation j =
      beside j (transition v key succeeded (some result) reference none observation j)
  reconcile_with key finds_nothing observation j =
      beside j (transition v key failed none none (some v.not_found) observation j)
  reconcile_with key malformed observation j =
      marked value_error key j (mark_uncertain key (some (v.describe_lookup value_error)) j)
  reconcile_with key (throws x) observation j =
      marked (provider_error x) key j
        (mark_uncertain key (some (v.describe_lookup (provider_error x))) j)

  -- `reconcile`: a terminal row is never looked up.
  abbrev pub reconcile_unless :
      Bool
      → String
      → (String → Lookup V X)
      → Option String
      → Journal P
      → Operation P
      → Result (OperationError X) (Operation P) × Journal P
  reconcile_unless true key lookup observation j row = (ok row, j)
  reconcile_unless false key lookup observation j row =
      reconcile_with key (lookup key) observation j

  unfoldable pub reconcilable :
      String → Option String → Journal P → Result (OperationError X) (String × Operation P)
  reconcilable key observation j = do
    key ← operation_text key
    _ ← optional_text observation
    row ← required (key_error key) (get key j.operations)
    ok (key, row)

  abbrev pub reconcile_found :
      (String → Lookup V X)
      → Option String
      → Journal P
      → Result (OperationError X) (String × Operation P)
      → Result (OperationError X) (Operation P) × Journal P
  reconcile_found lookup observation j (err x) = (err x, j)
  reconcile_found lookup observation j (ok (key, row)) =
      reconcile_unless (is_terminal row.state) key lookup observation j row

  unfoldable pub reconcile :
      String
      → (String → Lookup V X)
      → Option String
      → Journal P
      → Result (OperationError X) (Operation P) × Journal P
  reconcile key lookup observation j =
      reconcile_found lookup observation j (reconcilable key observation j)
