-- ===== src/Operations/Journal.antt =====
-- lipas/operations.py: `OperationJournal._prepare` and `_transition`. A transaction is one step: the read
-- before an update sees the rows that the update sees.
use lipas.Prelude.{
  ◌==◌, ℕ_eq, String_eq, Option_eq, List_eq, Pair_eq, Eq, Result, ok, err, ℤ_eq, if◌then◌else◌,
  String, Bool, true, false, not, ◌&&◌, Option, none, some,
}
use lipas.Attempt.{◌>>=◌, ◌>>◌, guard, required}
use lipas.Dict.{get, put, has, exists}
use lipas.Operations.Model.{
  OperationState, pending, uncertain, state_beq, is_terminal, tag_of, OperationError, key_error,
  value_error, state_error, Operation, AuditFields, Journal, Values, operation_text, optional_text,
  embedded_text,
}

-- Two provider ids that are both given differ.
abbrev pub conflicts : Option String → Option String → Bool
conflicts (some a) (some b) = not (a == b)
conflicts _ _ = false

-- `provider_request_id or embedded_provider_id or key`
abbrev pub first_id : Option String → Option String → String → String
first_id (some a) embedded key = a
first_id none (some b) key = b
first_id none none key = key

-- `effect_id is not None and existing.effect_id != effect_id`
abbrev pub other_effect : Option String → Option String → Bool
other_effect none existing = false
other_effect (some id) existing = not (existing == some id)

-- Where `_transition` may come from.
abbrev pub allowed_from : OperationState → OperationState → Bool
allowed_from uncertain current = state_beq current pending
allowed_from _ current = not (is_terminal current)

module _ {P : Type 0} where
  -- `_audit_fields`
  abbrev pub audit_fields : Operation P → Option String → AuditFields P
  audit_fields op observation = record {
    operation_kind = op.kind;
    state = op.state;
    effect_id = op.effect_id;
    provider_request_id = op.provider_request_id;
    provider_reference = op.provider_reference;
    error = op.error;
    observation = observation;
  }

  -- `_record_audit_event`: `INSERT OR IGNORE`.
  unfoldable pub record_audit_event : String → Operation P → Option String → Journal P → Journal P
  record_audit_event key op observation j =
      if has (key, tag_of op.state) j.audit
      then j
      else record j { audit = put (key, tag_of op.state) (audit_fields op observation) j.audit }

  -- Another operation has the provider request id.
  abbrev pub is_bound : String → String → String → Operation P → Bool
  is_bound id key other row = row.provider_request_id == id && not (other == key)

  -- The row that `_prepare` inserts.
  abbrev pub new_operation : String → P → Option String → String → Operation P
  new_operation kind request effect_id id = record {
    kind = kind;
    request = request;
    state = pending;
    result = none;
    provider_reference = none;
    error = none;
    effect_id = effect_id;
    provider_request_id = id;
  }

  -- The write of a row, with its audit event.
  abbrev pub write : String → Operation P → Option String → Journal P → Journal P
  write key op observation j =
      record_audit_event key op observation (record j { operations = put key op j.operations })

  -- The row that `_transition` writes.
  abbrev pub outcome :
      OperationState → Option P → Option String → Option P → Operation P → Operation P
  outcome state result reference error op = record op {
    state = state;
    result = result;
    provider_reference = reference;
    error = error;
  }

module _ {P : Type 0} ⦃e : Eq P⦄ where
  abbrev pub same_outcome :
      OperationState → Option P → Option String → Option P → Operation P → Bool
  same_outcome state result reference error op =
      state_beq op.state state
      && op.result == result
      && op.provider_reference == reference
      && op.error == error

module _ {P X : Type 0} ⦃e : Eq P⦄ where
  -- The insertion of `_prepare`, given the row that has the key: a known key is the same operation, or
  -- an error. The flag is the ownership of the submission.
  abbrev pub insert_new :
      Option (Operation P)
      → String
      → Operation P
      → Journal P
      → Result (OperationError X) ((Operation P × Bool) × Journal P)
  insert_new none key op j = ok ((op, true), write key op none j)
  insert_new (some old) key op j =
      if old.kind == op.kind
        && old.request == op.request
        && not (other_effect op.effect_id old.effect_id)
        && old.provider_request_id == op.provider_request_id
      then ok ((old, false), j)
      else err value_error

module _ {V P X : Type 0} ⦃e : Eq P⦄ (v : Values V P X) where
  -- `_strict_json_copy`
  abbrev pub strict_copy : V → Result (OperationError X) P
  strict_copy value = required value_error (v.copy value)

  abbrev pub strict_copy_optional : Option V → Result (OperationError X) (Option P)
  strict_copy_optional none = ok none
  strict_copy_optional (some value) = strict_copy value >>= λ copied. ok (some copied)

  -- `_prepare`
  unfoldable pub prepare :
      String
      → String
      → V
      → Option String
      → Option String
      → Journal P
      → Result (OperationError X) ((Operation P × Bool) × Journal P)
  prepare key kind request effect_id provider_request_id j = do
    key ← operation_text key
    kind ← operation_text kind
    effect_id ← optional_text effect_id
    given ← optional_text provider_request_id
    embedded ← embedded_text (v.provider_id request)
    guard (not (conflicts given embedded)) value_error
    stored ←
        strict_copy (elim embedded [ none ↦ request | some id ↦ v.with_provider_id id request ])
    let id = first_id given embedded key
    guard (not (exists (is_bound id key) j.operations)) value_error
    insert_new (get key j.operations) key (new_operation kind stored effect_id id) j

  -- `_transition`: the same outcome again is a no-op, and a terminal operation is never rewritten.
  unfoldable pub transition :
      String
      → OperationState
      → Option V
      → Option String
      → Option V
      → Option String
      → Journal P
      → Result (OperationError X) (Operation P × Journal P)
  transition key state result provider_reference error observation j = do
    key ← operation_text key
    guard (not (state_beq state pending)) value_error
    reference ← optional_text provider_reference
    current ← required (key_error key) (get key j.operations)
    new_error ← strict_copy_optional error
    normalized ← strict_copy_optional result
    let next = outcome state normalized reference new_error current
    if same_outcome state normalized reference new_error current
        then ok (current, j)
        else guard (allowed_from state current.state) state_error
          >> ok (next, write key next observation j)
