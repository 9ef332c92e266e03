-- ===== src/Operations/Model.antt =====
-- lipas/operations.py: the rows of the operation journal and the errors of its methods. `V` is the type
-- of the values that callers pass, `P` that of their strict JSON copies, and `X` that of the exceptions
-- of a provider.
use lipas.Prelude.{
  ◌==◌, ℕ_eq, String_eq, Option_eq, List_eq, Pair_eq, Result, ok, err, ℤ_eq, if◌then◌else◌, String,
  Bool, true, false, Option, none, some,
}
use lipas.Dict.{Dict}
use lipas.Text.{strip}

pub data OperationState : Type 0 where
  pending : OperationState
  succeeded : OperationState
  failed : OperationState
  uncertain : OperationState

abbrev pub state_beq : OperationState → OperationState → Bool
state_beq pending pending = true
state_beq succeeded succeeded = true
state_beq failed failed = true
state_beq uncertain uncertain = true
state_beq _ _ = false

-- `state in {"succeeded", "failed"}`
abbrev pub is_terminal : OperationState → Bool
is_terminal succeeded = true
is_terminal failed = true
is_terminal _ = false

-- The tags of the audit events.
abbrev pub tag_of : OperationState → String
tag_of pending = "operation_prepared"
tag_of uncertain = "operation_uncertain"
tag_of succeeded = "operation_succeeded"
tag_of failed = "operation_failed"

pub data OperationError (X : Type 0) : Type 0 where
  key_error : String → OperationError X
  value_error : OperationError X
  state_error : OperationError X
  pending_operation : OperationError X
  -- What a provider or a lookup raised.
  provider_error : X → OperationError X

pub record Operation (P : Type 0) : Type 0 where
  pub kind : String
  pub request : P
  pub state : OperationState
  pub result : Option P
  pub provider_reference : Option String
  pub error : Option P
  pub effect_id : Option String
  pub provider_request_id : String

-- `_audit_fields`, with the observation of a reconciliation.
pub record AuditFields (P : Type 0) : Type 0 where
  pub operation_kind : String
  pub state : OperationState
  pub effect_id : Option String
  pub provider_request_id : String
  pub provider_reference : Option String
  pub error : Option P
  pub observation : Option String

-- The tables: the operations by key, and the audit events by key and tag.
pub record Journal (P : Type 0) : Type 0 where
  pub operations : Dict String (Operation P)
  pub audit : Dict (String × String) (AuditFields P)

-- `request.get("provider_request_id")`
pub data Embedded : Type 0 where
  absent : Embedded
  not_text : Embedded
  text : String → Embedded

-- What the journal asks of values: their strict JSON copy, if there is one, the provider id inside a
-- request, and the mappings that describe an exception.
pub record Values (V P X : Type 0) : Type 0 where
  pub copy : V → Option P
  pub provider_id : V → Embedded
  pub with_provider_id : String → V → V
  pub describe : OperationError X → V
  pub describe_lookup : OperationError X → V
  pub not_found : V
  -- `isinstance(exc, Exception)`: not an interrupt of the process or the task.
  pub is_exception : X → Bool

-- `_operation_text`
unfoldable pub operation_text : {X : Type 0} → String → Result (OperationError X) String
operation_text value = if strip value == "" then err value_error else ok (strip value)

-- A text argument that may be `None`.
unfoldable pub optional_text :
    {X : Type 0} → Option String → Result (OperationError X) (Option String)
optional_text none = ok none
optional_text (some value) = if strip value == "" then err value_error else ok (some (strip value))

-- The checks of the provider id inside a request.
unfoldable pub embedded_text : {X : Type 0} → Embedded → Result (OperationError X) (Option String)
embedded_text absent = ok none
embedded_text not_text = err value_error
embedded_text (text value) = optional_text (some value)
