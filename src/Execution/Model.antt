-- ===== src/Execution/Model.antt =====
-- lipas/execution.py: the tables of the execution database and the steps that its operations share.
-- A transaction is a function on the tables; one that raises leaves them as they were. Times are
-- counted in ticks. `P` is the type of the mappings that the store keeps as JSON, two of them equal
-- when their canonical texts are.
use lipas.Prelude.{
  ◌==◌, ℕ_eq, String_eq, option_eqb_iff, Option_eq, List_eq, Pair_eq, Eq, Result, ok, err, ℤ_eq,
  nat_eq, if◌then◌else◌, nat_eq_iff, ℕ, String, ◌≡◌, ◌↔◌, Bool, true, false, Option, none, some,
  List, arith,
}
use lipas.Dict.{Dict}
use lipas.Text.{strip}

pub data TaskState : Type 0 where
  task_open : TaskState
  task_completed : TaskState
  task_cancelled : TaskState

pub data RunState : Type 0 where
  pending : RunState
  running : RunState
  waiting : RunState
  completed : RunState
  failed : RunState
  cancelled : RunState

pub data InterruptState : Type 0 where
  interrupt_pending : InterruptState
  interrupt_allowed : InterruptState
  interrupt_denied : InterruptState

-- What an operation raises: `KeyError`, `ValueError`, the exceptions of the module, and SQLite's
-- `IntegrityError` from a primary key or a unique index.
pub data ExecutionError : Type 0 where
  key_error : String → ExecutionError
  value_error : ExecutionError
  state_error : ExecutionError
  lease_error : ExecutionError
  checkpoint_conflict : ExecutionError
  integrity_error : ExecutionError

abbrev pub Exec : Type 0 → Type 0
Exec A = Result ExecutionError A

-- The `value` of a state.
abbrev pub task_value : TaskState → String
task_value task_open = "open"
task_value task_completed = "completed"
task_value task_cancelled = "cancelled"

abbrev pub run_value : RunState → String
run_value pending = "pending"
run_value running = "running"
run_value waiting = "waiting"
run_value completed = "completed"
run_value failed = "failed"
run_value cancelled = "cancelled"

abbrev pub interrupt_value : InterruptState → String
interrupt_value interrupt_pending = "pending"
interrupt_value interrupt_allowed = "allowed"
interrupt_value interrupt_denied = "denied"

-- The states of the partial index `idx_execution_one_active_run`.
abbrev pub is_active : RunState → Bool
is_active pending = true
is_active running = true
is_active waiting = true
is_active _ = false

abbrev pub is_running : RunState → Bool
is_running running = true
is_running _ = false

-- The state of a run that an interrupt suspended.
abbrev pub is_waiting : RunState → Bool
is_waiting waiting = true
is_waiting _ = false

abbrev pub is_open : TaskState → Bool
is_open task_open = true
is_open _ = false

abbrev pub is_pending : InterruptState → Bool
is_pending interrupt_pending = true
is_pending _ = false

-- A value in an audit event: a text, a number, an optional time, or a mapping of the caller's.
pub data Json (P : Type 0) : Type 0 where
  text : String → Json P
  number : ℕ → Json P
  instant : Option ℕ → Json P
  mapping : P → Json P

abbrev pub json_beq : {P : Type 0} ⦃e : Eq P⦄ → Json P → Json P → Bool
json_beq (text a) (text b) = a == b
json_beq (number a) (number b) = nat_eq a b
json_beq (instant a) (instant b) = a == b
json_beq (mapping a) (mapping b) = a == b
json_beq _ _ = false

pub record AuditEvent (P : Type 0) : Type 0 where
  pub tag : String
  pub fields : List (String × Json P)
  pub created_at : ℕ

pub record Task : Type 0 where
  pub goal : String
  pub workspace : String
  pub state : TaskState
  pub created_at : ℕ
  pub updated_at : ℕ

pub record Run (P : Type 0) : Type 0 where
  pub task_id : String
  pub state : RunState
  pub attempt : ℕ
  pub checkpoint_version : ℕ
  pub lease_token : Option String
  pub lease_expires : Option ℕ
  pub cancel_requested : Bool
  pub result : Option P
  pub error : Option P
  pub created_at : ℕ
  pub updated_at : ℕ

pub record Checkpoint (P : Type 0) : Type 0 where
  pub phase : String
  pub state : P
  pub created_at : ℕ

pub record Interrupt (P : Type 0) : Type 0 where
  pub run_id : String
  pub kind : String
  pub request : P
  pub state : InterruptState
  pub response : Option P
  pub created_at : ℕ
  pub resolved_at : Option ℕ

-- The tables, each by its primary key.
pub record Db (P : Type 0) : Type 0 where
  pub tasks : Dict String Task
  pub runs : Dict String (Run P)
  pub checkpoints : Dict (String × ℕ) (Checkpoint P)
  pub interrupts : Dict String (Interrupt P)
  pub audit : Dict (List (Json P)) (AuditEvent P)

-- `_non_empty_text`
unfoldable pub non_empty_text : String → Exec String
non_empty_text value = if strip value == "" then err value_error else ok (strip value)

-- `except sqlite3.IntegrityError as exc: raise ExecutionStateError(...) from exc`
abbrev pub on_integrity : {A : Type 0} → Exec A → Exec A
on_integrity (err integrity_error) = err state_error
on_integrity r = r

-- A row that a `SELECT` by key must find.
abbrev pub found : {A : Type 0} → String → Option A → Exec A
found key none = err (key_error key)
found key (some a) = ok a

module _ {P : Type 0} ⦃e : Eq P⦄ where
  pub json_eqb_iff : (a b : Json P) → (json_beq a b ≡ true) ↔ (a ≡ b)
  json_eqb_iff (text a) (text b) = ground (arith, String_eq.eqb_iff a b)
  json_eqb_iff (number a) (number b) = ground (arith, nat_eq_iff a b)
  json_eqb_iff (instant a) (instant b) = ground (arith, option_eqb_iff a b)
  json_eqb_iff (mapping a) (mapping b) = ground (arith, e.eqb_iff a b)
  json_eqb_iff (text a) (number b) = ground arith
  json_eqb_iff (text a) (instant b) = ground arith
  json_eqb_iff (text a) (mapping b) = ground arith
  json_eqb_iff (number a) (text b) = ground arith
  json_eqb_iff (number a) (instant b) = ground arith
  json_eqb_iff (number a) (mapping b) = ground arith
  json_eqb_iff (instant a) (text b) = ground arith
  json_eqb_iff (instant a) (number b) = ground arith
  json_eqb_iff (instant a) (mapping b) = ground arith
  json_eqb_iff (mapping a) (text b) = ground arith
  json_eqb_iff (mapping a) (number b) = ground arith
  json_eqb_iff (mapping a) (instant b) = ground arith

  instance abbrev pub Json_eq : Eq (Json P)
  Json_eq = record { eqb = json_beq; eqb_iff = json_eqb_iff }
