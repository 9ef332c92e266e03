-- ===== src/Lib.antt =====
-- LIPAS (lipas/) runs agents on top of two planes of state. The evidence plane is an append-only log
-- of claims: calculus.py gives claims and the strategies that merge their fields, store.py keeps the
-- log with its merged projection, and rows/ gates what may be folded, the capability row by budgets
-- and the effect row by the lineage of each effect; supervisor.py reads that log and recommends
-- retries of effects.
-- The control plane is the execution database of execution.py: tasks, their runs, the leases under
-- which workers act on runs, checkpoints, interrupts and cancellation. Every transition there commits
-- an event that is later mirrored into the evidence plane. The journal of operations.py does the same
-- for requests to an outside provider that must not be submitted twice. A call of a model goes through
-- retry.py, which classifies the errors of a reply (adapter/errors.py), and claims are written to disk
-- by the codec of serialization/codec.py.
--
-- Files, by the part of the program that they are about (paths from the repository's root):
--   Prelude, Dict, Text    equality tests, results, lists, integers; Python's dict; str.strip, `in`.
--   Attempt                code that may raise, as steps, and what holds if it returns.
--   Calculus               lipas/calculus.py. Context: BeliefContext. Strategies and Defaults: the
--                          built-in strategies and make_default_registry. Claim: Claim, the registry,
--                          merge and reduce. Merge: what merge computes. Lattice: its laws.
--                          Semilattice, Sets, Counters and Expectations: the strategies that are
--                          joins. Assignments: last_write and keep.
--   Store                  lipas/store.py, ClaimStore. Invariant: its indexes and its log.
--                          Index: filter. Delivery: repeated delivery and a raising strategy.
--                          Replay: the log and the projection after any folds.
--   Rows                   Base: lipas/rows/base.py, RowSet.fold (Base/Gate: the gate). Float: the
--                          interface of Python floats (SmallFloat: an instance). Capability:
--                          lipas/rows/capability.py, the budget checks (Capability/Budget: its
--                          sums, Capability/Ledger: the limit).
--                          Effect: lipas/rows/effect.py (Shapes: its values, Checks and Invariants:
--                          its checks, Lineage, Growth and Session: the lineage of effects).
--   Execution              lipas/execution.py, ExecutionStore. Model: the tables and the states.
--                          Steps: _require_lease, _record_audit_event and the writes under the unique
--                          indexes. Runs: create_task to renew_lease. Progress: save_checkpoint,
--                          suspend, resolve_interrupt. Finish: complete_run to cancel_task. Change:
--                          the state machine of a run as an abstract specification. Inversion and
--                          Refinement: the operations against it. Command: the operations as
--                          calls. Invariants, History, Fencing, Completion, Reopening: what
--                          follows.
--   Operations             lipas/operations.py, OperationJournal. Model and Journal: the rows, prepare
--                          and _transition. Execute: execute, _mark_uncertain_after_submission and
--                          reconcile. Sweep: reconcile_pending. Moves (with Moves/Sweeping): the
--                          state machine of a row. History, Submission, Identity: what follows.
--   Coordination           lipas/execution.py, the shared budget. Budget: the calls. Mapping: what
--                          _budget_mapping accepts. Amounts: the loop over an estimate.
--                          Funding, Reservations and Limits: sequences of calls. Repeats: a call
--                          that is repeated.
--   Supervisor             lipas/supervisor.py. Tick: the tally, the loop of tick and its claims.
--                          Planning and Numbering: the attempt indices, also over several ticks.
--                          Recovery: a tick that is called again with its prefix.
--   Adapter                Types: lipas/adapter/types.py and complete of adapter/protocol.py. Errors:
--                          lipas/adapter/errors.py, the classification and the policies.
--   Retry                  lipas/retry.py. Loop: call_with_retry. Attempts: how it ends.
--   Serialization          lipas/serialization/codec.py. Value: the Python values. Codec: the
--                          registry, encode, decode. RoundTrip: the reference function restore.
--                          Agreement: encoding and decoding against it.
-- A module named Examples applies the theorems of its part to concrete inputs; those of Execution stand
-- in Execution/Scenario.
--
-- How the code appears here. A function that raises returns an error value. A `fold` is a pair of its
-- result and the store afterwards, because a raising fold has side effects; a transaction of the
-- execution store returns the new tables or an error, because SQLite rolls it back. An operation is
-- one step: the read that some make before the transaction sees the tables that the transaction
-- sees. Ids, lease tokens and the current time are arguments. Times are natural numbers of ticks and
-- a duration is positive when it is not 0. Python's floats in budgets are an interface with the laws
-- of IEEE doubles that the code relies on, given as fields of a record, with an instance on the
-- natural numbers in the examples. Fields of claims have the types that the default strategies are
-- declared for, and a value outside its strategy's domain raises. Mappings that callers pass to the execution store are an
-- abstract type with a test for equality of their canonical JSON, and the three things that the code
-- asks of them (a flag, a text, and a mapping with a reason) are an interface. In
-- Execution an audit identity is the list of the parts that the code joins with colons, before it is
-- hashed, so two identities that differ are taken to stay different; in Coordination it is the joined
-- text. The effect row reads fields of the codec's values, and its messages keep the field that they
-- complain of. In the supervisor, what the predicates of a tick return is an argument, and so are the
-- ids that its claims draw and the digits of a number; a claim of a tick is put in the log without the
-- goal_blocked claim that is paired with it.
--
-- In the operations journal the reply of the provider and of a lookup is an argument, and the copy of a
-- value through strict JSON is an interface, as are the descriptions of exceptions. An operation of
-- the journal is a pair of its result and the journal afterwards, because execute and the sweep commit
-- a row before they raise. In the retry loop the streams of the provider are a function of the number
-- of the attempt, the lower case of a text is an argument, and a delay is its upper bound, without the
-- random part. An instance of a class, for the codec, is its class, its bases and the structure that its
-- encoder returns, and a decoder is a function that may raise.
--
-- Every function but one is structurally recursive, and a sequence of calls is a list. The loop of
-- call_with_retry runs on fuel: the most attempts that any policy allows is enough, as its theorem
-- shows.
--
-- Not modelled: the agent event stream of execution.py, the opening and the migration of its
-- database and of that of operations.py, the mirror of their events into a claim tape, the order in
-- which runs are listed, the built-in codecs, and the parts of the program around them (harnesses,
-- agents, providers, tools, workbench), which call them or do I/O.
pub mod Adapter
pub mod Attempt
pub mod Calculus
pub mod Coordination
pub mod Dict
pub mod Execution
pub mod Operations
pub mod Prelude
pub mod Retry
pub mod Rows
pub mod Serialization
pub mod Store
pub mod Supervisor
pub mod Text
