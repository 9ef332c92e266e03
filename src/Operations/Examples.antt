-- ===== src/Operations/Examples.antt =====
-- Concrete calls of lipas/operations.py: a payment whose provider answers, and one whose provider raises.
use lipas.Prelude.{
  ◌==◌, ℕ_eq, String_eq, Option_eq, List_eq, Pair_eq, ok, err, ℤ_eq, if◌then◌else◌, String, ◌≡◌,
  refl, true, false, none, some, List, [], ◌∷◌,
}
use lipas.Attempt.{◌>>=◌, ◌>>◌, guard, required}
use lipas.Dict.{get, put, has, exists}
use lipas.Text.{strip, is_space}
use lipas.Operations.Model.{
  succeeded, OperationError, Operation, Journal, Values, operation_text, optional_text,
  embedded_text, key_error, value_error, provider_error, state_error, pending_operation,
}
use lipas.Operations.Journal.{new_operation, record_audit_event, prepare, transition}
use lipas.Operations.Execute.{
  finds, finds_nothing, settle, fail, mark_uncertain, begin, finish, reconcile, give_up,
  reconcile_with, reconcilable,
}
use lipas.Operations.Sweep.{settle_with, sweep_row, sweep, reconcile_pending}
use lipas.Operations.Model.{absent}
use lipas.Operations.History.{
  Call, begins, finishes, reconciles, sweeps, run, Survives, outcome_is_final, after,
}
use lipas.Operations.Submission.{IsDistinct, submitted, at_most_once}
use lipas.Operations.Identity.{
  IsBoundOnce, provider_ids-IsBoundOnce, IsUncertain, raised-IsUncertain,
}

abbrev described : OperationError String → String
described (key_error message) = "KeyError"
described value_error = "ValueError"
described state_error = "OperationStateError"
described pending_operation = "PendingOperationError"
described (provider_error x) = "provider"

abbrev values : Values String String String
values = record {
  copy = λ value. if value == "nan" then none else some value;
  provider_id = λ _. absent;
  with_provider_id = λ _ value. value;
  describe = described;
  describe_lookup = λ _. "lookup raised";
  not_found = "not found";
  is_exception = λ _. true;
}

abbrev empty : Journal String
empty = record { operations = []; audit = [] }

abbrev paid : Operation String
paid = record (new_operation "pay" "10" none "k") {
  state = succeeded;
  result = some "done";
  provider_reference = some "ref";
}

abbrev with_paid : Journal String
with_paid = record { operations = ("k", paid) ∷ []; audit = [] }

abbrev with_pending : Journal String
with_pending = record { operations = ("k", new_operation "pay" "10" none "k") ∷ []; audit = [] }

abbrev calls : List (Call String String String)
calls =
    begins "k" "pay" "10" none none
    ∷ finishes "k" (err "timeout")
    ∷ begins " k " "pay" "10" none none
    ∷ reconciles "k" (λ _. finds "done" (some "ref")) none
    ∷ begins "m" "pay" "20" none (some "k")
    ∷ sweeps (λ _. finds_nothing) true
    ∷ []

calls_submit_once : submitted values calls empty ≡ "k" ∷ []
unfolding ◌>>=◌ ◌>>◌ guard required operation_text optional_text embedded_text strip is_space get
    put has exists record_audit_event prepare transition settle fail mark_uncertain begin give_up
    finish reconcile_with reconcilable reconcile settle_with sweep_row sweep reconcile_pending after
    submitted
calls_submit_once = refl

at_most_once_example : IsDistinct (submitted values calls empty)
at_most_once_example = at_most_once values calls empty

paid_is_there : get "k" with_paid.operations ≡ some paid
unfolding get
paid_is_there = refl

outcome_is_final_example : Survives "k" paid (run values calls with_paid).operations
outcome_is_final_example = outcome_is_final values calls with_paid "k" paid paid_is_there

empty-IsBoundOnce : IsBoundOnce empty.operations
unfolding get
empty-IsBoundOnce a b r s got_a = absurd (cc got_a)

provider_ids-IsBoundOnce_example : IsBoundOnce (run values calls empty).operations
provider_ids-IsBoundOnce_example = provider_ids-IsBoundOnce values calls empty empty-IsBoundOnce

pending_is_there :
    get (strip "k") with_pending.operations ≡ some (new_operation "pay" "10" none "k")
unfolding get strip is_space
pending_is_there = refl

key_is_text : (strip "k" == "") ≡ false
unfolding strip is_space
key_is_text = refl

nan_raises : (finish values "k" (ok ("nan", none)) with_pending).0 ≡ err value_error
unfolding ◌>>=◌ ◌>>◌ guard required operation_text optional_text embedded_text strip is_space get
    put has exists record_audit_event prepare transition settle fail mark_uncertain begin give_up
    finish reconcile_with reconcilable reconcile settle_with sweep_row sweep reconcile_pending after
    submitted
nan_raises = refl

described_copies :
    (y : OperationError String)
    → (copied : String) × (values.copy (values.describe y) ≡ some copied)
described_copies (key_error message) = ("KeyError", refl)
described_copies value_error = ("ValueError", refl)
described_copies state_error = ("OperationStateError", refl)
described_copies pending_operation = ("PendingOperationError", refl)
described_copies (provider_error x) = ("provider", refl)

raised-IsUncertain_example :
    IsUncertain values "k" value_error
      (new_operation "pay" "10" none "k")
      (finish values "k" (ok ("nan", none)) with_pending).1.operations
unfolding strip is_space
raised-IsUncertain_example =
    raised-IsUncertain values "k" (ok ("nan", none)) with_pending
      (new_operation "pay" "10" none "k") value_error key_is_text described_copies pending_is_there
      refl nan_raises
