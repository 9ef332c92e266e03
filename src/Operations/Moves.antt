-- ===== src/Operations/Moves.antt =====
-- lipas/operations.py: what the methods do to the table of operations.
pub mod Sweeping
use lipas.Prelude.{
  ◌==◌, ℕ_eq, String_eq, option_beq, option_eqb_iff, Option_eq, list_beq, list_eqb_iff, List_eq,
  pair_beq, pair_eqb_iff, Pair_eq, beq_refl, beq_sym, eq_of_beq, beq_false, beq_true, Eq,
  Result-cases, Result, ok, err, int_leb, int_beq, int_eqb_iff, ℤ_eq, ℤ, pos, negsuc, length,
  get_elem?, filter, all, length-append, filter-append, get_elem?-append_middle, contains,
  contains-append, ltb, leb, nat_eq, if◌then◌else◌, nat_eq_iff, Bool-cases, Option-cases, or_left,
  or_right, zero, ℕ, suc, ◌+◌, ◌-◌, ◌*◌, ◌^◌, ◌≤◌, ◌<◌, max, String, ◌≡◌, refl, sym, ◌∙◌, ap, subst,
  ◌≢◌, ◌↔◌, ◌⊎◌, inl, inr, Bool, true, false, not, ◌&&◌, ◌||◌, Option, none, some, List, [], ◌∷◌,
  ◌++◌, map, append-nil, append_assoc, arith,
}
use lipas.Attempt.{
  ◌>>=◌, ◌>>◌, guard, required, Post, returns, Post-value, Post-bind, Post-guard, Post-if, Post-ok,
  Post-err, Post-weaken, required-eq-ok, raises,
}
use lipas.Dict.{Dict, IsDict, get, put, has, exists}
use lipas.Operations.Model.{
  OperationState, pending, succeeded, failed, uncertain, state_beq, is_terminal, OperationError,
  key_error, value_error, state_error, pending_operation, provider_error, Operation, Journal,
  Values, operation_text, optional_text, embedded_text,
}
use lipas.Operations.Journal.{
  is_bound, new_operation, write, record_audit_event, insert_new, outcome, prepare, transition,
  allowed_from, same_outcome,
}
use lipas.Operations.Execute.{
  Lookup, finds, finds_nothing, malformed, throws, is_state_error, beside, settle, fail,
  mark_uncertain, Begun, returns_op, submits, begin, next_step, marked, give_up_row, give_up,
  settled, finish, executed, execute, reconcile_with, reconcilable, reconcile, begun, unmarked,
  give_up_in, give_up_at, reconcile_found, reconcile_unless,
}
use lipas.Operations.Sweep.{
  settle_with, latest, diagnosed, reraised, handled, sweep_row, before, sweep, reconcile_pending,
  is_swept, swept_keys,
}

module _ {P : Type 0} where
  -- One transaction: a new pending row under a provider id that no other row has, or the outcome of a
  -- row that is not terminal.
  pub data Move (rows rows' : Dict String (Operation P)) : Type 0 where
    inserts :
        (key kind : String) (request : P) (effect_id : Option String) (id : String)
        → get key rows ≡ none
        → exists (is_bound id key) rows ≡ false
        → rows' ≡ put key (new_operation kind request effect_id id) rows
        → Move rows rows'
    settles :
        (key : String) (row : Operation P) (state : OperationState) (result : Option P)
        (reference : Option String) (error : Option P)
        → get key rows ≡ some row
        → is_terminal row.state ≡ false
        → state_beq state pending ≡ false
        → rows' ≡ put key (outcome state result reference error row) rows
        → Move rows rows'

  -- Any number of transactions.
  pub data Moves (start : Dict String (Operation P)) : Dict String (Operation P) → Type 0 where
    stays : {rows : Dict String (Operation P)} → rows ≡ start → Moves start rows
    goes :
        {mid rows : Dict String (Operation P)} → Moves start mid → Move mid rows → Moves start rows

  pub one-Move : {rows rows' : Dict String (Operation P)} → Move rows rows' → Moves rows rows'
  one-Move m = goes (stays refl) m

  pub Moves-trans : {a b c : Dict String (Operation P)} → Moves a b → Moves b c → Moves a c
  Moves-trans {a} ab (stays same) = subst (Moves a) (sym same) ab
  Moves-trans ab (goes bm m) = goes (Moves-trans ab bm) m

  -- Writing an audit event changes no operation.
  pub write-operations :
      (key : String) (op : Operation P) (observation : Option String) (j : Journal P)
      → (write key op observation j).operations ≡ put key op j.operations
  unfolding record_audit_event
  write-operations key op observation j = ground arith

module _ {P X : Type 0} ⦃e : Eq P⦄ where
  insert_new-Moves :
      (o : Option (Operation P)) (key kind : String) (request : P) (effect_id : Option String)
      (id : String) (j : Journal P)
      → get key j.operations ≡ o
      → exists (is_bound id key) j.operations ≡ false
      → Post {E = OperationError X}
          (λ r. Moves j.operations r.1.operations)
          (insert_new o key (new_operation kind request effect_id id) j)
  insert_new-Moves none key kind request effect_id id j here free = Post-ok (
      one-Move (
        inserts key kind request effect_id id here free
          (write-operations key (new_operation kind request effect_id id) none j)))
  insert_new-Moves (some old) key kind request effect_id id j here free =
      Post-if _ _ _ (λ _. Post-ok (stays refl)) (λ _. Post-err)

not-true : (b : Bool) → not b ≡ true → b ≡ false
not-true b h = ground arith

allowed-open :
    (state current : OperationState)
    → allowed_from state current ≡ true
    → is_terminal current ≡ false
allowed-open uncertain pending h = refl
allowed-open uncertain succeeded h = ground arith
allowed-open uncertain failed h = ground arith
allowed-open uncertain uncertain h = ground arith
allowed-open pending current h = ground arith
allowed-open succeeded current h = ground arith
allowed-open failed current h = ground arith

-- What holds of the journal that a method leaves, whether it returned or raised.
module _ {P X : Type 0} where
  pub beside-Moves :
      {A : Type 0} (j : Journal P) (m : Result (OperationError X) (A × Journal P))
      → Post (λ r. Moves j.operations r.1.operations) m
      → Moves j.operations (beside j m).1.operations
  beside-Moves j (err x) h = stays refl
  beside-Moves j (ok (a, j')) h = Post-value h refl

module _ {V P X : Type 0} ⦃e : Eq P⦄ (v : Values V P X) where
  pub prepare-Moves :
      (key kind : String) (request : V) (effect_id provider_id : Option String) (j : Journal P)
      → Post
          (λ r. Moves j.operations r.1.operations)
          (prepare v key kind request effect_id provider_id j)
  unfolding prepare
  prepare-Moves key kind request effect_id provider_id j = Post-bind _ _ λ key' _.
      Post-bind _ _ λ kind' _. Post-bind _ _ λ effect _. Post-bind _ _ λ given _.
        Post-bind _ _ λ embedded _. Post-guard _ _ _ λ _. Post-bind _ _ λ stored _.
          Post-guard _ _ _ λ free.
            insert_new-Moves (get key' j.operations) key' kind' stored effect _ j refl
              (not-true _ free)

  pub transition-Moves :
      (key : String) (state : OperationState) (result : Option V) (reference : Option String)
      (error : Option V) (observation : Option String) (j : Journal P)
      → Post
          (λ r. Moves j.operations r.1.operations)
          (transition v key state result reference error observation j)
  unfolding transition
  transition-Moves key state result reference error observation j = Post-bind _ _ λ key' _.
      Post-guard _ _ _ λ proper. Post-bind _ _ λ reference' _. Post-bind _ _ λ current got.
        Post-bind _ _ λ error' _. Post-bind _ _ λ result' _.
          Post-if (same_outcome state result' reference' error' current) _ _
            (λ _. Post-ok (stays refl))
            (λ _. Post-guard _ _ _ λ may. Post-ok (
              one-Move (
                settles key' current state result' reference' error'
                  (required-eq-ok (key_error key') (get key' j.operations) got)
                  (allowed-open state current.state may) (not-true _ proper)
                  (write-operations key' (outcome state result' reference' error' current)
                    observation j))))

  pub settle-Moves :
      (key : String) (value : V) (reference : Option String) (j : Journal P)
      → Post (λ r. Moves j.operations r.1.operations) (settle v key value reference j)
  unfolding settle
  settle-Moves key value reference j = transition-Moves key _ _ _ _ _ j

  pub fail-Moves :
      (key : String) (error : V) (j : Journal P)
      → Post (λ r. Moves j.operations r.1.operations) (fail v key error j)
  unfolding fail
  fail-Moves key error j = transition-Moves key _ _ _ _ _ j

  pub mark_uncertain-Moves :
      (key : String) (error : Option V) (j : Journal P)
      → Post (λ r. Moves j.operations r.1.operations) (mark_uncertain v key error j)
  unfolding mark_uncertain
  mark_uncertain-Moves key error j = transition-Moves key _ _ _ _ _ j

  begun-Moves :
      (j : Journal P) (m : Result (OperationError X) ((Operation P × Bool) × Journal P))
      → Post (λ r. Moves j.operations r.1.operations) m
      → Moves j.operations (begun v j m).1.operations
  begun-Moves j (err x) h = stays refl
  begun-Moves j (ok ((op, owns), j')) h = Post-value h refl

  pub begin-Moves :
      (key kind : String) (request : V) (effect_id provider_id : Option String) (j : Journal P)
      → Moves j.operations (begin v key kind request effect_id provider_id j).1.operations
  unfolding begin
  begin-Moves key kind request effect_id provider_id j =
      begun-Moves j _ (prepare-Moves key kind request effect_id provider_id j)

  marked-Moves :
      (x : OperationError X) (key : String) (j : Journal P)
      (m : Result (OperationError X) (Operation P × Journal P))
      → Post (λ r. Moves j.operations r.1.operations) m
      → Moves j.operations (marked v x key j m).1.operations
  marked-Moves x key j (ok (op, j')) h = Post-value h refl
  marked-Moves x key j (err y) h =
      elim (is_state_error y) as (λ b. Moves j.operations (unmarked v b x y j).1.operations) [
        | true ↦ stays refl
        | false ↦ stays refl
      ]

  give_up_row-Moves :
      (x : OperationError X) (key : String) (j : Journal P) (o : Option (Operation P))
      → Moves j.operations (give_up_row v x key j o).1.operations
  give_up_row-Moves x key j none = stays refl
  give_up_row-Moves x key j (some row) =
      let gave = marked-Moves x key j _ (mark_uncertain-Moves key (some (v.describe x)) j) in
      elim row.state as (λ s. Moves j.operations (give_up_in v s x key j).1.operations) [
        | pending ↦ gave
        | succeeded ↦ stays refl
        | failed ↦ stays refl
        | uncertain ↦ stays refl
      ]

  give_up-Moves :
      (x : OperationError X) (key : String) (j : Journal P)
      → Moves j.operations (give_up v x key j).1.operations
  unfolding give_up
  give_up-Moves x key j =
      elim (operation_text {X = X} key)
        as (λ m. Moves j.operations (give_up_at v x key j m).1.operations) [
          | err y ↦ stays refl
          | ok key' ↦ give_up_row-Moves x key j (get key' j.operations)
        ]

  settled-Moves :
      (key : String) (j : Journal P) (m : Result (OperationError X) (Operation P × Journal P))
      → Post (λ r. Moves j.operations r.1.operations) m
      → Moves j.operations (settled v key j m).1.operations
  settled-Moves key j (ok (op, j')) h = Post-value h refl
  settled-Moves key j (err x) h = give_up-Moves x key j

  pub finish-Moves :
      (key : String) (reply : Result X (V × Option String)) (j : Journal P)
      → Moves j.operations (finish v key reply j).1.operations
  unfolding finish
  finish-Moves key (ok (value, reference)) j =
      settled-Moves key j _ (settle-Moves key value reference j)
  finish-Moves key (err x) j = give_up-Moves (provider_error x) key j

  reconcile_with-Moves :
      (key : String) (answer : Lookup V X) (observation : Option String) (j : Journal P)
      → Moves j.operations (reconcile_with v key answer observation j).1.operations
  unfolding reconcile_with
  reconcile_with-Moves key (finds result reference) observation j =
      beside-Moves j _ (transition-Moves key _ _ _ _ _ j)
  reconcile_with-Moves key finds_nothing observation j =
      beside-Moves j _ (transition-Moves key _ _ _ _ _ j)
  reconcile_with-Moves key malformed observation j =
      marked-Moves value_error key j _ (mark_uncertain-Moves key _ j)
  reconcile_with-Moves key (throws x) observation j =
      marked-Moves (provider_error x) key j _ (mark_uncertain-Moves key _ j)

  reconcile_found-Moves :
      (lookup : String → Lookup V X) (observation : Option String) (j : Journal P)
      (m : Result (OperationError X) (String × Operation P))
      → Moves j.operations (reconcile_found v lookup observation j m).1.operations
  reconcile_found-Moves lookup observation j (err x) = stays refl
  reconcile_found-Moves lookup observation j (ok (key, row)) =
      elim (is_terminal row.state)
        as (λ b.
          Moves j.operations (reconcile_unless v b key lookup observation j row).1.operations) [
            | true ↦ stays refl
            | false ↦ reconcile_with-Moves key (lookup key) observation j
          ]

  pub reconcile-Moves :
      (key : String) (lookup : String → Lookup V X) (observation : Option String) (j : Journal P)
      → Moves j.operations (reconcile v key lookup observation j).1.operations
  unfolding reconcile
  reconcile-Moves key lookup observation j = reconcile_found-Moves lookup observation j _
