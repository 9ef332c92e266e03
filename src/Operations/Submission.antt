-- ===== src/Operations/Submission.antt =====
-- lipas/operations.py: a provider is asked at most once for each key, and one provider id is never bound
-- to two keys.
use lipas.Prelude.{
  ◌==◌, ℕ_eq, String_eq, Option_eq, List_eq, Pair_eq, beq_refl, Eq, Result, ok, err, ℤ_eq, contains,
  String, ◌≡◌, refl, subst, ◌⊎◌, inl, inr, Bool, true, false, not, ◌&&◌, Option, none, some, List,
  [], ◌∷◌, ◌++◌, arith,
}
use lipas.Attempt.{Post, Post-value, Post-bind, Post-guard, Post-if, Post-ok, Post-err, Post-weaken}
use lipas.Dict.{Dict, get, has, has-put, has-false_of_get}
use lipas.Text.{strip}
use lipas.Operations.Model.{OperationError, Operation, Journal, Values, operation_text}
use lipas.Operations.Journal.{new_operation, insert_new, outcome, prepare, other_effect}
use lipas.Operations.Execute.{Begun, returns_op, submits, begin, begun, next_step}
use lipas.Operations.Moves.{Move, inserts, settles, Moves, stays, goes}
use lipas.Operations.Moves.{write-operations}
use lipas.Operations.History.{
  after-Moves, Call, prepares, begins, finishes, settles_as, fails_with, marks_uncertain,
  reconciles, sweeps, after,
}

module _ {P : Type 0} where
  Move-has :
      (rows rows' : Dict String (Operation P)) (key : String)
      → has key rows ≡ true
      → Move rows rows'
      → has key rows' ≡ true
  Move-has rows rows' key known (inserts k kind request effect_id id new free same) =
      rw (same, has-put k key (new_operation kind request effect_id id) rows, known) (ground arith)
  Move-has rows rows' key known
        (settles k row state result reference error here open_ proper same) =
      rw (same, has-put k key (outcome state result reference error row) rows, known) (ground arith)

  pub Moves-has :
      (rows rows' : Dict String (Operation P)) (key : String)
      → has key rows ≡ true
      → Moves rows rows'
      → has key rows' ≡ true
  Moves-has rows rows' key known (stays same) = rw (same) known
  Moves-has rows rows' key known (goes {mid} before_ m) =
      Move-has mid rows' key (Moves-has rows mid key known before_) m

  insert_new-owns :
      {X : Type 0} ⦃e : Eq P⦄ (o : Option (Operation P)) (key : String) (op : Operation P)
      (j : Journal P)
      → get key j.operations ≡ o
      → Post {E = OperationError X}
          (λ r. r.0.1 ≡ true → (has key j.operations ≡ false) × (has key r.1.operations ≡ true))
          (insert_new o key op j)
  insert_new-owns none key op j here = Post-ok (λ _. (
    has-false_of_get key j.operations here,
    rw (write-operations key op none j, has-put key key op j.operations, beq_refl key) refl,
  ))
  insert_new-owns (some old) key op j here =
      Post-if
        (old.kind == op.kind
          && old.request == op.request
          && not (other_effect op.effect_id old.effect_id)
          && old.provider_request_id == op.provider_request_id)
        _ _ (λ _. Post-ok {a = ((old, false), j)} (λ h. absurd (cc h))) (λ _. Post-err)

operation_text-eq-ok :
    {X : Type 0} (key : String) {key' : String}
    → Path (Result (OperationError X) String) (operation_text key) (ok key')
    → key' ≡ strip key
unfolding operation_text
operation_text-eq-ok key h = ground arith

module _ {V P X : Type 0} ⦃e : Eq P⦄ (v : Values V P X) where
  prepare-owns :
      (key kind : String) (request : V) (effect_id id : Option String) (j : Journal P)
      → Post
          (λ r.
            r.0.1 ≡ true
            → (has (strip key) j.operations ≡ false) × (has (strip key) r.1.operations ≡ true))
          (prepare v key kind request effect_id id j)
  unfolding prepare
  prepare-owns key kind request effect_id id j = Post-bind _ _ λ key' text. Post-bind _ _ λ _ _.
      Post-bind _ _ λ _ _. Post-bind _ _ λ _ _. Post-bind _ _ λ _ _. Post-guard _ _ _ λ _.
        Post-bind _ _ λ _ _. Post-guard _ _ _ λ _.
          Post-weaken (insert_new-owns (get key' j.operations) key' _ j refl) (λ r owned owns.
            subst (λ k. (has k j.operations ≡ false) × (has k r.1.operations ≡ true))
              (operation_text-eq-ok key text) (owned owns))

  next_step-submits :
      (op : Operation P) (owns : Bool)
      → Path (Result (OperationError X) (Begun P)) (next_step v op owns) (ok submits)
      → owns ≡ true
  next_step-submits op owns h = ground arith

  begun-submits :
      (key : String) (j : Journal P)
      (m : Result (OperationError X) ((Operation P × Bool) × Journal P))
      → Post
          (λ r.
            r.0.1 ≡ true
            → (has (strip key) j.operations ≡ false) × (has (strip key) r.1.operations ≡ true))
          m
      → (begun v j m).0 ≡ ok submits
      → (has (strip key) j.operations ≡ false) × (has (strip key) (begun v j m).1.operations ≡ true)
  begun-submits key j (err x) h s = absurd (cc s)
  begun-submits key j (ok ((op, owns), j')) h s = Post-value h refl (next_step-submits op owns s)

  begin-submits :
      (key kind : String) (request : V) (effect_id id : Option String) (j : Journal P)
      → (begin v key kind request effect_id id j).0 ≡ ok submits
      → (has (strip key) j.operations ≡ false)
        × (has (strip key) (begin v key kind request effect_id id j).1.operations ≡ true)
  unfolding begin
  begin-submits key kind request effect_id id j s =
      begun-submits key j _ (prepare-owns key kind request effect_id id j) s

  -- The key that a call submits to the provider, if it submits one.
  abbrev pub asked : String → Result (OperationError X) (Begun P) → List String
  asked key (ok submits) = key ∷ []
  asked key _ = []

  abbrev pub submission : Call V P X → Journal P → List String
  submission (begins key kind request effect_id id) j =
      asked (strip key) (begin v key kind request effect_id id j).0
  submission _ j = []

  -- The keys that a sequence of calls submits.
  unfoldable pub submitted : List (Call V P X) → Journal P → List String
  submitted [] j = []
  submitted (c ∷ calls) j = submission c j ++ submitted calls (after v c j)

abbrev pub IsDistinct : List String → Type 0
IsDistinct [] = Unit
IsDistinct (x ∷ xs) = (contains xs x ≡ false) × IsDistinct xs

module _ {V P X : Type 0} ⦃e : Eq P⦄ (v : Values V P X) where
  -- A call that submits a key adds it to the journal.
  asked-cases :
      (key : String) (m : Result (OperationError X) (Begun P))
      → (asked v key m ≡ []) ⊎ ((m ≡ ok submits) × (asked v key m ≡ key ∷ []))
  asked-cases key (err x) = inl refl
  asked-cases key (ok submits) = inr (refl, refl)
  asked-cases key (ok (returns_op op)) = inl refl

  submission-cases :
      (c : Call V P X) (j : Journal P)
      → (submission v c j ≡ [])
        ⊎ ((k : String) × (submission v c j ≡ k ∷ [])
            × (has k j.operations ≡ false)
            × (has k (after v c j).operations ≡ true))
  unfolding after
  submission-cases (begins key kind request effect_id id) j =
      elim (asked-cases (strip key) (begin v key kind request effect_id id j).0) [
        | inl none_ ↦ inl none_
        | inr (s, one_) ↦
            let (new, there) = begin-submits v key kind request effect_id id j s in
            inr (strip key, one_, new, there)
      ]
  submission-cases (prepares key kind request effect_id id) j = inl refl
  submission-cases (finishes key reply) j = inl refl
  submission-cases (settles_as key value reference) j = inl refl
  submission-cases (fails_with key error) j = inl refl
  submission-cases (marks_uncertain key error) j = inl refl
  submission-cases (reconciles key lookup observation) j = inl refl
  submission-cases (sweeps lookup include_pending) j = inl refl

  known_not_submitted :
      (calls : List (Call V P X)) (j : Journal P) (key : String)
      → has key j.operations ≡ true
      → contains (submitted v calls j) key ≡ false
  unfolding submitted
  known_not_submitted [] j key known = refl
  known_not_submitted (c ∷ calls) j key known =
      let later =
        known_not_submitted calls (after v c j) key
          (Moves-has j.operations (after v c j).operations key known (after-Moves v c j)) in
      elim (submission-cases c j) [
        | inl none_ ↦ rw (none_) later
        | inr (k, one_, new, there) ↦
            rw (one_)
              (ground (arith, later, new, known, String_eq.eqb_iff k key, String_eq.eqb_iff key k))
      ]

  -- Over any calls of `execute` and of the other methods, by any workers and in any order, from any
  -- journal, no key is submitted to the provider twice: `execute` asks the provider only when its own call
  -- inserted the row.
  pub at_most_once : (calls : List (Call V P X)) (j : Journal P) → IsDistinct (submitted v calls j)
  unfolding submitted
  at_most_once [] j = tt
  at_most_once (c ∷ calls) j =
      let rest = at_most_once calls (after v c j) in
      elim (submission-cases c j) [
        | inl none_ ↦ rw (none_) rest
        | inr (k, one_, new, there) ↦
            rw (one_) (known_not_submitted calls (after v c j) k there, rest)
      ]
