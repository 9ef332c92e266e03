-- ===== src/Operations/Identity.antt =====
-- lipas/operations.py: the provider ids of the journal, and what an exception of a provider leaves.
use lipas.Prelude.{
  ◌==◌, ℕ_eq, String_eq, Option_eq, List_eq, Pair_eq, beq_refl, eq_of_beq, Eq, Result-cases, Result,
  ok, err, ℤ_eq, Bool-cases, String, ◌≡◌, refl, sym, ◌∙◌, ap, subst, inl, inr, true, false, Option,
  none, some, List, arith,
}
use lipas.Attempt.{◌>>=◌, ◌>>◌, guard, required}
use lipas.Dict.{Dict, get, put, exists, get-put, exists-false}
use lipas.Text.{strip}
use lipas.Operations.Model.{
  pending, uncertain, OperationError, provider_error, Operation, Journal, Values, operation_text,
  optional_text,
}
use lipas.Operations.Journal.{is_bound, new_operation, write, outcome, transition}
use lipas.Operations.Execute.{settle, mark_uncertain, finish}
use lipas.Operations.Moves.{Move, inserts, settles, Moves, stays, goes}
use lipas.Operations.Execute.{give_up, settled}
use lipas.Operations.Moves.{write-operations}
use lipas.Operations.History.{Call, run, run-Moves}

module _ {P : Type 0} where
  -- No two keys have one provider id.
  abbrev pub IsBoundOnce : Dict String (Operation P) → Type 0
  IsBoundOnce rows =
      (a b : String) (r s : Operation P)
      → get a rows ≡ some r
      → get b rows ≡ some s
      → r.provider_request_id ≡ s.provider_request_id
      → a ≡ b

  put_self :
      (k a : String) (x r : Operation P) (rows : Dict String (Operation P))
      → (k == a) ≡ true
      → get a (put k x rows) ≡ some r
      → r ≡ x
  put_self k a x r rows same got = ground (arith, get-put k a x rows)

  put_other :
      (k a : String) (x r : Operation P) (rows : Dict String (Operation P))
      → (k == a) ≡ false
      → get a (put k x rows) ≡ some r
      → get a rows ≡ some r
  put_other k a x r rows other got = ground (arith, get-put k a x rows)

  -- A row written at `k` shares its provider id with no row at another key.
  abbrev pub IsOwn : String → Operation P → Dict String (Operation P) → Type 0
  IsOwn k x rows =
      (a : String) (r : Operation P)
      → get a rows ≡ some r
      → r.provider_request_id ≡ x.provider_request_id
      → a ≡ k

  put-IsBoundOnce :
      (k : String) (x : Operation P) (rows : Dict String (Operation P))
      → IsBoundOnce rows
      → IsOwn k x rows
      → IsBoundOnce (put k x rows)
  put-IsBoundOnce k x rows once own a b r s got_a got_b same = elim (Bool-cases (k == a)) [
    | inl is_a ↦ elim (Bool-cases (k == b)) [
      | inl is_b ↦ sym (eq_of_beq k a is_a) ∙ eq_of_beq k b is_b
      | inr not_b ↦
          sym (eq_of_beq k a is_a)
          ∙ sym (
              own b s (put_other k b x s rows not_b got_b)
                (sym same ∙ ap (λ o. o.provider_request_id) (put_self k a x r rows is_a got_a)))
    ]
    | inr not_a ↦ elim (Bool-cases (k == b)) [
      | inl is_b ↦
          own a r (put_other k a x r rows not_a got_a)
            (same ∙ ap (λ o. o.provider_request_id) (put_self k b x s rows is_b got_b))
          ∙ eq_of_beq k b is_b
      | inr not_b ↦
          once a b r s (put_other k a x r rows not_a got_a) (put_other k b x s rows not_b got_b)
            same
    ]
  ]

  unbound-IsOwn :
      (key id : String) (rows : Dict String (Operation P)) (a : String) (r : Operation P)
      → exists (is_bound id key) rows ≡ false
      → get a rows ≡ some r
      → r.provider_request_id ≡ id
      → a ≡ key
  unbound-IsOwn key id rows a r free got same = ground (
    arith,
    exists-false (is_bound id key) rows a r free got,
    String_eq.eqb_iff a key,
    String_eq.eqb_iff r.provider_request_id id,
  )

  Move-IsBoundOnce :
      (rows rows' : Dict String (Operation P))
      → IsBoundOnce rows
      → Move rows rows'
      → IsBoundOnce rows'
  Move-IsBoundOnce rows rows' once (inserts key kind request effect_id id new free same) =
      subst IsBoundOnce (sym same) (
        put-IsBoundOnce key (new_operation kind request effect_id id) rows once
          (λ a r got eq_id. unbound-IsOwn key id rows a r free got eq_id))
  Move-IsBoundOnce rows rows' once
        (settles key row state result reference error here open_ proper same) =
      subst IsBoundOnce (sym same) (
        put-IsBoundOnce key (outcome state result reference error row) rows once
          (λ a r got eq_id. once a key r row got here eq_id))

  Moves-IsBoundOnce :
      (rows rows' : Dict String (Operation P))
      → IsBoundOnce rows
      → Moves rows rows'
      → IsBoundOnce rows'
  Moves-IsBoundOnce rows rows' once (stays same) = subst IsBoundOnce (sym same) once
  Moves-IsBoundOnce rows rows' once (goes {mid} before_ m) =
      Move-IsBoundOnce mid rows' (Moves-IsBoundOnce rows mid once before_) m

module _ {V P X : Type 0} ⦃e : Eq P⦄ (v : Values V P X) where
  -- Whatever the calls, a journal in which no two keys have one provider id stays so.
  pub provider_ids-IsBoundOnce :
      (calls : List (Call V P X)) (j : Journal P)
      → IsBoundOnce j.operations
      → IsBoundOnce (run v calls j).operations
  provider_ids-IsBoundOnce calls j once =
      Moves-IsBoundOnce j.operations (run v calls j).operations once (run-Moves v calls j)

  mark_uncertain-pending :
      (key : String) (error : V) (copied : P) (j : Journal P) (row : Operation P)
      → (strip key == "") ≡ false
      → v.copy error ≡ some copied
      → get (strip key) j.operations ≡ some row
      → row.state ≡ pending
      → mark_uncertain v key (some error) j
        ≡ ok (
          outcome uncertain none none (some copied) row,
          write (strip key) (outcome uncertain none none (some copied) row) none j,
        )
  unfolding mark_uncertain transition ◌>>=◌ ◌>>◌ guard operation_text optional_text required
  mark_uncertain-pending key error copied j row text copies got idle =
      rw (text, copies, got, idle) refl

  -- The error that is stored with an operation whose submission raised.
  abbrev pub IsUncertain :
      String → OperationError X → Operation P → Dict String (Operation P) → Type 0
  IsUncertain key x row rows =
      (copied : P) × (v.copy (v.describe x) ≡ some copied)
      × (get key rows ≡ some (outcome uncertain none none (some copied) row))

  give_up-IsUncertain :
      (x : OperationError X) (key : String) (copied : P) (j : Journal P) (row : Operation P)
      → (strip key == "") ≡ false
      → v.copy (v.describe x) ≡ some copied
      → get (strip key) j.operations ≡ some row
      → row.state ≡ pending
      → get (strip key) (give_up v x key j).1.operations
        ≡ some (outcome uncertain none none (some copied) row)
  unfolding give_up operation_text
  give_up-IsUncertain x key copied j row text copies got idle =
      rw
        (
          text,
          got,
          idle,
          mark_uncertain-pending key (v.describe x) copied j row text copies got idle,
        )
        (ap (get (strip key))
            (write-operations (strip key) (outcome uncertain none none (some copied) row) none j)
          ∙ get-put (strip key) (strip key) (outcome uncertain none none (some copied) row)
              j.operations
          ∙ rw (beq_refl (strip key)) refl)

  gave_up :
      (x : OperationError X) (key : String) (j : Journal P) (row : Operation P)
      → (strip key == "") ≡ false
      → ((y : OperationError X) → (copied : P) × (v.copy (v.describe y) ≡ some copied))
      → get (strip key) j.operations ≡ some row
      → row.state ≡ pending
      → IsUncertain (strip key) x row (give_up v x key j).1.operations
  gave_up x key j row text copies got idle =
      let (copied, is_copy) = copies x in
      (copied, is_copy, give_up-IsUncertain x key copied j row text is_copy got idle)

  -- The exception that led to giving up is raised again.
  give_up-reraises :
      (x : OperationError X) (key : String) (j : Journal P) (row : Operation P)
      → (strip key == "") ≡ false
      → ((y : OperationError X) → (copied : P) × (v.copy (v.describe y) ≡ some copied))
      → get (strip key) j.operations ≡ some row
      → row.state ≡ pending
      → (give_up v x key j).0 ≡ err x
  unfolding give_up operation_text
  give_up-reraises x key j row text copies got idle =
      let (copied, is_copy) = copies x in
      rw
        (
          text,
          got,
          idle,
          mark_uncertain-pending key (v.describe x) copied j row text is_copy got idle,
        )
        refl

  -- When the descriptions of exceptions are strict JSON: if the submission of a pending operation raises
  -- `x`, which is the provider's exception or the one from storing its result, the operation is left
  -- uncertain, with the description of `x`, and so never pending.
  pub raised-IsUncertain :
      (key : String) (reply : Result X (V × Option String)) (j : Journal P) (row : Operation P)
      (x : OperationError X)
      → (strip key == "") ≡ false
      → ((y : OperationError X) → (copied : P) × (v.copy (v.describe y) ≡ some copied))
      → get (strip key) j.operations ≡ some row
      → row.state ≡ pending
      → (finish v key reply j).0 ≡ err x
      → IsUncertain (strip key) x row (finish v key reply j).1.operations
  unfolding finish
  raised-IsUncertain key (err y) j row x text copies got idle raised =
      let same : provider_error y ≡ x =
        cc (give_up-reraises (provider_error y) key j row text copies got idle) in
      subst (λ z. IsUncertain (strip key) z row (give_up v (provider_error y) key j).1.operations)
        same (gave_up (provider_error y) key j row text copies got idle)
  raised-IsUncertain key (ok (value, reference)) j row x text copies got idle raised =
      elim (Result-cases (settle v key value reference j)) [
        | inl ((op, j'), fine) ↦
            absurd (cc (subst (λ m. (settled v key j m).0 ≡ err x) fine raised))
        | inr (y, failed_) ↦
            let again = subst (λ m. (settled v key j m).0 ≡ err x) failed_ raised in
            let same : y ≡ x = cc (again, give_up-reraises y key j row text copies got idle) in
            subst (λ m. IsUncertain (strip key) x row (settled v key j m).1.operations)
              (sym failed_)
              (subst (λ z. IsUncertain (strip key) z row (give_up v y key j).1.operations) same
                (gave_up y key j row text copies got idle))
      ]
