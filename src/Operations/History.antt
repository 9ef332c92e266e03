-- ===== src/Operations/History.antt =====
-- lipas/operations.py: what the journal keeps over any calls, by any workers, in any order.
use lipas.Prelude.{
  ◌==◌, ℕ_eq, String_eq, Option_eq, List_eq, Pair_eq, eq_of_beq, Eq, Result, ℤ_eq, Bool-cases,
  String, ◌≡◌, refl, sym, ◌∙◌, subst, inl, inr, Bool, true, false, Option, some, List, [], ◌∷◌,
  arith,
}
use lipas.Dict.{Dict, get, get-put}
use lipas.Operations.Model.{is_terminal, Operation, Journal, Values}
use lipas.Operations.Journal.{new_operation, outcome, prepare}
use lipas.Operations.Execute.{
  Lookup, beside, settle, fail, mark_uncertain, begin, finish, reconcile,
}
use lipas.Operations.Sweep.{reconcile_pending}
use lipas.Operations.Moves.{
  Move, inserts, settles, Moves, stays, goes, Moves-trans, prepare-Moves, settle-Moves, fail-Moves,
  mark_uncertain-Moves, begin-Moves, finish-Moves, reconcile-Moves, beside-Moves,
}
use lipas.Operations.Moves.Sweeping.{reconcile_pending-Moves}

-- A call of the journal. The two halves of `execute` are calls of their own, since other workers act
-- while the provider runs.
pub data Call (V P X : Type 0) : Type 0 where
  prepares : String → String → V → Option String → Option String → Call V P X
  begins : String → String → V → Option String → Option String → Call V P X
  finishes : String → Result X (V × Option String) → Call V P X
  settles_as : String → V → Option String → Call V P X
  fails_with : String → V → Call V P X
  marks_uncertain : String → Option V → Call V P X
  reconciles : String → (String → Lookup V X) → Option String → Call V P X
  sweeps : (Operation P → Lookup V X) → Bool → Call V P X

module _ {V P X : Type 0} ⦃e : Eq P⦄ (v : Values V P X) where
  -- The journal after a call, whether it returned or raised.
  unfoldable pub after : Call V P X → Journal P → Journal P
  after (prepares key kind request effect_id id) j =
      (beside j (prepare v key kind request effect_id id j)).1
  after (begins key kind request effect_id id) j = (begin v key kind request effect_id id j).1
  after (finishes key reply) j = (finish v key reply j).1
  after (settles_as key value reference) j = (beside j (settle v key value reference j)).1
  after (fails_with key error) j = (beside j (fail v key error j)).1
  after (marks_uncertain key error) j = (beside j (mark_uncertain v key error j)).1
  after (reconciles key lookup observation) j = (reconcile v key lookup observation j).1
  after (sweeps lookup include_pending) j = (reconcile_pending v lookup include_pending j).1

  pub after-Moves : (c : Call V P X) (j : Journal P) → Moves j.operations (after c j).operations
  unfolding after
  after-Moves (prepares key kind request effect_id id) j =
      beside-Moves j _ (prepare-Moves v key kind request effect_id id j)
  after-Moves (begins key kind request effect_id id) j =
      begin-Moves v key kind request effect_id id j
  after-Moves (finishes key reply) j = finish-Moves v key reply j
  after-Moves (settles_as key value reference) j =
      beside-Moves j _ (settle-Moves v key value reference j)
  after-Moves (fails_with key error) j = beside-Moves j _ (fail-Moves v key error j)
  after-Moves (marks_uncertain key error) j = beside-Moves j _ (mark_uncertain-Moves v key error j)
  after-Moves (reconciles key lookup observation) j = reconcile-Moves v key lookup observation j
  after-Moves (sweeps lookup include_pending) j = reconcile_pending-Moves v lookup include_pending j

module _ {P : Type 0} where
  -- A later row of an operation: its identity is the same, and a terminal outcome is never rewritten.
  pub record IsLater (o o' : Operation P) : Type 0 where
    pub same_kind : o'.kind ≡ o.kind
    pub same_request : o'.request ≡ o.request
    pub same_effect : o'.effect_id ≡ o.effect_id
    pub same_provider_id : o'.provider_request_id ≡ o.provider_request_id
    pub final : is_terminal o.state ≡ true → o' ≡ o

  IsLater-refl : (o : Operation P) → IsLater o o
  IsLater-refl o = record {
    same_kind = refl;
    same_request = refl;
    same_effect = refl;
    same_provider_id = refl;
    final = λ _. refl;
  }

  IsLater-trans : (a b c : Operation P) → IsLater a b → IsLater b c → IsLater a c
  IsLater-trans a b c ab bc = record {
    same_kind = bc.same_kind ∙ ab.same_kind;
    same_request = bc.same_request ∙ ab.same_request;
    same_effect = bc.same_effect ∙ ab.same_effect;
    same_provider_id = bc.same_provider_id ∙ ab.same_provider_id;
    final = λ t.
        let same = ab.final t in
        bc.final (subst (λ o. is_terminal o.state ≡ true) (sym same) t) ∙ same;
  }

  abbrev pub Survives : String → Operation P → Dict String (Operation P) → Type 0
  Survives key o rows = (o' : Operation P) × (get key rows ≡ some o') × IsLater o o'

  Move-Survives :
      (rows rows' : Dict String (Operation P)) (key : String) (o : Operation P)
      → get key rows ≡ some o
      → Move rows rows'
      → Survives key o rows'
  Move-Survives rows rows' key o got (inserts k kind request effect_id id new free same) =
      let other : (k == key) ≡ false = ground (arith, String_eq.eqb_iff k key) in
      (
        o,
        rw (same, get-put k key (new_operation kind request effect_id id) rows, other) got,
        IsLater-refl o,
      )
  Move-Survives rows rows' key o got
        (settles k row state result reference error here open_ proper same) =
      elim (Bool-cases (k == key)) [
        | inl is_k ↦
            let is_o : row ≡ o = ground (arith, eq_of_beq k key is_k) in
            (
              outcome state result reference error row,
              rw (same, get-put k key (outcome state result reference error row) rows, is_k) refl,
              subst (λ x. IsLater x (outcome state result reference error row)) is_o
                  (record {
                    same_kind = refl;
                    same_request = refl;
                    same_effect = refl;
                    same_provider_id = refl;
                    final = λ t. absurd (cc (t, open_));
                  }),
            )
        | inr other ↦ (
          o,
          rw (same, get-put k key (outcome state result reference error row) rows, other) got,
          IsLater-refl o,
        )
      ]

  Moves-Survives :
      (rows rows' : Dict String (Operation P)) (key : String) (o : Operation P)
      → get key rows ≡ some o
      → Moves rows rows'
      → Survives key o rows'
  Moves-Survives rows rows' key o got (stays same) = (o, rw (same) got, IsLater-refl o)
  Moves-Survives rows rows' key o got (goes {mid} before_ m) =
      let (o1, got1, later1) = Moves-Survives rows mid key o got before_ in
      let (o2, got2, later2) = Move-Survives mid rows' key o1 got1 m in
      (o2, got2, IsLater-trans o o1 o2 later1 later2)

module _ {V P X : Type 0} ⦃e : Eq P⦄ (v : Values V P X) where
  -- Calls one after the other, by any workers.
  unfoldable pub run : List (Call V P X) → Journal P → Journal P
  run [] j = j
  run (c ∷ calls) j = run calls (after v c j)

  pub run-Moves :
      (calls : List (Call V P X)) (j : Journal P) → Moves j.operations (run calls j).operations
  unfolding run
  run-Moves [] j = stays refl
  run-Moves (c ∷ calls) j = Moves-trans (after-Moves v c j) (run-Moves calls (after v c j))

  -- Whatever calls follow, in whatever order and whether they return or raise, an operation stays in the
  -- journal with its kind, its request, its effect and its provider id; and once it succeeded or failed,
  -- nothing of its row ever changes.
  pub outcome_is_final :
      (calls : List (Call V P X)) (j : Journal P) (key : String) (o : Operation P)
      → get key j.operations ≡ some o
      → Survives key o (run calls j).operations
  outcome_is_final calls j key o got =
      Moves-Survives j.operations (run calls j).operations key o got (run-Moves calls j)
