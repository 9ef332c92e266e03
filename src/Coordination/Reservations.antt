-- ===== src/Coordination/Reservations.antt =====
-- lipas/execution.py: what calls of configure_coordination_budget and reserve_coordination_budget keep.
use lipas.Prelude.{
  ◌==◌, ℕ_eq, String_eq, Option_eq, List_eq, Pair_eq, ok, ℤ_eq, ℕ, String, ◌≡◌, refl, sym, ◌∙◌,
  subst, inl, inr, Bool, false, Option, none, some, [],
}
use lipas.Attempt.{
  ◌>>◌, guard, Post, Post-value, Post-bind, Post-guard, Post-ok, required-eq-ok, ok_injective,
}
use lipas.Dict.{Dict, get, put, get-put-some, get-put-none}
use lipas.Rows.Float.{Float}
use lipas.Coordination.Budget.{
  SharedBudget, Admission, Reserved, Budgets, admit, configure, configure_row, reserve, reserve_row,
  reserve_new, record_reserved, same_event, reservation_id, state_error,
}
use lipas.Coordination.Mapping.{IsBudget, budget_mapping_self, budget_mapping-IsBudget}
use lipas.Coordination.Funding.{
  IsSolvent, reserved-elsewhere, configured-IsFunded, admitted-IsFunded,
}

pub data BudgetCall (V : Type 0) : Type 0 where
  configures : String → Dict String V → ℕ → BudgetCall V
  reserves : String → String → Dict String V → ℕ → BudgetCall V

module _ (float : Float) where
  open float use {F, zero as f0, add, lt, is_finite}

  module _ (same : F → F → Bool) (same_json : Dict String F → Dict String F → Bool) where
    configure_row-IsSolvent :
        (o : Option (SharedBudget F)) (scope : String) (limits : Dict String F) (now : ℕ)
        (db : Budgets F)
        → get scope db.scopes ≡ o
        → IsBudget float limits
        → IsSolvent float db
        → Post (IsSolvent float) (configure_row float same same_json o scope limits now db)
    configure_row-IsSolvent none scope limits now db got budget h = Post-ok (
      λ s r there.
          elim (get-put-some scope s (record { limits = limits; spent = []; updated_at = now }) r
            db.scopes there) [
              | inl (here, is_row) ↦
                  rw (← here, is_row) (configured-IsFunded float scope limits now db got budget h)
              | inr (other, before) ↦ h.0 s r before
            ],
      λ s missing. h.1 s (get-put-none scope s _ db.scopes missing).1,
    )
    configure_row-IsSolvent (some row) scope limits now db got budget h =
        Post-guard _ _ _ λ _. Post-ok h

    record_reserved-IsSolvent :
        (event : Reserved F) (db : Budgets F)
        → IsSolvent float db
        → Post (IsSolvent float) (record_reserved float same same_json event db)
    unfolding record_reserved
    record_reserved-IsSolvent event db h =
        elim (get (reservation_id event.scope event.handoff_id) db.audit)
          as (λ o. Post (IsSolvent float) (elim o [
            | none ↦ ok (record db {
              audit = put (reservation_id event.scope event.handoff_id) event db.audit;
            })
            | some old ↦ guard (same_event float same same_json old event) state_error >> ok db
          ])) [ none ↦ Post-ok h | some old ↦ Post-guard _ _ _ λ _. Post-ok h ]

    reserve_new-IsSolvent :
        (scope handoff : String) (estimate : Dict String F) (now : ℕ) (row : SharedBudget F)
        (db : Budgets F)
        → get scope db.scopes ≡ some row
        → get (scope, handoff) db.admissions ≡ none
        → IsBudget float estimate
        → IsSolvent float db
        → Post
            (IsSolvent float)
            (reserve_new float same same_json scope handoff estimate now row db)
    unfolding reserve_new
    reserve_new-IsSolvent scope handoff estimate now row db got new budget h =
        Post-bind _ _ λ limits hl. Post-bind _ _ λ spent hs. Post-bind _ _ λ spent' admitted.
          let funded = h.0 scope row got in
          let same_limits =
            ok_injective (sym (budget_mapping_self float row.limits funded.0) ∙ hl) in
          let same_spent = ok_injective (sym (budget_mapping_self float row.spent funded.1) ∙ hs) in
          let exact =
            subst (λ m. admit float m estimate row.spent ≡ ok spent') (sym same_limits)
              (subst (λ m. admit float limits estimate m ≡ ok spent') (sym same_spent) admitted) in
          let elsewhere = λ (s : String) (bucket : String) (other : (scope == s) ≡ false).
            reserved-elsewhere float scope s bucket handoff estimate now db new other in
          record_reserved-IsSolvent _ _ (
            λ s r there.
                elim (get-put-some scope s (record row { spent = spent'; updated_at = now }) r
                  db.scopes there) [
                    | inl (here, is_row) ↦
                        rw (← here, is_row)
                          (admitted-IsFunded float scope handoff estimate spent' now now row db new
                            budget funded exact)
                    | inr (other, before) ↦
                        let kept = h.0 s r before in
                        (
                          kept.0,
                          kept.1,
                          kept.2,
                          λ bucket. kept.3 bucket ∙ sym (elsewhere s bucket other),
                        )
                  ],
            λ s missing bucket.
                let gone = get-put-none scope s _ db.scopes missing in
                elsewhere s bucket gone.0 ∙ h.1 s gone.1 bucket,
          )

    reserve_row-IsSolvent :
        (o : Option (Admission F)) (scope handoff : String) (estimate : Dict String F) (now : ℕ)
        (row : SharedBudget F) (db : Budgets F)
        → get (scope, handoff) db.admissions ≡ o
        → get scope db.scopes ≡ some row
        → IsBudget float estimate
        → IsSolvent float db
        → Post
            (IsSolvent float)
            (reserve_row float same same_json o scope handoff estimate now row db)
    reserve_row-IsSolvent none scope handoff estimate now row db new got budget h =
        reserve_new-IsSolvent scope handoff estimate now row db got new budget h
    reserve_row-IsSolvent (some prior) scope handoff estimate now row db new got budget h =
        Post-guard _ _ _ λ _. Post-ok h

    pub configure-IsSolvent :
        {V : Type 0} (read : V → Option F) (scope : String) (raw : Dict String V) (now : ℕ)
        (db : Budgets F)
        → IsSolvent float db
        → Post (λ x. IsSolvent float x.1) (configure float same same_json read scope raw now db)
    unfolding configure
    configure-IsSolvent read scope raw now db h = Post-bind _ _ λ limits hl.
        Post-bind _ _ λ name text. Post-bind _ _ λ db' done. Post-ok (
          Post-value
            (configure_row-IsSolvent _ name limits now db refl
              (Post-value (budget_mapping-IsBudget float read raw [] tt) hl) h)
            done)

    pub reserve-IsSolvent :
        {V : Type 0} (read : V → Option F) (scope handoff : String) (raw : Dict String V) (now : ℕ)
        (db : Budgets F)
        → IsSolvent float db
        → Post
            (λ x. IsSolvent float x.1)
            (reserve float same same_json read scope handoff raw now db)
    unfolding reserve
    reserve-IsSolvent read scope handoff raw now db h = Post-bind _ _ λ name text.
        Post-bind _ _ λ id id_text. Post-bind _ _ λ estimate he. Post-bind _ _ λ row got.
          Post-bind _ _ λ db' done. Post-ok (
            Post-value
              (reserve_row-IsSolvent _ name id estimate now row db refl (required-eq-ok _ _ got)
                (Post-value (budget_mapping-IsBudget float read raw [] tt) he) h)
              done)
