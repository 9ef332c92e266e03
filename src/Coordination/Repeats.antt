-- ===== src/Coordination/Repeats.antt =====
-- lipas/execution.py: a reservation of the shared budget that is repeated.
use lipas.Prelude.{
  ℕ_eq, String_eq, Option_eq, List_eq, Pair_eq, beq_refl, ok, ℤ_eq, length, all, nat_eq_iff, ℕ,
  String, ◌≡◌, refl, sym, ◌∙◌, ap, subst, Bool, true, false, Option, none, some, [], ◌∷◌, arith,
}
use lipas.Attempt.{
  required-some, bind-ok, guard-true, ◌>>◌, guard, Post, Post-value, Post-bind, Post-guard, Post-ok,
  required-eq-ok,
}
use lipas.Dict.{Dict, get, put, get-put_self, has_of_get}
use lipas.Rows.Float.{Float}
use lipas.Coordination.Budget.{
  state_error, SharedBudget, Admission, Reserved, Budgets, reserve, reserve_row, reserve_new,
  record_reserved, same_mapping, entry_in, same_event, reservation_id,
}
use lipas.Coordination.Mapping.{IsBudget, budget_mapping-IsBudget}

module _ (float : Float) (same : float.F → float.F → Bool)
    (same_json : Dict String float.F → Dict String float.F → Bool) where
  open float use {F, zero as f0, add, lt, is_finite}

  entry_in_self :
      (n : Dict String F) (k : String) (x : F)
      → get k n ≡ some x
      → same x x ≡ true
      → entry_in float same same_json n (k, x) ≡ true
  entry_in_self n k x got h =
      subst (λ o. (elim o as (λ _. Bool) [ none ↦ false | some y ↦ same x y ]) ≡ true) (sym got) h

  all-entry_in :
      (m n : Dict String F)
      → ((x : F) → is_finite x ≡ true → same x x ≡ true)
      → IsBudget float m
      → ((k : String) (x : F) → get k m ≡ some x → get k n ≡ some x)
      → all (entry_in float same same_json n) m ≡ true
  unfolding get
  all-entry_in [] n reflexive h within = refl
  all-entry_in ((k, x) ∷ m) n reflexive h within =
      rw (entry_in_self n k x (within k x (rw (beq_refl k) refl)) (reflexive x h.2)) (
        all-entry_in m n reflexive h.5
          λ j y got. within j y (ground (arith, got, h.4, has_of_get j m y, String_eq.eqb_iff k j)))

  same_mapping_refl :
      (m : Dict String F)
      → ((x : F) → is_finite x ≡ true → same x x ≡ true)
      → IsBudget float m
      → same_mapping float same same_json m m ≡ true
  same_mapping_refl m reflexive h =
      ground
        (arith, nat_eq_iff (length m) (length m), all-entry_in m m reflexive h (λ k x got. got))

  -- The scope and the handoff of a reservation that returned.
  abbrev IsReserved : String → String → Dict String F → Budgets F → Type 0
  IsReserved scope handoff estimate db =
      (row : SharedBudget F) × (get scope db.scopes ≡ some row)
      × (a : Admission F) × (get (scope, handoff) db.admissions ≡ some a)
      × (same_mapping float same same_json a.estimate estimate ≡ true)

  record_reserved-IsReserved :
      (event : Reserved F) (scope handoff : String) (estimate : Dict String F) (db : Budgets F)
      → IsReserved scope handoff estimate db
      → Post (IsReserved scope handoff estimate) (record_reserved float same same_json event db)
  unfolding record_reserved
  record_reserved-IsReserved event scope handoff estimate db h =
      elim (get (reservation_id event.scope event.handoff_id) db.audit)
        as (λ o. Post (IsReserved scope handoff estimate) (elim o [
          | none ↦ ok (record db {
            audit = put (reservation_id event.scope event.handoff_id) event db.audit;
          })
          | some old ↦ guard (same_event float same same_json old event) state_error >> ok db
        ])) [ none ↦ Post-ok h | some old ↦ Post-guard _ _ _ λ _. Post-ok h ]

  reserve_row-IsReserved :
      (o : Option (Admission F)) (scope handoff : String) (estimate : Dict String F) (now : ℕ)
      (row : SharedBudget F) (db : Budgets F)
      → get (scope, handoff) db.admissions ≡ o
      → get scope db.scopes ≡ some row
      → same_mapping float same same_json estimate estimate ≡ true
      → Post
          (IsReserved scope handoff estimate)
          (reserve_row float same same_json o scope handoff estimate now row db)
  unfolding reserve_new
  reserve_row-IsReserved none scope handoff estimate now row db new got self =
      Post-bind _ _ λ limits hl. Post-bind _ _ λ spent hs. Post-bind _ _ λ spent' admitted.
        record_reserved-IsReserved _ scope handoff estimate _ (
          record row { spent = spent'; updated_at = now },
          get-put_self scope _ db.scopes,
          record { estimate = estimate; created_at = now },
          get-put_self (scope, handoff) _ db.admissions,
          self,
        )
  reserve_row-IsReserved (some prior) scope handoff estimate now row db there got self =
      Post-guard _ _ _ λ fine. Post-ok (row, got, prior, there, fine)

  admission_same :
      (scope handoff : String) (estimate : Dict String F) (later : ℕ) (row : SharedBudget F)
      (a : Admission F) (db : Budgets F)
      → get (scope, handoff) db.admissions ≡ some a
      → same_mapping float same same_json a.estimate estimate ≡ true
      → reserve_row float same same_json
          (get (scope, handoff) db.admissions)
          scope
          handoff
          estimate
          later
          row
          db
        ≡ ok db
  admission_same scope handoff estimate later row a db there fine =
      ap (λ o. reserve_row float same same_json o scope handoff estimate later row db) there
      ∙ guard-true _ _ fine

  reserve-again :
      {V : Type 0} (read : V → Option F) (scope handoff : String) (estimate : Dict String V)
      (now later : ℕ) (db : Budgets F)
      → ((x : F) → is_finite x ≡ true → same x x ≡ true)
      → Post
          (λ out. reserve float same same_json read scope handoff estimate later out.1 ≡ ok out)
          (reserve float same same_json read scope handoff estimate now db)
  unfolding reserve
  reserve-again read scope handoff estimate now later db reflexive = Post-bind _ _ λ name text.
      Post-bind _ _ λ id id_text. Post-bind _ _ λ normalized he. Post-bind _ _ λ row got.
        Post-bind _ _ λ db' done.
          let self =
            same_mapping_refl normalized reflexive
              (Post-value (budget_mapping-IsBudget float read estimate [] tt) he) in
          let (row', there, a, admitted, fine) =
            Post-value
              (reserve_row-IsReserved _ name id normalized now row db refl (required-eq-ok _ _ got)
                self)
              done in
          Post-ok (
            bind-ok _ text
            ∙ bind-ok _ id_text
            ∙ bind-ok _ he
            ∙ bind-ok _ (required-some state_error there)
            ∙ bind-ok _ (admission_same name id normalized later row' a db' admitted fine))

  -- A reservation that returned may be repeated at any later time: it returns the same estimate and
  -- changes nothing. Equality of floats need only hold of a finite float and itself.
  pub reserve_twice :
      {V : Type 0} (read : V → Option F) (scope handoff : String) (estimate : Dict String V)
      (now later : ℕ) (db db' : Budgets F) (reserved : Dict String F)
      → ((x : F) → is_finite x ≡ true → same x x ≡ true)
      → reserve float same same_json read scope handoff estimate now db ≡ ok (reserved, db')
      → reserve float same same_json read scope handoff estimate later db' ≡ ok (reserved, db')
  reserve_twice read scope handoff estimate now later db db' reserved reflexive first =
      Post-value (reserve-again read scope handoff estimate now later db reflexive) first
