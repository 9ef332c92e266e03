-- ===== src/Rows/Effect/Session.antt =====
-- lipas/rows/effect.py: the lineage of the effects over sessions of `RowSet.fold`.
use lipas.Calculus.Context.{BeliefContext}
use lipas.Store.Delivery.{fold-log}
use lipas.Rows.Base.Gate.{fold_rows-cases, composed}
use lipas.Rows.Base.{Row, fold_rows}
use lipas.Prelude.{
  ◌==◌, ℕ_eq, String_eq, Option_eq, List_eq, Pair_eq, eq_of_beq, Eq, ok, ℤ_eq, ℤ, ℕ, ◌≡◌, refl, sym,
  ◌∙◌, subst, true, Option, none, [], ◌∷◌, ◌++◌, String, false, List, Bool-cases, Bool, inl, inr,
  arith, beq_sym,
}
use lipas.Attempt.{Post-value, bind-ok}
use lipas.Dict.{get, has-false_of_get}
use lipas.Rows.Float.{Float}
use lipas.Calculus.Claim.{Claim, StrategyRegistry}
use lipas.Store.{ClaimStore, stamp, new_store}
use lipas.Store.Invariant.{IsConsistent, entries, fold-IsConsistent, new_store-IsConsistent}
use lipas.Serialization.Value.{Value}
use lipas.Rows.Effect.Shapes.{field, as_text, EffectError}
use lipas.Rows.Effect.Checks.{
  tag_effect_intent, has_effect, tag_effect_result, EffectMessage, tag_effect_rejected,
}
use lipas.Rows.Effect.Invariants.{
  check_intent, check_new, check_effect, effect_row, check_result, check_rejection,
}
use lipas.Rows.Effect.Lineage.{
  count, IsLineage, tagged-eq-claims, any-unknown, check_intent-IntentFact, EndFact,
  check_result-EndFact, check_rejection-EndFact,
}
use lipas.Rows.Effect.Growth.{
  Extends, named_effect, IsLineage-append, intent-Extends, EndsNothing, result-Extends,
  rejected-Extends, other-Extends,
}

other_tag : (a b : String) → (b == a) ≡ false → (a == b) ≡ false
other_tag a b h = rw (beq_sym a b) h

module _ (fl : Float) ⦃e : Eq (Value fl.F)⦄ (of_int : ℤ → Option fl.F) where
  open fl use {F}

  check_effect-new :
      (c : Claim (Value F)) (s : ClaimStore (Value F))
      → IsConsistent s
      → get c.claim_id s.by_id ≡ none
      → check_effect fl of_int c s ≡ check_new fl of_int c s
  unfolding check_effect
  check_effect-new c s h new =
      let unseen =
        any-unknown c.tag c.claim_id s.log
          (has-false_of_get c.claim_id (entries s.log) (rw (← h.ids_indexed) new)) in
      bind-ok _ (tagged-eq-claims c.tag s h) ∙ rw (unseen) refl

  intent-IsLineage :
      (c : Claim (Value F)) (s : ClaimStore (Value F)) (n : ℕ)
      → IsConsistent s
      → IsLineage s.log
      → (c.tag == tag_effect_intent) ≡ true
      → check_new fl of_int c s ≡ ok []
      → IsLineage (s.log ++ stamp c n ∷ [])
  unfolding check_new has_effect
  intent-IsLineage c s n h lineage is_intent accepted =
      let checked : check_intent fl of_int (as_text (field "call_id" c.fields)) c.fields s ≡ ok [] =
        rw (is_intent) at accepted in
      let (eid', is_eid, none_yet) =
        Post-value (check_intent-IntentFact fl of_int _ c.fields s h) checked refl in
      IsLineage-append s.log (stamp c n) λ eid.
        subst (λ t. Extends t eid (has_effect eid c) s.log)
          (sym (eq_of_beq c.tag tag_effect_intent is_intent))
          (intent-Extends s.log eid (has_effect eid c) lineage λ hit.
            subst (λ x. count tag_effect_intent x s.log ≡ 0) (named_effect eid eid' c hit is_eid)
              none_yet)

  end-IsLineage :
      (tag : String) (c : Claim (Value F)) (s : ClaimStore (Value F)) (n : ℕ)
      → (c.tag == tag) ≡ true
      → EndFact fl of_int (as_text (field "call_id" c.fields)) s.log
      → ((eid : String) (hit : Bool)
          → (hit ≡ true → EndsNothing eid s.log)
          → Extends tag eid hit s.log)
      → IsLineage (s.log ++ stamp c n ∷ [])
  unfolding has_effect
  end-IsLineage tag c s n is_tag (eid', is_eid, begun, no_result, no_rejection) extends =
      IsLineage-append s.log (stamp c n) λ eid.
        subst (λ t. Extends t eid (has_effect eid c) s.log) (sym (eq_of_beq c.tag tag is_tag))
          (extends eid (has_effect eid c) λ hit.
            subst (λ x. EndsNothing x s.log) (named_effect eid eid' c hit is_eid)
              (begun, no_result, no_rejection))

  checked-IsLineage :
      (c : Claim (Value F)) (s : ClaimStore (Value F)) (n : ℕ)
      → IsConsistent s
      → IsLineage s.log
      → ((c.tag == tag_effect_intent) ≡ false)
      → check_new fl of_int c s ≡ ok []
      → IsLineage (s.log ++ stamp c n ∷ [])
  unfolding check_new has_effect
  checked-IsLineage c s n h lineage i accepted = elim (Bool-cases (c.tag == tag_effect_result)) [
    | inl is_result ↦
        let checked : check_result fl of_int (as_text (field "call_id" c.fields)) c.fields s
            ≡ ok [] =
          rw (i, is_result) at accepted in
        end-IsLineage tag_effect_result c s n is_result
          (Post-value (check_result-EndFact fl of_int _ c.fields s h) checked refl)
          (λ eid hit. result-Extends s.log eid hit lineage)
    | inr r ↦ elim (Bool-cases (c.tag == tag_effect_rejected)) [
      | inl is_rejected ↦
          let checked : check_rejection fl of_int (as_text (field "call_id" c.fields)) c.fields s
              ≡ ok [] =
            rw (i, r, is_rejected) at accepted in
          end-IsLineage tag_effect_rejected c s n is_rejected
            (Post-value (check_rejection-EndFact fl of_int _ c.fields s h) checked refl)
            (λ eid hit. rejected-Extends s.log eid hit lineage)
      | inr j ↦
          IsLineage-append s.log (stamp c n)
            λ eid. other-Extends c.tag s.log eid (has_effect eid c) lineage i r j
    ]
  ]

  -- A claim that is new to the store and that the row accepts if it owns its tag.
  accepted-IsLineage :
      (c : Claim (Value F)) (s : ClaimStore (Value F)) (n : ℕ)
      → IsConsistent s
      → IsLineage s.log
      → get c.claim_id s.by_id ≡ none
      → ((effect_row fl of_int).in_namespace c.tag ≡ true → check_effect fl of_int c s ≡ ok [])
      → IsLineage (s.log ++ stamp c n ∷ [])
  unfolding has_effect
  accepted-IsLineage c s n h lineage new accepted =
      elim (Bool-cases ((effect_row fl of_int).in_namespace c.tag)) [
        | inl owned ↦
            let checked = sym (check_effect-new c s h new) ∙ accepted owned in
            elim (Bool-cases (c.tag == tag_effect_intent)) [
              | inl i ↦ intent-IsLineage c s n h lineage i checked
              | inr i ↦ checked-IsLineage c s n h lineage i checked
            ]
        | inr foreign ↦ IsLineage-append s.log (stamp c n) λ eid.
            other-Extends c.tag s.log eid (has_effect eid c) lineage
              (other_tag c.tag tag_effect_intent (ground (arith, foreign)))
              (other_tag c.tag tag_effect_result (ground (arith, foreign)))
              (other_tag c.tag tag_effect_rejected (ground (arith, foreign)))
      ]

  abbrev pub effect_fold :
      List (Row (Value F) EffectMessage EffectError)
      → List (Row (Value F) EffectMessage EffectError)
      → String
      → Claim (Value F)
      → ClaimStore (Value F)
      → ClaimStore (Value F)
  effect_fold before after fresh c s =
      (fold_rows fresh c (composed s before (effect_row fl of_int) after)).1.store

  -- A session folds any claims, one after the other, whatever each fold answers.
  unfoldable pub effect_session :
      List (Row (Value F) EffectMessage EffectError)
      → List (Row (Value F) EffectMessage EffectError)
      → List (String × Claim (Value F))
      → ClaimStore (Value F)
      → ClaimStore (Value F)
  effect_session before after [] s = s
  effect_session before after ((fresh, c) ∷ claims) s =
      effect_session before after claims (effect_fold before after fresh c s)

  abbrev IsTraced : ClaimStore (Value F) → Type 0
  IsTraced s = IsConsistent s × IsLineage s.log

  effect_fold-IsTraced :
      (before after : List (Row (Value F) EffectMessage EffectError)) (fresh : String)
      (c : Claim (Value F)) (s : ClaimStore (Value F))
      → IsTraced s
      → IsTraced (effect_fold before after fresh c s)
  effect_fold-IsTraced before after fresh c s (h, lineage) =
      elim (fold_rows-cases fresh c s (effect_row fl of_int) before after) [
        | inl same ↦ subst IsTraced (sym same) (h, lineage)
        | inr (folded, accepted) ↦ subst IsTraced (sym folded) (elim (fold-log fresh c s) [
          | inl same ↦ subst IsTraced (sym same) (h, lineage)
          | inr (new, grown) ↦ (
            fold-IsConsistent fresh c s h,
            subst (λ l. IsLineage l) (sym grown)
                (accepted-IsLineage c s s.seq h lineage new accepted),
          )
        ])
      ]

  effect_session-IsTraced :
      (before after : List (Row (Value F) EffectMessage EffectError))
      (claims : List (String × Claim (Value F))) (s : ClaimStore (Value F))
      → IsTraced s
      → IsTraced (effect_session before after claims s)
  unfolding effect_session
  effect_session-IsTraced before after [] s h = h
  effect_session-IsTraced before after ((fresh, c) ∷ claims) s h =
      effect_session-IsTraced before after claims (effect_fold before after fresh c s)
        (effect_fold-IsTraced before after fresh c s h)

  -- However rows are composed with the effect row, and whatever claims are folded from an empty store:
  -- the log never holds two intents of one effect, never a result or a rejection of an effect without an
  -- intent, and never two of them for one effect.
  pub effects_end_once :
      (before after : List (Row (Value F) EffectMessage EffectError))
      (claims : List (String × Claim (Value F))) (id : String) (r : StrategyRegistry (Value F))
      (ctx : BeliefContext)
      → IsLineage (effect_session before after claims (new_store id r ctx)).log
  unfolding new_store count
  effects_end_once before after claims id r ctx =
      (effect_session-IsTraced before after claims (new_store id r ctx)
        (new_store-IsConsistent id r ctx, λ eid. (omega arith, omega arith))).1
