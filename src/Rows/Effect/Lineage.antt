-- ===== src/Rows/Effect/Lineage.antt =====
-- lipas/rows/effect.py: what a claim that the effect row accepts adds to the lineage of its effect.
use lipas.Prelude.{
  ◌==◌, ℕ_eq, String_eq, Option_eq, List_eq, Pair_eq, ok, ℤ_eq, ℤ, filter, if◌then◌else◌, ℕ, suc,
  ◌+◌, ◌≤◌, String, ◌≡◌, refl, sym, ◌∙◌, subst, Bool, true, false, not, ◌&&◌, Option, none, some,
  List, [], ◌∷◌, ◌++◌, arith,
}
use lipas.Attempt.{Post, Post-bind, Post-ok, required-some, ok_injective}
use lipas.Dict.{has}
use lipas.Rows.Float.{Float}
use lipas.Calculus.Claim.{Claim}
use lipas.Store.{ClaimStore, selected}
use lipas.Store.Index.{filter_claims-eq-walk}
use lipas.Store.Invariant.{IsConsistent, entries}
use lipas.Serialization.Value.{Value}
use lipas.Rows.Effect.Shapes.{index_error, Fields, is_effect_id}
use lipas.Rows.Effect.Checks.{
  optional_text, tag_effect_intent, tag_effect_result, tag_effect_rejected, EffectMessage,
  bad_field, duplicate, no_intent, after_result, after_rejection, when, any, has_effect, tagged,
}
use lipas.Rows.Effect.Invariants.{proposal_errors, check_intent, check_result, check_rejection}

module _ {F : Type 0} where
  -- How many claims of a tag a log has for an effect.
  unfoldable pub count : String → String → List (Claim (Value F)) → ℕ
  count tag eid [] = 0
  count tag eid (c ∷ log) =
      let rest = count tag eid log in if c.tag == tag && has_effect eid c then suc rest else rest

  -- At most one intent for each effect, and at most one result or rejection for each intent.
  abbrev pub IsLineage : List (Claim (Value F)) → Type 0
  IsLineage log =
      (eid : String)
      → (count tag_effect_intent eid log ≤ 1)
        × (count tag_effect_result eid log + count tag_effect_rejected eid log
            ≤ count tag_effect_intent eid log)

  pub count-append :
      (tag eid : String) (log : List (Claim (Value F))) (c : Claim (Value F))
      → count tag eid (log ++ c ∷ [])
        ≡ count tag eid log + (if c.tag == tag && has_effect eid c then 1 else 0)
  unfolding count
  count-append tag eid [] c = ground arith
  count-append tag eid (d ∷ log) c = ground (arith, count-append tag eid log c)

  -- The claims of a tag in a log.
  abbrev pub claims_of : String → List (Claim (Value F)) → List (Claim (Value F))
  claims_of tag log = filter (selected (some tag) none none) log

  pub count-none :
      (tag eid : String) (log : List (Claim (Value F)))
      → any (has_effect eid) (claims_of tag log) ≡ false
      → count tag eid log ≡ 0
  unfolding count
  count-none tag eid [] h = refl
  count-none tag eid (c ∷ log) h = ground (arith, count-none tag eid log)

  pub count-some :
      (tag eid : String) (log : List (Claim (Value F)))
      → any (has_effect eid) (claims_of tag log) ≡ true
      → 1 ≤ count tag eid log
  unfolding count
  count-some tag eid [] h = absurd (cc h)
  count-some tag eid (c ∷ log) h = ground (arith, count-some tag eid log)

  pub tagged-eq-claims :
      (tag : String) (s : ClaimStore (Value F))
      → IsConsistent s
      → tagged tag s ≡ ok (claims_of tag s.log)
  tagged-eq-claims tag s h =
      required-some index_error (filter_claims-eq-walk (some tag) none none s h)

  pub any-unknown :
      (tag id : String) (log : List (Claim (Value F)))
      → has id (entries log) ≡ false
      → any (λ d. d.claim_id == id) (claims_of tag log) ≡ false
  unfolding has
  any-unknown tag id [] h = refl
  any-unknown tag id (c ∷ log) h = ground (arith, any-unknown tag id log)

when-nil :
    (b : Bool) (m : EffectMessage) (rest : List EffectMessage)
    → when b m ++ rest ≡ []
    → (b ≡ false) × (rest ≡ [])
unfolding when
when-nil false m rest h = (refl, h)
when-nil true m rest h = absurd (cc h)

module _ (fl : Float) (of_int : ℤ → Option fl.F) where
  open fl use {F}

  -- What an accepted claim of a tag says about the claims before it.
  abbrev pub IntentFact : Option String → List (Claim (Value F)) → Type 0
  IntentFact o log = (eid : String) × (o ≡ some eid) × (count tag_effect_intent eid log ≡ 0)

  abbrev pub EndFact : Option String → List (Claim (Value F)) → Type 0
  EndFact o log =
      (eid : String) × (o ≡ some eid)
      × (1 ≤ count tag_effect_intent eid log)
      × (count tag_effect_result eid log ≡ 0)
      × (count tag_effect_rejected eid log ≡ 0)

  pub check_intent-IntentFact :
      (o : Option String) (f : Fields F) (s : ClaimStore (Value F))
      → IsConsistent s
      → Post (λ ms. ms ≡ [] → IntentFact o s.log) (check_intent fl of_int o f s)
  unfolding check_intent
  check_intent-IntentFact none f s h = Post-ok λ bad. absurd (cc bad)
  check_intent-IntentFact (some eid) f s h = Post-bind _ _ λ intents hi. Post-bind _ _ λ parent hp.
      Post-bind _ _ λ of_kind hk. Post-ok λ empty.
        let same = ok_injective (sym (tagged-eq-claims tag_effect_intent s h) ∙ hi) in
        let rest =
          parent
          ++ optional_text "provider_request_id" f
          ++ optional_text "caused_by" f
          ++ proposal_errors fl of_int f
          ++ of_kind in
        let one =
          when-nil (not (is_effect_id eid)) (bad_field "call_id")
            (when (any (has_effect eid) intents) duplicate ++ rest) empty in
        let fresh = (when-nil (any (has_effect eid) intents) duplicate rest one.1).0 in
        (
          eid,
          refl,
          count-none tag_effect_intent eid s.log
              (subst (λ cs. any (has_effect eid) cs ≡ false) (sym same) fresh),
        )

  ends :
      (eid : String) (s : ClaimStore (Value F))
      (intents results rejections : List (Claim (Value F))) (m n : EffectMessage)
      (rest : List EffectMessage)
      → IsConsistent s
      → tagged tag_effect_intent s ≡ ok intents
      → tagged tag_effect_result s ≡ ok results
      → tagged tag_effect_rejected s ≡ ok rejections
      → when (not (any (has_effect eid) intents)) no_intent
          ++ (when (any (has_effect eid) results) m
              ++ (when (any (has_effect eid) rejections) n ++ rest))
        ≡ []
      → EndFact (some eid) s.log
  ends eid s intents results rejections m n rest h hi hr hj empty =
      let tail = when (any (has_effect eid) rejections) n ++ rest in
      let (has_intent, empty') =
        when-nil (not (any (has_effect eid) intents)) no_intent
          (when (any (has_effect eid) results) m ++ tail) empty in
      let (no_result, empty'') = when-nil (any (has_effect eid) results) m tail empty' in
      let no_rejection = (when-nil (any (has_effect eid) rejections) n rest empty'').0 in
      let same_i = ok_injective (sym (tagged-eq-claims tag_effect_intent s h) ∙ hi) in
      let same_r = ok_injective (sym (tagged-eq-claims tag_effect_result s h) ∙ hr) in
      let same_j = ok_injective (sym (tagged-eq-claims tag_effect_rejected s h) ∙ hj) in
      (
        eid,
        refl,
        count-some tag_effect_intent eid s.log (
            subst (λ cs. any (has_effect eid) cs ≡ true) (sym same_i) (ground (arith, has_intent))),
        count-none tag_effect_result eid s.log
            (subst (λ cs. any (has_effect eid) cs ≡ false) (sym same_r) no_result),
        count-none tag_effect_rejected eid s.log
            (subst (λ cs. any (has_effect eid) cs ≡ false) (sym same_j) no_rejection),
      )

  pub check_result-EndFact :
      (o : Option String) (f : Fields F) (s : ClaimStore (Value F))
      → IsConsistent s
      → Post (λ ms. ms ≡ [] → EndFact o s.log) (check_result fl of_int o f s)
  unfolding check_result
  check_result-EndFact none f s h = Post-ok λ bad. absurd (cc bad)
  check_result-EndFact (some eid) f s h = Post-bind _ _ λ intents hi. Post-bind _ _ λ results hr.
      Post-bind _ _ λ rejections hj. Post-bind _ _ λ rest hk. Post-ok λ empty.
        ends eid s intents results rejections duplicate after_rejection rest h hi hr hj empty

  pub check_rejection-EndFact :
      (o : Option String) (f : Fields F) (s : ClaimStore (Value F))
      → IsConsistent s
      → Post (λ ms. ms ≡ [] → EndFact o s.log) (check_rejection fl of_int o f s)
  unfolding check_rejection
  check_rejection-EndFact none f s h = Post-ok λ bad. absurd (cc bad)
  check_rejection-EndFact (some eid) f s h = Post-bind _ _ λ intents hi. Post-bind _ _ λ results hr.
      Post-bind _ _ λ rejections hj. Post-bind _ _ λ rest hk.
        Post-ok λ empty.
          ends eid s intents results rejections after_result duplicate rest h hi hr hj empty
