-- ===== src/Rows/Effect/Growth.antt =====
-- lipas/rows/effect.py: the lineage of an effect in a log that grows by one claim.
use lipas.Prelude.{
  ◌==◌, ℕ_eq, String_eq, Option_eq, List_eq, Pair_eq, eq_of_beq, ℤ_eq, if◌then◌else◌, ◌+◌, ◌≤◌,
  String, ◌≡◌, refl, Bool, true, false, ◌&&◌, some, List, [], ◌∷◌, ◌++◌, arith,
}
use lipas.Calculus.Claim.{Claim}
use lipas.Serialization.Value.{Value}
use lipas.Rows.Effect.Shapes.{field, as_text}
use lipas.Rows.Effect.Checks.{tag_effect_intent, tag_effect_result, tag_effect_rejected, has_effect}
use lipas.Rows.Effect.Lineage.{count, IsLineage, count-append}

module _ {F : Type 0} where
  -- An effect with an intent that has neither a result nor a rejection.
  abbrev pub EndsNothing : String → List (Claim (Value F)) → Type 0
  EndsNothing eid log =
      (1 ≤ count tag_effect_intent eid log)
      × (count tag_effect_result eid log ≡ 0)
      × (count tag_effect_rejected eid log ≡ 0)

  pub named_effect :
      (eid e : String) (c : Claim (Value F))
      → has_effect eid c ≡ true
      → as_text (field "call_id" c.fields) ≡ some e
      → e ≡ eid
  unfolding has_effect
  named_effect eid e c hit is_e =
      let same = eq_of_beq (as_text (field "call_id" c.fields)) (some eid) hit in cc (same, is_e)

  -- The lineage of one effect in a log that grew by a claim.
  abbrev pub Extends : String → String → Bool → List (Claim (Value F)) → Type 0
  Extends tag eid hit log =
      (count tag_effect_intent eid log + (if tag == tag_effect_intent && hit then 1 else 0) ≤ 1)
      × (count tag_effect_result eid log
            + (if tag == tag_effect_result && hit then 1 else 0)
            + (count tag_effect_rejected eid log
                + (if tag == tag_effect_rejected && hit then 1 else 0))
          ≤ count tag_effect_intent eid log + (if tag == tag_effect_intent && hit then 1 else 0))

  pub IsLineage-append :
      (log : List (Claim (Value F))) (c : Claim (Value F))
      → ((eid : String) → Extends c.tag eid (has_effect eid c) log)
      → IsLineage (log ++ c ∷ [])
  IsLineage-append log c h eid =
      rw
        (
          count-append tag_effect_intent eid log c,
          count-append tag_effect_result eid log c,
          count-append tag_effect_rejected eid log c,
        )
        (h eid)

  pub intent-Extends :
      (log : List (Claim (Value F))) (eid : String) (hit : Bool)
      → IsLineage log
      → (hit ≡ true → count tag_effect_intent eid log ≡ 0)
      → Extends tag_effect_intent eid hit log
  intent-Extends log eid true h none_yet = let zero_ = none_yet refl in ground (arith, h eid, zero_)
  intent-Extends log eid false h none_yet = ground (arith, h eid)

  pub result-Extends :
      (log : List (Claim (Value F))) (eid : String) (hit : Bool)
      → IsLineage log
      → (hit ≡ true → EndsNothing eid log)
      → Extends tag_effect_result eid hit log
  result-Extends log eid true h open_ = let here = open_ refl in ground (arith, h eid, here)
  result-Extends log eid false h open_ = ground (arith, h eid)

  pub rejected-Extends :
      (log : List (Claim (Value F))) (eid : String) (hit : Bool)
      → IsLineage log
      → (hit ≡ true → EndsNothing eid log)
      → Extends tag_effect_rejected eid hit log
  rejected-Extends log eid true h open_ = let here = open_ refl in ground (arith, h eid, here)
  rejected-Extends log eid false h open_ = ground (arith, h eid)

  pub other-Extends :
      (tag : String) (log : List (Claim (Value F))) (eid : String) (hit : Bool)
      → IsLineage log
      → (tag == tag_effect_intent) ≡ false
      → (tag == tag_effect_result) ≡ false
      → (tag == tag_effect_rejected) ≡ false
      → Extends tag eid hit log
  other-Extends tag log eid hit h i r j = rw (i, r, j) (ground (arith, h eid))
