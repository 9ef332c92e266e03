-- ===== src/Rows/Effect/Invariants.antt =====
-- lipas/rows/effect.py: `EffectRow.check_invariants`.
use lipas.Prelude.{
  ◌==◌, ℕ_eq, String_eq, Option_eq, List_eq, Pair_eq, Result, ok, int_leb, ℤ_eq, ℤ, pos, filter,
  contains, ltb, if◌then◌else◌, String, Bool, true, false, not, ◌&&◌, Option, none, some, List, [],
  ◌∷◌, ◌++◌,
}
use lipas.Attempt.{◌>>=◌}
use lipas.Dict.{get, has}
use lipas.Rows.Float.{Float}
use lipas.Rows.Base.{Row}
use lipas.Calculus.Claim.{Claim}
use lipas.Store.{ClaimStore}
use lipas.Serialization.Value.{Value, int, dict, object}
use lipas.Rows.Effect.Shapes.{
  EffectError, Fields, field, as_text, is_effect_id, is_member, shape_errors, bad_amounts,
}
use lipas.Rows.Effect.Checks.{
  tag_effect_intent, tag_effect_result, tag_effect_rejected, EffectMessage, bad_field, duplicate,
  orphan_proposal, no_intent, after_result, after_rejection, kind_mismatch, status_error,
  exceeds_declared, when, shaped, is_none, any, first, side_effects, rank, valid_kinds,
  proposal_keys, is_text, optional_text, has_effect, good_capabilities, tagged, parent_errors,
}

module _ (fl : Float) (of_int : ℤ → Option fl.F) where
  open fl use {F}

  -- A field that must be a mapping of strict JSON.
  abbrev pub mapping_errors : String → Option (Value F) → List EffectMessage
  mapping_errors key (some (dict es)) = shaped key (shape_errors fl false (dict es))
  mapping_errors key _ = bad_field key ∷ []

  -- A field that must be there, without coercions in its containers.
  abbrev pub container_errors : String → Fields F → List EffectMessage
  container_errors key f = elim (get key f) [
    | none ↦ bad_field key ∷ []
    | some none ↦ []
    | some (some v) ↦ shaped key (shape_errors fl true v)
  ]

  abbrev pub amounts_errors : String → Option (Value F) → List EffectMessage
  amounts_errors key (some (dict es)) = when (bad_amounts fl of_int [] es) (bad_field key)
  amounts_errors key _ = bad_field key ∷ []

  -- The fields of a proposal.
  abbrev pub proposal_errors : Fields F → List EffectMessage
  proposal_errors f =
      if is_none (field "proposal_id" f)
      then when (any (λ key. has key f) proposal_keys) orphan_proposal
      else (if not (is_text (field "proposal_id" f))
          then bad_field "proposal_id" ∷ []
          else when (not (is_text (field "proposal_kind" f))) (bad_field "proposal_kind")
            ++ when (not (is_text (field "actor" f))) (bad_field "actor")
            ++ when (not (is_text (field "risk" f))) (bad_field "risk")
            ++ when (not (good_capabilities (field "capabilities" f))) (bad_field "capabilities")
            ++ amounts_errors "estimate" (field "estimate" f)
            ++ mapping_errors "proposal_metadata" (field "proposal_metadata" f))

  -- `_check_intent_llm`
  abbrev pub intent_llm_errors : Fields F → List EffectMessage
  intent_llm_errors f =
      when (not (is_text (field "model" f))) (bad_field "model") ++ container_errors "request" f

  -- `_check_intent_tool`
  abbrev pub intent_tool_errors : Fields F → Result EffectError (List EffectMessage)
  intent_tool_errors f = do
    declared ← is_member side_effects (field "declared_side_effect" f)
    ok (
        when (not (is_text (field "tool_name" f))) (bad_field "tool_name")
        ++ when (not (has "arguments" f)) (bad_field "arguments")
        ++ mapping_errors "arguments" (field "arguments" f)
        ++ when (not declared) (bad_field "declared_side_effect"))

  -- The checks of the kind and of what an intent of the kind has.
  abbrev pub intent_kind_errors : Fields F → Result EffectError (List EffectMessage)
  intent_kind_errors f = is_member valid_kinds (field "kind" f) >>= λ valid.
      if not valid
      then ok (bad_field "kind" ∷ [])
      else (if as_text (field "kind" f) == some "llm_call"
          then ok (intent_llm_errors f)
          else intent_tool_errors f)

  -- `_check_intent`, given the effect id if it is a text.
  unfoldable pub check_intent :
      Option String → Fields F → ClaimStore (Value F) → Result EffectError (List EffectMessage)
  check_intent none f store = ok (bad_field "call_id" ∷ [])
  check_intent (some eid) f store = do
    intents ← tagged tag_effect_intent store
    parent ← parent_errors f intents
    of_kind ← intent_kind_errors f
    ok (
        when (not (is_effect_id eid)) (bad_field "call_id")
        ++ (when (any (has_effect eid) intents) duplicate
            ++ (parent
                ++ optional_text "provider_request_id" f
                ++ optional_text "caused_by" f
                ++ proposal_errors f
                ++ of_kind)))

  -- `_check_result_llm`
  abbrev pub usage_errors : Option (Value F) → List EffectMessage
  usage_errors none = []
  usage_errors (some (object class bases content)) =
      when (not (contains (class ∷ bases) "Usage")) (bad_field "total_usage")
  usage_errors (some v) = bad_field "total_usage" ∷ []

  abbrev pub result_llm_errors : Fields F → List EffectMessage
  result_llm_errors f = container_errors "reply" f ++ usage_errors (field "total_usage" f)

  -- The actual side effect against the one that the intent declared.
  abbrev pub exceeds : Option String → Option String → Bool
  exceeds (some actual) (some declared) =
      contains side_effects declared
      && contains side_effects actual
      && ltb (rank side_effects declared) (rank side_effects actual)
  exceeds _ _ = false

  abbrev pub spend_errors : Option (Value F) → List EffectMessage
  spend_errors none = []
  spend_errors (some v) = amounts_errors "spend" (some v)

  -- `_check_result_tool`
  abbrev pub result_tool_errors :
      Fields F → Option (Claim (Value F)) → Result EffectError (List EffectMessage)
  result_tool_errors f intent = do
    actual ← is_member side_effects (field "side_effect" f)
    declared ←
        is_member side_effects
          (elim intent [ none ↦ none | some c ↦ field "declared_side_effect" c.fields ])
    ok (
        container_errors "output" f
        ++ when (not actual) (bad_field "side_effect")
        ++ spend_errors (field "spend" f)
        ++ when
            (exceeds (as_text (field "side_effect" f)) (elim intent [
              | none ↦ none
              | some c ↦ as_text (field "declared_side_effect" c.fields)
            ]))
            exceeds_declared)

  -- `isinstance(attempts, int)` and positive.
  abbrev pub attempts_errors : Option (Value F) → List EffectMessage
  attempts_errors none = []
  attempts_errors (some (int i)) = when (not (int_leb (pos 1) i)) (bad_field "attempts")
  attempts_errors (some v) = bad_field "attempts" ∷ []

  abbrev pub error_errors : Fields F → List EffectMessage
  error_errors f =
      when (as_text (field "status" f) == some "ok" && has "error" f) status_error
      ++ when (as_text (field "status" f) == some "error" && not (has "error" f)) status_error
      ++ (if has "error" f then mapping_errors "error" (field "error" f) else [])
      ++ attempts_errors (field "attempts" f)

  -- The intent's kind is another one.
  abbrev pub mismatch : Option (Claim (Value F)) → Fields F → Bool
  mismatch none f = false
  mismatch (some intent) f = not (as_text (field "kind" intent.fields) == as_text (field "kind" f))

  -- The checks of a result after those of its effect id.
  abbrev pub result_kind_errors :
      Fields F → Option (Claim (Value F)) → Result EffectError (List EffectMessage)
  result_kind_errors f intent = is_member valid_kinds (field "kind" f) >>= λ valid.
      if not valid
      then ok (bad_field "kind" ∷ [])
      else (is_member ("ok" ∷ "error" ∷ []) (field "status" f) >>= λ has_status.
          if not has_status
          then ok (when (mismatch intent f) kind_mismatch ++ bad_field "status" ∷ [])
          else ((if as_text (field "kind" f) == some "llm_call"
                then ok (result_llm_errors f)
                else result_tool_errors f intent)
              >>= λ payload.
                  ok (when (mismatch intent f) kind_mismatch ++ error_errors f ++ payload)))

  -- `_check_result`
  unfoldable pub check_result :
      Option String → Fields F → ClaimStore (Value F) → Result EffectError (List EffectMessage)
  check_result none f store = ok (bad_field "call_id" ∷ [])
  check_result (some eid) f store = do
    intents ← tagged tag_effect_intent store
    results ← tagged tag_effect_result store
    rejections ← tagged tag_effect_rejected store
    rest ← result_kind_errors f (first (filter (has_effect eid) intents))
    ok (
        when (not (any (has_effect eid) intents)) no_intent
        ++ (when (any (has_effect eid) results) duplicate
            ++ (when (any (has_effect eid) rejections) after_rejection ++ rest)))

  -- The checks of a rejection after those of its effect id.
  abbrev pub rejection_errors :
      Fields F → Option (Claim (Value F)) → Result EffectError (List EffectMessage)
  rejection_errors f intent = is_member valid_kinds (field "kind" f) >>= λ valid. ok (
      (if not valid then bad_field "kind" ∷ [] else when (mismatch intent f) kind_mismatch)
      ++ when (not (is_text (field "reason" f))) (bad_field "reason")
      ++ (if is_none (field "detail" f) then [] else mapping_errors "detail" (field "detail" f)))

  -- `_check_rejection`
  unfoldable pub check_rejection :
      Option String → Fields F → ClaimStore (Value F) → Result EffectError (List EffectMessage)
  check_rejection none f store = ok (bad_field "call_id" ∷ [])
  check_rejection (some eid) f store = do
    intents ← tagged tag_effect_intent store
    results ← tagged tag_effect_result store
    rejections ← tagged tag_effect_rejected store
    rest ← rejection_errors f (first (filter (has_effect eid) intents))
    ok (
        when (not (any (has_effect eid) intents)) no_intent
        ++ (when (any (has_effect eid) results) after_result
            ++ (when (any (has_effect eid) rejections) duplicate ++ rest)))

  -- `check_invariants` of a claim that the store does not have yet.
  unfoldable pub check_new :
      Claim (Value F) → ClaimStore (Value F) → Result EffectError (List EffectMessage)
  check_new c store =
      if c.tag == tag_effect_intent
      then check_intent (as_text (field "call_id" c.fields)) c.fields store
      else (if c.tag == tag_effect_result
          then check_result (as_text (field "call_id" c.fields)) c.fields store
          else (if c.tag == tag_effect_rejected
              then check_rejection (as_text (field "call_id" c.fields)) c.fields store
              else ok []))

  -- `EffectRow.check_invariants`
  unfoldable pub check_effect :
      Claim (Value F) → ClaimStore (Value F) → Result EffectError (List EffectMessage)
  check_effect c store = tagged c.tag store >>= λ known.
      if any (λ d. d.claim_id == c.claim_id) known then ok [] else check_new c store

  -- `EffectRow`
  abbrev pub effect_row : Row (Value F) EffectMessage EffectError
  effect_row = record {
    name = "effect";
    in_namespace = contains (tag_effect_intent ∷ tag_effect_result ∷ tag_effect_rejected ∷ []);
    check_invariants = check_effect;
  }
