-- ===== src/Rows/Effect/Checks.antt =====
-- lipas/rows/effect.py: `EffectRow.check_invariants` and the checks of the three tags.
use lipas.Prelude.{
  ◌==◌, ℕ_eq, String_eq, Option_eq, List_eq, Pair_eq, Result, ok, ℤ_eq, contains, if◌then◌else◌, ℕ,
  suc, String, Bool, true, false, not, ◌&&◌, ◌||◌, Option, none, some, List, [], ◌∷◌, ◌++◌,
}
use lipas.Attempt.{◌>>◌, guard, required}
use lipas.Text.{strip}
use lipas.Calculus.Claim.{Claim}
use lipas.Store.{ClaimStore, filter_claims}
use lipas.Serialization.Value.{Value, text, list, tuple, Items, nil, cons}
use lipas.Rows.Effect.Shapes.{
  ShapeError, EffectError, index_error, unhashable, Fields, field, as_text, hashable,
}

abbrev pub tag_effect_intent : String
tag_effect_intent = "call_intent"

abbrev pub tag_effect_result : String
tag_effect_result = "call_result"

abbrev pub tag_effect_rejected : String
tag_effect_rejected = "call_rejected"

-- The messages, by what they complain of; the texts name a field.
pub data EffectMessage : Type 0 where
  bad_field : String → EffectMessage
  bad_shape : String → ShapeError → EffectMessage
  duplicate : EffectMessage
  unknown_parent : EffectMessage
  orphan_proposal : EffectMessage
  no_intent : EffectMessage
  after_result : EffectMessage
  after_rejection : EffectMessage
  kind_mismatch : EffectMessage
  status_error : EffectMessage
  exceeds_declared : EffectMessage

-- `if b: msgs.append(m)`
unfoldable pub when : Bool → EffectMessage → List EffectMessage
when true m = m ∷ []
when false m = []

abbrev pub shaped : String → List ShapeError → List EffectMessage
shaped key [] = []
shaped key (e ∷ es) = bad_shape key e ∷ shaped key es

abbrev pub is_none : {A : Type 0} → Option A → Bool
is_none none = true
is_none (some x) = false

abbrev pub any : {A : Type 0} → (A → Bool) → List A → Bool
any p [] = false
any p (x ∷ xs) = p x || any p xs

abbrev pub first : {A : Type 0} → List A → Option A
first [] = none
first (x ∷ xs) = some x

-- `_SIDE_EFFECT_RANK`
abbrev pub side_effects : List String
side_effects = "pure" ∷ "read_only" ∷ "idempotent_write" ∷ "external_write" ∷ []

abbrev pub rank : List String → String → ℕ
rank [] s = 0
rank (x ∷ xs) s = let rest = rank xs s in if x == s then 0 else suc rest

abbrev pub valid_kinds : List String
valid_kinds = "llm_call" ∷ "tool_call" ∷ []

abbrev pub distinct : List String → Bool
distinct [] = true
distinct (x ∷ xs) = not (contains xs x) && distinct xs

abbrev pub proposal_keys : List String
proposal_keys =
    "proposal_kind" ∷ "actor" ∷ "capabilities" ∷ "risk" ∷ "estimate" ∷ "proposal_metadata" ∷ []

abbrev pub add_name : Option String → Option (List String) → Option (List String)
add_name (some s) (some names) = if strip s == "" then none else some (strip s ∷ names)
add_name _ _ = none

module _ {F : Type 0} where
  -- A text that is not blank.
  abbrev pub is_text : Option (Value F) → Bool
  is_text (some (text s)) = not (strip s == "")
  is_text _ = false

  -- A field that may be absent, and otherwise is such a text.
  abbrev pub optional_text : String → Fields F → List EffectMessage
  optional_text key f =
      when (not (is_none (field key f)) && not (is_text (field key f))) (bad_field key)

  -- `c.fields.get(F_EFFECT_ID) == eid`
  unfoldable pub has_effect : String → Claim (Value F) → Bool
  has_effect eid c = as_text (field "call_id" c.fields) == some eid

  -- The stripped texts of a sequence, if it holds only texts that are not blank.
  abbrev pub stripped : Items F → Option (List String)
  stripped nil = some []
  stripped (cons x xs) = add_name (as_text (some x)) (stripped xs)

  -- A sequence of unique texts.
  abbrev pub good_capabilities : Option (Value F) → Bool
  good_capabilities (some (list xs)) = elim (stripped xs) [
    | none ↦ false
    | some names ↦ distinct names
  ]
  good_capabilities (some (tuple xs)) = elim (stripped xs) [
    | none ↦ false
    | some names ↦ distinct names
  ]
  good_capabilities _ = false

  -- The claims of a tag.
  abbrev pub tagged : String → ClaimStore (Value F) → Result EffectError (List (Claim (Value F)))
  tagged tag s = required index_error (filter_claims (some tag) none none s)

  -- The set of the known effect ids, whose elements must be hashable.
  abbrev pub all_hashable : List (Claim (Value F)) → Bool
  all_hashable [] = true
  all_hashable (c ∷ cs) =
      (elim (field "call_id" c.fields) [ none ↦ true | some v ↦ hashable v ]) && all_hashable cs

  abbrev pub parent_errors :
      Fields F → List (Claim (Value F)) → Result EffectError (List EffectMessage)
  parent_errors f intents = elim (field "compensates" f) [
    | none ↦ ok []
    | some v ↦ elim (as_text (some v)) [
      | none ↦ ok (bad_field "compensates" ∷ [])
      | some parent ↦
          guard (all_hashable intents) unhashable
          >> ok (
              when (strip parent == "") (bad_field "compensates")
              ++ when (not (any (has_effect parent) intents)) unknown_parent)
    ]
  ]
