-- ===== src/Rows/Effect/Examples.antt =====
-- lipas/rows/effect.py at a concrete session, and tests.
use lipas.Prelude.{
  ℕ_eq, String_eq, Option_eq, List_eq, Pair_eq, Eq, ok, err, ℤ_eq, ℤ, pos, negsuc, Bool-cases, ℕ,
  String, ◌≡◌, refl, ◌↔◌, inl, inr, Bool, true, false, Option, none, some, List, [], ◌∷◌,
}
use mathlib.Core.HLevel.{Discrete}
use native.Mathlib.Decide.{ℕ_discrete}
use lipas.Attempt.{◌>>=◌, ◌>>◌, guard, required}
use lipas.Dict.{Dict, get, has}
use lipas.Text.{strip}
use lipas.Rows.SmallFloat.{small_float}
use lipas.Calculus.Context.{BeliefContext}
use lipas.Calculus.Claim.{Claim, StrategyRegistry, unassigned, value}
use lipas.Store.{new_store, filter_claims, pick}
use lipas.Serialization.Value.{Value, text, dict, list, nil, end, Key, object}
use lipas.Rows.Effect.Shapes.{
  unhashable, field, as_text, is_effect_id, ends_hex, drop_text, is_member, hashable, shape_errors,
}
use lipas.Rows.Effect.Checks.{no_intent, when}
use lipas.Rows.Effect.Invariants.{check_intent, check_result, check_new, check_effect}
use lipas.Rows.Effect.Lineage.{IsLineage}
use lipas.Rows.Effect.Session.{effect_session, effects_end_once}

discrete_of_eq : {A : Type 0} → Eq A → Discrete A
discrete_of_eq e a b = elim (Bool-cases (e.eqb a b)) [
  | inl same ↦ Dec.yes ((e.eqb_iff a b).0 same)
  | inr other ↦ Dec.no (λ p. absurd (cc (other, (e.eqb_iff a b).1 p)))
]

String_discrete : Discrete String
String_discrete = discrete_of_eq String_eq

ℤ_discrete : Discrete ℤ
ℤ_discrete = hlevel ℕ_discrete

names_discrete : Discrete (List String)
names_discrete = hlevel String_discrete

Key_discrete : Discrete Key
Key_discrete = hlevel String_discrete

Value_discrete : Discrete (Value ℕ)
Value_discrete = hlevel (ℕ_discrete, String_discrete, ℤ_discrete, names_discrete, Key_discrete)

abbrev holds : {A : Type 0} → Dec A → Bool
holds (Dec.yes a) = true
holds (Dec.no n) = false

holds_iff : {A : Type 0} (d : Dec A) → (holds d ≡ true) ↔ A
holds_iff (Dec.yes a) = (λ h. a, λ b. refl)
holds_iff (Dec.no n) = (λ h. absurd (cc h), λ b. absurd (n b))

instance abbrev Value_eq : Eq (Value ℕ)
Value_eq = record {
  eqb = λ a b. holds (Value_discrete a b);
  eqb_iff = λ a b. holds_iff (Value_discrete a b);
}

abbrev whole : ℤ → Option ℕ
whole (pos n) = some n
whole (negsuc n) = none

abbrev claim_of : String → String → Dict String (Option (Value ℕ)) → Claim (Value ℕ)
claim_of tag id fields = record {
  tag = tag;
  fields = fields;
  kind = none;
  priority = pos 0;
  source = "harness";
  claim_id = id;
  seq = unassigned;
}

abbrev effect_id : String
effect_id = "call_0123456789ab"

abbrev intent : Claim (Value ℕ)
intent = claim_of "call_intent" "c1" (
    ("call_id", some (text effect_id))
    ∷ ("kind", some (text "llm_call"))
    ∷ ("model", some (text "m"))
    ∷ ("request", some (dict end))
    ∷ [])

abbrev result_claim : Claim (Value ℕ)
result_claim = claim_of "call_result" "c2" (
    ("call_id", some (text effect_id))
    ∷ ("kind", some (text "llm_call"))
    ∷ ("status", some (text "ok"))
    ∷ ("reply", some (object "Reply" [] (dict end)))
    ∷ [])

abbrev again : Claim (Value ℕ)
again = claim_of "call_result" "c3" result_claim.fields

abbrev context : BeliefContext
context = record { fail_counts = []; caution_threshold = 3 }

abbrev registry : StrategyRegistry (Value ℕ)
registry = record { table = []; default = λ a b ctx. ok a }

abbrev folded : List (String × Claim (Value ℕ))
folded = ("m1", intent) ∷ ("m2", result_claim) ∷ ("m3", again) ∷ []

effects_end_once_example :
    IsLineage (effect_session small_float whole [] [] folded (new_store "b" registry context)).log
effects_end_once_example = effects_end_once small_float whole [] [] folded "b" registry context

-- A line feed after the last digit is let through.
line_feed_test : is_effect_id "call_0123456789ab\n" ≡ true
unfolding is_effect_id ends_hex drop_text
line_feed_test = refl

-- A kind that cannot be hashed makes the row raise.
abbrev items : Option (Value ℕ)
items = some (list nil)

unhashable_test : is_member ("llm_call" ∷ []) items ≡ err unhashable
unfolding is_member hashable ◌>>◌ guard
unhashable_test = refl

intent_test : check_effect small_float whole intent (new_store "b" registry context) ≡ ok []
unfolding check_effect check_new check_intent filter_claims pick new_store get has value field
    as_text is_effect_id ends_hex drop_text is_member when shape_errors strip ◌>>=◌ ◌>>◌ guard
    required
intent_test = refl

orphan_test :
    check_effect small_float whole result_claim (new_store "b" registry context)
    ≡ ok (no_intent ∷ [])
unfolding check_effect check_new check_result filter_claims pick new_store get has value field
    as_text is_effect_id ends_hex drop_text is_member when shape_errors strip ◌>>=◌ ◌>>◌ guard
    required
orphan_test = refl
