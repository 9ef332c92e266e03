-- ===== src/Supervisor/Tick.antt =====
-- lipas/supervisor.py: the tally of the recommended retries, the loop of `tick` over the rules and the
-- claims that it makes. What the predicates return at the snapshot is an argument.
use lipas.Prelude.{
  ◌==◌, ℕ_eq, String_eq, Option_eq, List_eq, Pair_eq, int_leb, ℤ_eq, ℤ, pos, if◌then◌else◌, ℕ, ◌+◌,
  String, Bool, true, false, not, ◌&&◌, Option, none, some, List, [], ◌∷◌,
}
use lipas.Dict.{Dict, get, put}
use lipas.Text.{starts, join}
use lipas.Calculus.Claim.{Claim, unassigned}
use lipas.Serialization.Value.{Value, int, text, dict, Entries}
use lipas.Rows.Effect.Shapes.{field, as_text}

-- `RetryAction`, `TerminateAction` and `EscalateAction`.
pub data Action (F : Type 0) : Type 0 where
  retry : String → ℤ → String → Action F
  terminate : String → Action F
  escalate : String → Entries F → Action F

-- An action with the name of its rule and the index of its attempt.
pub record Pending (F : Type 0) : Type 0 where
  pub action : Action F
  pub rule : String
  pub attempt_index : ℕ

-- `counts.get(target, 0)`
unfoldable pub count_of : String → Dict String ℕ → ℕ
count_of target counts = elim (get target counts) [ none ↦ 0 | some n ↦ n ]

abbrev pub increment : String → Dict String ℕ → Dict String ℕ
increment target counts = put target (count_of target counts + 1) counts

abbrev pub tag_supervisor_retry : String
tag_supervisor_retry = "supervisor_retry"

-- The claim is one of this tick, when the ticks have a prefix.
abbrev pub excluded : Option String → String → Bool
excluded none id = false
excluded (some prefix) id = starts (join prefix ":") id

module _ {F : Type 0} where
  -- The target of a retry claim that the tally counts.
  unfoldable pub tallied : Option String → Claim (Value F) → Option String
  tallied prefix c =
      if c.tag == tag_supervisor_retry && not (excluded prefix c.claim_id)
      then as_text (field "target_effect_id" c.fields)
      else none

  -- `_tally_prior_retries`, the loop over the log.
  unfoldable pub tally : Option String → List (Claim (Value F)) → Dict String ℕ → Dict String ℕ
  tally prefix [] out = out
  tally prefix (c ∷ log) out =
      tally prefix log (elim (tallied prefix c) [ none ↦ out | some target ↦ increment target out ])

  -- The loop of `tick`; a rule is its name and what its predicate returned.
  unfoldable pub plan :
      Dict String ℕ → Dict String ℕ → List (String × Option (Action F)) → List (Pending F)
  plan prior in_tick [] = []
  plan prior in_tick ((name, none) ∷ rules) = plan prior in_tick rules
  plan prior in_tick ((name, some (terminate reason)) ∷ rules) =
      record { action = terminate reason; rule = name; attempt_index = 0 }
      ∷ plan prior in_tick rules
  plan prior in_tick ((name, some (escalate reason payload)) ∷ rules) =
      record { action = escalate reason payload; rule = name; attempt_index = 0 }
      ∷ plan prior in_tick rules
  plan prior in_tick ((name, some (retry target most reason)) ∷ rules) =
      let already = count_of target prior + count_of target in_tick in
      elim (int_leb most (pos already)) [
        | true ↦ plan prior in_tick rules
        | false ↦
            record { action = retry target most reason; rule = name; attempt_index = already + 1 }
            ∷ plan prior (increment target in_tick) rules
      ]

  -- The actions of a tick on a log.
  unfoldable pub tick_plan :
      Option String → List (Claim (Value F)) → List (String × Option (Action F)) → List (Pending F)
  tick_plan prefix log rules = plan (tally prefix log []) [] rules

  -- `_action_to_claim`, given the session, the idempotency keys, and the id of the claim.
  abbrev pub action_fields :
      (String → String → ℕ → String)
      → String
      → Action F
      → String
      → ℕ
      → String × Dict String (Option (Value F))
  action_fields key session (retry target most reason) rule index = (
    tag_supervisor_retry,
    ("schema_version", some (int (pos 1)))
        ∷ ("target_effect_id", some (text target))
        ∷ ("idempotency_key", some (text (key session target index)))
        ∷ ("attempt_index", some (int (pos index)))
        ∷ ("max_attempts", some (int most))
        ∷ ("reason", some (text (join "[" (join rule (join "] " reason)))))
        ∷ [],
  )
  action_fields key session (terminate reason) rule index = (
    "supervisor_terminate",
    ("schema_version", some (int (pos 1)))
        ∷ ("reason", some (text (join "[" (join rule (join "] " reason)))))
        ∷ [],
  )
  action_fields key session (escalate reason payload) rule index = (
    "supervisor_escalate",
    ("schema_version", some (int (pos 1)))
        ∷ ("reason", some (text (join "[" (join rule (join "] " reason)))))
        ∷ ("payload", some (dict payload))
        ∷ [],
  )

  unfoldable pub action_to_claim :
      (String → String → ℕ → String) → String → Pending F → String → Claim (Value F)
  action_to_claim key session p id =
      let made = action_fields key session p.action p.rule p.attempt_index in
      record {
        tag = made.0;
        fields = made.1;
        kind = none;
        priority = pos 0;
        source = join "supervisor:" session;
        claim_id = id;
        seq = unassigned;
      }
