-- ===== src/Supervisor/Examples.antt =====
-- lipas/supervisor.py: two ticks that recommend retries of one effect.
use lipas.Prelude.{
  zero, suc, ℕ_eq, String_eq, Option_eq, List_eq, Pair_eq, ℤ_eq, pos, ℕ, String, ◌≡◌, refl, Option,
  none, some, List, [], ◌∷◌, suc, take,
}
use lipas.Dict.{get, put}
use lipas.Calculus.Claim.{value}
use lipas.Rows.Effect.Shapes.{field, as_text}
use lipas.Supervisor.Tick.{
  Action, retry, terminate, count_of, tallied, tally, plan, tick_plan, action_to_claim,
}
use lipas.Supervisor.Planning.{IsNumbered, attempts, attempt_of}
use lipas.Supervisor.Recovery.{tick_again}
use lipas.Supervisor.Numbering.{ticks, ticks-IsNumbered, TickCall, AreFresh, claims}

abbrev key : String → String → ℕ → String
key session target index = target

abbrev digits : ℕ → String
digits zero = "0"
digits (suc i) = "1"

abbrev drawn : ℕ → String
drawn i = "uuid"

-- Each rule of the first tick asks for a retry of one effect; the second tick would go above the maximum.
-- The second tick has a prefix.
abbrev two_ticks : List (TickCall ℕ)
two_ticks =
    record {
      prefix = some "turn:0";
      drawn = drawn;
      rules =
          ("slow", some (retry "call_1" (pos 2) "slow"))
          ∷ ("quiet", none)
          ∷ ("stuck", some (retry "call_1" (pos 2) "stuck"))
          ∷ [];
    }
    ∷ record {
      prefix = some "turn:1";
      drawn = drawn;
      rules =
          ("slow", some (retry "call_1" (pos 3) "slow")) ∷ ("lost", some (terminate "lost")) ∷ [];
    }
    ∷ []

two_ticks_test :
    attempts "call_1" (ticks key "s" digits [] two_ticks)
    ≡ (1, pos 2) ∷ (2, pos 2) ∷ (3, pos 3) ∷ []
unfolding attempts attempt_of ticks tick_plan plan tally tallied action_to_claim count_of get put
    value field as_text
two_ticks_test = refl

two_ticks-AreFresh : AreFresh key "s" digits [] two_ticks
unfolding tick_plan plan tally tallied action_to_claim count_of get put value field as_text
two_ticks-AreFresh = (refl, (refl, tt))

ticks-IsNumbered_example :
    IsNumbered
      (count_of "call_1" (tally {F = ℕ} none [] []))
      (attempts "call_1" (ticks key "s" digits [] two_ticks))
ticks-IsNumbered_example = ticks-IsNumbered key "s" digits "call_1" [] two_ticks two_ticks-AreFresh

abbrev retry_twice : List (String × Option (Action ℕ))
retry_twice =
    ("slow", some (retry "call_1" (pos 2) "slow"))
    ∷ ("stuck", some (retry "call_1" (pos 2) "stuck"))
    ∷ []

tick_again_example :
    tick_plan
      (some "turn:0")
      (claims key "s" digits
        (some "turn:0")
        drawn
        0
        (take 1 (tick_plan (some "turn:0") [] retry_twice)))
      retry_twice
    ≡ tick_plan (some "turn:0") [] retry_twice
tick_again_example = tick_again key "s" digits "turn:0" drawn [] retry_twice 1
