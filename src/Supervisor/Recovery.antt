-- ===== src/Supervisor/Recovery.antt =====
-- lipas/supervisor.py: a tick that is called again, with its prefix, after it was interrupted.
use lipas.Prelude.{
  ℕ_eq, String_eq, Option_eq, List_eq, Pair_eq, ℤ_eq, ℕ, ◌+◌, String, ◌≡◌, refl, ◌∙◌, ap, true,
  Option, none, some, List, [], ◌∷◌, ◌++◌, arith, take,
}
use lipas.Dict.{Dict}
use lipas.Text.{join, starts}
use lipas.Calculus.Claim.{Claim}
use lipas.Serialization.Value.{Value}
use lipas.Supervisor.Tick.{
  Action, Pending, tallied, tally, tick_plan, action_to_claim, excluded, increment,
}
use lipas.Supervisor.Numbering.{claims, action_claim_id, tally-append}

starts-join : (prefix rest : String) → starts (join prefix ":") (join prefix (join ":" rest)) ≡ true
starts-join String.[] rest = refl
starts-join (String.◌∷◌ c prefix) rest = ground (arith, starts-join prefix rest)

module _ {F : Type 0} where
  skips :
      (prefix : Option String) (c : Claim (Value F))
      → excluded prefix c.claim_id ≡ true
      → tallied prefix c ≡ none
  unfolding tallied
  skips prefix c old = rw (old) (ground arith)

  module _ (key : String → String → ℕ → String) (session : String) (digits : ℕ → String) where
    is_own :
        (prefix : String) (drawn : ℕ → String) (i : ℕ) (p : Pending F)
        → excluded
            (some prefix)
            (action_to_claim key session p (action_claim_id digits (some prefix) drawn i)).claim_id
          ≡ true
    unfolding action_to_claim
    is_own prefix drawn i p = starts-join prefix (join "action:" (digits i))

    -- The tally of a tick does not count the claims of that tick.
    tally-own :
        (prefix : String) (drawn : ℕ → String) (i : ℕ) (pending : List (Pending F))
        (out : Dict String ℕ)
        → tally (some prefix) (claims key session digits (some prefix) drawn i pending) out ≡ out
    unfolding tally
    tally-own prefix drawn i [] out = refl
    tally-own prefix drawn i (p ∷ pending) out =
        ap
          (λ o.
            tally (some prefix) (claims key session digits (some prefix) drawn (i + 1) pending)
              (elim o as (λ _. Dict String ℕ) [ none ↦ out | some t ↦ increment t out ]))
          (skips (some prefix)
            (action_to_claim key session p (action_claim_id digits (some prefix) drawn i))
            (is_own prefix drawn i p))
        ∙ tally-own prefix drawn (i + 1) pending out

    -- If a tick with a prefix is interrupted when any number of its claims are in the log, and the
    -- predicates return the same again, the tick called again with the same prefix plans the same actions
    -- with the same attempt indices.
    pub tick_again :
        (prefix : String) (drawn : ℕ → String) (log : List (Claim (Value F)))
        (rules : List (String × Option (Action F))) (n : ℕ)
        → tick_plan
            (some prefix)
            (log
              ++ claims key session digits
                  (some prefix)
                  drawn
                  0
                  (take n (tick_plan (some prefix) log rules)))
            rules
          ≡ tick_plan (some prefix) log rules
    unfolding tick_plan
    tick_again prefix drawn log rules n =
        let recorded = take n (tick_plan (some prefix) log rules) in
        let own = claims key session digits (some prefix) drawn 0 recorded in
        let same : tally (some prefix) (log ++ own) [] ≡ tally (some prefix) log [] =
          tally-append (some prefix) log own []
          ∙ tally-own prefix drawn 0 recorded (tally (some prefix) log []) in
        rw (same) refl
