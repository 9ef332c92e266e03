-- ===== src/Supervisor/Numbering.antt =====
-- lipas/supervisor.py: ticks in a row, with and without prefixes for their claim ids, and the attempt indices of the retries that ticks recommend.
use lipas.Text.{join}
use lipas.Prelude.{
  ℕ_eq, String_eq, Option_eq, List_eq, Pair_eq, ℤ_eq, length, length-append, ℕ, ◌+◌, String, ◌≡◌,
  refl, ◌∙◌, ap, subst, Option, none, some, List, [], ◌∷◌, ◌++◌, arith, ◌==◌, Bool, true, ◌&&◌, not,
  false, Bool-cases, inl, inr,
}
use lipas.Dict.{Dict, get}
use lipas.Calculus.Claim.{Claim, value}
use lipas.Serialization.Value.{Value}
use lipas.Rows.Effect.Shapes.{field, as_text}
use lipas.Supervisor.Tick.{
  Action, retry, terminate, escalate, Pending, count_of, increment, tallied, tally, tick_plan,
  action_to_claim, excluded, tag_supervisor_retry,
}
use lipas.Supervisor.Planning.{
  IsNumbered, attempt_of, attempts, count_of-increment, IsNumbered-append, attempts-append,
  plan-IsNumbered, empty_tick,
}

-- A call of `tick`: the prefix of its claim ids, the ids that its claims draw when there is no prefix,
-- and its rules with what their predicates return.
pub record TickCall (F : Type 0) : Type 0 where
  pub prefix : Option String
  pub drawn : ℕ → String
  pub rules : List (String × Option (Action F))

-- `f"{claim_id_prefix}:action:{action_index}"`, or the id that the claim draws.
abbrev pub action_claim_id : (ℕ → String) → Option String → (ℕ → String) → ℕ → String
action_claim_id digits none drawn i = drawn i
action_claim_id digits (some prefix) drawn i = join prefix (join ":action:" (digits i))

module _ {F : Type 0} where
  abbrev target_of : Action F → Option String
  target_of (retry target most reason) = some target
  target_of (terminate reason) = none
  target_of (escalate reason payload) = none

  abbrev counted : Action F → Dict String ℕ → Dict String ℕ
  counted a out = elim (target_of a) [ none ↦ out | some target ↦ increment target out ]

  counted_attempt :
      (target : String) (a : Action F) (index : ℕ) (out : Dict String ℕ)
      → count_of target (counted a out) ≡ count_of target out + length (attempt_of target a index)
  unfolding attempt_of
  counted_attempt target (retry other most reason) index out =
      ground (arith, count_of-increment other target out)
  counted_attempt target (terminate reason) index out = omega arith
  counted_attempt target (escalate reason payload) index out = omega arith

  tallied_fresh :
      (prefix : Option String) (c : Claim (Value F))
      → (c.tag == tag_supervisor_retry && excluded prefix c.claim_id) ≡ false
      → tallied prefix c ≡ tallied none c
  unfolding tallied
  tallied_fresh prefix c fresh = elim (Bool-cases (c.tag == tag_supervisor_retry)) [
    | inl is_retry ↦
        let counted_too : excluded prefix c.claim_id ≡ false = ground arith in
        rw (is_retry, counted_too) refl
    | inr other ↦ rw (other) refl
  ]

  pub tally-append :
      (prefix : Option String) (xs ys : List (Claim (Value F))) (out : Dict String ℕ)
      → tally prefix (xs ++ ys) out ≡ tally prefix ys (tally prefix xs out)
  unfolding tally
  tally-append prefix [] ys out = refl
  tally-append prefix (c ∷ xs) ys out = tally-append prefix xs ys _

  -- No retry that the log has is one of a tick with this prefix.
  abbrev pub is_fresh : Option String → List (Claim (Value F)) → Bool
  is_fresh prefix [] = true
  is_fresh prefix (c ∷ log) =
      not (c.tag == tag_supervisor_retry && excluded prefix c.claim_id) && is_fresh prefix log

  -- The tally with a fresh prefix counts every retry of the log.
  tally_fresh :
      (prefix : Option String) (log : List (Claim (Value F))) (out : Dict String ℕ)
      → is_fresh prefix log ≡ true
      → tally prefix log out ≡ tally none log out
  unfolding tally
  tally_fresh prefix [] out fresh = refl
  tally_fresh prefix (c ∷ log) out fresh =
      let now : tallied prefix c ≡ tallied none c = tallied_fresh prefix c (ground arith) in
      rw (now) (tally_fresh prefix log _ (ground arith))

  module _ (key : String → String → ℕ → String) (session : String) (digits : ℕ → String) where
    -- The claims of a tick's actions, counted from `i`.
    abbrev pub claims : Option String → (ℕ → String) → ℕ → List (Pending F) → List (Claim (Value F))
    claims prefix drawn i [] = []
    claims prefix drawn i (p ∷ pending) =
        action_to_claim key session p (action_claim_id digits prefix drawn i)
        ∷ claims prefix drawn (i + 1) pending

    -- The log with the claims of a tick.
    abbrev pub ticked : TickCall F → List (Claim (Value F)) → List (Claim (Value F))
    ticked t log = log ++ claims t.prefix t.drawn 0 (tick_plan t.prefix log t.rules)

    -- What the ticks recommend, each on the log with the claims of the ticks before it.
    unfoldable pub ticks : List (Claim (Value F)) → List (TickCall F) → List (Pending F)
    ticks log [] = []
    ticks log (t ∷ later) = tick_plan t.prefix log t.rules ++ ticks (ticked t log) later

    -- The prefix of each tick, if it has one, is not that of retries that the log has by then.
    abbrev pub AreFresh : List (Claim (Value F)) → List (TickCall F) → Type 0
    AreFresh log [] = Unit
    AreFresh log (t ∷ later) = (is_fresh t.prefix log ≡ true) × AreFresh (ticked t log) later

    tallied_action :
        (a : Action F) (rule : String) (index : ℕ) (id : String)
        → tallied none (
            action_to_claim key session
              (record { action = a; rule = rule; attempt_index = index })
              id)
          ≡ target_of a
    unfolding action_to_claim tallied field value as_text get
    tallied_action (retry target most reason) rule index id = refl
    tallied_action (terminate reason) rule index id = refl
    tallied_action (escalate reason payload) rule index id = refl

    tally-claims :
        (target : String) (prefix : Option String) (drawn : ℕ → String) (i : ℕ)
        (pending : List (Pending F)) (out : Dict String ℕ)
        → count_of target (tally none (claims prefix drawn i pending) out)
          ≡ count_of target out + length (attempts target pending)
    unfolding tally attempts
    tally-claims target prefix drawn i [] out = omega arith
    tally-claims target prefix drawn i (p ∷ pending) out =
        let rest : count_of target (counted p.action out) + length (attempts target pending)
            ≡ count_of target out
              + length (attempt_of target p.action p.attempt_index ++ attempts target pending) =
          rw
            (
              counted_attempt target p.action p.attempt_index out,
              length-append (attempt_of target p.action p.attempt_index) (attempts target pending),
            )
            (omega arith) in
        ap
          (λ o. count_of target (
            tally none (claims prefix drawn (i + 1) pending)
              (elim o as (λ _. Dict String ℕ) [ none ↦ out | some t ↦ increment t out ])))
          (tallied_action p.action p.rule p.attempt_index (action_claim_id digits prefix drawn i))
        ∙ tally-claims target prefix drawn (i + 1) pending (counted p.action out)
        ∙ rest

    -- Over any ticks, whatever the predicates return, if each tick's claims are in the log of the next
    -- and no tick has a claim-id prefix with which the log has retries already: the retries recommended
    -- for one effect are numbered without a gap or a repetition, from the number of retries that the log
    -- had for it, and no number is above the maximum that its action gives.
    pub ticks-IsNumbered :
        (target : String) (log : List (Claim (Value F))) (calls : List (TickCall F))
        → AreFresh log calls
        → IsNumbered (count_of target (tally none log [])) (attempts target (ticks log calls))
    unfolding ticks tick_plan attempts
    ticks-IsNumbered target log [] fresh = tt
    ticks-IsNumbered target log (t ∷ later) (fresh, fresh') =
        let pending = tick_plan t.prefix log t.rules in
        let n = count_of target (tally none log []) in
        let same : count_of target (tally t.prefix log []) ≡ n =
          ap (count_of target) (tally_fresh t.prefix log [] fresh) in
        let now : IsNumbered n (attempts target pending) =
          subst (λ m. IsNumbered m (attempts target pending))
            (empty_tick (count_of target (tally t.prefix log [])) target ∙ same)
            (plan-IsNumbered target (tally t.prefix log []) [] t.rules) in
        let grown : count_of target (tally none (ticked t log) [])
            ≡ n + length (attempts target pending) =
          ap (count_of target) (tally-append none log (claims t.prefix t.drawn 0 pending) [])
          ∙ tally-claims target t.prefix t.drawn 0 pending (tally none log []) in
        rw (attempts-append target pending (ticks (ticked t log) later)) (
          IsNumbered-append n (attempts target pending)
            (attempts target (ticks (ticked t log) later)) now
            (subst (λ m. IsNumbered m (attempts target (ticks (ticked t log) later))) grown
              (ticks-IsNumbered target (ticked t log) later fresh')))
