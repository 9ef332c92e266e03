-- ===== src/Calculus/Assignments.antt =====
-- lipas/calculus.py, the `last_write` and `keep` assignments.
use lipas.Prelude.{Option, none, some, List, [], ◌∷◌, ◌≡◌, refl}
use lipas.Calculus.Context.{BeliefContext}
use lipas.Calculus.Strategies.{strategy_keep, strategy_last_write}

module _ {A : Type 0} where
  -- The values that one field receives, the one that it has first.
  abbrev pub received :
      (Option A → Option A → BeliefContext → Option A)
      → BeliefContext
      → Option A
      → List (Option A)
      → Option A
  received f ctx held [] = held
  received f ctx held (v ∷ later) = received f ctx (f held v ctx) later

  -- The values that are not `None`.
  abbrev pub given : List (Option A) → List A
  given [] = []
  given (none ∷ later) = given later
  given (some v ∷ later) = v ∷ given later

  abbrev pub first_of : List A → Option A
  first_of [] = none
  first_of (v ∷ vs) = some v

  -- The last of some values, or else `held`.
  abbrev pub last_of : Option A → List A → Option A
  last_of held [] = held
  last_of held (v ∷ vs) = last_of (some v) vs

  module _ (ctx : BeliefContext) where
    keep_held : (a : A) (vs : List (Option A)) → received strategy_keep ctx (some a) vs ≡ some a
    unfolding strategy_keep
    keep_held a [] = refl
    keep_held a (v ∷ vs) = keep_held a vs

    keep-first : (vs : List (Option A)) → received strategy_keep ctx none vs ≡ first_of (given vs)
    unfolding strategy_keep
    keep-first [] = refl
    keep-first (none ∷ vs) = keep-first vs
    keep-first (some v ∷ vs) = keep_held v vs

    last_write-last :
        (held : Option A) (vs : List (Option A))
        → received strategy_last_write ctx held vs ≡ last_of held (given vs)
    unfolding strategy_last_write
    last_write-last held [] = refl
    last_write-last held (none ∷ vs) = last_write-last held vs
    last_write-last held (some v ∷ vs) = last_write-last (some v) vs

    -- Whatever values a field receives in a row, starting without one: under `strategy_keep` it ends
    -- with the first of them that is not `None`, under `strategy_last_write` with the last, and with
    -- `None` only if all are.
    pub assignments_of_runs :
        (vs : List (Option A))
        → (received strategy_keep ctx none vs ≡ first_of (given vs))
          × (received strategy_last_write ctx none vs ≡ last_of none (given vs))
    assignments_of_runs vs = (keep-first vs, last_write-last none vs)
