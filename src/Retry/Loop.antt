-- ===== src/Retry/Loop.antt =====
-- lipas/retry.py: `call_with_retry`. A provider is the function from an attempt's index to the events of
-- its stream; `F` is the type of delays.
use lipas.Prelude.{
  ℕ_eq, String_eq, Option_eq, List_eq, Pair_eq, Result, ok, err, ℤ_eq, leb, zero, ℕ, suc, ◌+◌,
  String, Bool, true, false, ◌&&◌, ◌||◌, Option, none, some, List, [], ◌∷◌, ◌++◌, not,
}
use lipas.Attempt.{◌>>=◌, ◌>>◌, guard, required}
use lipas.Adapter.Types.{Usage, no_usage, add_usage, Reply, StreamEvent, complete, has_visible}
use lipas.Adapter.Errors.{ErrorKind, classify, RetryPolicy}

pub data RetryError : Type 0 where
  stream_protocol_error : RetryError
  -- A partial policy table.
  key_error : ErrorKind → RetryError
  value_error : RetryError
  -- The bound on the rounds is not the program's.
  out_of_fuel : RetryError

pub record RetryOutcome (F : Type 0) : Type 0 where
  pub reply : Reply
  pub attempts : ℕ
  pub total_usage : Usage
  -- The upper ends of the random delays that were slept.
  pub ceilings : List F

-- `RetryOutcome.__post_init__`
abbrev pub covers : Usage → Usage → Bool
covers sum last =
    leb last.input sum.input
    && leb last.output sum.output
    && leb last.cache_read sum.cache_read
    && leb last.cache_write sum.cache_write

module _ {F : Type 0} where
  unfoldable pub make_outcome : Reply → ℕ → Usage → List F → Result RetryError (RetryOutcome F)
  make_outcome reply attempts sum ceilings = do
    guard (leb 1 attempts && covers sum reply.usage) value_error
    ok (record { reply = reply; attempts = attempts; total_usage = sum; ceilings = ceilings })

  -- The test after an error reply: it was the last attempt.
  abbrev pub gives_up : Bool → RetryPolicy F → ℕ → Bool
  gives_up visible_event policy attempts_made =
      visible_event || not policy.should_retry || leb policy.max_attempts attempts_made

module _ {F : Type 0} (scale : F → ℕ → F) (lower : String → String)
    (table : ErrorKind → Option (RetryPolicy F)) (listens : Bool)
    (provider : ℕ → List StreamEvent) where
  -- The end of a round after an error, given whether this was the last attempt.
  abbrev pub decided :
      Bool
      → F
      → Reply
      → ℕ
      → Usage
      → List F
      → (List F → Result RetryError (RetryOutcome F))
      → Result RetryError (RetryOutcome F)
  decided true delay reply attempt sum ceilings again =
      make_outcome reply (attempt + 1) sum ceilings
  decided false delay reply attempt sum ceilings again =
      again (ceilings ++ scale delay attempt ∷ [])

  -- The rest of a round, given the kind of the reply's error.
  abbrev pub judged :
      Option ErrorKind
      → Reply
      → ℕ
      → Usage
      → List F
      → (List F → Result RetryError (RetryOutcome F))
      → Result RetryError (RetryOutcome F)
  judged none reply attempt sum ceilings again = make_outcome reply (attempt + 1) sum ceilings
  judged (some kind) reply attempt sum ceilings again =
      required (key_error kind) (table kind) >>= λ policy.
      decided (gives_up (listens && has_visible (provider attempt)) policy (attempt + 1))
        policy.base_delay reply attempt sum ceilings again

  -- The loop, from an attempt on: the usage so far and the delays so far.
  unfoldable pub rounds : ℕ → ℕ → Usage → List F → Result RetryError (RetryOutcome F)
  rounds zero attempt sum ceilings = err out_of_fuel
  rounds (suc fuel) attempt sum ceilings =
      required stream_protocol_error (complete (provider attempt)) >>= λ reply.
      judged (classify lower reply) reply attempt (add_usage sum reply.usage) ceilings
        (λ slept. rounds fuel (attempt + 1) (add_usage sum reply.usage) slept)

  -- `call_with_retry`
  unfoldable pub call_with_retry : ℕ → Result RetryError (RetryOutcome F)
  call_with_retry fuel = rounds fuel 0 no_usage []
