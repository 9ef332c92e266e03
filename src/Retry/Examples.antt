-- ===== src/Retry/Examples.antt =====
-- A provider that times out once and then answers, under the default policy of lipas/adapter/errors.py.
use lipas.Prelude.{
  ℕ_eq, String_eq, Option_eq, List_eq, Pair_eq, ok, ℤ_eq, zero, ℕ, suc, ◌*◌, ◌^◌, ◌≤◌, ◌<◌, ◌≡◌,
  refl, true, Option, none, some, List, [], ◌∷◌, arith,
}
use lipas.Adapter.Types.{Usage, Reply, error, end_turn, StreamEvent, done, network_error, complete}
use lipas.Adapter.Errors.{ErrorKind, RetryPolicy, default_policy}
use lipas.Retry.Loop.{RetryOutcome, call_with_retry}
use lipas.Retry.Attempts.{IsLast, call_with_retry-IsLast}

abbrev used : Usage
used = record { input = 3; output = 1; cache_read = 0; cache_write = 0 }

abbrev reply_at : ℕ → Reply
reply_at zero = record {
  content = [];
  usage = used;
  stop_reason = error;
  error_detail = some (network_error "ReadTimeout");
}
reply_at (suc i) = record {
  content = "hello" ∷ [];
  usage = used;
  stop_reason = end_turn;
  error_detail = none;
}

abbrev streams : ℕ → List StreamEvent
streams i = done (reply_at i) ∷ []

abbrev policies : ErrorKind → Option (RetryPolicy ℕ)
policies k = some (default_policy k)

abbrev doubled : ℕ → ℕ → ℕ
doubled base attempt = base * 2 ^ attempt

answers : (i : ℕ) → complete (streams i) ≡ some (reply_at i)
unfolding complete
answers i = refl

within_five : (k : ErrorKind) → (default_policy k).max_attempts ≤ 5
within_five k = ground arith

call_with_retry-IsLast_example :
    (m : ℕ) × (m < 5)
    × (o : RetryOutcome ℕ) × (call_with_retry doubled (λ t. t) policies true streams 5 ≡ ok o)
    × IsLast doubled (λ t. t) policies true streams reply_at default_policy m o
call_with_retry-IsLast_example =
    call_with_retry-IsLast doubled (λ t. t) policies true streams reply_at default_policy answers
      (λ k. refl) 5 (omega arith) within_five
