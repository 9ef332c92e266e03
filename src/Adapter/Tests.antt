-- ===== src/Adapter/Tests.antt =====
-- Runs of lipas/adapter/errors.py.
use lipas.Prelude.{ℕ_eq, String_eq, Option_eq, List_eq, Pair_eq, ℤ_eq, ◌≡◌, refl, some, [], arith}
use lipas.Adapter.Types.{error, no_usage, http_error}
use lipas.Adapter.Errors.{
  ErrorKind, classify, classify_http, classify_provider, context_length, rate_limit, is_transient,
  default_policy,
}

overlong :
    classify
      (λ t. t)
      (record {
        content = [];
        usage = no_usage;
        stop_reason = error;
        error_detail = some (
            http_error 400
              (record { type = "invalid"; code = ""; message = "prompt is too long" }));
      })
    ≡ some context_length
unfolding classify classify_http
overlong = refl

limited :
    classify_provider (λ t. t) (record { type = "rate_limit_error"; code = ""; message = "" })
    ≡ rate_limit
unfolding classify_provider
limited = refl

-- The default policy retries just the transient kinds.
default_policy-is_transient : (k : ErrorKind) → (default_policy k).should_retry ≡ is_transient k
default_policy-is_transient k = ground arith
