-- ===== src/Adapter/Errors.antt =====
-- lipas/adapter/errors.py: error kinds, the classifier, and retry policies. `lower` is Python's
-- `str.lower`, and `F` the type of the delays.
use lipas.Prelude.{
  ◌==◌, ℕ_eq, String_eq, Option_eq, List_eq, Pair_eq, ℤ_eq, contains, ltb, leb, if◌then◌else◌, ℕ,
  String, Bool, true, false, ◌&&◌, ◌||◌, Option, none, some, List, [], ◌∷◌,
}
use lipas.Text.{join, within}
use lipas.Adapter.Types.{
  is_error, Descriptor, ErrorDetail, http_error, network_error, provider_error, other_error, Reply,
}

pub data ErrorKind : Type 0 where
  rate_limit : ErrorKind
  timeout : ErrorKind
  network : ErrorKind
  server_error : ErrorKind
  auth : ErrorKind
  invalid_request : ErrorKind
  context_length : ErrorKind
  content_filter : ErrorKind
  unknown : ErrorKind

-- `ErrorKind.is_transient`
abbrev pub is_transient : ErrorKind → Bool
is_transient rate_limit = true
is_transient timeout = true
is_transient network = true
is_transient server_error = true
is_transient _ = false

-- `_TIMEOUT_EXC_NAMES`
abbrev pub timeout_names : List String
timeout_names =
    "ReadTimeout" ∷ "WriteTimeout" ∷ "PoolTimeout" ∷ "ConnectTimeout" ∷ "TimeoutException" ∷ []

module _ (lower : String → String) where
  -- `" ".join(...).lower()`
  abbrev pub describe : Descriptor → String
  describe d = lower (join d.type (join " " (join d.code (join " " d.message))))

  abbrev pub is_context : String → Bool
  is_context text = within "context" text || within "too long" text

  unfoldable pub classify_http : ℕ → Descriptor → ErrorKind
  classify_http status body =
      if status == 429
      then rate_limit
      else if status == 408
      then timeout
      else if status == 401 || status == 403
      then auth
      else if status == 400
      then (if is_context (describe body) then context_length else invalid_request)
      else if leb 400 status && ltb status 500
      then invalid_request
      else if leb 500 status && ltb status 600
      then server_error
      else unknown

  abbrev pub classify_text : String → ErrorKind
  classify_text text =
      if within "rate_limit" text || within "too many requests" text
      then rate_limit
      else if within "overloaded" text || within "server_error" text
      then server_error
      else if within "authentication" text
          || within "permission" text
          || within "unauthorized" text
          || within "invalid_api_key" text
      then auth
      else if is_context text
      then context_length
      else if within "invalid_request" text || within "invalid_parameter" text
      then invalid_request
      else if within "content_policy" text || within "content_filter" text
      then content_filter
      else unknown

  unfoldable pub classify_provider : Descriptor → ErrorKind
  classify_provider d = classify_text (describe d)

  abbrev pub classify_detail : Option ErrorDetail → ErrorKind
  classify_detail none = unknown
  classify_detail (some (http_error status body)) = classify_http status body
  classify_detail (some (network_error name)) =
      if contains timeout_names name then timeout else network
  classify_detail (some (provider_error d)) = classify_provider d
  classify_detail (some other_error) = unknown

  -- `classify`: a reply that is not an error raises `ValueError`.
  unfoldable pub classify : Reply → Option ErrorKind
  classify reply =
      if is_error reply.stop_reason then some (classify_detail reply.error_detail) else none

pub record RetryPolicy (F : Type 0) : Type 0 where
  pub should_retry : Bool
  pub base_delay : F
  pub max_attempts : ℕ

-- `RetryPolicy.__post_init__`, with the test of a delay: finite and not negative.
abbrev pub is_valid_policy : {F : Type 0} → (F → Bool) → RetryPolicy F → Bool
is_valid_policy valid_delay p =
    valid_delay p.base_delay && leb 1 p.max_attempts && (p.should_retry || p.max_attempts == 1)

-- `DEFAULT_POLICY`, in seconds.
abbrev pub default_policy : ErrorKind → RetryPolicy ℕ
default_policy rate_limit = record { should_retry = true; base_delay = 2; max_attempts = 5 }
default_policy timeout = record { should_retry = true; base_delay = 1; max_attempts = 3 }
default_policy network = record { should_retry = true; base_delay = 1; max_attempts = 3 }
default_policy server_error = record { should_retry = true; base_delay = 2; max_attempts = 4 }
default_policy _ = record { should_retry = false; base_delay = 0; max_attempts = 1 }
