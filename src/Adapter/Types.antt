-- ===== src/Adapter/Types.antt =====
-- lipas/adapter/types.py and `complete` of lipas/adapter/protocol.py.
use lipas.Prelude.{
  ℕ_eq, String_eq, Option_eq, List_eq, Pair_eq, ℤ_eq, ℕ, ◌+◌, String, Bool, true, false, not,
  Option, none, some, List, [], ◌∷◌,
}

pub record Usage : Type 0 where
  pub input : ℕ
  pub output : ℕ
  pub cache_read : ℕ
  pub cache_write : ℕ

abbrev pub no_usage : Usage
no_usage = record { input = 0; output = 0; cache_read = 0; cache_write = 0 }

-- `Usage.__add__`
abbrev pub add_usage : Usage → Usage → Usage
add_usage a b = record {
  input = a.input + b.input;
  output = a.output + b.output;
  cache_read = a.cache_read + b.cache_read;
  cache_write = a.cache_write + b.cache_write;
}

-- `Usage.total`
abbrev pub total : Usage → ℕ
total u = u.input + u.output + u.cache_read + u.cache_write

pub data StopReason : Type 0 where
  end_turn : StopReason
  max_tokens : StopReason
  stop_sequence : StopReason
  tool_use : StopReason
  error : StopReason

abbrev pub is_error : StopReason → Bool
is_error error = true
is_error _ = false

-- The three texts of a provider's error that the classifier joins; an absent one is "".
pub record Descriptor : Type 0 where
  pub type : String
  pub code : String
  pub message : String

-- The shapes of `Reply.error_detail`. The body of an HTTP error is its inner error, if it is a mapping.
pub data ErrorDetail : Type 0 where
  http_error : ℕ → Descriptor → ErrorDetail
  network_error : String → ErrorDetail
  provider_error : Descriptor → ErrorDetail
  other_error : ErrorDetail

pub record Reply : Type 0 where
  pub content : List String
  pub usage : Usage
  pub stop_reason : StopReason
  pub error_detail : Option ErrorDetail

-- `Reply.__post_init__`: an error reply has a detail, and no other reply has one.
abbrev pub is_valid_reply : Reply → Bool
is_valid_reply r = elim r.error_detail [
  | none ↦ not (is_error r.stop_reason)
  | some detail ↦ is_error r.stop_reason
]

-- The events of a stream; every one but `Done` is visible output.
pub data StreamEvent : Type 0 where
  visible : StreamEvent
  done : Reply → StreamEvent

-- `complete`: the reply of the first `Done`, or none if the stream ends without one, which raises.
unfoldable pub complete : List StreamEvent → Option Reply
complete [] = none
complete (visible ∷ events) = complete events
complete (done reply ∷ events) = some reply

-- `visible_event` after the stream was consumed by a caller that listens.
unfoldable pub has_visible : List StreamEvent → Bool
has_visible [] = false
has_visible (visible ∷ events) = true
has_visible (done reply ∷ events) = false
