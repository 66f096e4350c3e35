-- ===== src/Jobs/States.antt =====
-- services/job_states.py
pub mod Laws
use inst_video_downloader_tg.Base.{
  Bool, true, false, ◌&&◌, ◌||◌, List, [], ◌∷◌, String, if◌then◌else◌,
}
use inst_video_downloader_tg.Base.Texts.{contains, contains_any}

pub data JobState : Type 0 where
  queued running completed failed cancelled : JobState

-- JobState(...).value
abbrev pub state_value : JobState → String
state_value queued = "queued"
state_value running = "running"
state_value completed = "completed"
state_value failed = "failed"
state_value cancelled = "cancelled"

pub data FailureReason : Type 0 where
  unsupported_url authentication_required media_unavailable file_too_large provider_rate_limited :
      FailureReason
  provider_timeout provider_unavailable telegram_delivery delivery_ambiguous unknown : FailureReason

abbrev pub reason_value : FailureReason → String
reason_value unsupported_url = "unsupported_url"
reason_value authentication_required = "authentication_required"
reason_value media_unavailable = "media_unavailable"
reason_value file_too_large = "file_too_large"
reason_value provider_rate_limited = "provider_rate_limited"
reason_value provider_timeout = "provider_timeout"
reason_value provider_unavailable = "provider_unavailable"
reason_value telegram_delivery = "telegram_delivery"
reason_value delivery_ambiguous = "delivery_ambiguous"
reason_value unknown = "unknown"

pub data FailureStage : Type 0 where
  acquisition delivery : FailureStage

pub record FailureDetails : Type 0 where
  pub reason : FailureReason
  pub retryable : Bool

-- The exception classes that the code tells apart with isinstance. `timed_out` and `bad_request` are
-- the subclasses of python-telegram-bot's NetworkError, `timeout_error` is Python's TimeoutError.
pub data ErrorKind : Type 0 where
  authentication_error retry_after timed_out bad_request network_error timeout_error other_error :
      ErrorKind

-- What the code reads of an exception: its class, and str(error) and its name in lower case,
-- and the name as it is.
pub record Error : Type 0 where
  pub kind : ErrorKind
  pub text : String
  pub class_name : String
  pub name : String

abbrev pub is_authentication : ErrorKind → Bool
is_authentication authentication_error = true
is_authentication _ = false

abbrev pub is_retry_after : ErrorKind → Bool
is_retry_after retry_after = true
is_retry_after _ = false

-- isinstance(error, (TimeoutError, TimedOut))
abbrev pub is_timeout : ErrorKind → Bool
is_timeout timed_out = true
is_timeout timeout_error = true
is_timeout _ = false

-- isinstance(error, NetworkError)
abbrev pub is_network : ErrorKind → Bool
is_network timed_out = true
is_network bad_request = true
is_network network_error = true
is_network _ = false

abbrev pub is_delivery : FailureStage → Bool
is_delivery delivery = true
is_delivery acquisition = false

abbrev authentication_words : List String
authentication_words =
    "authentication failed" ∷ "cookies have expired" ∷ "login required" ∷ "authorization failed"
    ∷ "auth challenge" ∷ []

abbrev unsupported_words : List String
unsupported_words = "unsupported" ∷ "not supported" ∷ []

abbrev too_large_words : List String
too_large_words = "file is too large" ∷ "file too large" ∷ "entity too large" ∷ []

abbrev rate_words : List String
rate_words = "rate limit" ∷ "rate-limit" ∷ "too many requests" ∷ []

abbrev timeout_words : List String
timeout_words = "timed out" ∷ "timeout" ∷ []

abbrev unavailable_words : List String
unavailable_words =
    "private account" ∷ "private media" ∷ "media unavailable" ∷ "not found" ∷ "has been removed"
    ∷ "deleted" ∷ []

abbrev provider_words : List String
provider_words =
    "no instagram accounts" ∷ "no accounts available" ∷ "temporarily unavailable" ∷ "connection"
    ∷ "network" ∷ []

abbrev details : FailureReason → Bool → FailureDetails
details reason again = record { reason = reason; retryable = again }

unfoldable pub classify_failure : Error → FailureStage → Bool → FailureDetails
classify_failure e stage ambiguous =
    if is_delivery stage && ambiguous
    then details delivery_ambiguous false
    else if is_authentication e.kind || contains_any e.text authentication_words
    then details authentication_required false
    else if contains_any e.text unsupported_words
    then details unsupported_url false
    else if contains_any e.text too_large_words
    then details file_too_large false
    else if is_retry_after e.kind || contains_any e.text rate_words
    then details provider_rate_limited true
    else if is_timeout e.kind
        || (contains "timeout" e.class_name || contains_any e.text timeout_words)
    then details (if is_delivery stage then telegram_delivery else provider_timeout) true
    else if contains_any e.text unavailable_words
    then details media_unavailable false
    else if is_delivery stage
    then details telegram_delivery true
    else if is_network e.kind || contains_any e.text provider_words
    then details provider_unavailable true
    else details unknown true
