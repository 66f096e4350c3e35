-- ===== src/Telegram/Retry.antt =====
-- services/telegram_media_retry.py: which errors of a call to Telegram are tried again, after how long,
-- and how often. Durations are milliseconds. The operation is an argument: what its k-th call does.
pub mod Attempts
pub mod Sends
pub mod Tests
use inst_video_downloader_tg.Base.{
  ℕ, zero, suc, ◌+◌, ◌-◌, ◌*◌, max, Bool, true, false, not, ◌&&◌, ◌||◌, Option, none, some, List,
  [], ◌∷◌, String, nat_eq, if◌then◌else◌,
}
use inst_video_downloader_tg.Base.Int.{ℤ, pos, negsuc}
use inst_video_downloader_tg.Base.Texts.{contains}

-- The exception classes that the code tells apart. In telegram.error, TimedOut and BadRequest are
-- kinds of NetworkError, and RetryAfter is not.
pub data ErrorClass : Type 0 where
  network_error timed_out bad_request retry_after_error other_telegram_error other_error :
      ErrorClass

-- `text` is str(error).lower(), `name` is error.__class__.__name__, and `retry_after` the attribute of
-- a RetryAfter.
pub record CallError : Type 0 where
  pub class : ErrorClass
  pub name : String
  pub text : String
  pub retry_after : ℕ

abbrev pub is_network_error : ErrorClass → Bool
is_network_error network_error = true
is_network_error timed_out = true
is_network_error bad_request = true
is_network_error _ = false

abbrev pub is_telegram_error : ErrorClass → Bool
is_telegram_error other_error = false
is_telegram_error _ = true

abbrev pub is_retry_after : ErrorClass → Bool
is_retry_after retry_after_error = true
is_retry_after _ = false

abbrev pub is_timed_out : ErrorClass → Bool
is_timed_out timed_out = true
is_timed_out _ = false

abbrev pub is_bad_request : ErrorClass → Bool
is_bad_request bad_request = true
is_bad_request _ = false

unfoldable pub is_file_too_large_error : CallError → Bool
is_file_too_large_error e =
    contains "entity too large" e.text || contains "file is too large" e.text

pub classify_telegram_delivery_error : CallError → String
classify_telegram_delivery_error e =
    if is_file_too_large_error e
    then "telegram_file_too_large"
    else if is_timed_out e.class
    then "telegram_timeout"
    else if is_retry_after e.class
    then "telegram_retry_after"
    else if is_network_error e.class
    then "telegram_network"
    else e.name

unfoldable pub is_retriable_telegram_delivery_error : CallError → Bool → Bool
is_retriable_telegram_delivery_error e retry_network_errors =
    if is_file_too_large_error e
    then false
    else if is_retry_after e.class
    then true
    else retry_network_errors && (is_network_error e.class || is_timed_out e.class)

-- Whether Telegram may have accepted the call before the transport failed
unfoldable pub is_ambiguous_telegram_delivery_error : CallError → Bool
is_ambiguous_telegram_delivery_error e = is_network_error e.class && not (is_bad_request e.class)

-- max(0.0, x)
abbrev pub at_least_zero : ℤ → ℕ
at_least_zero (pos n) = n
at_least_zero (negsuc _) = 0

-- max(1, n)
abbrev pub at_least_one : ℤ → ℕ
at_least_one (pos n) = max 1 n
at_least_one (negsuc _) = 1

unfoldable pub retry_sleep : CallError → ℤ → ℕ → ℕ
retry_sleep e backoff attempt =
    let generic_backoff = at_least_zero backoff * (attempt + 1) in
    if is_retry_after e.class then max generic_backoff e.retry_after else generic_backoff

-- What one call does
pub data Outcome {ℓ} (A : Type ℓ) : Type ℓ where
  answered : A → Outcome A
  raised : CallError → Outcome A

-- What the whole loop does; no outcome is the AssertionError of its last lines.
pub record Retried {ℓ} (A : Type ℓ) : Type ℓ where
  pub outcome : Option (Outcome A)
  pub calls : ℕ
  pub sleeps : List ℕ

-- The settings of one call of call_telegram_with_retries
pub record RetryPolicy : Type 0 where
  pub attempts : ℤ
  pub backoff : ℤ
  pub retry_network_errors : Bool

module _ {ℓ} {A : Type ℓ} where
  -- The statements after the loop
  abbrev pub raise_last : Option CallError → Option (Outcome A)
  raise_last none = none
  raise_last (some e) = some (raised e)

  abbrev pub after : ℕ → Retried A → Retried A
  after pause rest = record {
    outcome = rest.outcome;
    calls = suc rest.calls;
    sleeps = pause ∷ rest.sleeps;
  }

  -- The loop: `left` attempts of range(max_attempts) are still to come, from `attempt` on.
  unfoldable pub try_from : RetryPolicy → (ℕ → Outcome A) → ℕ → ℕ → Option CallError → Retried A
  try_from p operation zero attempt last_error = record {
    outcome = raise_last last_error;
    calls = 0;
    sleeps = [];
  }
  try_from p operation (suc left) attempt last_error =
      let rest = λ (e : CallError).
        after (retry_sleep e p.backoff attempt)
          (try_from p operation left (suc attempt) (some e)) in
      elim (operation attempt) [
        | answered a ↦ record { outcome = some (answered a); calls = 1; sleeps = [] }
        | raised e ↦
            if not (is_retriable_telegram_delivery_error e p.retry_network_errors)
              || nat_eq attempt (at_least_one p.attempts - 1)
            then record { outcome = some (raised e); calls = 1; sleeps = [] }
            else rest e
      ]

  pub call_telegram_with_retries : RetryPolicy → (ℕ → Outcome A) → Retried A
  call_telegram_with_retries p operation = try_from p operation (at_least_one p.attempts) 0 none
