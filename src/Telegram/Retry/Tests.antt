-- ===== src/Telegram/Retry/Tests.antt =====
-- A send that Telegram first throttles, and then answers.
use inst_video_downloader_tg.Base.{
  ℕ, zero, suc, ◌≤◌, ◌<◌, ◌≡◌, refl, true, false, some, String, get_elem?, length, arith,
}
use inst_video_downloader_tg.Base.Int.{pos}
use inst_video_downloader_tg.Base.Texts.{contains, has_prefix}
use inst_video_downloader_tg.Telegram.Retry.{
  CallError, retry_after_error, RetryPolicy, Outcome, answered, raised, is_retry_after,
  is_file_too_large_error, is_retriable_telegram_delivery_error,
  is_ambiguous_telegram_delivery_error, at_least_one, try_from, call_telegram_with_retries,
}
use inst_video_downloader_tg.Telegram.Retry.Attempts.{LastAttempt, call_ends}
use inst_video_downloader_tg.Telegram.Retry.Sends.{never_sent_twice}

abbrev throttled : CallError
throttled = record {
  class = retry_after_error;
  name = "RetryAfter";
  text = "flood control exceeded. retry in 3 seconds";
  retry_after = 3000;
}

abbrev policy : RetryPolicy
policy = record { attempts = pos 3; backoff = pos 500; retry_network_errors = false }

abbrev send : ℕ → Outcome String
send zero = raised throttled
send (suc k) = answered "m1"

two_calls : (call_telegram_with_retries policy send).calls ≡ 2
unfolding call_telegram_with_retries try_from is_retriable_telegram_delivery_error
    is_file_too_large_error contains has_prefix
two_calls = refl

call_ends_example :
    let r = call_telegram_with_retries policy send in
    (i : ℕ) × (r.calls ≡ suc i)
    × (i < at_least_one policy.attempts)
    × (r.outcome ≡ some (send i))
    × (length r.sleeps ≡ i)
    × LastAttempt policy send i
call_ends_example = call_ends policy send

never_sent_twice_example :
    (e : CallError) × (send 0 ≡ raised e)
    × (is_retry_after e.class ≡ true)
    × (is_ambiguous_telegram_delivery_error e ≡ false)
    × (pause : ℕ) × (get_elem? (call_telegram_with_retries policy send).sleeps 0 ≡ some pause)
    × (e.retry_after ≤ pause)
never_sent_twice_example = never_sent_twice policy send 0 refl (rw two_calls (omega arith))
