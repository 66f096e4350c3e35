-- ===== src/Telegram/Retry/Sends.antt =====
-- Calls that give up on network errors, as those that send media do.
use inst_video_downloader_tg.Base.{
  ℕ, suc, ◌+◌, ◌*◌, ◌≤◌, ◌<◌, ◌≡◌, true, false, not, ◌&&◌, some, arith, get_elem?, max,
  if◌then◌else◌,
}
use inst_video_downloader_tg.Telegram.Retry.{
  CallError, ErrorClass, RetryPolicy, Outcome, raised, is_retry_after, is_network_error,
  is_bad_request, is_retriable_telegram_delivery_error, is_ambiguous_telegram_delivery_error,
  retry_sleep, at_least_zero, call_telegram_with_retries,
}
use inst_video_downloader_tg.Telegram.Retry.Attempts.{earlier_attempts}

only_retry_after :
    (e : CallError)
    → is_retriable_telegram_delivery_error e false ≡ true
    → is_retry_after e.class ≡ true
unfolding is_retriable_telegram_delivery_error
only_retry_after e h = ground (arith, h)

not_ambiguous :
    (c : ErrorClass)
    → is_retry_after c ≡ true
    → (is_network_error c && not (is_bad_request c)) ≡ false
not_ambiguous c h = ground (arith, h)

waits :
    (n : ℕ) (e : CallError) (k : ℕ)
    → is_retry_after e.class ≡ true
    → e.retry_after
      ≤ (if is_retry_after e.class then max (n * (k + 1)) e.retry_after else n * (k + 1))
waits n e k h = rw h (omega arith)

-- Without retries of network errors no call is made again after one that Telegram may have accepted, so
-- nothing is sent twice: each attempt but the last raised a RetryAfter, which is not ambiguous, and the next one waited
-- at least as long as that asked for.
pub never_sent_twice {ℓ} :
    {A : Type ℓ} (p : RetryPolicy) (operation : ℕ → Outcome A) (k : ℕ)
    → p.retry_network_errors ≡ false
    → suc k < (call_telegram_with_retries p operation).calls
    → (e : CallError) × (operation k ≡ raised e)
      × (is_retry_after e.class ≡ true)
      × (is_ambiguous_telegram_delivery_error e ≡ false)
      × (pause : ℕ) × (get_elem? (call_telegram_with_retries p operation).sleeps k ≡ some pause)
      × (e.retry_after ≤ pause)
unfolding is_ambiguous_telegram_delivery_error
never_sent_twice p operation k off l =
    let (e, q, again, pause) = earlier_attempts p operation k l in
    let h = only_retry_after e (rw (← off) again) in
    (
      e,
      q,
      h,
      not_ambiguous e.class h,
      retry_sleep e p.backoff k,
      pause,
      unfold retry_sleep in waits (at_least_zero p.backoff) e k h,
    )
