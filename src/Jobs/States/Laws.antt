-- ===== src/Jobs/States/Laws.antt =====
-- What a classified failure allows.
use inst_video_downloader_tg.Base.{◌≡◌, Bool, true, false, not, arith}
use inst_video_downloader_tg.Jobs.States.{
  FailureReason, provider_rate_limited, provider_timeout, provider_unavailable, telegram_delivery,
  delivery_ambiguous, unknown, FailureStage, acquisition, delivery, Error, classify_failure,
}

-- The reasons after which an explicit retry is offered.
abbrev pub may_retry : FailureReason → Bool
may_retry provider_rate_limited = true
may_retry provider_timeout = true
may_retry provider_unavailable = true
may_retry telegram_delivery = true
may_retry unknown = true
may_retry _ = false

-- The reasons that a stage can give, when the error is `ambiguous` or not.
abbrev pub possible : FailureStage → Bool → FailureReason → Bool
possible delivery ambiguous delivery_ambiguous = ambiguous
possible delivery ambiguous provider_timeout = false
possible delivery ambiguous provider_unavailable = false
possible delivery ambiguous unknown = false
possible delivery ambiguous _ = not ambiguous
possible acquisition ambiguous delivery_ambiguous = false
possible acquisition ambiguous telegram_delivery = false
possible acquisition ambiguous _ = true

-- A failure is retryable exactly if its reason allows it, and the reason is one of its stage: an
-- ambiguous delivery gives `delivery_ambiguous` alone, a failed acquisition never a delivery reason,
-- and a failed delivery no provider timeout, provider outage or unknown reason.
classify_failure_lem :
    (e : Error) (stage : FailureStage) (ambiguous : Bool)
    → ((classify_failure e stage ambiguous).retryable
        ≡ may_retry (classify_failure e stage ambiguous).reason)
      × (possible stage ambiguous (classify_failure e stage ambiguous).reason ≡ true)
unfolding classify_failure
classify_failure_lem e delivery true = ground arith
classify_failure_lem e stage ambiguous = ground arith
