-- ===== src/Inline/Bot.antt =====
-- The state of TelegramBot (services/telegram_bot.py) that inline delivery reads and writes: the tables
-- of its StateStore, the tokens in delivery and the delivery tasks. A step is the code between two awaits;
-- within a step the clock stands still.
use Prim.Native.String.{◌++◌ as append}
use inst_video_downloader_tg.Base.{
  ℕ, Bool, true, false, Option, List, ◌∷◌, String, ◌==◌, if◌then◌else◌,
}
use inst_video_downloader_tg.Base.Int.{ℤ, pos}
use inst_video_downloader_tg.Sql.{delete}
use inst_video_downloader_tg.Store.InlineSessions.{
  InlineSession, failed, Outcome, claimed, claim_inline_delivery, mark_inline_session_status,
}
use inst_video_downloader_tg.Store.Payments.{Payment}
use inst_video_downloader_tg.Store.RateLimit.{RateEvent, RateVerdict, check_user_rate_limit}
use inst_video_downloader_tg.Store.Access.{
  WhitelistRow, Subscription, PromoUsage, record_inline_promo_success,
}
use inst_video_downloader_tg.Store.Events.{DeliveryEvent, record_inline_delivery_event}
use inst_video_downloader_tg.Store.Cache.{InlineMedia}
use inst_video_downloader_tg.Store.Runtime.{RuntimeRow}

-- The values of config/settings.py that inline delivery reads
pub record Config : Type 0 where
  pub inline_mode_enabled : Bool
  pub inline_storage_chat_id : Option ℤ
  pub inline_subscription_required : Bool
  pub inline_free_successful_deliveries : ℕ
  pub inline_one_time_claim_recovery : ℕ
  pub inline_session_ttl : ℕ
  pub inline_subscription_period : ℕ
  pub user_rate_limit_requests : ℕ
  pub user_rate_limit_window_seconds : ℕ

pub record Bot : Type 0 where
  pub sessions : List InlineSession
  pub payments : List Payment
  pub rates : List RateEvent
  pub whitelist : List WhitelistRow
  pub subscriptions : List Subscription
  pub promos : List PromoUsage
  pub events : List DeliveryEvent
  pub media : List InlineMedia
  pub runtime : List RuntimeRow
  pub delivery_tokens : List String
  pub delivery_tasks : List (String × ℕ)

-- What a step takes from outside: the clock, a uuid for a new row, and the id of a new task
pub record Tick : Type 0 where
  pub now : ℕ
  pub uuid : String
  pub task : ℕ

-- self._inline_delivery_session_tokens
abbrev pub discard_token : String → Bot → Bot
discard_token token b = record b { delivery_tokens = delete (λ t. t == token) b.delivery_tokens }

abbrev pub add_token : String → Bot → Bot
add_token token b = record b {
  delivery_tokens = token ∷ delete (λ t. t == token) b.delivery_tokens;
}

-- self.inline_delivery_tasks.pop(token, None)
abbrev pub pop_task : String → Bot → Bot
pop_task token b = record b { delivery_tasks = delete (λ t. t.0 == token) b.delivery_tasks }

unfoldable pub cleanup_inline_delivery_task : String → Bot → Bot
cleanup_inline_delivery_task token b = discard_token token (pop_task token b)

unfoldable pub schedule_inline_delivery : Tick → String → Bot → Bot
schedule_inline_delivery k token b = record b {
  delivery_tasks = (token, k.task) ∷ delete (λ t. t.0 == token) b.delivery_tasks;
}

abbrev pub is_claimed : Outcome → Bool
is_claimed claimed = true
is_claimed _ = false

unfoldable pub claim_inline_delivery_session : Tick → String → ℕ → String → Bot → Bot × Outcome
claim_inline_delivery_session k token user message b =
    let (t, outcome) = claim_inline_delivery k.now token user message b.sessions in
    let b' = record b { sessions = t } in
    (if is_claimed outcome then add_token token b' else b', outcome)

unfoldable pub consume_user_rate_limit : Config → Tick → ℕ → String → Bot → Bot × RateVerdict
consume_user_rate_limit c k user source b =
    let (t, verdict) =
      check_user_rate_limit k.uuid (pos user) c.user_rate_limit_requests
        c.user_rate_limit_window_seconds k.now source b.rates in
    (record b { rates = t }, verdict)

-- What a handler does when it gives a session up
unfoldable pub fail_session : Tick → String → Bot → Bot
fail_session k token b =
    let b' = discard_token token b in
    record b' { sessions = mark_inline_session_status k.now token failed b'.sessions }

-- record_successful_inline_access of services/telegram_inline_sessions.py
unfoldable pub record_successful_inline_access : Tick → InlineSession → Bot → Bot
record_successful_inline_access k s b =
    if s.access_kind == "promo"
    then record b { promos = record_inline_promo_success k.now s.user_id b.promos }
    else if s.access_kind == "subscription"
    then record b {
      events =
          record_inline_delivery_event k.now k.uuid s.user_id s.session_token s.access_kind
            "success" b.events;
    }
    else b

-- record_failed_inline_access
unfoldable pub record_failed_inline_access : Tick → InlineSession → Bot → Bot
record_failed_inline_access k s b =
    if s.access_kind == "subscription"
    then record b {
      events =
          record_inline_delivery_event k.now k.uuid s.user_id s.session_token s.access_kind "failed"
            b.events;
    }
    else b

-- _inline_media_cache_key
unfoldable pub inline_media_cache_key : String → String → String
inline_media_cache_key provider url =
    if provider == "instagram"
    then append "instagram:av2:" url
    else append provider (append ":" url)
