-- ===== src/Inline/Answers.antt =====
-- inline_query_handler of services/telegram_bot.py with the methods it calls, from the refund check on.
-- The link that RequestParser finds in the text, and a new session token, are arguments.
use inst_video_downloader_tg.Base.{
  ℕ, ◌+◌, ◌-◌, ◌*◌, Bool, true, false, not, Option, none, some, String, ltb, is_none, if◌then◌else◌,
}
use inst_video_downloader_tg.Store.InlineSessions.{create_inline_session}
use inst_video_downloader_tg.Store.Payments.{
  get_available_inline_one_time_payment, release_stale_inline_one_time_claims,
}
use inst_video_downloader_tg.Store.Access.{
  is_inline_whitelisted, has_active_inline_subscription, get_inline_promo_success_count,
}
use inst_video_downloader_tg.Store.RateLimit.{second}
use inst_video_downloader_tg.Inline.Access.{
  build_inline_result_id, build_one_time_entitlement_result_id,
}
use inst_video_downloader_tg.Inline.Bot.{Config, Bot, Tick}

pub record ParsedLink : Type 0 where
  pub original_url : String
  pub normalized_url : String
  pub provider : String
  pub provider_label : String

-- What the query is answered with: a text, a result that is delivered when it is chosen, or offers to pay
pub data QueryAnswer : Type 0 where
  disabled help storage_missing paid_options : QueryAnswer
  delivery_option : String → QueryAnswer

-- create_inline_session, as the two methods that answer with a session call it
abbrev pub open_session : Config → Tick → String → ℕ → ParsedLink → String → Bot → Bot
open_session c k token user link access_kind b = record b {
  sessions =
      create_inline_session k.now token user link.original_url link.normalized_url link.provider
        link.provider_label (k.now + c.inline_session_ttl * second) access_kind b.sessions;
}

unfoldable pub paid_or_free_inline_access_kind_for_user : Config → Tick → ℕ → Bot → Option String
paid_or_free_inline_access_kind_for_user c k user b =
    if not c.inline_subscription_required
    then some "free"
    else if is_inline_whitelisted user b.whitelist
    then some "whitelist"
    else if has_active_inline_subscription k.now user b.subscriptions
    then some "subscription"
    else none

unfoldable pub answer_inline_delivery_option :
    Config → Tick → String → ℕ → ParsedLink → Bool → String → Bot → Bot × QueryAnswer
answer_inline_delivery_option c k token user link one_time_entitlement access_kind b = (
  open_session c k token user link access_kind b,
  delivery_option (
      if one_time_entitlement
      then build_one_time_entitlement_result_id token
      else build_inline_result_id token),
)

-- The claims that are released before a query is answered: those at least so old
abbrev pub recovery_cutoff : Config → ℕ → ℕ
recovery_cutoff c now = now - c.inline_one_time_claim_recovery * second

abbrev pub release_stale : Config → Tick → Bot → Bot
release_stale c k b = record b {
  payments =
      (release_stale_inline_one_time_claims k.now (recovery_cutoff c k.now) b.sessions
        b.payments).0;
}

-- The part of inline_query_handler for a user who has no access yet
abbrev pub answer_without_access : Config → Tick → String → ℕ → ParsedLink → Bot → Bot × QueryAnswer
answer_without_access c k token user link b =
    let b' = release_stale c k b in
    if not (
      is_none (
        get_available_inline_one_time_payment b'.sessions user link.provider link.normalized_url
          b'.payments))
    then answer_inline_delivery_option c k token user link true "one_time" b'
    else if ltb (get_inline_promo_success_count user b'.promos) c.inline_free_successful_deliveries
    then answer_inline_delivery_option c k token user link false "promo" b'
    else (b', paid_options)

unfoldable pub inline_query_handler :
    Config → Tick → String → ℕ → Option ParsedLink → Bot → Bot × QueryAnswer
unfolding answer_inline_delivery_option paid_or_free_inline_access_kind_for_user
inline_query_handler c k token user none b = (b, if c.inline_mode_enabled then help else disabled)
inline_query_handler c k token user (some link) b =
    if not c.inline_mode_enabled
    then (b, disabled)
    else if is_none c.inline_storage_chat_id
    then (b, storage_missing)
    else elim (paid_or_free_inline_access_kind_for_user c k user b) [
      | some access_kind ↦ answer_inline_delivery_option c k token user link false access_kind b
      | none ↦ answer_without_access c k token user link b
    ]

-- _answer_paid_inline_options once the invoice link is made, or the creation of it failed
unfoldable pub answer_paid_inline_options :
    Config → Tick → String → ℕ → ParsedLink → Bool → Bot → Bot
answer_paid_inline_options c k token user link invoice_failed b =
    if invoice_failed then b else open_session c k token user link "free" b
