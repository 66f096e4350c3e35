-- ===== src/Inline/Checkout.antt =====
-- Payments in Telegram Stars in services/telegram_bot.py: pre_checkout_handler,
-- successful_payment_handler, and the automatic refund of subscriptions whose deliveries failed.
pub mod Offers
use inst_video_downloader_tg.Base.{
  ℕ, ◌+◌, ◌*◌, Bool, true, false, not, ◌&&◌, ◌||◌, Option, none, some, List, [], ◌∷◌, String, ◌==◌,
  leb, ltb, nat_eq, if◌then◌else◌,
}
use inst_video_downloader_tg.Base.Int.{ℤ, pos, int_eq}
use inst_video_downloader_tg.Store.InlineSessions.{InlineSession, get_inline_session}
use inst_video_downloader_tg.Store.Payments.{
  Payment, get_inline_one_time_payment_by_charge_id, record_inline_one_time_payment,
}
use inst_video_downloader_tg.Store.Access.{
  Subscription, record_inline_subscription, list_expired_unchecked_inline_subscriptions,
  mark_inline_subscription_auto_refunded, mark_inline_subscription_auto_refund_failed,
  mark_inline_subscription_refund_checked,
}
use inst_video_downloader_tg.Store.RateLimit.{second}
use inst_video_downloader_tg.Store.Events.{DeliveryStats, get_subscription_delivery_stats}
use inst_video_downloader_tg.Store.Runtime.{RuntimeSettings, Texts, get_inline_runtime_settings}
use inst_video_downloader_tg.Inline.Access.{
  Numbers, PaymentKind, subscription, one_time, InlinePaymentPayload, parse_inline_payment_payload,
}
use inst_video_downloader_tg.Inline.Bot.{Config, Bot, Tick}
use inst_video_downloader_tg.Inline.Delivery.{Refund, sent, refused}

-- What Telegram says about an invoice that is to be paid
pub record PreCheckoutQuery : Type 0 where
  pub user_id : ℕ
  pub invoice_payload : String
  pub currency : String
  pub total_amount : ℕ

-- inline_session_is_expired; the stored texts are instants
abbrev pub session_is_expired : ℕ → InlineSession → Bool
session_is_expired now s = leb s.expires_at now

abbrev pub session_is_open : ℕ → Option InlineSession → Bool
session_is_open now none = false
session_is_open now (some s) = not (session_is_expired now s)

-- The prices of the moment: the stored runtime settings over those of config/settings.py
abbrev pub prices : Texts → RuntimeSettings → Bot → RuntimeSettings
prices x defaults b = get_inline_runtime_settings x defaults b.runtime

abbrev pub approves : Tick → RuntimeSettings → InlinePaymentPayload → PreCheckoutQuery → Bot → Bool
approves k price payload q b = elim payload.kind [
  | subscription ↦ nat_eq q.total_amount price.subscription_stars
  | one_time ↦
      (price.one_time_enabled && nat_eq q.total_amount price.one_time_stars)
      && session_is_open k.now
          (get_inline_session payload.session_token (some q.user_id) b.sessions)
]

-- The answer of pre_checkout_handler, which changes nothing
unfoldable pub pre_checkout_handler :
    Numbers → Texts → RuntimeSettings → Tick → PreCheckoutQuery → Bot → Bool
pre_checkout_handler n x defaults k q b = elim (parse_inline_payment_payload n q.invoice_payload) [
  | none ↦ false
  | some payload ↦
      ((q.currency == "XTR") && int_eq payload.user_id (pos q.user_id))
      && approves k (prices x defaults b) payload q b
]

-- What Telegram says about a payment; `paid_until` is its subscription_expiration_date, if it has one.
pub record SuccessfulPayment : Type 0 where
  pub user_id : ℕ
  pub invoice_payload : String
  pub currency : String
  pub total_amount : ℕ
  pub charge_id : String
  pub provider_charge_id : String
  pub paid_until : Option ℕ

-- subscription_expires_at of services/telegram_inline_sessions.py
unfoldable pub subscription_expires_at : Config → ℕ → Option ℕ → ℕ
subscription_expires_at c now (some instant) = instant
subscription_expires_at c now none = now + c.inline_subscription_period * second

-- What successful_payment_handler does with a payment. `refund_of` goes on with the refund of the
-- payment it has recorded; `integrity_error` is a payment id that is taken.
pub data PaymentAnswer : Type 0 where
  not_ours subscribed known_charge recorded integrity_error : PaymentAnswer
  refund_of : String → PaymentAnswer

abbrev pub provider_of : Option InlineSession → Option String
provider_of none = none
provider_of (some s) = some s.provider

abbrev pub url_of : Option InlineSession → Option String
url_of none = none
url_of (some s) = some s.normalized_url

-- The branch of a one-time payment; the uuid of the step is the new payment's id.
unfoldable pub take_one_time_payment : Tick → SuccessfulPayment → String → Bot → Bot × PaymentAnswer
take_one_time_payment k p token b =
    elim (get_inline_one_time_payment_by_charge_id p.charge_id b.payments) [
      | some _ ↦ (b, known_charge)
      | none ↦
          let session = get_inline_session token (some p.user_id) b.sessions in
          elim (record_inline_one_time_payment k.now k.uuid p.user_id token p.charge_id
            p.total_amount (provider_of session) (url_of session) b.payments) [
              | none ↦ (b, integrity_error)
              | some t ↦ (
                record b { payments = t },
                if session_is_open k.now session then recorded else refund_of k.uuid,
              )
            ]
    ]

abbrev pub take_subscription : Config → Tick → SuccessfulPayment → Bot → Bot
take_subscription c k p b = record b {
  subscriptions =
      record_inline_subscription k.now p.user_id (subscription_expires_at c k.now p.paid_until)
        p.charge_id p.provider_charge_id p.total_amount k.now b.subscriptions;
}

unfoldable pub successful_payment_handler :
    Numbers → Config → Tick → SuccessfulPayment → Bot → Bot × PaymentAnswer
successful_payment_handler n c k p b = elim (parse_inline_payment_payload n p.invoice_payload) [
  | none ↦ (b, not_ours)
  | some payload ↦
      if int_eq payload.user_id (pos p.user_id) && (p.currency == "XTR")
      then elim payload.kind [
        | subscription ↦ (take_subscription c k p b, subscribed)
        | one_time ↦ take_one_time_payment k p payload.session_token b
      ]
      else (b, not_ours)
]

-- INLINE_SUBSCRIPTION_AUTO_REFUND_FAILURE_THRESHOLD, as a fraction, and the texts of the reasons
pub record RefundRule : Type 0 where
  pub numerator : ℕ
  pub denominator : ℕ
  pub reason : DeliveryStats → String
  pub failed_reason : DeliveryStats → String → String

-- attempts > 0 and failed / attempts >= threshold
abbrev pub refund_is_due : RefundRule → DeliveryStats → Bool
refund_is_due rule stats =
    ltb 0 stats.attempts && leb (rule.numerator * stats.attempts) (stats.failed * rule.denominator)

-- One turn of the loop of _evaluate_expired_inline_subscription_refunds; `answer` is what Telegram says to
-- the refund of the charge.
unfoldable pub check_subscription : RefundRule → Tick → (String → Refund) → Subscription → Bot → Bot
check_subscription rule k answer s b =
    let stats = get_subscription_delivery_stats s.user_id s.started_at s.expires_at b.events in
    let marked =
      if refund_is_due rule stats
      then elim (answer s.telegram_payment_charge_id) [
        | sent ↦
            mark_inline_subscription_auto_refunded k.now s.user_id (rule.reason stats)
              b.subscriptions
        | refused name ↦
            mark_inline_subscription_auto_refund_failed k.now s.user_id
              (rule.failed_reason stats name) b.subscriptions
      ]
      else mark_inline_subscription_refund_checked k.now s.user_id (rule.reason stats)
          b.subscriptions in
    record b { subscriptions = marked }

unfoldable pub check_each : RefundRule → Tick → (String → Refund) → List Subscription → Bot → Bot
check_each rule k answer [] b = b
check_each rule k answer (s ∷ rest) b =
    check_each rule k answer rest (check_subscription rule k answer s b)

-- _evaluate_expired_inline_subscription_refunds, with nothing in between its turns
unfoldable pub evaluate_expired_inline_subscription_refunds :
    RefundRule → Tick → (String → Refund) → Bot → Bot
evaluate_expired_inline_subscription_refunds rule k answer b =
    check_each rule k answer (list_expired_unchecked_inline_subscriptions k.now b.subscriptions) b
