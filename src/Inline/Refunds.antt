-- ===== src/Inline/Refunds.antt =====
-- The owner's command that gives a payment back: inline_refund_command of services/telegram_bot.py, with
-- _require_owner and parse_positive_int_arg of services/telegram_update_helpers.py. It is cut at the call
-- of refund_star_payment.
pub mod Again
pub mod Tests
use Prim.Native.Char.{code}
use inst_video_downloader_tg.Base.{
  ℕ, ◌+◌, ◌-◌, ◌*◌, Bool, true, false, not, ◌&&◌, Option, none, some, List, [], ◌∷◌, String, leb,
  ltb, nat_eq, ◌⊎◌, inl, inr, if◌then◌else◌,
}
use inst_video_downloader_tg.Base.Split.{strip, is_blank}
use inst_video_downloader_tg.Store.Payments.{
  Payment, PaymentStatus, refunded, get_inline_one_time_payment_by_charge_id,
  mark_inline_one_time_payment_refunded, mark_inline_one_time_payment_refund_failed,
}
use inst_video_downloader_tg.Store.Access.{
  Subscription, SubscriptionStatus, refunded as subscription_refunded,
  get_inline_subscription_by_charge_id, mark_inline_subscription_refunded,
}
use inst_video_downloader_tg.Inline.Bot.{Bot}

-- What the owner reads; `silent` is no answer.
pub data Reply : Type 0 where
  silent owner_unconfigured owner_required refund_usage already_refunded not_found failed : Reply
  refund_sent : ℕ → Reply

-- _require_owner, of the configured owner and the sender of a message that has one; `none` lets the
-- command go on.
abbrev pub require_owner : Option ℕ → Option ℕ → Option Reply
require_owner owner none = some silent
require_owner none (some sender) = some owner_unconfigured
require_owner (some owner) (some sender) = if nat_eq sender owner then none else some owner_required

abbrev pub all_digits : String → Bool
all_digits String.[] = true
all_digits (String.◌∷◌ c s) = (leb 48 (code c) && leb (code c) 57) && all_digits s

-- int(text) of decimal digits, after those that were read before
abbrev pub decimal_from : ℕ → String → ℕ
decimal_from n String.[] = n
decimal_from n (String.◌∷◌ c s) = decimal_from (n * 10 + (code c - 48)) s

pub parse_positive_int_arg : String → Option ℕ
parse_positive_int_arg value =
    let stripped = strip value in
    if is_blank stripped
    then none
    else if not (all_digits stripped)
    then none
    else if ltb 0 (decimal_from 0 stripped)
    then some (decimal_from 0 stripped)
    else none

-- payment_kind, with payment_id
pub data PaymentKind : Type 0 where
  one_time : String → PaymentKind
  subscription : PaymentKind
  unknown : PaymentKind

-- The refund that Telegram is asked for
pub record RefundCall : Type 0 where
  pub charge_id : String
  pub user_id : ℕ
  pub payment_kind : PaymentKind

abbrev pub is_refunded : PaymentStatus → Bool
is_refunded refunded = true
is_refunded _ = false

abbrev pub is_refunded_subscription : SubscriptionStatus → Bool
is_refunded_subscription subscription_refunded = true
is_refunded_subscription _ = false

abbrev pub of_payment : String → Payment → Reply ⊎ RefundCall
of_payment charge p =
    if is_refunded p.status
    then inl already_refunded
    else inr
        (record { charge_id = charge; user_id = p.user_id; payment_kind = one_time p.payment_id })

abbrev pub of_subscription : String → Subscription → Reply ⊎ RefundCall
of_subscription charge s =
    if is_refunded_subscription s.status
    then inl already_refunded
    else inr (record { charge_id = charge; user_id = s.user_id; payment_kind = subscription })

abbrev pub of_user : String → Option ℕ → Reply ⊎ RefundCall
of_user charge none = inl not_found
of_user charge (some user) =
    inr (record { charge_id = charge; user_id = user; payment_kind = unknown })

-- The tests on what is behind a charge id
abbrev pub target_of : String → Option ℕ → Option Payment → Option Subscription → Reply ⊎ RefundCall
target_of charge fallback (some p) s = of_payment charge p
target_of charge fallback none (some s) = of_subscription charge s
target_of charge fallback none none = of_user charge fallback

pub refund_target : String → Option ℕ → Bot → Reply ⊎ RefundCall
refund_target charge fallback b =
    target_of charge fallback (get_inline_one_time_payment_by_charge_id charge b.payments)
      (get_inline_subscription_by_charge_id charge b.subscriptions)

abbrev pub with_fallback : String → Option ℕ → Bot → Reply ⊎ RefundCall
with_fallback charge none b = inl refund_usage
with_fallback charge (some user) b = refund_target charge (some user) b

-- The tests on the arguments
abbrev pub read_args : List String → Bot → Reply ⊎ RefundCall
read_args (charge ∷ []) b =
    if is_blank (strip charge) then inl refund_usage else refund_target (strip charge) none b
read_args (charge ∷ user ∷ []) b =
    if is_blank (strip charge)
    then inl refund_usage
    else with_fallback (strip charge) (parse_positive_int_arg user) b
read_args _ b = inl refund_usage

-- inline_refund_command up to the call
pub inline_refund_command : Option ℕ → Option ℕ → List String → Bot → Reply ⊎ RefundCall
unfolding refund_target parse_positive_int_arg
inline_refund_command owner sender args b = elim (require_owner owner sender) [
  | some reply ↦ inl reply
  | none ↦ read_args args b
]

-- What the call does: it returns, or raises a TelegramError or another exception.
pub data RefundAnswer : Type 0 where
  returned telegram_error other_error : RefundAnswer

abbrev pub mark_refunded : ℕ → RefundCall → PaymentKind → Bot → Bot
mark_refunded now call (one_time id) b = record b {
  payments = mark_inline_one_time_payment_refunded now id "owner_command" b.payments;
}
mark_refunded now call subscription b = record b {
  subscriptions = mark_inline_subscription_refunded now call.user_id b.subscriptions;
}
mark_refunded now call unknown b = b

abbrev pub mark_refund_failed : ℕ → PaymentKind → Bot → Bot
mark_refund_failed now (one_time id) b = record b {
  payments =
      mark_inline_one_time_payment_refund_failed now id "owner_command:TelegramError" b.payments;
}
mark_refund_failed now _ b = b

-- inline_refund_command after the call
pub refund_command_answered : ℕ → RefundCall → RefundAnswer → Bot → Bot × Reply
refund_command_answered now call returned b =
    (mark_refunded now call call.payment_kind b, refund_sent call.user_id)
refund_command_answered now call telegram_error b =
    (mark_refund_failed now call.payment_kind b, failed)
refund_command_answered now call other_error b = (b, silent)
