-- ===== src/Store/Access.antt =====
-- Who may use inline delivery: the tables inline_whitelist, inline_subscriptions and
-- inline_promo_usage of services/state_schema.py and their methods in services/state_store.py.
-- Times are numbers; `now` is the clock that the method reads.
pub mod Rights
pub mod Tests
use inst_video_downloader_tg.Base.{
  ℕ, suc, Bool, true, false, not, ◌&&◌, ◌||◌, Option, none, some, List, String, ◌==◌, leb, ltb,
  nat_eq, nat_eq_iff, is_none,
}
use inst_video_downloader_tg.Sql.{select, fetch_one, update, delete, upsert, order_by}
use inst_video_downloader_tg.Sql.Keys.{Key, at, has}

pub record WhitelistRow : Type 0 where
  pub user_id : ℕ
  pub added_by_user_id : ℕ
  pub note : Option String
  pub created_at : ℕ

abbrev pub whitelist_pk : Key WhitelistRow ℕ
whitelist_pk = record { key = λ r. r.user_id; beq = nat_eq; beq_iff = nat_eq_iff }

pub add_inline_whitelist_user : ℕ → ℕ → ℕ → Option String → List WhitelistRow → List WhitelistRow
add_inline_whitelist_user now user added_by note t =
    upsert (has whitelist_pk user)
      (record { user_id = user; added_by_user_id = added_by; note = note; created_at = now })
      (λ r. record r { added_by_user_id = added_by; note = note; created_at = now }) t

pub remove_inline_whitelist_user : ℕ → List WhitelistRow → List WhitelistRow
remove_inline_whitelist_user user t = delete (has whitelist_pk user) t

pub list_inline_whitelist_users : List WhitelistRow → List WhitelistRow
list_inline_whitelist_users t = order_by (λ a b. ltb b.created_at a.created_at) t

unfoldable pub is_inline_whitelisted : ℕ → List WhitelistRow → Bool
is_inline_whitelisted user t = not (is_none (at whitelist_pk t user))

pub data SubscriptionStatus : Type 0 where
  active refunded auto_refunded auto_refund_failed completed : SubscriptionStatus

pub record Subscription : Type 0 where
  pub user_id : ℕ
  pub status : SubscriptionStatus
  pub started_at : ℕ
  pub expires_at : ℕ
  pub telegram_payment_charge_id : String
  pub provider_payment_charge_id : String
  pub total_amount : ℕ
  pub auto_refund_checked_at : Option ℕ
  pub refund_reason : Option String
  pub updated_at : ℕ

abbrev pub subscription_pk : Key Subscription ℕ
subscription_pk = record { key = λ s. s.user_id; beq = nat_eq; beq_iff = nat_eq_iff }

abbrev pub is_active : SubscriptionStatus → Bool
is_active active = true
is_active _ = false

-- The values of the INSERT, which ON CONFLICT sets too
abbrev pub bought_row : ℕ → ℕ → ℕ → String → String → ℕ → ℕ → Subscription
bought_row now user expires charge provider_charge amount started = record {
  user_id = user;
  status = active;
  started_at = started;
  expires_at = expires;
  telegram_payment_charge_id = charge;
  provider_payment_charge_id = provider_charge;
  total_amount = amount;
  auto_refund_checked_at = none;
  refund_reason = none;
  updated_at = now;
}

-- `started` is the argument started_at, or the clock.
pub record_inline_subscription :
    ℕ → ℕ → ℕ → String → String → ℕ → ℕ → List Subscription → List Subscription
record_inline_subscription now user expires charge provider_charge amount started t =
    let new = bought_row now user expires charge provider_charge amount started in
    upsert (has subscription_pk user) new (λ s. record new { user_id = s.user_id }) t

pub get_inline_subscription : ℕ → List Subscription → Option Subscription
get_inline_subscription user t = at subscription_pk t user

unfoldable pub get_inline_subscription_by_charge_id :
    String → List Subscription → Option Subscription
get_inline_subscription_by_charge_id charge t =
    fetch_one (λ s. s.telegram_payment_charge_id == charge) t

unfoldable pub mark_inline_subscription_refunded : ℕ → ℕ → List Subscription → List Subscription
mark_inline_subscription_refunded now user t =
    update (has subscription_pk user) (λ s. record s { status = refunded; updated_at = now }) t

-- The UPDATE of the three outcomes of the automatic refund check
abbrev pub checked_row : ℕ → SubscriptionStatus → String → Subscription → Subscription
checked_row now status reason s = record s {
  status = status;
  auto_refund_checked_at = some now;
  refund_reason = some reason;
  updated_at = now;
}

pub mark_inline_subscription_auto_refunded : ℕ → ℕ → String → List Subscription → List Subscription
mark_inline_subscription_auto_refunded now user reason t =
    update (has subscription_pk user) (checked_row now auto_refunded reason) t

pub mark_inline_subscription_auto_refund_failed :
    ℕ → ℕ → String → List Subscription → List Subscription
mark_inline_subscription_auto_refund_failed now user reason t =
    update (has subscription_pk user) (checked_row now auto_refund_failed reason) t

pub mark_inline_subscription_refund_checked : ℕ → ℕ → String → List Subscription → List Subscription
mark_inline_subscription_refund_checked now user reason t =
    update (has subscription_pk user) (checked_row now completed reason) t

pub list_expired_unchecked_inline_subscriptions : ℕ → List Subscription → List Subscription
list_expired_unchecked_inline_subscriptions now t =
    order_by (λ a b. ltb a.expires_at b.expires_at)
      (select
        (λ s. is_active s.status && (leb s.expires_at now && is_none s.auto_refund_checked_at)) t)

unfoldable pub has_active_inline_subscription : ℕ → ℕ → List Subscription → Bool
has_active_inline_subscription now user t = elim (at subscription_pk t user) [
  | none ↦ false
  | some row ↦ is_active row.status && ltb now row.expires_at
]

pub user_has_inline_access : ℕ → ℕ → List WhitelistRow → List Subscription → Bool
unfolding is_inline_whitelisted has_active_inline_subscription
user_has_inline_access now user whitelist t =
    is_inline_whitelisted user whitelist || has_active_inline_subscription now user t

pub record PromoUsage : Type 0 where
  pub user_id : ℕ
  pub success_count : ℕ
  pub updated_at : ℕ

abbrev pub promo_pk : Key PromoUsage ℕ
promo_pk = record { key = λ r. r.user_id; beq = nat_eq; beq_iff = nat_eq_iff }

pub record_inline_promo_success : ℕ → ℕ → List PromoUsage → List PromoUsage
record_inline_promo_success now user t =
    upsert (has promo_pk user) (record { user_id = user; success_count = 1; updated_at = now })
      (λ r. record r { success_count = suc r.success_count; updated_at = now }) t

pub get_inline_promo_success_count : ℕ → List PromoUsage → ℕ
get_inline_promo_success_count user t = elim (at promo_pk t user) [
  | none ↦ 0
  | some r ↦ r.success_count
]
