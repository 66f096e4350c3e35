-- ===== src/Inline/Refunds/Again.antt =====
-- What the command does after a refund was made.
use mathlib.Core.Path.{subst}
use inst_video_downloader_tg.Base.{
  ℕ, ◌≡◌, refl, ap, ◌∙◌, Bool, true, false, ◌&&◌, Option, none, some, List, [], ◌∷◌, String, ◌==◌,
  arith, leb, nat_eq_iff, eq_refl, inl, inr, if◌then◌else◌, Bool-cases, Option-cases,
}
use inst_video_downloader_tg.Sql.{select, update, first_by}
use inst_video_downloader_tg.Sql.Laws.{touched, fetch_one-update}
use inst_video_downloader_tg.Sql.Keys.{has}
use inst_video_downloader_tg.Store.Payments.{
  Payment, payment_pk, is_paid, refunded, settle_row, mark_payment,
  get_inline_one_time_payment_by_charge_id, mark_inline_one_time_payment_refunded,
}
use inst_video_downloader_tg.Store.Access.{
  Subscription, subscription_pk, refunded as subscription_refunded,
  get_inline_subscription_by_charge_id, mark_inline_subscription_refunded,
}
use inst_video_downloader_tg.Inline.Bot.{Bot}
use inst_video_downloader_tg.Inline.Refunds.{
  already_refunded, RefundCall, one_time, subscription, unknown, is_refunded,
  is_refunded_subscription, of_payment, of_subscription, of_user, target_of, refund_target,
  returned, refund_command_answered, mark_refunded,
}

select-update {ℓ} :
    {R : Type ℓ} (q p : R → Bool) (f : R → R) (t : List R)
    → ((r : R) → q (f r) ≡ q r)
    → select q (update p f t) ≡ update p f (select q t)
unfolding select update
select-update q p f [] h = refl
select-update q p f (r ∷ t) h = elim (Bool-cases (p r)) [
  | inl y ↦ ground (arith, y, h r, select-update q p f t h)
  | inr n ↦ ground (arith, n, select-update q p f t h)
]

key-kept {ℓ} :
    {R : Type ℓ} (key : R → ℕ) (p : R → Bool) (f : R → R)
    → ((r : R) → key (f r) ≡ key r)
    → (r : R) → key (if p r then f r else r) ≡ key r
key-kept key p f h r = elim (Bool-cases (p r)) [ inl y ↦ rw y (h r) | inr n ↦ rw n refl ]

first_by-update {ℓ} :
    {R : Type ℓ} (key : R → ℕ) (p : R → Bool) (f : R → R) (t : List R)
    → ((r : R) → key (f r) ≡ key r)
    → first_by key (update p f t) ≡ touched p f (first_by key t)
unfolding first_by update
first_by-update key p f [] h = refl
first_by-update key p f (r ∷ t) h = elim (Option-cases (first_by key t)) [
  | inl e ↦ rw (first_by-update key p f t h, e) refl
  | inr (s, e) ↦
      rw (first_by-update key p f t h, e)
        (rw (key-kept key p f h r, key-kept key p f h s)
          (elim (Bool-cases (leb (key r) (key s))) [
            | inl y ↦ rw (leb, y) refl
            | inr n ↦ rw (leb, n) refl
          ]))
]

-- The payment of a charge after a refund of `id` was recorded
payment_after :
    (now : ℕ) (charge id reason : String) (t : List Payment)
    → get_inline_one_time_payment_by_charge_id charge
        (mark_inline_one_time_payment_refunded now id reason t)
      ≡ touched
          (λ p. has payment_pk id p && is_paid p.status)
          (settle_row now refunded none (some reason))
          (get_inline_one_time_payment_by_charge_id charge t)
unfolding get_inline_one_time_payment_by_charge_id mark_inline_one_time_payment_refunded
    mark_payment
payment_after now charge id reason t =
    let p = λ (r : Payment). has payment_pk id r && is_paid r.status in
    let f = settle_row now refunded none (some reason) in
    let q = λ (r : Payment). r.telegram_payment_charge_id == charge in
    ap (first_by (λ (r : Payment). r.created_at)) (select-update q p f t (λ r. refl))
    ∙ first_by-update (λ (r : Payment). r.created_at) p f (select q t) (λ r. refl)

subscription_after :
    (now : ℕ) (charge : String) (user : ℕ) (t : List Subscription)
    → get_inline_subscription_by_charge_id charge (mark_inline_subscription_refunded now user t)
      ≡ touched
          (has subscription_pk user)
          (λ s. record s { status = subscription_refunded; updated_at = now })
          (get_inline_subscription_by_charge_id charge t)
unfolding get_inline_subscription_by_charge_id mark_inline_subscription_refunded
subscription_after now charge user t =
    fetch_one-update (λ s. s.telegram_payment_charge_id == charge) (has subscription_pk user)
      (λ s. record s { status = subscription_refunded; updated_at = now }) t (λ s. refl)

-- Whether the table can tell after a refund that it was made: the charge is that of a one-time payment that
-- is still paid, or of a subscription.
abbrev pub paid_or_subscription : Option Payment → Option Subscription → Bool
paid_or_subscription (some p) s = is_paid p.status
paid_or_subscription none (some s) = true
paid_or_subscription none none = false

abbrev pub is_recorded : String → Bot → Bool
is_recorded charge b =
    paid_or_subscription (get_inline_one_time_payment_by_charge_id charge b.payments)
      (get_inline_subscription_by_charge_id charge b.subscriptions)

abbrev Again : ℕ → String → Option ℕ → Bot → RefundCall → Type 0
Again now charge fallback b call =
    refund_target charge fallback (mark_refunded now call call.payment_kind b)
    ≡ (if is_recorded charge b then inl already_refunded else inr call)

payment-Again :
    (now : ℕ) (charge : String) (fallback : Option ℕ) (b : Bot) (p : Payment) (call : RefundCall)
    → get_inline_one_time_payment_by_charge_id charge b.payments ≡ some p
    → of_payment charge p ≡ inr call
    → Again now charge fallback b call
unfolding refund_target
payment-Again now charge fallback b p call e h = elim (Bool-cases (is_refunded p.status)) [
  | inl y ↦ absurd (ground (arith, y, h))
  | inr n ↦
      let c : RefundCall = record {
        charge_id = charge;
        user_id = p.user_id;
        payment_kind = one_time p.payment_id;
      } in
      let same : c ≡ call = ground (arith, n, h) in
      subst (Again now charge fallback b) same (
        rw (payment_after now charge p.payment_id "owner_command" b.payments, e)
          (rw (eq_refl p.payment_id)
            (elim (Bool-cases (is_paid p.status)) [ inl y ↦ rw y refl | inr m ↦ rw (m, n) refl ])))
]

subscription-Again :
    (now : ℕ) (charge : String) (fallback : Option ℕ) (b : Bot) (s : Subscription)
    (call : RefundCall)
    → get_inline_one_time_payment_by_charge_id charge b.payments ≡ none
    → get_inline_subscription_by_charge_id charge b.subscriptions ≡ some s
    → of_subscription charge s ≡ inr call
    → Again now charge fallback b call
unfolding refund_target
subscription-Again now charge fallback b s call e d h =
    elim (Bool-cases (is_refunded_subscription s.status)) [
      | inl y ↦ absurd (ground (arith, y, h))
      | inr n ↦
          let c : RefundCall = record {
            charge_id = charge;
            user_id = s.user_id;
            payment_kind = subscription;
          } in
          let same : c ≡ call = ground (arith, n, h) in
          subst (Again now charge fallback b) same (
            rw (e, subscription_after now charge s.user_id b.subscriptions, d)
              (rw ((nat_eq_iff s.user_id s.user_id).1 refl) refl))
    ]

user-Again :
    (now : ℕ) (charge : String) (fallback : Option ℕ) (b : Bot) (call : RefundCall)
    → get_inline_one_time_payment_by_charge_id charge b.payments ≡ none
    → get_inline_subscription_by_charge_id charge b.subscriptions ≡ none
    → of_user charge fallback ≡ inr call
    → Again now charge fallback b call
unfolding refund_target
user-Again now charge none b call e d h = absurd (ground (arith, h))
user-Again now charge (some user) b call e d h =
    let c : RefundCall = record { charge_id = charge; user_id = user; payment_kind = unknown } in
    let same : c ≡ call = ground (arith, h) in
    subst (Again now charge (some user) b) same (rw (e, d) refl)

-- After a refund that Telegram made, the command on the same charge answers that it was refunded already if
-- the charge was that of a one-time payment that was still paid, or of a subscription. Otherwise, so for a payment that was
-- delivered or whose refund had failed before, it asks Telegram for the same refund again.
pub refund_again :
    (now : ℕ) (charge : String) (fallback : Option ℕ) (b : Bot) (call : RefundCall)
    → refund_target charge fallback b ≡ inr call
    → refund_target charge fallback (refund_command_answered now call returned b).0
      ≡ (if is_recorded charge b then inl already_refunded else inr call)
unfolding refund_target refund_command_answered
refund_again now charge fallback b call h =
    elim (Option-cases (get_inline_one_time_payment_by_charge_id charge b.payments)) [
      | inr (p, e) ↦ payment-Again now charge fallback b p call e (
          subst
            (λ o.
              target_of charge fallback o
                (get_inline_subscription_by_charge_id charge b.subscriptions)
              ≡ inr call)
            e h)
      | inl e ↦ elim (Option-cases (get_inline_subscription_by_charge_id charge b.subscriptions)) [
        | inr (s, d) ↦ subscription-Again now charge fallback b s call e d (
            subst (λ o. target_of charge fallback none o ≡ inr call) d
              (subst
                (λ o.
                  target_of charge fallback o
                    (get_inline_subscription_by_charge_id charge b.subscriptions)
                  ≡ inr call)
                e h))
        | inl d ↦ user-Again now charge fallback b call e d (
            subst (λ o. target_of charge fallback none o ≡ inr call) d
              (subst
                (λ o.
                  target_of charge fallback o
                    (get_inline_subscription_by_charge_id charge b.subscriptions)
                  ≡ inr call)
                e h))
      ]
    ]
