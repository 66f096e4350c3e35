-- ===== src/Inline/Quiet/Queries.antt =====
-- The steps that create a session, and those that take and refund payments.
use inst_video_downloader_tg.Base.{
  ℕ, sym, ap, ◌+◌, ◌*◌, ◌≤◌, refl, Bool, true, false, not, ◌&&◌, Option, none, some, [], ◌∷◌,
  String, ◌==◌, arith, if◌then◌else◌, inl, inr, Bool-cases, is_none, ltb,
}
use inst_video_downloader_tg.Base.Int.{pos, int_eq}
use inst_video_downloader_tg.Sql.Keys.{at, at-upsert, Unique-upsert, inserted}
use inst_video_downloader_tg.Store.InlineSessions.{
  InlineSession, session_pk, new_session, create_inline_session, get_inline_session,
}
use inst_video_downloader_tg.Store.Payments.{
  payment_pk, get_available_inline_one_time_payment, get_inline_one_time_payment_by_charge_id,
  record_inline_one_time_payment,
}
use inst_video_downloader_tg.Store.Payments.Trace.{pay, release, perform, run}
use inst_video_downloader_tg.Store.Access.{Subscription, get_inline_promo_success_count}
use inst_video_downloader_tg.Store.RateLimit.{second}
use inst_video_downloader_tg.Inline.Access.{
  Numbers, PaymentKind, subscription, one_time, parse_inline_payment_payload,
}
use inst_video_downloader_tg.Inline.Bot.{Config, Bot, Tick}
use inst_video_downloader_tg.Inline.Answers.{
  ParsedLink, open_session, paid_or_free_inline_access_kind_for_user, answer_inline_delivery_option,
  recovery_cutoff, release_stale, answer_without_access, inline_query_handler,
  answer_paid_inline_options,
}
use inst_video_downloader_tg.Inline.Checkout.{
  SuccessfulPayment, PaymentAnswer, provider_of, url_of, take_one_time_payment,
  successful_payment_handler, RefundRule, check_subscription,
}
use inst_video_downloader_tg.Inline.Delivery.{Refund}
use inst_video_downloader_tg.Inline.Quiet.{
  left_open, Tame-same, Follows-same, Quiet, Quiet-same, Quiet-sessions, Quiet-if, Quiet-option,
}
use inst_video_downloader_tg.Inline.Quiet.Outcomes.{Moves, Moves-then, Quiet→Moves}

left_open-le : (o : Option InlineSession) → left_open o ≤ 1
left_open-le none = omega arith
left_open-le (some s) = ground arith

open-Moves :
    (c : Config) (k : Tick) (token : String) (user : ℕ) (link : ParsedLink) (kind : String)
    (b : Bot)
    → Moves (some token) b (open_session c k token user link kind b)
unfolding create_inline_session
open-Moves c k token user link kind b =
    let expiry = k.now + c.inline_session_ttl * second in
    let new =
      new_session k.now token user link.original_url link.normalized_url link.provider
        link.provider_label expiry kind in
    let again : InlineSession → InlineSession = λ r. record new {
      session_token = r.session_token;
      inline_message_id = r.inline_message_id;
      created_at = r.created_at;
    } in
    let t =
      create_inline_session k.now token user link.original_url link.normalized_url link.provider
        link.provider_label expiry kind b.sessions in
    record {
      unique = λ u. Unique-upsert session_pk token new again b.sessions (λ r. refl) refl u;
      payments = Follows-same b.payments;
      bounded = λ u j.
          let row = at-upsert session_pk token j new again b.sessions (λ r. refl) refl in
          elim (Bool-cases (token == j)) [
            | inl y ↦ rw y (omega (arith, left_open-le (at session_pk t j)))
            | inr n ↦ rw (row, n) (omega arith)
          ];
    }

Moves-if {ℓ} :
    {A : Type ℓ} (c : Bool) (o : Option String) (b : Bot) (x y : Bot × A)
    → Moves o b x.0
    → Moves o b y.0
    → Moves o b (if c then x else y).0
Moves-if true o b x y p q = p
Moves-if false o b x y p q = q

Moves-option {ℓ κ} :
    {A : Type ℓ} {X : Type κ} (m : Option X) (o : Option String) (b : Bot) (x : Bot × A)
    (f : X → Bot × A)
    → Moves o b x.0
    → ((a : X) → Moves o b (f a).0)
    → Moves o b (elim m as (λ y. Bot × A) [ none ↦ x | some a ↦ f a ]).0
Moves-option none o b x f p q = p
Moves-option (some a) o b x f p q = q a

-- A step that may open a session and does not
Moves-more : (token : String) (b b' : Bot) → Moves none b b' → Moves (some token) b b'
Moves-more token b b' m = record {
  unique = m.unique;
  payments = m.payments;
  bounded = λ u j. elim (Bool-cases (token == j)) [
    | inl y ↦ rw y (omega (arith, m.bounded u j))
    | inr n ↦ rw n (omega (arith, m.bounded u j))
  ];
}

Moves-same : (token : String) (b : Bot) → Moves (some token) b b
Moves-same token b = Moves-more token b b (Quiet→Moves b b (Quiet-same b))

released-Quiet : (c : Config) (k : Tick) (b : Bot) → Quiet b (release_stale c k b)
unfolding run perform
released-Quiet c k b = record {
  sessions = Tame-same b.sessions;
  payments = (release k.now (recovery_cutoff c k.now) b.sessions ∷ [], refl);
  events = refl;
  promos = refl;
}

without_access-Moves :
    (c : Config) (k : Tick) (token : String) (user : ℕ) (link : ParsedLink) (b : Bot)
    → Moves (some token) b (answer_without_access c k token user link b).0
without_access-Moves c k token user link b =
    let b' = release_stale c k b in
    let m = Quiet→Moves b b' (released-Quiet c k b) in
    let opened : (kind : String) → Moves (some token) b (open_session c k token user link kind b') =
      λ kind. Moves-then (some token) b b' _ m (open-Moves c k token user link kind b') in
    unfold answer_inline_delivery_option in
    Moves-if
      (not (
        is_none (
          get_available_inline_one_time_payment b'.sessions user link.provider link.normalized_url
            b'.payments)))
      (some token) b _ _ (opened "one_time")
      (Moves-if
        (ltb (get_inline_promo_success_count user b'.promos) c.inline_free_successful_deliveries)
        (some token) b _ _ (opened "promo") (Moves-more token b b' m))

pub query-Moves :
    (c : Config) (k : Tick) (token : String) (user : ℕ) (link : Option ParsedLink) (b : Bot)
    → Moves (some token) b (inline_query_handler c k token user link b).0
unfolding inline_query_handler answer_inline_delivery_option
query-Moves c k token user none b = Moves-same token b
query-Moves c k token user (some link) b =
    Moves-if (not c.inline_mode_enabled) (some token) b _ _ (Moves-same token b) (
      Moves-if (is_none c.inline_storage_chat_id) (some token) b _ _ (Moves-same token b) (
        Moves-option (paid_or_free_inline_access_kind_for_user c k user b) (some token) b _ _
          (without_access-Moves c k token user link b)
          (λ kind. open-Moves c k token user link kind b)))

pub offers-Moves :
    (c : Config) (k : Tick) (token : String) (user : ℕ) (link : ParsedLink) (invoice_failed : Bool)
    (b : Bot)
    → Moves (some token) b (answer_paid_inline_options c k token user link invoice_failed b)
unfolding answer_paid_inline_options
offers-Moves c k token user link true b = Moves-same token b
offers-Moves c k token user link false b = open-Moves c k token user link "free" b

one_time-Quiet :
    (k : Tick) (p : SuccessfulPayment) (token : String) (b : Bot)
    → Quiet b (take_one_time_payment k p token b).0
unfolding take_one_time_payment run perform
one_time-Quiet k p token b =
    let session = get_inline_session token (some p.user_id) b.sessions in
    let inserted_ =
      record_inline_one_time_payment k.now k.uuid p.user_id token p.charge_id p.total_amount
        (provider_of session) (url_of session) b.payments in
    Quiet-option (get_inline_one_time_payment_by_charge_id p.charge_id b.payments) b _ _
      (Quiet-option inserted_ b _ _ (Quiet-same b) (λ t e. record {
        sessions = Tame-same b.sessions;
        payments = (
          pay k.now k.uuid p.user_id token p.charge_id p.total_amount (provider_of session)
                (url_of session)
              ∷ [],
          sym (ap (inserted payment_pk b.payments) e),
        );
        events = refl;
        promos = refl;
      }))
      (λ x e. Quiet-same b)

Quiet-kind :
    (kind : PaymentKind) (b : Bot) (x y : Bot × PaymentAnswer)
    → Quiet b x.0
    → Quiet b y.0
    → Quiet b (elim kind as (λ z. Bot × PaymentAnswer) [ subscription ↦ x | one_time ↦ y ]).0
Quiet-kind subscription b x y p q = p
Quiet-kind one_time b x y p q = q

pub payment-Quiet :
    (n : Numbers) (c : Config) (k : Tick) (p : SuccessfulPayment) (b : Bot)
    → Quiet b (successful_payment_handler n c k p b).0
unfolding successful_payment_handler
payment-Quiet n c k p b =
    Quiet-option (parse_inline_payment_payload n p.invoice_payload) b _ _ (Quiet-same b)
      (λ payload e.
        Quiet-if (int_eq payload.user_id (pos p.user_id) && (p.currency == "XTR")) b _ _
          (Quiet-kind payload.kind b _ _ (Quiet-sessions b _ (Tame-same b.sessions) refl refl refl)
            (one_time-Quiet k p payload.session_token b))
          (Quiet-same b))

pub check-Quiet :
    (rule : RefundRule) (k : Tick) (answer : String → Refund) (s : Subscription) (b : Bot)
    → Quiet b (check_subscription rule k answer s b)
unfolding check_subscription
check-Quiet rule k answer s b = Quiet-sessions b _ (Tame-same b.sessions) refl refl refl
