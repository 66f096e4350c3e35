-- ===== src/Store/Payments.antt =====
-- The table inline_one_time_payments of services/state_schema.py and the methods of StateStore
-- (services/state_store.py) that read and write it, with the step of services/telegram_bot.py that
-- claims a payment for a chosen session. Fresh payment ids (`uuid.uuid4().hex`) are arguments.
pub mod Laws
pub mod Trace
pub mod Tests
use Prim.Native.String.{◌++◌ as append}
use inst_video_downloader_tg.Base.{
  ℕ, ◌≡◌, Bool, true, false, not, ◌&&◌, ◌||◌, Option, none, some, List, String, ◌==◌, eq_iff, leb,
  nat_eq, is_none, if◌then◌else◌,
}
use inst_video_downloader_tg.Base.Order.{drop_chars}
use inst_video_downloader_tg.Sql.{insert, update, row_count, select, first_by, last_by}
use inst_video_downloader_tg.Sql.Keys.{Key, at, has}
use inst_video_downloader_tg.Store.InlineSessions.{
  InlineSession, SessionStatus, delivering, delivery_unknown, session_pk, is_text, is_delivering,
  get_inline_session,
}

pub data PaymentStatus : Type 0 where
  paid delivered refunded refund_failed : PaymentStatus

pub record Payment : Type 0 where
  pub payment_id : String
  pub user_id : ℕ
  pub session_token : String
  pub provider : Option String
  pub normalized_url : Option String
  pub telegram_payment_charge_id : String
  pub total_amount : ℕ
  pub status : PaymentStatus
  pub request_id : Option String
  pub refund_reason : Option String
  pub created_at : ℕ
  pub updated_at : ℕ

abbrev pub payment_pk : Key Payment String
payment_pk = record { key = λ p. p.payment_id; beq = ◌==◌; beq_iff = eq_iff }

abbrev pub is_paid : PaymentStatus → Bool
is_paid paid = true
is_paid _ = false

abbrev pub is_unknown : SessionStatus → Bool
is_unknown delivery_unknown = true
is_unknown _ = false

-- record_inline_one_time_payment; `none` is an IntegrityError for an id that is taken
unfoldable pub record_inline_one_time_payment :
    ℕ
    → String
    → ℕ
    → String
    → String
    → ℕ
    → Option String
    → Option String
    → List Payment
    → Option (List Payment)
record_inline_one_time_payment now id user token charge amount provider url t =
    insert (has payment_pk id)
      (record {
        payment_id = id;
        user_id = user;
        session_token = token;
        provider = provider;
        normalized_url = url;
        telegram_payment_charge_id = charge;
        total_amount = amount;
        status = paid;
        request_id = none;
        refund_reason = none;
        created_at = now;
        updated_at = now;
      })
      t

pub get_inline_one_time_payment : String → List Payment → Option Payment
get_inline_one_time_payment id t = at payment_pk t id

unfoldable pub get_inline_one_time_payment_by_charge_id : String → List Payment → Option Payment
get_inline_one_time_payment_by_charge_id charge t =
    first_by (λ p. p.created_at) (select (λ p. p.telegram_payment_charge_id == charge) t)

-- f"inline:{session_token}"
abbrev pub inline_request : String → String
inline_request token = append "inline:" token

pub get_claimed_inline_one_time_payment : String → List Payment → Option Payment
get_claimed_inline_one_time_payment token t =
    last_by (λ p. p.updated_at)
      (select (λ p. is_paid p.status && is_text p.request_id (inline_request token)) t)

-- What the LEFT JOIN adds for a payment that names no provider and no URL.
abbrev pub session_is_for : List InlineSession → String → String → Payment → Bool
session_is_for sessions provider url p = elim (at session_pk sessions p.session_token) [
  | none ↦ false
  | some s ↦ (s.provider == provider) && (s.normalized_url == url)
]

-- The WHERE clause of get_available_inline_one_time_payment
abbrev pub available : List InlineSession → ℕ → String → String → Payment → Bool
available sessions user provider url p =
    (nat_eq p.user_id user && (is_paid p.status && is_none p.request_id))
    && ((is_text p.provider provider && is_text p.normalized_url url)
        || ((is_none p.provider && is_none p.normalized_url)
            && session_is_for sessions provider url p))

pub get_available_inline_one_time_payment :
    List InlineSession → ℕ → String → String → List Payment → Option Payment
get_available_inline_one_time_payment sessions user provider url t =
    first_by (λ p. p.created_at) (select (available sessions user provider url) t)

abbrev pub claim_row : ℕ → String → Payment → Payment
claim_row now request p = record p { request_id = some request; updated_at = now }

abbrev pub unclaimed : Payment → Bool
unclaimed p = is_paid p.status && is_none p.request_id

pub claim_inline_one_time_payment : ℕ → String → String → List Payment → List Payment × Bool
claim_inline_one_time_payment now id request t =
    let where_ = λ (p : Payment). has payment_pk id p && unclaimed p in
    (update where_ (claim_row now request) t, if nat_eq (row_count where_ t) 1 then true else false)

-- The session that keeps a claim from being released:
-- s.session_token = substr(request_id, length('inline:') + 1) and the session is still delivering
-- since after the cutoff, or its outcome is unknown.
abbrev pub holds : ℕ → Option InlineSession → Bool
holds cutoff none = false
holds cutoff (some s) =
    (is_delivering s.status && not (leb s.updated_at cutoff)) || is_unknown s.status

pub protected : ℕ → List InlineSession → Option String → Bool
unfolding drop_chars
protected cutoff sessions none = false
protected cutoff sessions (some request) =
    holds cutoff (at session_pk sessions (drop_chars 7 request))

-- The WHERE clause of release_stale_inline_one_time_claims
abbrev pub stale : ℕ → List InlineSession → Payment → Bool
stale cutoff sessions p =
    is_paid p.status
    && (not (is_none p.request_id)
        && (leb p.updated_at cutoff && not (protected cutoff sessions p.request_id)))

abbrev pub release_row : ℕ → Payment → Payment
release_row now p = record p { request_id = none; updated_at = now }

pub release_stale_inline_one_time_claims :
    ℕ → ℕ → List InlineSession → List Payment → List Payment × ℕ
release_stale_inline_one_time_claims now cutoff sessions t =
    (update (stale cutoff sessions) (release_row now) t, row_count (stale cutoff sessions) t)

abbrev pub settle_row : ℕ → PaymentStatus → Option String → Option String → Payment → Payment
settle_row now status request reason p = record p {
  status = status;
  request_id = request;
  refund_reason = reason;
  updated_at = now;
}

-- _mark_inline_one_time_payment
unfoldable pub mark_payment :
    ℕ → String → PaymentStatus → Option String → Option String → List Payment → List Payment
mark_payment now id status request reason =
    update (λ p. has payment_pk id p && is_paid p.status) (settle_row now status request reason)

pub mark_inline_one_time_payment_delivered : ℕ → String → String → List Payment → List Payment
unfolding mark_payment
mark_inline_one_time_payment_delivered now id request =
    mark_payment now id delivered (some request) none

unfoldable pub mark_inline_one_time_payment_refunded :
    ℕ → String → String → List Payment → List Payment
unfolding mark_payment
mark_inline_one_time_payment_refunded now id reason =
    mark_payment now id refunded none (some reason)

pub mark_inline_one_time_payment_refund_failed : ℕ → String → String → List Payment → List Payment
unfolding mark_payment
mark_inline_one_time_payment_refund_failed now id reason =
    mark_payment now id refund_failed none (some reason)

-- _claim_one_time_payment_for_session of services/telegram_bot.py: the payment that the chosen
-- session takes, if there is one and the claim succeeds.
unfoldable pub claim_one_time_payment_for_session :
    ℕ → String → ℕ → List InlineSession → List Payment → List Payment × Option String
unfolding claim_inline_one_time_payment
claim_one_time_payment_for_session now token user sessions t =
    elim (get_inline_session token (some user) sessions) [
      | none ↦ (t, none)
      | some session ↦
          elim (get_available_inline_one_time_payment sessions user session.provider
            session.normalized_url t) [
              | none ↦ (t, none)
              | some payment ↦
                  let (t', done) =
                    claim_inline_one_time_payment now payment.payment_id (inline_request token) t in
                  (t', if done then some payment.payment_id else none)
            ]
    ]
