-- ===== src/Store/Payments/Trace.antt =====
-- The life of a payment under any sequence of the methods that write the table.
use inst_video_downloader_tg.Base.{
  ℕ, ◌+◌, ◌≤◌, ◌≡◌, refl, ◌∙◌, Bool, false, ◌&&◌, Option, none, some, List, [], ◌∷◌, String, arith,
  if◌then◌else◌, inl, inr, Bool-cases, Option-cases, ◌==◌, eq_iff,
}
use inst_video_downloader_tg.Sql.Laws.{fetch_one-update}
use inst_video_downloader_tg.Sql.Keys.{
  at, has, Unique, at-update, at-insert, inserted, Unique-insert, Unique-update,
}
use inst_video_downloader_tg.Store.InlineSessions.{InlineSession}
use inst_video_downloader_tg.Store.Payments.{
  Payment, PaymentStatus, paid, delivered, refunded, refund_failed, payment_pk, is_paid, unclaimed,
  claim_row, stale, release_row, settle_row, record_inline_one_time_payment,
  claim_inline_one_time_payment, release_stale_inline_one_time_claims, mark_payment,
  mark_inline_one_time_payment_delivered, mark_inline_one_time_payment_refunded,
  mark_inline_one_time_payment_refund_failed,
}
use inst_video_downloader_tg.Store.Payments.Laws.{claim_payment-Implements}

-- One call, with the time, and for a release the sessions as they stand.
pub data Event : Type 0 where
  pay : ℕ → String → ℕ → String → String → ℕ → Option String → Option String → Event
  claim : ℕ → String → String → Event
  release : ℕ → ℕ → List InlineSession → Event
  deliver : ℕ → String → String → Event
  refund : ℕ → String → String → Event
  fail_refund : ℕ → String → String → Event

unfoldable pub perform : Event → List Payment → List Payment
perform (pay now id user token charge amount provider url) t =
    inserted payment_pk t
      (record_inline_one_time_payment now id user token charge amount provider url t)
perform (claim now id request) t = (claim_inline_one_time_payment now id request t).0
perform (release now cutoff sessions) t =
    (release_stale_inline_one_time_claims now cutoff sessions t).0
perform (deliver now id request) t = mark_inline_one_time_payment_delivered now id request t
perform (refund now id reason) t = mark_inline_one_time_payment_refunded now id reason t
perform (fail_refund now id reason) t = mark_inline_one_time_payment_refund_failed now id reason t

unfoldable pub run : List Event → List Payment → List Payment
run [] t = t
run (e ∷ es) t = run es (perform e t)

-- The effect of an event on the payment `j`.
abbrev settled_by : String → String → (Payment → Payment) → Option Payment → Option Payment
settled_by id j f none = none
settled_by id j f (some p) = if (id == j) && is_paid p.status then some (f p) else some p

abbrev effect : Event → String → Option Payment → Option Payment
effect (pay now id user token charge amount provider url) j none =
    if id == j
    then some (record {
      payment_id = id;
      user_id = user;
      session_token = token;
      provider = provider;
      normalized_url = url;
      telegram_payment_charge_id = charge;
      total_amount = amount;
      status = paid;
      request_id = none;
      refund_reason = none;
      created_at = now;
      updated_at = now;
    })
    else none
effect (claim now id request) j (some p) =
    if (id == j) && unclaimed p then some (claim_row now request p) else some p
effect (release now cutoff sessions) j (some p) =
    if stale cutoff sessions p then some (release_row now p) else some p
effect (deliver now id request) j o =
    settled_by id j (settle_row now delivered (some request) none) o
effect (refund now id reason) j o = settled_by id j (settle_row now refunded none (some reason)) o
effect (fail_refund now id reason) j o =
    settled_by id j (settle_row now refund_failed none (some reason)) o
effect e j o = o

mark_effect :
    (now : ℕ) (id j : String) (status : PaymentStatus) (request reason : Option String)
    (t : List Payment)
    → at payment_pk (mark_payment now id status request reason t) j
      ≡ settled_by id j (settle_row now status request reason) (at payment_pk t j)
unfolding mark_payment
mark_effect now id j status request reason t =
    at-update payment_pk id j (λ p. is_paid p.status) (settle_row now status request reason) t
      (λ p. refl)
    ∙ elim (Option-cases (at payment_pk t j)) [
      | inl e ↦ rw e (ground arith)
      | inr (p, e) ↦ rw e (ground arith)
    ]

claim_effect :
    (now : ℕ) (id request j : String) (t : List Payment)
    → at payment_pk (claim_inline_one_time_payment now id request t).0 j
      ≡ effect (claim now id request) j (at payment_pk t j)
unfolding claim_inline_one_time_payment
claim_effect now id request j t =
    at-update payment_pk id j unclaimed (claim_row now request) t (λ p. refl)
    ∙ elim (Option-cases (at payment_pk t j)) [
      | inl e ↦ rw e (ground arith)
      | inr (p, e) ↦ rw e (ground arith)
    ]

release_effect :
    (now cutoff : ℕ) (sessions : List InlineSession) (j : String) (t : List Payment)
    → at payment_pk (release_stale_inline_one_time_claims now cutoff sessions t).0 j
      ≡ effect (release now cutoff sessions) j (at payment_pk t j)
unfolding release_stale_inline_one_time_claims
release_effect now cutoff sessions j t =
    fetch_one-update (has payment_pk j) (stale cutoff sessions) (release_row now) t (λ p. refl)
    ∙ elim (Option-cases (at payment_pk t j)) [
      | inl e ↦ rw e refl
      | inr (p, e) ↦ rw e (ground arith)
    ]

-- Each event has its effect on each payment.
pub perform-effect :
    (e : Event) (j : String) (t : List Payment)
    → at payment_pk (perform e t) j ≡ effect e j (at payment_pk t j)
unfolding perform
perform-effect (pay now id user token charge amount provider url) j t =
    unfold record_inline_one_time_payment in
    at-insert payment_pk id j _ t refl
    ∙ elim (Option-cases (at payment_pk t j)) [ inl e ↦ rw e refl | inr (p, e) ↦ rw e refl ]
perform-effect (claim now id request) j t = claim_effect now id request j t
perform-effect (release now cutoff sessions) j t = release_effect now cutoff sessions j t
perform-effect (deliver now id request) j t =
    unfold mark_inline_one_time_payment_delivered in
    mark_effect now id j delivered (some request) none t
perform-effect (refund now id reason) j t =
    unfold mark_inline_one_time_payment_refunded in
    mark_effect now id j refunded none (some reason) t
perform-effect (fail_refund now id reason) j t =
    unfold mark_inline_one_time_payment_refund_failed in
    mark_effect now id j refund_failed none (some reason) t

settled_effect :
    (e : Event) (j : String) (p : Payment) → is_paid p.status ≡ false → effect e j (some p) ≡ some p
settled_effect (claim now id request) j p h = ground arith
settled_effect e j p h = ground arith

-- A payment that was delivered, was refunded, or could not be refunded keeps its row under every
-- sequence of payments, claims, releases, deliveries and refunds.
pub run_settled :
    (es : List Event) (j : String) (t : List Payment) {p : Payment}
    → at payment_pk t j ≡ some p
    → is_paid p.status ≡ false
    → at payment_pk (run es t) j ≡ some p
unfolding run
run_settled [] j t h s = h
run_settled (e ∷ es) j t {p} h s =
    run_settled es j (perform e t) (perform-effect e j t ∙ rw h (settled_effect e j p s)) s

-- Whether an event claimed the payment `j`, and whether it released it.
abbrev claims : Event → String → Option Payment → Bool
claims (claim now id request) j (some p) = (id == j) && unclaimed p
claims _ _ _ = false

abbrev releases : Event → String → Option Payment → Bool
releases (release now cutoff sessions) j (some p) = stale cutoff sessions p
releases _ _ _ = false

-- Whether claim_inline_one_time_payment answered True for `j`.
pub answered : Event → String → List Payment → Bool
answered (claim now id request) j t =
    (id == j) && (claim_inline_one_time_payment now id request t).1
answered _ _ _ = false

answered-claims :
    (e : Event) (j : String) (t : List Payment)
    → Unique payment_pk t
    → answered e j t ≡ claims e j (at payment_pk t j)
unfolding answered
answered-claims (claim now id request) j t u = elim (Bool-cases (id == j)) [
  | inl y ↦
      rw (y, (claim_payment-Implements now id request t u).outcome, (eq_iff id j).0 y)
        (elim (Option-cases (at payment_pk t j)) [
          | inl e ↦ rw e refl
          | inr (p, e) ↦ rw e (ground (arith, eq_iff j j))
        ])
  | inr n ↦
      rw n (elim (Option-cases (at payment_pk t j)) [
        | inl e ↦ rw e refl
        | inr (p, e) ↦ rw (e, n) refl
      ])
]
answered-claims _ j t u = refl

pub perform-Unique :
    (e : Event) (t : List Payment) → Unique payment_pk t → Unique payment_pk (perform e t)
unfolding perform record_inline_one_time_payment claim_inline_one_time_payment
    release_stale_inline_one_time_claims mark_inline_one_time_payment_delivered
    mark_inline_one_time_payment_refunded mark_inline_one_time_payment_refund_failed
perform-Unique (pay now id user token charge amount provider url) t u =
    Unique-insert payment_pk id _ t refl u
perform-Unique _ t u = Unique-update payment_pk _ _ t (λ p. refl) u

pub claim_count : String → List Event → List Payment → ℕ
claim_count j [] t = 0
claim_count j (e ∷ es) t = (if answered e j t then 1 else 0) + claim_count j es (perform e t)

pub release_count : String → List Event → List Payment → ℕ
release_count j [] t = 0
release_count j (e ∷ es) t =
    (if releases e j (at payment_pk t j) then 1 else 0) + release_count j es (perform e t)

-- Whether the payment can be claimed, now or once it is paid.
abbrev open_ : Option Payment → ℕ
open_ none = 1
open_ (some p) = if unclaimed p then 1 else 0

open_effect :
    (e : Event) (j : String) (o : Option Payment)
    → (if claims e j o then 1 else 0) + open_ (effect e j o)
      ≤ open_ o + (if releases e j o then 1 else 0)
open_effect (claim now id request) j none = ground arith
open_effect e j none = ground arith
open_effect (claim now id request) j (some p) = ground arith
open_effect e j (some p) = ground arith

open_run :
    (es : List Event) (j : String) (t : List Payment)
    → Unique payment_pk t
    → claim_count j es t + open_ (at payment_pk (run es t) j)
      ≤ open_ (at payment_pk t j) + release_count j es t
unfolding run claim_count release_count
open_run [] j t u = omega arith
open_run (e ∷ es) j t u =
    let step : (if answered e j t then 1 else 0) + open_ (at payment_pk (perform e t) j)
        ≤ open_ (at payment_pk t j) + (if releases e j (at payment_pk t j) then 1 else 0) =
      rw (answered-claims e j t u, perform-effect e j t) (open_effect e j (at payment_pk t j)) in
    omega (arith, step, open_run es j (perform e t) (perform-Unique e t u))

-- However the calls follow one another, a payment is claimed successfully at most once more than its claim is
-- released as stale, so at most once if it is never released. A release goes by the age of the claim; what was begun
-- under the released claim is not part of this statement.
pub claim_count-le :
    (es : List Event) (j : String) (t : List Payment)
    → Unique payment_pk t
    → claim_count j es t ≤ release_count j es t + 1
claim_count-le es j t u = ground (arith, open_run es j t u)
