-- ===== src/Inline/Quiet/Taps.antt =====
-- The handlers of taps are quiet.
use inst_video_downloader_tg.Base.{
  ℕ, ◌≤◌, refl, not, Option, none, some, List, [], ◌∷◌, String, ◌==◌, arith, inl, inr, Bool-cases,
  Option-cases, nat_eq,
}
use inst_video_downloader_tg.Base.Int.{pos}
use inst_video_downloader_tg.Sql.Keys.{at}
use inst_video_downloader_tg.Store.InlineSessions.{
  InlineSession, session_pk, get_inline_session, claim_inline_delivery, claim_inline_retry,
  cancel_inline_delivery,
}
use inst_video_downloader_tg.Store.InlineSessions.Machine.{claim_spec, retry_spec, cancel_spec}
use inst_video_downloader_tg.Store.InlineSessions.Refine.{
  claim-Implements, retry-Implements, cancel-Implements,
}
use inst_video_downloader_tg.Store.Payments.{
  Payment, inline_request, claim_one_time_payment_for_session,
  get_available_inline_one_time_payment, get_claimed_inline_one_time_payment,
}
use inst_video_downloader_tg.Store.Payments.Trace.{claim, perform, run}
use inst_video_downloader_tg.Store.RateLimit.{RateEvent, check_user_rate_limit}
use inst_video_downloader_tg.Inline.Access.{ResultKind}
use inst_video_downloader_tg.Inline.Bot.{
  Config, Bot, Tick, is_claimed, add_token, discard_token, pop_task, fail_session,
  claim_inline_delivery_session, consume_user_rate_limit, schedule_inline_delivery,
}
use inst_video_downloader_tg.Inline.Taps.{
  TapAnswer, rate_limited, not_claimed, preparing, is_once, is_expired, is_duplicate, deliverable,
  admit, launch, then_launch, chosen_inline_result_handler, inline_callback_handler, is_unsafe,
  is_cancelled, action_session, cancel_action, claim_retry, retry_action,
}
use inst_video_downloader_tg.Inline.Quiet.{
  left_open, Tame-same, Tame-Implements, Tame-failed, Follows, Quiet, Quiet-then, Quiet-same,
  Quiet-option, Quiet-sessions, Quiet-if,
}

claim_open :
    (now user : ℕ) (m : String) (o : Option InlineSession)
    → left_open (claim_spec now user m o).0 ≤ left_open o
unfolding claim_spec
claim_open now user m none = omega arith
claim_open now user m (some r) = ground arith

retry_open :
    (now user : ℕ) (m : String) (o : Option InlineSession)
    → left_open (retry_spec now user m o).0 ≤ left_open o
unfolding retry_spec
retry_open now user m none = omega arith
retry_open now user m (some r) = ground arith

cancel_open :
    (now user : ℕ) (m : String) (o : Option InlineSession)
    → left_open (cancel_spec now user m o).0 ≤ left_open o
unfolding cancel_spec
cancel_open now user m none = omega arith
cancel_open now user m (some r) = ground arith

claimed_session-Quiet :
    (k : Tick) (token : String) (user : ℕ) (message : String) (b : Bot)
    → Quiet b (claim_inline_delivery_session k token user message b).0
unfolding claim_inline_delivery_session
claimed_session-Quiet k token user message b =
    let result = claim_inline_delivery k.now token user message b.sessions in
    let t =
      Tame-Implements b.sessions token result
        (claim_spec k.now user message (at session_pk b.sessions token))
        (λ u. claim-Implements k.now token user message b.sessions u)
        (claim_open k.now user message (at session_pk b.sessions token)) in
    let b' = record b { sessions = result.0 } in
    elim (Bool-cases (is_claimed result.1)) [
      | inl y ↦ rw y (Quiet-sessions b (add_token token b') t refl refl refl)
      | inr n ↦ rw n (Quiet-sessions b b' t refl refl refl)
    ]

fail_session-Quiet : (k : Tick) (token : String) (b : Bot) → Quiet b (fail_session k token b)
unfolding fail_session
fail_session-Quiet k token b =
    Quiet-sessions b _ (Tame-failed k.now token b.sessions) refl refl refl

-- A bot that differs in no table of a session, a payment or an outcome
abbrev aside : Bot → List RateEvent → Bot
aside b rates = record b { rates = rates }

pub admit-Quiet :
    (c : Config) (k : Tick) (user : ℕ) (token : String) (next : TapAnswer) (b : Bot)
    → Quiet b (admit c k user token next b).0
unfolding admit consume_user_rate_limit
admit-Quiet c k user token next b =
    let result =
      check_user_rate_limit k.uuid (pos user) c.user_rate_limit_requests
        c.user_rate_limit_window_seconds k.now "inline" b.rates in
    Quiet-if result.1.allowed b (aside b result.0, next)
      (fail_session k token (aside b result.0), rate_limited result.1.retry_after_seconds)
      (Quiet-sessions b (aside b result.0) (Tame-same b.sessions) refl refl refl)
      (Quiet-then b (aside b result.0) (fail_session k token (aside b result.0))
        (Quiet-sessions b (aside b result.0) (Tame-same b.sessions) refl refl refl)
        (fail_session-Quiet k token (aside b result.0)))

taken_payment-Follows :
    (now : ℕ) (token : String) (user : ℕ) (sessions : List InlineSession) (t : List Payment)
    → Follows t (claim_one_time_payment_for_session now token user sessions t).0
unfolding claim_one_time_payment_for_session run perform
taken_payment-Follows now token user sessions t =
    elim (Option-cases (get_inline_session token (some user) sessions)) [
      | inl e ↦ ([], rw (claim_one_time_payment_for_session, e) refl)
      | inr (s, e) ↦
          elim (Option-cases
            (get_available_inline_one_time_payment sessions user s.provider s.normalized_url t)) [
              | inl f ↦ ([], rw (claim_one_time_payment_for_session, e) (rw f refl))
              | inr (p, f) ↦ (
                claim now p.payment_id (inline_request token) ∷ [],
                rw (claim_one_time_payment_for_session, e) (rw f refl),
              )
            ]
    ]

pub schedule-Quiet :
    (k : Tick) (token : String) (b : Bot) → Quiet b (schedule_inline_delivery k token b)
unfolding schedule_inline_delivery
schedule-Quiet k token b = Quiet-sessions b _ (Tame-same b.sessions) refl refl refl

pub launch-Quiet :
    (k : Tick) (user : ℕ) (kind : ResultKind) (token : String) (b : Bot)
    → Quiet b (launch k user kind token b).0
unfolding launch
launch-Quiet k user kind token b = elim (Bool-cases (is_once kind)) [
  | inr n ↦ rw n (schedule-Quiet k token b)
  | inl y ↦
      let result = claim_one_time_payment_for_session k.now token user b.sessions b.payments in
      let b' : Bot = record b { payments = result.0 } in
      let q : Quiet b b' = record {
        sessions = Tame-same b.sessions;
        payments = taken_payment-Follows k.now token user b.sessions b.payments;
        events = refl;
        promos = refl;
      } in
      elim (Option-cases result.1) [
        | inl e ↦
            rw (y, e) (Quiet-then b b' (fail_session k token b') q (fail_session-Quiet k token b'))
        | inr (id, e) ↦
            rw (y, e)
              (Quiet-then b b' (schedule_inline_delivery k token b') q (schedule-Quiet k token b'))
      ]
]

pub then_launch-Quiet :
    (k : Tick) (user : ℕ) (b : Bot) (x : Bot × TapAnswer)
    → Quiet b x.0
    → Quiet b (then_launch k user x).0
then_launch-Quiet k user b (b', preparing kind token) q =
    Quiet-then b b' (launch k user kind token b').0 q (launch-Quiet k user kind token b')
then_launch-Quiet k user b (b', _) q = q

pub chosen-Quiet :
    (c : Config) (k : Tick) (user : ℕ) (message : Option String) (result_id : String) (b : Bot)
    → Quiet b (chosen_inline_result_handler c k user message result_id b).0
unfolding chosen_inline_result_handler
chosen-Quiet c k user none result_id b = Quiet-same b
chosen-Quiet c k user (some message) result_id b = Quiet-if (message == "") b _ _ (Quiet-same b) (
    Quiet-option (deliverable result_id) b _ _ (Quiet-same b) (λ x e.
      let result = claim_inline_delivery_session k x.1 user message b in
      let q = claimed_session-Quiet k x.1 user message b in
      let admitted = admit c k user x.1 (preparing x.0 x.1) result.0 in
      Quiet-if (is_claimed result.1) b (then_launch k user admitted) (result.0, not_claimed)
        (then_launch-Quiet k user b admitted (
          Quiet-then b result.0 admitted.0 q
            (admit-Quiet c k user x.1 (preparing x.0 x.1) result.0)))
        q))

pub callback-Quiet :
    (c : Config) (k : Tick) (user : ℕ) (message : Option String) (data_ : String) (b : Bot)
    → Quiet b (inline_callback_handler c k user message data_ b).0
unfolding inline_callback_handler
callback-Quiet c k user none data_ b = Quiet-same b
callback-Quiet c k user (some message) data_ b = Quiet-if (message == "") b _ _ (Quiet-same b) (
    Quiet-option (deliverable data_) b _ _ (Quiet-same b) (λ x e.
      let result = claim_inline_delivery_session k x.1 user message b in
      let q = claimed_session-Quiet k x.1 user message b in
      Quiet-if (is_expired result.1) b _ _ q (
        Quiet-if (is_duplicate result.1) b _ _ q (
          Quiet-then b result.0 (admit c k user x.1 (preparing x.0 x.1) result.0).0 q
            (admit-Quiet c k user x.1 (preparing x.0 x.1) result.0)))))

pub cancel-Quiet :
    (k : Tick) (user : ℕ) (message token : String) (b : Bot)
    → Quiet b (cancel_action k user message token b).0
unfolding cancel_action
cancel-Quiet k user message token b =
    let result = cancel_inline_delivery k.now token user message b.sessions in
    let t =
      Tame-Implements b.sessions token result
        (cancel_spec k.now user message (at session_pk b.sessions token))
        (λ u. cancel-Implements k.now token user message b.sessions u)
        (cancel_open k.now user message (at session_pk b.sessions token)) in
    let b' : Bot = record b { sessions = result.0 } in
    let q : Quiet b b' = Quiet-sessions b b' t refl refl refl in
    let q' : Quiet b (discard_token token (pop_task token b')) =
      Quiet-sessions b _ t refl refl refl in
    Quiet-option (action_session user token b) b _ _
      (Quiet-if (is_unsafe result.1) b _ _ q (
        Quiet-if (not (is_cancelled result.1)) b _ _ q (
          Quiet-option (get_claimed_inline_one_time_payment token b'.payments) b _ _ q'
            (λ p e. q'))))
      (λ answer e. Quiet-same b)

claimed_retry-Quiet :
    (k : Tick) (user : ℕ) (message token : String) (payment : Option String) (b : Bot)
    → Quiet b (claim_retry k user message token payment b).0
claimed_retry-Quiet k user message token payment b =
    let result = claim_inline_retry k.now token user message b.sessions in
    let t =
      Tame-Implements b.sessions token result
        (retry_spec k.now user message (at session_pk b.sessions token))
        (λ u. retry-Implements k.now token user message b.sessions u)
        (retry_open k.now user message (at session_pk b.sessions token)) in
    let b' : Bot = record b { sessions = result.0 } in
    let q : Quiet b b' = Quiet-sessions b b' t refl refl refl in
    Quiet-if (is_expired result.1) b _ _ q (
      Quiet-if (not (is_claimed result.1)) b _ _ q
        (Quiet-sessions b (add_token token b') t refl refl refl))

pub retry-Quiet :
    (k : Tick) (user : ℕ) (message token : String) (b : Bot)
    → Quiet b (retry_action k user message token b).0
unfolding retry_action
retry-Quiet k user message token b =
    Quiet-option (get_inline_session token none b.sessions) b _ _ (Quiet-same b) (λ s e.
      Quiet-if (not (nat_eq s.user_id user)) b _ _ (Quiet-same b) (
        Quiet-if (s.access_kind == "one_time") b _ _
          (Quiet-option (get_claimed_inline_one_time_payment token b.payments) b _ _ (Quiet-same b)
            (λ p e. claimed_retry-Quiet k user message token (some p.payment_id) b))
          (claimed_retry-Quiet k user message token none b)))
