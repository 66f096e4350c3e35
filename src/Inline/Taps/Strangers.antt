-- ===== src/Inline/Taps/Strangers.antt =====
-- A tap on the button of somebody else's inline message.
use inst_video_downloader_tg.Base.{
  ℕ, ◌≡◌, refl, ap, ◌∙◌, false, not, ◌&&◌, none, some, List, ◌∷◌, String, ◌==◌, nat_eq,
  if◌then◌else◌, inl, inr, Bool-cases,
}
use inst_video_downloader_tg.Sql.{delete}
use inst_video_downloader_tg.Store.Payments.{Payment, claim_one_time_payment_for_session}
use inst_video_downloader_tg.Sql.Keys.{at, has, Unique, fetch_one-keyed}
use inst_video_downloader_tg.Sql.Laws.{fetch_one-update, fetch_one_sound}
use inst_video_downloader_tg.Store.InlineSessions.{
  InlineSession, failed, unauthorized, session_pk, claim_inline_delivery,
  mark_inline_session_status, get_inline_session,
}
use inst_video_downloader_tg.Inline.Access.{ResultKind}
use inst_video_downloader_tg.Inline.Bot.{
  Config, Bot, Tick, claim_inline_delivery_session, consume_user_rate_limit, fail_session,
  schedule_inline_delivery,
}
use inst_video_downloader_tg.Inline.Taps.{
  rate_limited, delivery_failed, scheduled, is_once, launch, then_launch, deliverable, admit,
  inline_callback_handler,
}

claim_by_other :
    (now : ℕ) (token : String) (user : ℕ) (message : String) (t : List InlineSession)
    {s : InlineSession}
    → at session_pk t token ≡ some s
    → nat_eq s.user_id user ≡ false
    → claim_inline_delivery now token user message t ≡ (t, unauthorized)
unfolding claim_inline_delivery
claim_by_other now token user message t e n = rw (claim_inline_delivery, e) (rw n refl)

marked_row :
    (now : ℕ) (token : String) (t : List InlineSession) {s : InlineSession}
    → at session_pk t token ≡ some s
    → at session_pk (mark_inline_session_status now token failed t) token
      ≡ some (record s { status = failed; updated_at = now })
unfolding mark_inline_session_status
marked_row now token t {s} e =
    fetch_one-update (has session_pk token) (has session_pk token)
      (λ r. record r { status = failed; updated_at = now }) t (λ r. refl)
    ∙ rw (e, fetch_one_sound (has session_pk token) t e) refl

-- A stranger finds no session to spend a payment on.
payment_by_other :
    (now : ℕ) (token : String) (user : ℕ) (sessions : List InlineSession) (t : List Payment)
    {s : InlineSession}
    → Unique session_pk sessions
    → at session_pk sessions token ≡ some s
    → nat_eq s.user_id user ≡ false
    → claim_one_time_payment_for_session now token user sessions t ≡ (t, none)
unfolding claim_one_time_payment_for_session get_inline_session
payment_by_other now token user sessions t u e n =
    let seen = fetch_one-keyed session_pk token (λ r. nat_eq r.user_id user) sessions u in
    rw (claim_one_time_payment_for_session, seen, e, n) refl

-- A tap by another user on the button of a session is not turned away, whatever the state of the session. Over the
-- tapper's rate limit the session is marked failed. Within it, if the button spends a one-time payment, the session is
-- marked failed as well, for none is claimed for the tapper; with any other button the session stays and a delivery task
-- is scheduled for it. No payment changes. Nothing else comes between the two parts of the handler here.
pub tap_by_other :
    (c : Config) (k : Tick) (user : ℕ) (message data_ token : String) (kind : ResultKind) (b : Bot)
    {s : InlineSession}
    → Unique session_pk b.sessions
    → (message == "") ≡ false
    → deliverable data_ ≡ some (kind, token)
    → at session_pk b.sessions token ≡ some s
    → nat_eq s.user_id user ≡ false
    → let verdict = (consume_user_rate_limit c k user "inline" b).1 in
      let goes_on = verdict.allowed && not (is_once kind) in
      let result = then_launch k user (inline_callback_handler c k user (some message) data_ b) in
      (at session_pk result.0.sessions token
        ≡ some (if goes_on then s else record s { status = failed; updated_at = k.now }))
      × (result.0.delivery_tasks ≡ (
          if goes_on
          then (token, k.task) ∷ delete (λ t. t.0 == token) b.delivery_tasks
          else b.delivery_tasks))
      × (result.0.payments ≡ b.payments)
      × (result.1 ≡ (
          if not verdict.allowed
          then rate_limited verdict.retry_after_seconds
          else if is_once kind
          then delivery_failed
          else scheduled))
unfolding inline_callback_handler claim_inline_delivery_session admit consume_user_rate_limit
    fail_session launch schedule_inline_delivery
tap_by_other c k user message data_ token kind b {s} u m d e n =
    let claim = claim_by_other k.now token user message b.sessions e n in
    let unspent = payment_by_other k.now token user b.sessions b.payments u e n in
    let marked = marked_row k.now token b.sessions e in
    elim (Bool-cases (consume_user_rate_limit c k user "inline" b).1.allowed) [
      | inr y ↦ rw (inline_callback_handler, m, d) (rw claim (rw y (marked, refl, refl, refl)))
      | inl y ↦ elim (Bool-cases (is_once kind)) [
        | inl o ↦
            rw (inline_callback_handler, m, d)
              (rw claim
                (rw y (rw (launch, o, unspent) (marked, refl, ap (λ x. x.0) unspent, refl))))
        | inr o ↦
            rw (inline_callback_handler, m, d)
              (rw claim (rw y (rw (launch, o) (e, refl, refl, refl))))
      ]
    ]
