-- ===== src/Inline/Taps.antt =====
-- The handlers that start, cancel and retry a delivery: chosen_inline_result_handler,
-- inline_callback_handler and inline_action_callback_handler of services/telegram_bot.py. A handler that
-- awaits before its last change of state is several steps.
pub mod Strangers
use inst_video_downloader_tg.Base.{
  ℕ, Bool, true, false, not, ◌&&◌, ◌||◌, Option, none, some, String, ◌==◌, nat_eq, is_none,
  if◌then◌else◌,
}
use inst_video_downloader_tg.Store.InlineSessions.{
  InlineSession, Outcome, claimed, expired, duplicate, unsafe, truthy, get_inline_session,
  cancel_inline_delivery, claim_inline_retry,
}
use inst_video_downloader_tg.Store.Payments.{
  Payment, claim_one_time_payment_for_session, get_claimed_inline_one_time_payment,
}
use inst_video_downloader_tg.Inline.Access.{
  ResultKind, once, free, paid, parse_chosen_inline_session_token,
}
use inst_video_downloader_tg.Inline.Bot.{
  Config, Bot, Tick, is_claimed, add_token, discard_token, pop_task, schedule_inline_delivery,
  claim_inline_delivery_session, consume_user_rate_limit, fail_session,
}

-- What the user of a handler sees of it
pub data TapAnswer : Type 0 where
  ignored request_expired already_preparing delivery_failed scheduled not_claimed : TapAnswer
  rate_limited : ℕ → TapAnswer
  preparing : ResultKind → String → TapAnswer

abbrev pub is_once : ResultKind → Bool
is_once once = true
is_once _ = false

abbrev pub is_paid_kind : ResultKind → Bool
is_paid_kind paid = true
is_paid_kind _ = false

-- The rate limit of a tap; over it the session fails.
unfoldable pub admit : Config → Tick → ℕ → String → TapAnswer → Bot → Bot × TapAnswer
admit c k user token next b =
    let (b', verdict) = consume_user_rate_limit c k user "inline" b in
    if verdict.allowed
    then (b', next)
    else (fail_session k token b', rate_limited verdict.retry_after_seconds)

-- The claim of a one-time payment, if the result spends one, and the start of the delivery task
unfoldable pub launch : Tick → ℕ → ResultKind → String → Bot → Bot × TapAnswer
launch k user kind token b =
    if is_once kind
    then (let (t, payment) =
          claim_one_time_payment_for_session k.now token user b.sessions b.payments in
        let b' = record b { payments = t } in
        elim payment [
          | none ↦ (fail_session k token b', delivery_failed)
          | some id ↦ (schedule_inline_delivery k token b', scheduled)
        ])
    else (schedule_inline_delivery k token b, scheduled)

abbrev pub then_launch : Tick → ℕ → Bot × TapAnswer → Bot × TapAnswer
then_launch k user (b, preparing kind token) = launch k user kind token b
then_launch k user (b, answer) = (b, answer)

-- The session of a result id or of button data, unless it is an offer to pay
unfoldable pub deliverable : String → Option (ResultKind × String)
deliverable data_ = elim (parse_chosen_inline_session_token data_) [
  | none ↦ none
  | some (kind, token) ↦ if is_paid_kind kind then none else some (kind, token)
]

-- chosen_inline_result_handler: nothing is awaited before the last change of state.
unfoldable pub chosen_inline_result_handler :
    Config → Tick → ℕ → Option String → String → Bot → Bot × TapAnswer
chosen_inline_result_handler c k user none result_id b = (b, ignored)
chosen_inline_result_handler c k user (some message) result_id b =
    if message == "" then (b, ignored) else elim (deliverable result_id) [
      | none ↦ (b, ignored)
      | some (kind, token) ↦
          let (b1, outcome) = claim_inline_delivery_session k token user message b in
          if is_claimed outcome
          then then_launch k user (admit c k user token (preparing kind token) b1)
          else (b1, not_claimed)
    ]

abbrev pub is_expired : Outcome → Bool
is_expired expired = true
is_expired _ = false

abbrev pub is_duplicate : Outcome → Bool
is_duplicate duplicate = true
is_duplicate _ = false

-- inline_callback_handler up to `await query.answer("Preparing media.")`; `launch` is what follows.
unfoldable pub inline_callback_handler :
    Config → Tick → ℕ → Option String → String → Bot → Bot × TapAnswer
inline_callback_handler c k user none data_ b = (b, ignored)
inline_callback_handler c k user (some message) data_ b =
    if message == "" then (b, ignored) else elim (deliverable data_) [
      | none ↦ (b, ignored)
      | some (kind, token) ↦
          let (b1, outcome) = claim_inline_delivery_session k token user message b in
          if is_expired outcome
          then (b1, request_expired)
          else if is_duplicate outcome
          then (b1, already_preparing)
          else admit c k user token (preparing kind token) b1
    ]

-- What inline_action_callback_handler answers; a payment to refund, and a retry, go on in later steps.
pub data ActionAnswer : Type 0 where
  action_expired not_requester cannot_cancel already_handled payment_gone cancelled : ActionAnswer
  refunding : String → ActionAnswer
  retrying : Option String → ActionAnswer

abbrev pub is_cancelled : Outcome → Bool
is_cancelled Outcome.cancelled = true
is_cancelled _ = false

abbrev pub is_unsafe : Outcome → Bool
is_unsafe unsafe = true
is_unsafe _ = false

-- The session of an action, if the user may act on it
abbrev pub action_session : ℕ → String → Bot → Option ActionAnswer
action_session user token b = elim (get_inline_session token none b.sessions) [
  | none ↦ some action_expired
  | some s ↦ if nat_eq s.user_id user then none else some not_requester
]

-- InlineAction.CANCEL up to the refund of the payment that the session holds
unfoldable pub cancel_action : Tick → ℕ → String → String → Bot → Bot × ActionAnswer
cancel_action k user message token b = elim (action_session user token b) [
  | some answer ↦ (b, answer)
  | none ↦
      let (t, outcome) = cancel_inline_delivery k.now token user message b.sessions in
      let b' = record b { sessions = t } in
      if is_unsafe outcome
      then (b', cannot_cancel)
      else if not (is_cancelled outcome)
      then (b', already_handled)
      else elim (get_claimed_inline_one_time_payment token b'.payments) [
        | none ↦ (discard_token token (pop_task token b'), cancelled)
        | some p ↦ (discard_token token (pop_task token b'), refunding p.payment_id)
      ]
]

abbrev pub claim_retry : Tick → ℕ → String → String → Option String → Bot → Bot × ActionAnswer
claim_retry k user message token payment b =
    let (t, outcome) = claim_inline_retry k.now token user message b.sessions in
    let b' = record b { sessions = t } in
    if is_expired outcome
    then (b', action_expired)
    else if not (is_claimed outcome)
    then (b', already_handled)
    else (add_token token b', retrying payment)

-- InlineAction.RETRY up to the edit of the message; `schedule_inline_delivery` is what follows.
unfoldable pub retry_action : Tick → ℕ → String → String → Bot → Bot × ActionAnswer
retry_action k user message token b = elim (get_inline_session token none b.sessions) [
  | none ↦ (b, action_expired)
  | some s ↦
      if not (nat_eq s.user_id user)
      then (b, not_requester)
      else if s.access_kind == "one_time"
      then elim (get_claimed_inline_one_time_payment token b.payments) [
        | none ↦ (b, payment_gone)
        | some p ↦ claim_retry k user message token (some p.payment_id) b
      ]
      else claim_retry k user message token none b
]
