-- ===== src/Inline/Delivery.antt =====
-- _deliver_inline_session of services/telegram_bot.py, in the steps between its awaits, and the refunds
-- of one-time payments. Downloading, uploading and editing are what happens between the steps.
pub mod Whole
use Prim.Native.String.{◌++◌ as append}
use inst_video_downloader_tg.Base.{
  ℕ, Bool, true, false, not, ◌&&◌, ◌||◌, Option, none, some, List, [], ◌∷◌, String, ◌==◌, is_none,
  if◌then◌else◌,
}
use inst_video_downloader_tg.Store.InlineSessions.{
  InlineSession, SessionStatus, chosen, delivered, failed, delivery_unknown, is_delivering, truthy,
  Checked, returned, value_error, Failure, get_inline_session, mark_inline_session_status,
  advance_inline_delivery_stage, finish_inline_delivery,
}
use inst_video_downloader_tg.Store.Payments.{
  Payment, is_paid, inline_request, get_claimed_inline_one_time_payment,
  get_inline_one_time_payment, mark_inline_one_time_payment_delivered,
  mark_inline_one_time_payment_refunded, mark_inline_one_time_payment_refund_failed,
}
use inst_video_downloader_tg.Store.Cache.{
  InlineItem, get_inline_cached_media, save_inline_cached_media,
}
use inst_video_downloader_tg.Inline.Bot.{
  Config, Bot, Tick, discard_token, record_successful_inline_access, record_failed_inline_access,
  inline_media_cache_key,
}
use inst_video_downloader_tg.Telegram.Retry.{other_error}
use inst_video_downloader_tg.Inline.Failure.{
  DeliveryError, call_error, Stage, download, storage_upload, inline_edit, stage_name, class_name,
  classify_inline_delivery_failure, delivery_unknown_after, retryable_after,
}

-- What a delivery keeps across an await: its token and payment, and the columns of the session
pub record Task : Type 0 where
  pub session_token : String
  pub payment : Option String
  pub inline_message_id : String
  pub user_id : ℕ
  pub provider : String
  pub normalized_url : String

-- What a step leaves the task to do. `refunding` is a payment to refund, and the reason.
pub data Next : Type 0 where
  ended waiting downloading uploading editing : Next
  refunding : String → String → Next

abbrev pub is_chosen : SessionStatus → Bool
is_chosen chosen = true
is_chosen _ = false

-- An answer of advance and finish; neither is called with a stage or a status that it refuses.
abbrev pub checked : Bot → Checked (List InlineSession × Bool) → Bot × Bool
checked b value_error = (b, false)
checked b (returned (t, done)) = (record b { sessions = t }, done)

abbrev pub advance_to : Tick → String → Stage → Bot → Bot × Bool
advance_to k token stage b =
    checked b (advance_inline_delivery_stage k.now token (stage_name stage) b.sessions)

abbrev pub finish_as : Tick → String → SessionStatus → Failure → Bot → Bot × Bool
finish_as k token status f b = checked b (finish_inline_delivery k.now token status f b.sessions)

-- The payment that the task was given, or the one that the session has claimed
abbrev pub payment_of : String → Option String → Bot → Option String
payment_of token (some id) b = some id
payment_of token none b = elim (get_claimed_inline_one_time_payment token b.payments) [
  | none ↦ none
  | some p ↦ some p.payment_id
]

unfoldable pub message_of : InlineSession → Option String
message_of s = if truthy s.inline_message_id then s.inline_message_id else none

-- A session that is still `chosen` is taken to `delivering`.
abbrev pub take_chosen : Tick → String → InlineSession → Bot → Bot
take_chosen k token s b =
    if is_chosen s.status
    then (let b' = record b {
      sessions = mark_inline_session_status k.now token SessionStatus.delivering b.sessions;
    } in
        (advance_to k token Stage.preflight b').0)
    else b

-- Up to the edit that shows the preparation
unfoldable pub deliver_start : Tick → String → Option String → Bot → Bot × Option Task
deliver_start k token payment b =
    let id = payment_of token payment b in
    elim (get_inline_session token none b.sessions) [
      | none ↦ (discard_token token b, none)
      | some s ↦ elim (message_of s) [
        | none ↦ (discard_token token b, none)
        | some message ↦
            let b' = take_chosen k token s b in
            elim (get_inline_session token none b'.sessions) [
              | none ↦ (discard_token token b', none)
              | some r ↦
                  if is_delivering r.status
                  then (
                    b',
                    some (record {
                      session_token = token;
                      payment = id;
                      inline_message_id = message;
                      user_id = r.user_id;
                      provider = r.provider;
                      normalized_url = r.normalized_url;
                    }),
                  )
                  else (discard_token token b', none)
            ]
      ]
    ]

-- What follows a failure for good: the record of it, and the refund if there is a payment
abbrev pub give_up : Tick → Task → String → Bot → Bot × Next
give_up k task reason b = elim (get_inline_session task.session_token none b.sessions) [
  | none ↦ (discard_token task.session_token b, ended)
  | some s ↦
      let b' = record_failed_inline_access k s b in
      elim task.payment [
        | none ↦ (discard_token task.session_token b', ended)
        | some id ↦ (b', refunding id reason)
      ]
]

abbrev pub storage_missing : Failure
storage_missing = record {
  failure_class = some "inline_storage_missing";
  failure_stage = some "preflight";
  error_class = none;
  retryable = false;
}

abbrev pub start_edit : Tick → Task → Bot → Bot × Next
start_edit k task b =
    let (b', ok_) = advance_to k task.session_token inline_edit b in
    if ok_ then (b', editing) else (discard_token task.session_token b', ended)

-- In its turn, before the download and before the upload
unfoldable pub deliver_stage : Tick → Task → Stage → Next → Bot → Bot × Next
deliver_stage k task stage next b =
    let (b', ok_) = advance_to k task.session_token stage b in
    if ok_ then (b', next) else (discard_token task.session_token b', ended)

unfoldable pub deliver_in_turn : Tick → Task → Bot → Bot × Next
unfolding deliver_stage
deliver_in_turn k task b = deliver_stage k task download downloading b

unfoldable pub deliver_downloaded : Tick → Task → Bot → Bot × Next
unfolding deliver_stage
deliver_downloaded k task b = deliver_stage k task storage_upload uploading b

-- After the upload, up to the edit of the message
unfoldable pub deliver_uploaded : Tick → Task → InlineItem → Bot → Bot × Next
deliver_uploaded k task item b =
    let saved =
      save_inline_cached_media k.now (inline_media_cache_key task.provider task.normalized_url)
        task.provider task.normalized_url (item ∷ []) b.media in
    start_edit k task (record b { media = saved })

abbrev pub no_failure : Failure
no_failure = record {
  failure_class = none;
  failure_stage = none;
  error_class = none;
  retryable = false;
}

abbrev pub pay_off : Tick → Task → Bot → Bot
pay_off k task b = elim task.payment [
  | none ↦ b
  | some id ↦ record b {
    payments =
        mark_inline_one_time_payment_delivered k.now id (inline_request task.session_token)
          b.payments;
  }
]

abbrev pub record_success : Tick → String → Bot → Bot
record_success k token b = elim (get_inline_session token none b.sessions) [
  | none ↦ b
  | some s ↦ record_successful_inline_access k s b
]

-- After the edit of the message
unfoldable pub deliver_edited : Tick → Task → Bot → Bot
deliver_edited k task b =
    let (b', done) = finish_as k task.session_token delivered no_failure b in
    discard_token task.session_token
      (if done then pay_off k task (record_success k task.session_token b') else b')

-- The failure columns of the except clause
abbrev pub failure_after : DeliveryError → Stage → Failure
failure_after e stage = record {
  failure_class = some (classify_inline_delivery_failure e stage);
  failure_stage = some (stage_name stage);
  error_class = some (class_name e);
  retryable = retryable_after e stage;
}

-- The except clause, for an error raised in a stage
unfoldable pub deliver_raised : Tick → Task → DeliveryError → Stage → Bot → Bot × Next
deliver_raised k task e stage b =
    let unknown = delivery_unknown_after e stage in
    let status = if unknown then delivery_unknown else failed in
    let (b', done) = finish_as k task.session_token status (failure_after e stage) b in
    if not done || (unknown || retryable_after e stage)
    then (discard_token task.session_token b', ended)
    else give_up k task (classify_inline_delivery_failure e stage) b'

-- cached["media_items"][0] of an empty list
abbrev pub index_error : DeliveryError
index_error = call_error (record {
  class = other_error;
  name = "IndexError";
  text = "list index out of range";
  retry_after = 0;
})

-- The first of the cached media goes out at once.
abbrev pub edit_first : Tick → Task → List InlineItem → Bot → Bot × Next
edit_first k task [] b = deliver_raised k task index_error Stage.preflight b
edit_first k task (item ∷ items) b = start_edit k task b

-- After the edit: without a storage chat the delivery fails; media in the cache go out at once; else the
-- task waits for its turn to download.
unfoldable pub deliver_prepared : Config → Tick → Task → Bot → Bot × Next
unfolding deliver_raised
deliver_prepared c k task b =
    if is_none c.inline_storage_chat_id
    then (let (b', done) = finish_as k task.session_token failed storage_missing b in
        if done
        then give_up k task "inline_storage_missing" b'
        else (discard_token task.session_token b', ended))
    else elim (get_inline_cached_media (inline_media_cache_key task.provider task.normalized_url)
        b.media) [ none ↦ (b, waiting) | some m ↦ edit_first k task m.media_items b ]

-- What Telegram answers to a refund: done, or the name of the TelegramError's class
pub data Refund : Type 0 where
  sent : Refund
  refused : String → Refund

-- _refund_one_time_payment up to the call, and after it
unfoldable pub refund_due : String → Bot → Option String
refund_due id b = elim (get_inline_one_time_payment id b.payments) [
  | none ↦ none
  | some p ↦ if is_paid p.status then some p.telegram_payment_charge_id else none
]

unfoldable pub refund_answered : Tick → String → String → Refund → Bot → Bot
refund_answered k id reason sent b = record b {
  payments = mark_inline_one_time_payment_refunded k.now id reason b.payments;
}
refund_answered k id reason (refused name) b = record b {
  payments =
      mark_inline_one_time_payment_refund_failed k.now id (append reason (append ":" name))
        b.payments;
}
