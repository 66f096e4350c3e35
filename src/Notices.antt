-- ===== src/Notices.antt =====
-- services/post_deploy_notifications.py: announcements that each user of the bot is to get once.
pub mod Once
pub mod Tests
use inst_video_downloader_tg.Base.{
  ℕ, suc, Bool, true, false, Option, none, some, List, [], ◌∷◌, ◌++◌, String, ltb, nat_eq,
  if◌then◌else◌,
}
use inst_video_downloader_tg.Base.Int.{ℤ, int_eq, int_lt}
use inst_video_downloader_tg.Store.Jobs.{RequestRow}
use inst_video_downloader_tg.Store.Groups.{
  Notification, notification_should_skip, record_user_notification,
}

-- list_distinct_request_user_ids: SELECT DISTINCT user_id ... ORDER BY user_id
abbrev pub insert_user : ℤ → List ℤ → List ℤ
insert_user user [] = user ∷ []
insert_user user (u ∷ us) =
    let rest = insert_user user us in
    if int_lt user u then user ∷ u ∷ us else if int_eq user u then u ∷ us else u ∷ rest

pub list_distinct_request_user_ids : List RequestRow → List ℤ
list_distinct_request_user_ids [] = []
list_distinct_request_user_ids (r ∷ rs) = insert_user r.user_id (list_distinct_request_user_ids rs)

-- What bot.send_message does: it returns, raises Forbidden or another TelegramError, each with the name of
-- its class, or an exception that no clause catches
pub data Answer : Type 0 where
  accepted : Answer
  forbidden telegram_error : String → Answer
  raised : Answer

-- The instants when the attempt to reach a user is recorded and when it is over
pub record Attempt : Type 0 where
  pub started_at : ℕ
  pub ended_at : ℕ
  pub answer : Answer

-- A call of bot.send_message
pub record Call : Type 0 where
  pub notification_key : String
  pub user_id : ℤ
  pub answer : Answer

pub record Progress : Type 0 where
  pub notifications : List Notification
  pub calls : List Call
  pub sent : ℕ
  pub failed : ℕ
  pub skipped : ℕ

-- The statement after one that may raise; `false` is an exception.
abbrev pub and_then : Progress × Bool → (Progress → Progress × Bool) → Progress × Bool
and_then (p, false) next = (p, false)
and_then (p, true) next = next p

abbrev pub store_or_raise : Progress → Option (List Notification) → Progress × Bool
store_or_raise p none = (p, false)
store_or_raise p (some t) = (record p { notifications = t }, true)

abbrev pub note : ℕ → String → ℤ → String → Option String → Progress → Progress × Bool
note now key user status error p =
    store_or_raise p (record_user_notification now key user status error p.notifications)

abbrev pub add_failed : Progress → Progress × Bool
add_failed p = (record p { failed = suc p.failed }, true)

-- The clauses of the try statement
pub take_answer : String → ℤ → ℕ → Answer → Progress → Progress × Bool
take_answer key user now accepted p =
    and_then (note now key user "sent" none p) (λ q. (record q { sent = suc q.sent }, true))
take_answer key user now (forbidden error) p =
    and_then (note now key user "failed" (some error) p) add_failed
take_answer key user now (telegram_error error) p =
    and_then (note now key user "retryable_failed" (some error) p) add_failed
take_answer key user now raised p = (p, false)

abbrev pub add_call : Call → Progress → Progress
add_call call p = record p { calls = p.calls ++ call ∷ [] }

-- The body of the loop
pub announce : String → ℤ → Attempt → Progress → Progress × Bool
announce key user attempt p =
    let call : Call = record { notification_key = key; user_id = user; answer = attempt.answer } in
    if notification_should_skip key user p.notifications
    then (record p { skipped = suc p.skipped }, true)
    else and_then (note attempt.started_at key user "attempted" none p)
        (λ q. take_answer key user attempt.ended_at attempt.answer (add_call call q))

pub announce_each : (ℤ → Attempt) → String → List ℤ → Progress → Progress × Bool
announce_each attempts key [] p = (p, true)
announce_each attempts key (user ∷ users) p =
    and_then (announce key user (attempts user) p) (λ q. announce_each attempts key users q)

-- _send_announcement_once, with what Telegram answers to each user; `false` means that it raised.
pub send_announcement_once :
    (ℤ → Attempt) → String → List RequestRow → List Notification → Progress × Bool
send_announcement_once attempts key requests t =
    announce_each attempts key (list_distinct_request_user_ids requests)
      (record { notifications = t; calls = []; sent = 0; failed = 0; skipped = 0 })
