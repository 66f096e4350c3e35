-- ===== src/Inline/Steps.antt =====
-- Inline delivery as a whole: what the bot does between two awaits is a step, and its tasks and handlers
-- interleave as the event loop schedules them, so any sequence of steps with any arguments is considered.
pub mod Runs
use inst_video_downloader_tg.Base.{
  ℕ, ◌+◌, Bool, Option, none, some, List, [], ◌∷◌, String, ◌==◌, if◌then◌else◌,
}
use inst_video_downloader_tg.Store.Access.{Subscription}
use inst_video_downloader_tg.Store.Cache.{InlineItem}
use inst_video_downloader_tg.Inline.Access.{Numbers, ResultKind}
use inst_video_downloader_tg.Inline.Bot.{
  Config, Bot, Tick, schedule_inline_delivery, cleanup_inline_delivery_task,
}
use inst_video_downloader_tg.Inline.Answers.{
  ParsedLink, inline_query_handler, answer_paid_inline_options,
}
use inst_video_downloader_tg.Inline.Taps.{
  chosen_inline_result_handler, inline_callback_handler, launch, cancel_action, retry_action,
}
use inst_video_downloader_tg.Inline.Failure.{DeliveryError, Stage}
use inst_video_downloader_tg.Inline.Delivery.{
  Task, Refund, deliver_start, deliver_prepared, deliver_in_turn, deliver_downloaded,
  deliver_uploaded, deliver_edited, deliver_raised, refund_answered,
}
use inst_video_downloader_tg.Inline.Checkout.{
  SuccessfulPayment, successful_payment_handler, RefundRule, check_subscription,
}

pub data Step : Type 0 where
  query : Tick → String → ℕ → Option ParsedLink → Step
  offer : Tick → String → ℕ → ParsedLink → Bool → Step
  choose : Tick → ℕ → Option String → String → Step
  tap : Tick → ℕ → Option String → String → Step
  tap_answered : Tick → ℕ → ResultKind → String → Step
  cancel : Tick → ℕ → String → String → Step
  retry : Tick → ℕ → String → String → Step
  retry_shown : Tick → String → Step
  start : Tick → String → Option String → Step
  prepared : Tick → Task → Step
  in_turn : Tick → Task → Step
  downloaded : Tick → Task → Step
  uploaded : Tick → Task → InlineItem → Step
  edited : Tick → Task → Step
  raised : Tick → Task → DeliveryError → Stage → Step
  refund : Tick → String → String → Refund → Step
  task_done : String → Step
  pay : Tick → SuccessfulPayment → Step
  check : RefundRule → Tick → (String → Refund) → Subscription → Step

module _ (n : Numbers) (c : Config) where
  unfoldable pub perform : Step → Bot → Bot
  perform (query k token user link) b = (inline_query_handler c k token user link b).0
  perform (offer k token user link invoice_failed) b =
      answer_paid_inline_options c k token user link invoice_failed b
  perform (choose k user message result_id) b =
      (chosen_inline_result_handler c k user message result_id b).0
  perform (tap k user message data_) b = (inline_callback_handler c k user message data_ b).0
  perform (tap_answered k user kind token) b = (launch k user kind token b).0
  perform (cancel k user message token) b = (cancel_action k user message token b).0
  perform (retry k user message token) b = (retry_action k user message token b).0
  perform (retry_shown k token) b = schedule_inline_delivery k token b
  perform (start k token payment) b = (deliver_start k token payment b).0
  perform (prepared k task) b = (deliver_prepared c k task b).0
  perform (in_turn k task) b = (deliver_in_turn k task b).0
  perform (downloaded k task) b = (deliver_downloaded k task b).0
  perform (uploaded k task item) b = (deliver_uploaded k task item b).0
  perform (edited k task) b = deliver_edited k task b
  perform (raised k task e stage) b = (deliver_raised k task e stage b).0
  perform (refund k id reason answer) b = refund_answered k id reason answer b
  perform (task_done token) b = cleanup_inline_delivery_task token b
  perform (pay k p) b = (successful_payment_handler n c k p b).0
  perform (check rule k answer s) b = check_subscription rule k answer s b

  unfoldable pub run : List Step → Bot → Bot
  run [] b = b
  run (s ∷ ss) b = run ss (perform s b)

-- The token of the session that a step may create
abbrev pub opens : Step → Option String
opens (query _ token _ _) = some token
opens (offer _ token _ _ _) = some token
opens _ = none
