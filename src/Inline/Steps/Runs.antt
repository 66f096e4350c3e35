-- ===== src/Inline/Steps/Runs.antt =====
-- What holds after every sequence of steps.
use inst_video_downloader_tg.Base.{
  ℕ, ◌+◌, ◌≤◌, ◌≡◌, refl, false, some, List, [], ◌∷◌, String, arith,
}
use inst_video_downloader_tg.Sql.Keys.{at, Unique}
use inst_video_downloader_tg.Store.InlineSessions.{session_pk}
use inst_video_downloader_tg.Store.Payments.{Payment, payment_pk, is_paid}
use inst_video_downloader_tg.Store.Payments.Trace.{run_settled}
use inst_video_downloader_tg.Inline.Access.{Numbers}
use inst_video_downloader_tg.Inline.Bot.{Config, Bot, cleanup_inline_delivery_task}
use inst_video_downloader_tg.Inline.Delivery.{deliver_in_turn, deliver_downloaded}
use inst_video_downloader_tg.Inline.Steps.{
  Step, query, offer, choose, tap, tap_answered, cancel, retry, retry_shown, start, prepared,
  in_turn, downloaded, uploaded, edited, raised, refund, task_done, pay, check, perform, run, opens,
}
use inst_video_downloader_tg.Inline.Failure.{download, storage_upload}
use inst_video_downloader_tg.Inline.Delivery.{downloading, uploading}
use inst_video_downloader_tg.Inline.Quiet.{
  left_open, Tame-same, Follows, Follows-same, Follows-then, Quiet-sessions,
}
use inst_video_downloader_tg.Inline.Quiet.Taps.{
  schedule-Quiet, chosen-Quiet, callback-Quiet, launch-Quiet, cancel-Quiet, retry-Quiet,
}
use inst_video_downloader_tg.Inline.Quiet.Deliveries.{
  start-Quiet, stage-Quiet, uploaded-Quiet, refund-Quiet,
}
use inst_video_downloader_tg.Inline.Quiet.Outcomes.{recorded, is_opened, Moves, Quiet→Moves}
use inst_video_downloader_tg.Inline.Quiet.Endings.{edited-Moves, prepared-Moves, raised-Moves}
use inst_video_downloader_tg.Inline.Quiet.Queries.{
  query-Moves, offers-Moves, payment-Quiet, check-Quiet,
}

module _ (n : Numbers) (c : Config) where
  perform-Moves : (s : Step) (b : Bot) → Moves (opens s) b (perform n c s b)
  unfolding perform
  perform-Moves (query k token user link) b = query-Moves c k token user link b
  perform-Moves (offer k token user link f) b = offers-Moves c k token user link f b
  perform-Moves (choose k user message id) b = Quiet→Moves b _ (chosen-Quiet c k user message id b)
  perform-Moves (tap k user message data_) b =
      Quiet→Moves b _ (callback-Quiet c k user message data_ b)
  perform-Moves (tap_answered k user kind token) b =
      Quiet→Moves b _ (launch-Quiet k user kind token b)
  perform-Moves (cancel k user message token) b =
      Quiet→Moves b _ (cancel-Quiet k user message token b)
  perform-Moves (retry k user message token) b =
      Quiet→Moves b _ (retry-Quiet k user message token b)
  perform-Moves (retry_shown k token) b = Quiet→Moves b _ (schedule-Quiet k token b)
  perform-Moves (start k token payment) b = Quiet→Moves b _ (start-Quiet k token payment b)
  perform-Moves (prepared k task) b = prepared-Moves c k task b
  perform-Moves (in_turn k task) b =
      Quiet→Moves b _ (unfold deliver_in_turn in stage-Quiet k task download downloading b)
  perform-Moves (downloaded k task) b =
      Quiet→Moves b _ (unfold deliver_downloaded in stage-Quiet k task storage_upload uploading b)
  perform-Moves (uploaded k task item) b = Quiet→Moves b _ (uploaded-Quiet k task item b)
  perform-Moves (edited k task) b = edited-Moves k task b
  perform-Moves (raised k task e stage) b = raised-Moves k task e stage b
  perform-Moves (refund k id reason answer) b = Quiet→Moves b _ (refund-Quiet k id reason answer b)
  perform-Moves (task_done token) b = Quiet→Moves b _ (
      unfold cleanup_inline_delivery_task in
      Quiet-sessions b _ (Tame-same b.sessions) refl refl refl)
  perform-Moves (pay k p) b = Quiet→Moves b _ (payment-Quiet n c k p b)
  perform-Moves (check rule k answer s) b = Quiet→Moves b _ (check-Quiet rule k answer s b)

  run-Follows : (ss : List Step) (b : Bot) → Follows b.payments (run n c ss b).payments
  unfolding run
  run-Follows [] b = Follows-same b.payments
  run-Follows (s ∷ ss) b =
      Follows-then b.payments (perform n c s b).payments (run n c ss (perform n c s b)).payments
        (perform-Moves s b).payments (run-Follows ss (perform n c s b))

  -- However the bot's handlers and delivery tasks interleave, a payment that was delivered, was refunded, or
  -- could not be refunded keeps its row: no retry, cancellation, late failure or second refund changes it.
  pub bot_settled :
      (ss : List Step) (j : String) (b : Bot) {p : Payment}
      → at payment_pk b.payments j ≡ some p
      → is_paid p.status ≡ false
      → at payment_pk (run n c ss b).payments j ≡ some p
  bot_settled ss j b {p} h s =
      let (es, e) = run-Follows ss b in rw e (run_settled es j b.payments h s)

  -- How many of the steps may have created the session of a token: the queries and the offers of paid options
  -- that come with it
  pub opened : String → List Step → ℕ
  opened j [] = 0
  opened j (s ∷ ss) = is_opened (opens s) j + opened j ss

  -- A session has one outcome recorded: however the steps interleave, the delivery events of a token grow by at
  -- most one for each query or offer that comes with this token and so may create its session, and by one more if
  -- the session was there before and open; the session that is there and open at the end takes one from that bound.
  -- So none is recorded for a session that is closed, cancelled ones among them, or that is not there, until a
  -- query or an offer with its token.
  pub outcome_once :
      (ss : List Step) (j : String) (b : Bot)
      → Unique session_pk b.sessions
      → recorded j (run n c ss b).events + left_open (at session_pk (run n c ss b).sessions j)
        ≤ recorded j b.events + left_open (at session_pk b.sessions j) + opened j ss
  unfolding run opened
  outcome_once [] j b u = omega arith
  outcome_once (s ∷ ss) j b u =
      let m = perform-Moves s b in
      omega (arith, m.bounded u j, outcome_once ss j (perform n c s b) (m.unique u))
