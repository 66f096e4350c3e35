-- ===== src/Inline/Tests.antt =====
-- Inline delivery on a bot with one session and one payment.
use inst_video_downloader_tg.Base.{
  ℕ, ◌+◌, ◌≤◌, ◌≡◌, refl, true, false, not, ◌&&◌, ◌==◌, none, some, List, [], ◌∷◌, inr,
  if◌then◌else◌,
}
use inst_video_downloader_tg.Base.Int.{pos}
use inst_video_downloader_tg.Base.Order.{drop_chars}
use inst_video_downloader_tg.Base.Split.{split_colon, strip, lstrip, rstrip}
use inst_video_downloader_tg.Base.Texts.{has_prefix}
use inst_video_downloader_tg.Sql.{fetch_one, select, first_by, delete}
use inst_video_downloader_tg.Sql.Keys.{at}
use inst_video_downloader_tg.Store.InlineSessions.{
  InlineSession, SessionStatus, failed, session_pk, get_inline_session,
}
use inst_video_downloader_tg.Store.Payments.{
  Payment, delivered, payment_pk, get_inline_one_time_payment_by_charge_id,
}
use inst_video_downloader_tg.Store.Access.{is_inline_whitelisted, has_active_inline_subscription}
use inst_video_downloader_tg.Store.Cache.{InlineItem, get_inline_cached_media}
use inst_video_downloader_tg.Inline.Access.{
  free, kind_of, parse_inline_payment_payload, parse_inline_result_id,
  parse_chosen_inline_session_token, build_one_time_entitlement_result_id,
}
use inst_video_downloader_tg.Inline.Access.Tests.{unary}
use inst_video_downloader_tg.Inline.Bot.{
  Config, Bot, Tick, consume_user_rate_limit, inline_media_cache_key,
}
use inst_video_downloader_tg.Inline.Answers.{
  ParsedLink, delivery_option, inline_query_handler, paid_or_free_inline_access_kind_for_user,
}
use inst_video_downloader_tg.Inline.Taps.{
  rate_limited, delivery_failed, scheduled, is_once, then_launch, deliverable,
  inline_callback_handler,
}
use inst_video_downloader_tg.Inline.Taps.Strangers.{tap_by_other}
use inst_video_downloader_tg.Inline.Delivery.{Task, sent}
use inst_video_downloader_tg.Inline.Delivery.Whole.{World, deliver_inline_session}
use inst_video_downloader_tg.Inline.Delivery.Whole.Ends.{HasStatus, final_status, delivery_ends}
use inst_video_downloader_tg.Inline.Checkout.{
  SuccessfulPayment, recorded, successful_payment_handler,
}
use inst_video_downloader_tg.Inline.Checkout.Offers.{paid_then_offered}
use inst_video_downloader_tg.Inline.Quiet.{left_open}
use inst_video_downloader_tg.Inline.Quiet.Outcomes.{recorded as recorded_events}
use inst_video_downloader_tg.Inline.Steps.{Step, query, choose, start, edited, cancel, tap, run}
use inst_video_downloader_tg.Inline.Steps.Runs.{bot_settled, outcome_once, opened}

abbrev config : Config
config = record {
  inline_mode_enabled = true;
  inline_storage_chat_id = some (pos 5);
  inline_subscription_required = true;
  inline_free_successful_deliveries = 0;
  inline_one_time_claim_recovery = 10;
  inline_session_ttl = 60;
  inline_subscription_period = 100;
  user_rate_limit_requests = 3;
  user_rate_limit_window_seconds = 60;
}

abbrev sending : InlineSession
sending = record {
  session_token = "aZ3";
  user_id = 7;
  original_url = "https://x.com/u/status/1";
  normalized_url = "https://x.com/u/status/1";
  provider = "twitter";
  provider_label = "X";
  access_kind = "subscription";
  inline_message_id = some "m1";
  status = SessionStatus.delivering;
  delivery_stage = some "preflight";
  failure_class = none;
  failure_stage = none;
  error_class = none;
  failure_retryable = false;
  attempt_count = 1;
  created_at = 1;
  expires_at = 100;
  updated_at = 1;
}

abbrev spent : Payment
spent = record {
  payment_id = "p1";
  user_id = 7;
  session_token = "aZ3";
  provider = some "twitter";
  normalized_url = some "https://x.com/u/status/1";
  telegram_payment_charge_id = "c1";
  total_amount = 5;
  status = delivered;
  request_id = some "inline:aZ3";
  refund_reason = none;
  created_at = 1;
  updated_at = 1;
}

abbrev bot : Bot
bot = record {
  sessions = sending ∷ [];
  payments = spent ∷ [];
  rates = [];
  whitelist = [];
  subscriptions = [];
  promos = [];
  events = [];
  media = [];
  runtime = [];
  delivery_tokens = "aZ3" ∷ [];
  delivery_tasks = ("aZ3", 1) ∷ [];
}

abbrev tick : ℕ → Tick
tick now = record { now = now; uuid = "u1"; task = 2 }

abbrev task : Task
task = record {
  session_token = "aZ3";
  payment = some "p1";
  inline_message_id = "m1";
  user_id = 7;
  provider = "twitter";
  normalized_url = "https://x.com/u/status/1";
}

abbrev steps : List Step
steps =
    tap (tick 10) 8 (some "m1") "inline:aZ3"
    ∷ edited (tick 11) task
    ∷ cancel (tick 12) 7 "m1" "aZ3"
    ∷ edited (tick 13) task
    ∷ []

bot_settled_example : at payment_pk (run unary config steps bot).payments "p1" ≡ some spent
unfolding fetch_one
bot_settled_example = bot_settled unary config steps "p1" bot {p = spent} refl refl

abbrev link : ParsedLink
link = record {
  original_url = "https://x.com/u/status/1";
  normalized_url = "https://x.com/u/status/1";
  provider = "twitter";
  provider_label = "X";
}

abbrev empty : Bot
empty = record bot { sessions = []; payments = []; delivery_tokens = []; delivery_tasks = [] }

-- A user makes a query, chooses its result, and the delivery ends; a second end comes too late.
abbrev life : List Step
life =
    query (tick 2) "aZ3" 7 (some link)
    ∷ choose (tick 3) 7 (some "m1") "inline:aZ3"
    ∷ start (tick 4) "aZ3" none
    ∷ edited (tick 5) task
    ∷ edited (tick 6) task
    ∷ []

abbrev admitting : Config
admitting = record config { inline_subscription_required = false }

outcome_once_example :
    recorded_events "aZ3" (run unary admitting life empty).events
      + left_open (at session_pk (run unary admitting life empty).sessions "aZ3")
    ≤ recorded_events "aZ3" empty.events
      + left_open (at session_pk empty.sessions "aZ3")
      + opened unary admitting "aZ3" life
outcome_once_example = outcome_once unary admitting life "aZ3" empty tt

abbrev item : InlineItem
item = record {
  media_type = "video";
  file_id = "f1";
  caption = none;
  duration = none;
  width = none;
  height = none;
}

abbrev world : World
world = record { download = none; upload = inr item; edit = none; refund = sent }

delivery_ends_example :
    HasStatus "aZ3"
      (final_status config world
        (get_inline_cached_media (inline_media_cache_key "twitter" "https://x.com/u/status/1") []))
      (deliver_inline_session config (tick 10) world "aZ3" (some "p1") bot)
unfolding fetch_one
delivery_ends_example =
    delivery_ends config (tick 10) world "aZ3" (some "p1") bot {s = sending} (tt, tt) refl refl refl

tap_by_other_example :
    let verdict = (consume_user_rate_limit config (tick 10) 8 "inline" bot).1 in
    let goes_on = verdict.allowed && not (is_once free) in
    let result =
      then_launch
        (tick 10)
        8
        (inline_callback_handler config (tick 10) 8 (some "m1") "inline:aZ3" bot) in
    (at session_pk result.0.sessions "aZ3"
      ≡ some (if goes_on then sending else record sending { status = failed; updated_at = 10 }))
    × (result.0.delivery_tasks ≡ (
        if goes_on
        then ("aZ3", 2) ∷ delete (λ t. t.0 == "aZ3") bot.delivery_tasks
        else bot.delivery_tasks))
    × (result.0.payments ≡ bot.payments)
    × (result.1 ≡ (
        if not verdict.allowed
        then rate_limited verdict.retry_after_seconds
        else if is_once free
        then delivery_failed
        else scheduled))
unfolding fetch_one deliverable parse_chosen_inline_session_token parse_inline_result_id has_prefix
    drop_chars strip lstrip rstrip
tap_by_other_example =
    tap_by_other config (tick 10) 8 "m1" "inline:aZ3" "aZ3" free bot {s = sending} (tt, tt) refl
      refl refl refl

abbrev stars : SuccessfulPayment
stars = record {
  user_id = 7;
  invoice_payload = "inline_once:v1:1111111:aZ3";
  currency = "XTR";
  total_amount = 5;
  charge_id = "c2";
  provider_charge_id = "";
  paid_until = none;
}

paid_then_offered_example :
    let result = successful_payment_handler unary config (tick 10) stars bot in
    (result.1 ≡ recorded)
    × ((inline_query_handler config (tick 20) "bY4" 7 (some link) result.0).1
        ≡ delivery_option (build_one_time_entitlement_result_id "bY4"))
unfolding parse_inline_payment_payload split_colon kind_of strip lstrip rstrip
    get_inline_one_time_payment_by_charge_id first_by select fetch_one get_inline_session
    paid_or_free_inline_access_kind_for_user is_inline_whitelisted has_active_inline_subscription
paid_then_offered_example =
    paid_then_offered unary config (tick 10) (tick 20) stars "aZ3" "bY4" link bot {s = sending} refl
      refl refl refl (tt, tt) refl refl refl refl refl refl refl
