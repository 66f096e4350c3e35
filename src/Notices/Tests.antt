-- ===== src/Notices/Tests.antt =====
-- Announcements to concrete users.
use inst_video_downloader_tg.Base.{any, ◌||◌, ◌≡◌, refl, false, none, List, [], ◌∷◌, String}
use inst_video_downloader_tg.Base.Int.{ℤ, pos, negsuc}
use inst_video_downloader_tg.Sql.{row_count, fetch_one, upsert}
use inst_video_downloader_tg.Store.Jobs.{RequestRow}
use inst_video_downloader_tg.Store.Groups.{notification_should_skip, record_user_notification}
use inst_video_downloader_tg.Notices.{
  Answer, accepted, forbidden, telegram_error, Attempt, list_distinct_request_user_ids,
  send_announcement_once, announce_each, announce, take_answer,
}
use inst_video_downloader_tg.Notices.Once.{
  settled_call, Deploy, calls_of, table_after, sent_after, not_called_again,
}

abbrev request : String → ℤ → RequestRow
request id user = record {
  request_id = id;
  job_id = "j1";
  chat_id = pos 1;
  user_id = user;
  user_label = "u";
  provider = "instagram";
  normalized_url = "https://example.org/1";
  status = "completed";
  cache_hit = false;
  joined_existing = false;
  failure_reason = none;
  retryable = false;
  retry_of_request_id = none;
  created_at = 1;
  updated_at = 1;
}

abbrev requests : List RequestRow
requests = request "r1" (pos 8) ∷ request "r2" (negsuc 5) ∷ request "r3" (pos 8) ∷ []

requesters : list_distinct_request_user_ids requests ≡ negsuc 5 ∷ pos 8 ∷ []
unfolding list_distinct_request_user_ids
requesters = refl

abbrev answers : Answer → ℤ → Attempt
answers a user = record { started_at = 20; ended_at = 21; answer = a }

abbrev deploy : Answer → Deploy
deploy a = record { notification_key = "bot_migration"; requests = requests; attempts = answers a }

-- A timeout is tried again at the next start, and after that the user is left alone.
abbrev deploys : List Deploy
deploys = deploy (telegram_error "TimedOut") ∷ deploy accepted ∷ deploy (forbidden "Forbidden") ∷ []

reached_at_last : row_count (settled_call "bot_migration" (pos 8)) (calls_of deploys []) ≡ 1
unfolding row_count calls_of send_announcement_once list_distinct_request_user_ids announce_each
    announce notification_should_skip fetch_one record_user_notification take_answer upsert
reached_at_last = refl

not_called_again_example :
    (sent_after
        (notification_should_skip "bot_migration" (pos 8) [])
        "bot_migration"
        (pos 8)
        (calls_of deploys [])
      ≡ 0)
    × (notification_should_skip "bot_migration" (pos 8) (table_after deploys []) ≡ (
        notification_should_skip "bot_migration" (pos 8) []
        || any (settled_call "bot_migration" (pos 8)) (calls_of deploys [])))
not_called_again_example = not_called_again "bot_migration" (pos 8) deploys []
