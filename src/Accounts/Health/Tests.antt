-- ===== src/Accounts/Health/Tests.antt =====
-- Failures of concrete accounts.
use inst_video_downloader_tg.Base.{
  ℕ, ◌*◌, ◌+◌, ◌≡◌, refl, false, ◌||◌, none, some, List, [], ◌∷◌, String, any, max, leb,
}
use inst_video_downloader_tg.Sql.{fetch_one}
use inst_video_downloader_tg.Sql.Keys.{at}
use inst_video_downloader_tg.Base.Texts.{has_prefix, contains, contains_any}
use inst_video_downloader_tg.Accounts.{Account, account_pk, AccountManager}
use inst_video_downloader_tg.Accounts.Health.{
  Config, is_hard_account_failure_reason, requires_replacement_for_failure_reason,
  record_account_failure, reset_old_banned_accounts,
}
use inst_video_downloader_tg.Accounts.Health.Quarantine.{
  fail_all, hard, count_of, quarantine_count, hard_failure_reset,
}

abbrev account : String → Account
account name = record {
  username = name;
  password = "secret";
  totp_secret = "totp";
  proxy = none;
  session_file = none;
  is_banned = false;
  ban_reason = none;
  banned_at = none;
  last_used = none;
  consecutive_failures = 0;
  last_failure_reason = none;
  last_failure_at = none;
}

abbrev pool : AccountManager
pool = record {
  accounts = account "a" ∷ account "b" ∷ [];
  leased_accounts = [];
  last_low_pool_alert_at = none;
}

abbrev config : Config
config = record {
  account_failure_threshold = 2;
  account_low_watermark = 3;
  account_alert_cooldown_seconds = 3600;
  lower = λ s. s;
}

abbrev failures : List (ℕ × String)
failures = (10, "timeout") ∷ (20, "timeout") ∷ []

quarantine_count_example :
    (fail_all config failures (account "a")).is_banned
    ≡ (any (hard config) failures || leb (max 1 2) (count_of failures))
quarantine_count_example = quarantine_count config failures (account "a") refl refl

hard_failure_reset_example :
    (b : Account) × (at account_pk
        (reset_old_banned_accounts config 90000 24
          (record_account_failure config 10 "a" "rate limit" pool).0).accounts
        "a"
      ≡ some b)
    × (b.is_banned ≡ (
        requires_replacement_for_failure_reason config "rate limit" || leb 90000 (10 + 24 * 3600)))
unfolding is_hard_account_failure_reason contains_any contains has_prefix fetch_one
hard_failure_reset_example =
    hard_failure_reset config 10 90000 24 "a" "rate limit" pool (account "a") refl refl refl
