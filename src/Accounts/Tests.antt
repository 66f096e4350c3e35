-- ===== src/Accounts/Tests.antt =====
-- Leases on concrete accounts.
use inst_video_downloader_tg.Base.{ℕ, ◌≡◌, refl, true, false, none, some, [], ◌∷◌, String, ◌==◌}
use inst_video_downloader_tg.Sql.{select, order_by, place, update, delete}
use inst_video_downloader_tg.Accounts.{
  Account, AccountManager, member, acquire_account, get_next_account,
}
use inst_video_downloader_tg.Accounts.Pool.{can_lease, acquire_exclusive}

abbrev account : String → Account
account name = record {
  username = name;
  password = "secret";
  totp_secret = "totp";
  proxy = none;
  session_file = none;
  is_banned = false;
  ban_reason = none;
  banned_at = none;
  last_used = none;
  consecutive_failures = 0;
  last_failure_reason = none;
  last_failure_at = none;
}

abbrev pool : AccountManager
pool = record {
  accounts = account "a" ∷ account "b" ∷ [];
  leased_accounts = [];
  last_low_pool_alert_at = none;
}

abbrev draw : ℕ → ℕ
draw n = 0

acquire_exclusive_example :
    (can_lease [] pool (record (account "a") { last_used = some 10 }) ≡ true)
    × (member "a" (acquire_account draw 10 [] pool).0.leased_accounts ≡ true)
    × (("b" == "a") ≡ false)
unfolding acquire_account get_next_account order_by place select update delete
acquire_exclusive_example =
    acquire_exclusive draw draw 10 11 [] [] pool {a = record (account "a") { last_used = some 10 }}
      {b = record (account "b") { last_used = some 11 }} refl refl
