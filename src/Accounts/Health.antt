-- ===== src/Accounts/Health.antt =====
-- utils/account_manager.py: failures of accounts, their quarantine and its end, and the alert.
pub mod Quarantine
pub mod Tests
use Prim.Native.String.{◌++◌ as append}
use inst_video_downloader_tg.Base.{
  ℕ, suc, ◌+◌, ◌-◌, ◌*◌, max, min, Bool, true, false, not, ◌&&◌, ◌||◌, Option, none, some, List, [],
  ◌∷◌, ◌++◌, String, ◌==◌, eq_iff, leb, ltb, nat_eq, is_none, any, length, get_elem?, if◌then◌else◌,
}
use inst_video_downloader_tg.Base.Texts.{has_prefix, contains, contains_any}
use inst_video_downloader_tg.Base.Order.{drop_chars}
use inst_video_downloader_tg.Sql.{select, update, delete, row_count, order_by}
use inst_video_downloader_tg.Sql.Keys.{Key, at, has}
use inst_video_downloader_tg.Accounts.{
  Account, account_pk, AccountManager, is_filled, is_available, get_available_accounts, discard,
  cleared, member,
}

pub record AccountHealthEvent : Type 0 where
  pub username : String
  pub reason : String
  pub consecutive_failures : ℕ
  pub threshold : ℕ
  pub threshold_reached : Bool
  pub available_accounts : ℕ
  pub total_accounts : ℕ
  pub low_watermark : ℕ
  pub should_alert_owner : Bool

-- What the manager reads of config/settings.py, and `str.lower`
pub record Config : Type 0 where
  pub account_failure_threshold : ℕ
  pub account_low_watermark : ℕ
  pub account_alert_cooldown_seconds : ℕ
  pub lower : String → String

pub is_hard_account_failure_reason : Config → String → Bool
unfolding contains_any
is_hard_account_failure_reason config reason = contains_any (config.lower reason) (
    "auth_challenge" ∷ "challenge_required" ∷ "manual_verification" ∷ "manual verification"
    ∷ "checkpoint" ∷ "ufac" ∷ "web bloks" ∷ "unresolved_challenge" ∷ "challenge resolver"
    ∷ "unknown step_name" ∷ "invalid_credentials" ∷ "invalid username or password"
    ∷ "login_required" ∷ "login required" ∷ "auth_failed" ∷ "unauthorized" ∷ "401" ∷ "rate_limited"
    ∷ "rate limit" ∷ "please wait" ∷ [])

pub requires_replacement_for_failure_reason : Config → String → Bool
unfolding contains_any is_hard_account_failure_reason
requires_replacement_for_failure_reason config reason =
    if contains_any (config.lower reason) ("rate_limited" ∷ "rate limit" ∷ "please wait" ∷ [])
    then false
    else is_hard_account_failure_reason config reason

pub replacement_required_reason : String → String
replacement_required_reason reason = append "replacement_required:" reason

pub temporary_hard_failure_reason : String → String
temporary_hard_failure_reason reason = append "hard_failure:" reason

-- The prefix hard_failure: has 13 characters.
pub is_replacement_required_ban_reason : Config → Option String → Bool
is_replacement_required_ban_reason config none = false
is_replacement_required_ban_reason config (some reason) =
    is_filled reason
    && (if has_prefix "replacement_required:" reason
        then true
        else if has_prefix "hard_failure:" reason
        then requires_replacement_for_failure_reason config (drop_chars 13 reason)
        else requires_replacement_for_failure_reason config reason)

-- should_alert_low_pool; the clock does not go back.
pub should_alert_low_pool : Config → ℕ → AccountManager → AccountManager × Bool
unfolding get_available_accounts
should_alert_low_pool config now m =
    let cooling : Bool = elim m.last_low_pool_alert_at [
      | none ↦ false
      | some last ↦ ltb now (last + config.account_alert_cooldown_seconds)
    ] in
    if nat_eq config.account_low_watermark 0
    then (m, false)
    else if leb config.account_low_watermark (length (get_available_accounts m))
    then (m, false)
    else if cooling
    then (m, false)
    else (record m { last_low_pool_alert_at = some now }, true)

-- hard_failure or previous_failures < threshold <= account.consecutive_failures, for an account that
-- is not banned
pub threshold_of : Config → String → ℕ
unfolding is_hard_account_failure_reason
threshold_of config reason =
    if is_hard_account_failure_reason config reason
    then 1
    else max 1 config.account_failure_threshold

pub reached : Config → String → Account → Bool
unfolding is_hard_account_failure_reason threshold_of
reached config reason a =
    not a.is_banned
    && (is_hard_account_failure_reason config reason
        || (ltb a.consecutive_failures (threshold_of config reason)
            && leb (threshold_of config reason) (suc a.consecutive_failures)))

pub ban_reason_for : Config → String → String
ban_reason_for config reason =
    if is_hard_account_failure_reason config reason
    then (if requires_replacement_for_failure_reason config reason
        then replacement_required_reason reason
        else temporary_hard_failure_reason reason)
    else append "sequential_failures:" reason

-- The account after a failure
pub failed_account : Config → ℕ → String → Account → Account
unfolding reached ban_reason_for
failed_account config now reason a =
    let counted = record a {
      consecutive_failures = suc a.consecutive_failures;
      last_failure_reason = some reason;
      last_failure_at = some now;
    } in
    if reached config reason a
    then record counted {
      is_banned = true;
      ban_reason = some (ban_reason_for config reason);
      banned_at = some now;
    }
    else counted

-- `none` is for a name that no account of the pool has; the code holds an account of the pool.
pub record_account_failure :
    Config → ℕ → String → String → AccountManager → AccountManager × Option AccountHealthEvent
unfolding get_available_accounts should_alert_low_pool threshold_of reached failed_account
record_account_failure config now name reason m = elim (at account_pk m.accounts name) [
  | none ↦ (m, none)
  | some a ↦
      let quarantined = reached config reason a in
      let m' = record m {
        accounts = update (has account_pk name) (failed_account config now reason) m.accounts;
        leased_accounts = if quarantined then discard name m.leased_accounts else m.leased_accounts;
      } in
      let (alerted, alert) = should_alert_low_pool config now m' in
      (
        if quarantined then alerted else m',
        some (record {
          username = name;
          reason = reason;
          consecutive_failures = suc a.consecutive_failures;
          threshold = threshold_of config reason;
          threshold_reached = quarantined;
          available_accounts = length (get_available_accounts m');
          total_accounts = length m'.accounts;
          low_watermark = config.account_low_watermark;
          should_alert_owner = quarantined && alert;
        }),
      )
]

pub mark_account_unavailable : ℕ → String → String → AccountManager → AccountManager
mark_account_unavailable now name reason m = record m {
  accounts =
      update (has account_pk name)
        (λ a. record a { is_banned = true; ban_reason = some reason; banned_at = some now })
        m.accounts;
  leased_accounts = discard name m.leased_accounts;
}

abbrev pub reset : Account → Account
reset a = record (cleared a) { is_banned = false; ban_reason = none; banned_at = none }

pub reset_banned_accounts : AccountManager → AccountManager
reset_banned_accounts m = record m { accounts = update (λ a. a.is_banned) reset m.accounts }

-- banned_at < now - timedelta(hours=hours)
abbrev pub banned_long_ago : ℕ → ℕ → Account → Bool
banned_long_ago now hours a =
    a.is_banned && elim a.banned_at [ none ↦ false | some t ↦ ltb (t + hours * 3600) now ]

pub reset_old_banned_accounts : Config → ℕ → ℕ → AccountManager → AccountManager
unfolding is_replacement_required_ban_reason
reset_old_banned_accounts config now hours m = record m {
  accounts =
      update
        (λ a.
          banned_long_ago now hours a
          && not (is_replacement_required_ban_reason config a.ban_reason))
        reset m.accounts;
}
