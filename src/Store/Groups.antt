-- ===== src/Store/Groups.antt =====
-- The settings of a chat, the language of a user and the one-time notifications: the tables
-- group_settings, user_settings and user_notifications of services/state_schema.py and their methods in
-- services/state_store.py. The defaults of config/settings.py are a parameter.
pub mod Effects
pub mod Tests
use inst_video_downloader_tg.Base.{
  ℕ, Bool, true, false, not, ◌&&◌, ◌||◌, Option, none, some, List, [], ◌∷◌, String, ◌==◌, nat_eq,
  nat_eq_iff, is_none, any, if◌then◌else◌,
}
use inst_video_downloader_tg.Base.Int.{ℤ, int_eq, int_eq_iff}
use inst_video_downloader_tg.Sql.{fetch_one, update, upsert}
use inst_video_downloader_tg.Sql.Keys.{Key, at, has}

-- The settings that the store reads
pub record Defaults : Type 0 where
  pub duplicate_suppression_enabled : Bool
  pub group_stats_enabled : Bool
  pub chat_max_concurrent_jobs : ℕ
  pub user_max_active_jobs : ℕ

pub record GroupRow : Type 0 where
  pub chat_id : ℤ
  pub quiet_mode : Bool
  pub duplicate_suppression : Bool
  pub stats_enabled : Bool
  pub chaos_mode_enabled : Bool
  pub chat_max_concurrent_jobs : Option ℕ
  pub user_max_active_jobs : Option ℕ

-- The dict that ensure_group_settings returns
pub record GroupSettings : Type 0 where
  pub quiet_mode : Bool
  pub duplicate_suppression : Bool
  pub stats_enabled : Bool
  pub chaos_mode_enabled : Bool
  pub chat_max_concurrent_jobs : ℕ
  pub user_max_active_jobs : ℕ

abbrev pub group_pk : Key GroupRow ℤ
group_pk = record { key = λ r. r.chat_id; beq = int_eq; beq_iff = int_eq_iff }

abbrev pub default_row : Defaults → ℤ → GroupRow
default_row d chat = record {
  chat_id = chat;
  quiet_mode = false;
  duplicate_suppression = d.duplicate_suppression_enabled;
  stats_enabled = d.group_stats_enabled;
  chaos_mode_enabled = false;
  chat_max_concurrent_jobs = none;
  user_max_active_jobs = none;
}

abbrev pub or_default : ℕ → Option ℕ → ℕ
or_default d none = d
or_default d (some n) = n

abbrev pub effective : Defaults → GroupRow → GroupSettings
effective d r = record {
  quiet_mode = r.quiet_mode;
  duplicate_suppression = r.duplicate_suppression;
  stats_enabled = r.stats_enabled;
  chaos_mode_enabled = r.chaos_mode_enabled;
  chat_max_concurrent_jobs = or_default d.chat_max_concurrent_jobs r.chat_max_concurrent_jobs;
  user_max_active_jobs = or_default d.user_max_active_jobs r.user_max_active_jobs;
}

-- INSERT ... ON CONFLICT(chat_id) DO NOTHING
abbrev pub ensured : Defaults → ℤ → List GroupRow → List GroupRow
ensured d chat t = upsert (has group_pk chat) (default_row d chat) (λ r. r) t

-- `none` is the failed assertion that the row is there.
pub ensure_group_settings : Defaults → ℤ → List GroupRow → List GroupRow × Option GroupSettings
ensure_group_settings d chat t =
    let t' = ensured d chat t in
    (t', elim (at group_pk t' chat) [ none ↦ none | some r ↦ some (effective d r) ])

-- A keyword argument of update_group_settings; `unknown_key` is any other name.
pub data GroupUpdate : Type 0 where
  quiet_mode_to : Bool → GroupUpdate
  duplicate_suppression_to : Bool → GroupUpdate
  stats_enabled_to : Bool → GroupUpdate
  chaos_mode_enabled_to : Bool → GroupUpdate
  chat_max_concurrent_jobs_to : Option ℕ → GroupUpdate
  user_max_active_jobs_to : Option ℕ → GroupUpdate
  unknown_key : String → GroupUpdate

abbrev pub allowed : GroupUpdate → Bool
allowed (unknown_key _) = false
allowed _ = true

abbrev pub assign : GroupUpdate → GroupRow → GroupRow
assign (quiet_mode_to b) r = record r { quiet_mode = b }
assign (duplicate_suppression_to b) r = record r { duplicate_suppression = b }
assign (stats_enabled_to b) r = record r { stats_enabled = b }
assign (chaos_mode_enabled_to b) r = record r { chaos_mode_enabled = b }
assign (chat_max_concurrent_jobs_to n) r = record r { chat_max_concurrent_jobs = n }
assign (user_max_active_jobs_to n) r = record r { user_max_active_jobs = n }
assign (unknown_key _) r = r

-- UPDATE group_settings SET assignments
abbrev pub assign_all : List GroupUpdate → GroupRow → GroupRow
assign_all [] r = r
assign_all (u ∷ us) r = assign_all us (assign u r)

pub update_group_settings :
    Defaults → ℤ → List GroupUpdate → List GroupRow → List GroupRow × Option GroupSettings
unfolding ensure_group_settings
update_group_settings d chat updates t =
    if any allowed updates
    then ensure_group_settings d chat
        (update (has group_pk chat) (assign_all updates) (ensure_group_settings d chat t).0)
    else ensure_group_settings d chat t

-- (chat_max_concurrent_jobs, user_max_active_jobs)
pub get_queue_limits : Defaults → ℤ → List GroupRow → List GroupRow × Option (ℕ × ℕ)
unfolding ensure_group_settings
get_queue_limits d chat t =
    let (t', found) = ensure_group_settings d chat t in
    (
      t',
      elim found [
        | none ↦ none
        | some s ↦ some (s.chat_max_concurrent_jobs, s.user_max_active_jobs)
      ],
    )

pub record UserSettings : Type 0 where
  pub user_id : ℕ
  pub language_code : Option String
  pub updated_at : ℕ

abbrev pub user_pk : Key UserSettings ℕ
user_pk = record { key = λ r. r.user_id; beq = nat_eq; beq_iff = nat_eq_iff }

-- A text that is not empty
abbrev pub filled : Option String → Option String
filled none = none
filled (some s) = if s == "" then none else some s

pub get_user_language : ℕ → List UserSettings → Option String
get_user_language user t = elim (at user_pk t user) [
  | none ↦ none
  | some r ↦ filled r.language_code
]

-- `none` is the ValueError for another language.
pub set_user_language : ℕ → ℕ → String → List UserSettings → Option (List UserSettings)
set_user_language now user code t =
    if code == "en" || code == "ru"
    then some (
        upsert (has user_pk user)
          (record { user_id = user; language_code = some code; updated_at = now })
          (λ r. record r { language_code = some code; updated_at = now }) t)
    else none

pub record Notification : Type 0 where
  pub notification_key : String
  pub user_id : ℤ
  pub status : String
  pub error_class : Option String
  pub created_at : ℕ
  pub updated_at : ℕ

abbrev pub is_for : String → ℤ → Notification → Bool
is_for key user r = (r.notification_key == key) && int_eq r.user_id user

pub notification_was_attempted : String → ℤ → List Notification → Bool
notification_was_attempted key user t = not (is_none (fetch_one (is_for key user) t))

abbrev pub is_terminal : String → Bool
is_terminal s = (s == "attempted") || ((s == "sent") || (s == "failed"))

unfoldable pub notification_should_skip : String → ℤ → List Notification → Bool
notification_should_skip key user t =
    not (is_none (fetch_one (λ r. is_for key user r && is_terminal r.status) t))

pub notification_was_sent : String → ℤ → List Notification → Bool
notification_was_sent key user t =
    not (is_none (fetch_one (λ r. is_for key user r && (r.status == "sent")) t))

-- `none` is the ValueError for a status outside USER_NOTIFICATION_STATUSES.
unfoldable pub record_user_notification :
    ℕ → String → ℤ → String → Option String → List Notification → Option (List Notification)
record_user_notification now key user status error t =
    if is_terminal status || (status == "retryable_failed")
    then some (
        upsert (is_for key user)
          (record {
            notification_key = key;
            user_id = user;
            status = status;
            error_class = error;
            created_at = now;
            updated_at = now;
          })
          (λ r. record r { status = status; error_class = error; updated_at = now }) t)
    else none
