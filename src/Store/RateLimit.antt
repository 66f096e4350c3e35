-- ===== src/Store/RateLimit.antt =====
-- The table user_rate_limit_events of services/state_schema.py and check_user_rate_limit of
-- services/state_store.py. Times are microseconds; the stored ISO texts in UTC order as these do.
pub mod Window
pub mod Tests
use Prim.Native.Nat.{◌/◌}
use inst_video_downloader_tg.Base.{
  ℕ, suc, ◌+◌, ◌-◌, ◌*◌, max, Bool, true, false, ◌&&◌, List, [], ◌∷◌, ◌++◌, String, length, leb,
  ltb, if◌then◌else◌,
}
use inst_video_downloader_tg.Base.Int.{ℤ, int_eq}
use inst_video_downloader_tg.Sql.{select, delete, order_by}

pub record RateEvent : Type 0 where
  pub event_id : String
  pub user_id : ℤ
  pub source : String
  pub created_at : ℕ

pub record RateVerdict : Type 0 where
  pub allowed : Bool
  pub retry_after_seconds : ℕ

abbrev pub second : ℕ
second = 1000000

-- created_at <= now - window
abbrev pub left_window : ℕ → ℕ → RateEvent → Bool
left_window window_seconds now e = leb (e.created_at + window_seconds * second) now

-- created_at > now - window, for a user
abbrev pub in_window : ℕ → ℕ → ℤ → RateEvent → Bool
in_window window_seconds now user e =
    int_eq e.user_id user && ltb now (e.created_at + window_seconds * second)

abbrev pub created_before : RateEvent → RateEvent → Bool
created_before a b = ltb a.created_at b.created_at

-- int((oldest + window - now).total_seconds()), at least 1
abbrev pub retry_after : ℕ → ℕ → List RateEvent → ℕ
retry_after window_seconds now [] = 1
retry_after window_seconds now (oldest ∷ rows) =
    max 1 ((oldest.created_at + window_seconds * second - now) / second)

-- `event_id` is the fresh uuid of the event that an allowed check adds.
pub check_user_rate_limit :
    String → ℤ → ℕ → ℕ → ℕ → String → List RateEvent → List RateEvent × RateVerdict
check_user_rate_limit event_id user limit window_seconds now source events =
    let kept = delete (left_window window_seconds now) events in
    let rows = order_by created_before (select (in_window window_seconds now user) kept) in
    if leb (max 1 limit) (length rows)
    then (
      kept,
      record { allowed = false; retry_after_seconds = retry_after window_seconds now rows },
    )
    else (
      kept
          ++ record { event_id = event_id; user_id = user; source = source; created_at = now } ∷ [],
      record { allowed = true; retry_after_seconds = 0 },
    )
