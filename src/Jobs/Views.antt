-- ===== src/Jobs/Views.antt =====
-- The methods of JobManager (services/job_manager.py) that only read.
use inst_video_downloader_tg.Base.{
  ℕ, ◌+◌, Bool, not, ◌&&◌, Option, none, some, List, [], ◌∷◌, ◌++◌, String, if◌then◌else◌,
}
use inst_video_downloader_tg.Base.Int.{ℤ, int_eq}
use inst_video_downloader_tg.Sql.{row_count, select, last_by}
use inst_video_downloader_tg.Jobs.{RequestRecord, SharedJob, is_over, is_queued, is_running}
use inst_video_downloader_tg.Jobs.Manager.{JobManager}

-- The active requests of one requester
abbrev pub is_request_of : ℤ → ℤ → RequestRecord → Bool
is_request_of chat user r = int_eq r.chat_id chat && (int_eq r.user_id user && r.active)

module _ {A : Type 0} where
  pub candidates : ℤ → ℤ → List (SharedJob A) → List RequestRecord
  candidates chat user [] = []
  candidates chat user (j ∷ js) =
      (if j.listed && not (is_over j.state)
        then select (is_request_of chat user) j.requesters
        else [])
      ++ candidates chat user js

  -- get_latest_active_request_id
  pub get_latest_active_request_id : ℤ → ℤ → JobManager A → Option String
  unfolding candidates
  get_latest_active_request_id chat user m =
      elim (last_by (λ r. r.created_monotonic) (candidates chat user m.objects)) [
        | none ↦ none
        | some r ↦ some r.request_id
      ]

  -- The active requests of the jobs that are not over
  pub watchers : (SharedJob A → Bool) → List (SharedJob A) → ℕ
  watchers p [] = 0
  watchers p (j ∷ js) =
      (if p j && not (is_over j.state) then row_count (λ r. r.active) j.requesters else 0)
      + watchers p js

-- What get_snapshot and get_global_snapshot count; their limits come from the settings.
pub record Snapshot : Type 0 where
  pub active_jobs : ℕ
  pub queued_jobs : ℕ
  pub active_requests : ℕ

module _ {A : Type 0} where
  pub snapshot_of : (SharedJob A → Bool) → JobManager A → Snapshot
  unfolding watchers
  snapshot_of p m = record {
    active_jobs = row_count (λ j. p j && is_running j.state) m.objects;
    queued_jobs = row_count (λ j. p j && is_queued j.state) m.objects;
    active_requests = watchers p m.objects;
  }

  pub get_snapshot : ℤ → JobManager A → Snapshot
  unfolding snapshot_of
  get_snapshot chat m = snapshot_of (λ j. j.listed && int_eq j.chat_id chat) m

  pub get_global_snapshot : JobManager A → Snapshot
  unfolding snapshot_of
  get_global_snapshot m = snapshot_of (λ j. j.listed) m
