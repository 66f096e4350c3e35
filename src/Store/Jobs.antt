-- ===== src/Store/Jobs.antt =====
-- The tables jobs, request_events and performance_metrics of services/state_schema.py, and the methods
-- of StateStore (services/state_store.py) that read and write them. A status is the stored text.
pub mod Metrics
pub mod Laws
pub mod Lifecycle
pub mod Tests
use inst_video_downloader_tg.Base.{
  ℕ, ◌+◌, ◌-◌, ◌≡◌, Bool, true, false, not, ◌&&◌, ◌||◌, Option, none, some, List, String, ◌==◌,
  eq_iff, leb, ltb, coalesce, if◌then◌else◌,
}
use inst_video_downloader_tg.Base.Int.{ℤ, int_eq}
use inst_video_downloader_tg.Sql.{insert, update, row_count, select, first_by}
use inst_video_downloader_tg.Sql.Keys.{Key, at, has, inserted}
use inst_video_downloader_tg.Store.InlineSessions.{is_text}
use inst_video_downloader_tg.Store.Jobs.Metrics.{MetricsRow}

pub record JobRow : Type 0 where
  pub job_id : String
  pub chat_id : ℤ
  pub normalized_url : String
  pub provider : String
  pub status : String
  pub created_at : ℕ
  pub started_at : Option ℕ
  pub finished_at : Option ℕ
  pub error_class : Option String

pub record RequestRow : Type 0 where
  pub request_id : String
  pub job_id : String
  pub chat_id : ℤ
  pub user_id : ℤ
  pub user_label : String
  pub provider : String
  pub normalized_url : String
  pub status : String
  pub cache_hit : Bool
  pub joined_existing : Bool
  pub failure_reason : Option String
  pub retryable : Bool
  pub retry_of_request_id : Option String
  pub created_at : ℕ
  pub updated_at : ℕ

-- The three tables.
pub record JobTables : Type 0 where
  pub jobs : List JobRow
  pub requests : List RequestRow
  pub metrics : List MetricsRow

abbrev pub job_pk : Key JobRow String
job_pk = record { key = λ r. r.job_id; beq = ◌==◌; beq_iff = eq_iff }

abbrev pub request_pk : Key RequestRow String
request_pk = record { key = λ r. r.request_id; beq = ◌==◌; beq_iff = eq_iff }

-- create_job; the caller's id is fresh (uuid4), and a taken one leaves the table.
unfoldable pub create_job : ℕ → String → ℤ → String → String → String → List JobRow → List JobRow
create_job now id chat url provider status t = inserted job_pk t (
    insert (has job_pk id)
      (record {
        job_id = id;
        chat_id = chat;
        normalized_url = url;
        provider = provider;
        status = status;
        created_at = now;
        started_at = none;
        finished_at = none;
        error_class = none;
      })
      t)

-- status in {"completed", "failed", "cancelled"}
abbrev pub is_finished : String → Bool
is_finished s = s == "completed" || (s == "failed" || s == "cancelled")

-- status IN ('queued', 'running')
abbrev pub is_active : String → Bool
is_active s = s == "queued" || s == "running"

abbrev pub when : Bool → ℕ → Option ℕ
when true now = some now
when false now = none

-- The SET clause of update_job_status
abbrev pub job_status_row : ℕ → String → Option String → JobRow → JobRow
job_status_row now status error r = record r {
  status = status;
  error_class = coalesce error r.error_class;
  started_at = coalesce (when (status == "running") now) r.started_at;
  finished_at = coalesce (when (is_finished status) now) r.finished_at;
}

unfoldable pub update_job_status : ℕ → String → String → Option String → List JobRow → List JobRow
update_job_status now id status error = update (has job_pk id) (job_status_row now status error)

unfoldable pub create_request :
    ℕ
    → String
    → String
    → ℤ
    → ℤ
    → String
    → String
    → String
    → String
    → Bool
    → Option String
    → List RequestRow
    → List RequestRow
create_request now id job chat user label provider url status joined retry_of t =
    inserted request_pk t (
      insert (has request_pk id)
        (record {
          request_id = id;
          job_id = job;
          chat_id = chat;
          user_id = user;
          user_label = label;
          provider = provider;
          normalized_url = url;
          status = status;
          cache_hit = false;
          joined_existing = joined;
          failure_reason = none;
          retryable = false;
          retry_of_request_id = retry_of;
          created_at = now;
          updated_at = now;
        })
        t)

-- CASE WHEN ? IS NULL THEN retryable ELSE ? END
abbrev pub or_kept : Option Bool → Bool → Bool
or_kept none old = old
or_kept (some b) old = b

-- The SET clause of update_request_status
abbrev pub request_status_row :
    ℕ → String → Bool → Option String → Option Bool → RequestRow → RequestRow
request_status_row now status hit reason again r = record r {
  status = status;
  cache_hit = if hit then true else r.cache_hit;
  failure_reason = coalesce reason r.failure_reason;
  retryable = or_kept again r.retryable;
  updated_at = now;
}

unfoldable pub update_request_status :
    ℕ → String → String → Bool → Option String → Option Bool → List RequestRow → List RequestRow
update_request_status now id status hit reason again =
    update (has request_pk id) (request_status_row now status hit reason again)

-- get_retry_request_id
unfoldable pub get_retry_request_id : String → List RequestRow → Option String
get_retry_request_id id t =
    elim (first_by (λ r. r.created_at) (select (λ r. is_text r.retry_of_request_id id) t)) [
      | none ↦ none
      | some r ↦ some r.request_id
    ]

-- get_request_for_action: the request with the URL and the provider of its job (an inner join)
unfoldable pub get_request_for_action :
    String → List JobRow → List RequestRow → Option (RequestRow × String × String)
get_request_for_action id jobs requests = elim (at request_pk requests id) [
  | none ↦ none
  | some r ↦ elim (at job_pk jobs r.job_id) [
    | none ↦ none
    | some j ↦ some (r, j.normalized_url, j.provider)
  ]
]

abbrev pub cancelled_job : ℕ → String → JobRow → JobRow
cancelled_job now reason r = record r {
  status = "cancelled";
  error_class = coalesce r.error_class (some reason);
  finished_at = coalesce r.finished_at (some now);
}

abbrev pub cancelled_metrics : ℕ → String → MetricsRow → MetricsRow
cancelled_metrics now reason m = record m {
  status = "cancelled";
  failure_class = coalesce m.failure_class (some reason);
  finished_at = coalesce m.finished_at (some now);
}

-- reconcile_interrupted_jobs: the three UPDATEs of one transaction, and the first one's rowcount
unfoldable pub reconcile_interrupted_jobs : ℕ → String → JobTables → JobTables × ℕ
reconcile_interrupted_jobs now reason t = (
  record {
    jobs = update (λ r. is_active r.status) (cancelled_job now reason) t.jobs;
    requests =
        update (λ r. is_active r.status) (λ r. record r { status = "cancelled"; updated_at = now })
          t.requests;
    metrics = update (λ m. is_active m.status) (cancelled_metrics now reason) t.metrics;
  },
  row_count (λ r. is_active r.status) t.jobs,
)

-- `chat_id = ?`, where the caller may leave the chat out
abbrev pub in_chat : Option ℤ → ℤ → Bool
in_chat none c = true
in_chat (some chat) c = int_eq c chat

-- COALESCE(started_at, created_at)
abbrev pub begun_at : JobRow → ℕ
begun_at r = elim r.started_at [ none ↦ r.created_at | some s ↦ s ]

-- get_stale_active_job_count, for a window in microseconds: begun_at < now - window
unfoldable pub get_stale_active_job_count : ℕ → ℕ → Option ℤ → List JobRow → ℕ
get_stale_active_job_count now window chat =
    row_count
      (λ r. in_chat chat r.chat_id && (r.status == "running" && ltb (begun_at r + window) now))

abbrev pub since : ℕ → ℕ → Option ℕ → Bool
since now window none = false
since now window (some t) = leb now (t + window)

-- get_recent_provider_timeout_count: finished_at >= now - window
unfoldable pub get_recent_provider_timeout_count : ℕ → ℕ → Option ℤ → List MetricsRow → ℕ
get_recent_provider_timeout_count now window chat = row_count (λ m.
    in_chat chat m.chat_id
    && (m.status == "failed"
        && (is_text m.failure_class "provider_timeout" && since now window m.finished_at)))
