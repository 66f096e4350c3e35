-- ===== src/Store/Jobs/Metrics.antt =====
-- The table performance_metrics of services/state_schema.py, and the methods of StateStore
-- (services/state_store.py) that write it. `_safe_metrics_write` swallows a database error, which then
-- leaves the table: the writes are modelled where they succeed.
use inst_video_downloader_tg.Base.{
  ℕ, Bool, true, false, Option, none, some, List, String, ◌==◌, eq_iff, coalesce, if◌then◌else◌,
}
use inst_video_downloader_tg.Base.Int.{ℤ}
use inst_video_downloader_tg.Sql.{update, upsert}
use inst_video_downloader_tg.Sql.Keys.{Key, has}
use inst_video_downloader_tg.Store.InlineSessions.{is_text}

pub record MetricsRow : Type 0 where
  pub job_id : String
  pub chat_id : ℤ
  pub provider : String
  pub normalized_url : String
  pub status : String
  pub cache_hit : Bool
  pub created_at : ℕ
  pub started_at : Option ℕ
  pub finished_at : Option ℕ
  pub download_duration_ms : Option ℕ
  pub delivery_duration_ms : Option ℕ
  pub retry_count : ℕ
  pub instagram_fast_status : Option String
  pub instagram_fast_duration_ms : Option ℕ
  pub instagram_fast_budget_exhausted : Bool
  pub instagram_fast_endpoint_timings_json : Option String
  pub instagram_fallback_attempted : Bool
  pub instagram_account_attempts : ℕ
  pub instagram_account_retries : ℕ
  pub instagram_auth_failures : ℕ
  pub instagram_success_path : Option String
  pub instagram_fallback_path : Option String
  pub instagram_metadata_reused : Bool
  pub failure_class : Option String
  pub delivery_status : Option String
  pub delivery_error_class : Option String

abbrev pub metrics_pk : Key MetricsRow String
metrics_pk = record { key = λ m. m.job_id; beq = ◌==◌; beq_iff = eq_iff }

unfoldable pub start_job_metrics :
    ℕ → String → ℤ → String → String → List MetricsRow → List MetricsRow
start_job_metrics now id chat provider url =
    upsert (has metrics_pk id)
      (record {
        job_id = id;
        chat_id = chat;
        provider = provider;
        normalized_url = url;
        status = "queued";
        cache_hit = false;
        created_at = now;
        started_at = none;
        finished_at = none;
        download_duration_ms = none;
        delivery_duration_ms = none;
        retry_count = 0;
        instagram_fast_status = none;
        instagram_fast_duration_ms = none;
        instagram_fast_budget_exhausted = false;
        instagram_fast_endpoint_timings_json = none;
        instagram_fallback_attempted = false;
        instagram_account_attempts = 0;
        instagram_account_retries = 0;
        instagram_auth_failures = 0;
        instagram_success_path = none;
        instagram_fallback_path = none;
        instagram_metadata_reused = false;
        failure_class = none;
        delivery_status = none;
        delivery_error_class = none;
      })
      (λ m. record m { chat_id = chat; provider = provider; normalized_url = url })

unfoldable pub mark_job_metrics_started : ℕ → String → List MetricsRow → List MetricsRow
mark_job_metrics_started now id =
    update (has metrics_pk id)
      (λ m. record m { status = "running"; started_at = coalesce m.started_at (some now) })

unfoldable pub record_cache_hit : String → List MetricsRow → List MetricsRow
record_cache_hit id = update (has metrics_pk id) (λ m. record m { cache_hit = true })

-- The keyword arguments of record_download_metrics
pub record Download : Type 0 where
  pub download_duration_ms : ℕ
  pub retry_count : ℕ
  pub instagram_fast_status : Option String
  pub instagram_fast_duration_ms : Option ℕ
  pub instagram_fast_budget_exhausted : Bool
  pub instagram_fast_endpoint_timings_json : Option String
  pub instagram_fallback_attempted : Bool
  pub instagram_account_attempts : ℕ
  pub instagram_account_retries : ℕ
  pub instagram_auth_failures : ℕ
  pub instagram_success_path : Option String
  pub instagram_fallback_path : Option String
  pub instagram_metadata_reused : Bool
  pub failure_class : Option String

unfoldable pub record_download_metrics : String → Download → List MetricsRow → List MetricsRow
record_download_metrics id d = update (has metrics_pk id) (λ m. record m {
  download_duration_ms = some d.download_duration_ms;
  retry_count = d.retry_count;
  instagram_fast_status = d.instagram_fast_status;
  instagram_fast_duration_ms = d.instagram_fast_duration_ms;
  instagram_fast_budget_exhausted = d.instagram_fast_budget_exhausted;
  instagram_fast_endpoint_timings_json = d.instagram_fast_endpoint_timings_json;
  instagram_fallback_attempted = d.instagram_fallback_attempted;
  instagram_account_attempts = d.instagram_account_attempts;
  instagram_account_retries = d.instagram_account_retries;
  instagram_auth_failures = d.instagram_auth_failures;
  instagram_success_path = d.instagram_success_path;
  instagram_fallback_path = d.instagram_fallback_path;
  instagram_metadata_reused = d.instagram_metadata_reused;
  failure_class = coalesce d.failure_class m.failure_class;
})

unfoldable pub record_delivery_metrics :
    String → ℕ → Option String → Option String → List MetricsRow → List MetricsRow
record_delivery_metrics id duration status error = update (has metrics_pk id) (λ m. record m {
  delivery_duration_ms = some duration;
  delivery_status = coalesce status m.delivery_status;
  delivery_error_class =
      if is_text status "delivered" then none else coalesce error m.delivery_error_class;
})

unfoldable pub finalize_job_metrics : ℕ → String → String → List MetricsRow → List MetricsRow
finalize_job_metrics now id status =
    update (has metrics_pk id)
      (λ m. record m { status = status; finished_at = coalesce m.finished_at (some now) })
