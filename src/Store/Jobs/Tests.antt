-- ===== src/Store/Jobs/Tests.antt =====
-- The job tables on concrete rows.
use inst_video_downloader_tg.Base.{◌≡◌, false, none, some, List, [], ◌∷◌}
use inst_video_downloader_tg.Base.Int.{negsuc}
use inst_video_downloader_tg.Store.Jobs.{JobRow, JobTables, reconcile_interrupted_jobs}
use inst_video_downloader_tg.Store.Jobs.Metrics.{MetricsRow}
use inst_video_downloader_tg.Store.Jobs.Laws.{IsSettled, reconcile-IsSettled}
use inst_video_downloader_tg.Store.Jobs.Lifecycle.{Write, run_started, hit, finalize}

abbrev interrupted : JobRow
interrupted = record {
  job_id = "j1";
  chat_id = negsuc 99;
  normalized_url = "https://x.com/u/status/1";
  provider = "twitter";
  status = "running";
  created_at = 1;
  started_at = some 2;
  finished_at = none;
  error_class = none;
}

abbrev tables : JobTables
tables = record { jobs = interrupted ∷ []; requests = []; metrics = [] }

reconcile-IsSettled_example :
    let t' = (reconcile_interrupted_jobs 10 "process_restarted" tables).0 in
    IsSettled t' × (reconcile_interrupted_jobs 20 "again" t' ≡ (t', 0))
reconcile-IsSettled_example = reconcile-IsSettled 10 20 "process_restarted" "again" tables

abbrev measured : MetricsRow
measured = record {
  job_id = "j1";
  chat_id = negsuc 99;
  provider = "twitter";
  normalized_url = "https://x.com/u/status/1";
  status = "queued";
  cache_hit = false;
  created_at = 1;
  started_at = none;
  finished_at = none;
  download_duration_ms = none;
  delivery_duration_ms = none;
  retry_count = 0;
  instagram_fast_status = none;
  instagram_fast_duration_ms = none;
  instagram_fast_budget_exhausted = false;
  instagram_fast_endpoint_timings_json = none;
  instagram_fallback_attempted = false;
  instagram_account_attempts = 0;
  instagram_account_retries = 0;
  instagram_auth_failures = 0;
  instagram_success_path = none;
  instagram_fallback_path = none;
  instagram_metadata_reused = false;
  failure_class = none;
  delivery_status = none;
  delivery_error_class = none;
}

abbrev writes : List Write
writes =
    run_started 2 "j1" ∷ hit "j1" ∷ finalize 5 "j1" "completed" ∷ finalize 6 "j1" "cancelled" ∷ []
