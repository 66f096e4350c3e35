-- ===== src/Store/Jobs/Laws.antt =====
-- A restart: the jobs that the last process left active are cancelled, once.
use inst_video_downloader_tg.Base.{
  ℕ, ◌≡◌, refl, false, some, String, arith, All, if◌then◌else◌, ◌∙◌, coalesce,
}
use inst_video_downloader_tg.Sql.Laws.{All-update_cleared, update_idle, fetch_one-update}
use inst_video_downloader_tg.Sql.Keys.{at, has}
use inst_video_downloader_tg.Store.Jobs.Metrics.{MetricsRow}
use inst_video_downloader_tg.Store.Jobs.{
  JobRow, RequestRow, JobTables, job_pk, is_active, cancelled_job, cancelled_metrics,
  reconcile_interrupted_jobs,
}

-- No row of the three tables is queued or running.
pub record IsSettled (t : JobTables) : Type 0 where
  pub jobs_done : All (λ r. is_active r.status ≡ false) t.jobs
  pub requests_done : All (λ r. is_active r.status ≡ false) t.requests
  pub metrics_done : All (λ m. is_active m.status ≡ false) t.metrics

-- After a restart nothing is active, and a second reconciliation, whenever and for whatever reason,
-- cancels no job and changes no table.
pub reconcile-IsSettled :
    (now later : ℕ) (reason reason' : String) (t : JobTables)
    → let t' = (reconcile_interrupted_jobs now reason t).0 in
      IsSettled t' × (reconcile_interrupted_jobs later reason' t' ≡ (t', 0))
unfolding reconcile_interrupted_jobs
reconcile-IsSettled now later reason reason' t =
    let j =
      All-update_cleared (λ (r : JobRow). is_active r.status) (cancelled_job now reason) t.jobs
        (λ r. refl) in
    let q =
      All-update_cleared (λ (r : RequestRow). is_active r.status)
        (λ r. record r { status = "cancelled"; updated_at = now }) t.requests (λ r. refl) in
    let m =
      All-update_cleared (λ (r : MetricsRow). is_active r.status) (cancelled_metrics now reason)
        t.metrics (λ r. refl) in
    (
      record { jobs_done = j; requests_done = q; metrics_done = m },
      rw
          (
            (update_idle (λ (r : JobRow). is_active r.status) (cancelled_job later reason') _ j).0,
            (update_idle (λ (r : RequestRow). is_active r.status)
                (λ r. record r { status = "cancelled"; updated_at = later }) _ q).0,
            (update_idle (λ (r : MetricsRow). is_active r.status) (cancelled_metrics later reason')
                _ m).0,
            (update_idle (λ (r : JobRow). is_active r.status) (cancelled_job later reason') _ j).1,
          )
          refl,
    )

-- A restart cancels a job exactly if it was active, with the reason unless it had an error class and
-- the time unless it had an end; a job that had ended keeps its row.
pub reconcile-job :
    (now : ℕ) (reason : String) (t : JobTables) (id : String) {r : JobRow}
    → at job_pk t.jobs id ≡ some r
    → at job_pk (reconcile_interrupted_jobs now reason t).0.jobs id ≡ (
        if is_active r.status
        then some (record r {
          status = "cancelled";
          error_class = coalesce r.error_class (some reason);
          finished_at = coalesce r.finished_at (some now);
        })
        else some r)
unfolding reconcile_interrupted_jobs
reconcile-job now reason t id {r} e =
    fetch_one-update (has job_pk id) (λ r. is_active r.status) (cancelled_job now reason) t.jobs
      (λ r. refl)
    ∙ rw e (ground arith)
