-- ===== src/Jobs/Requests.antt =====
-- The methods of JobManager (services/job_manager.py) that end a request or change a delivery.
use inst_video_downloader_tg.Base.{
  ℕ, Bool, false, ◌&&◌, Option, none, some, List, String, if◌then◌else◌,
}
use inst_video_downloader_tg.Sql.{update, fetch_one}
use inst_video_downloader_tg.Sql.Keys.{has}
use inst_video_downloader_tg.Store.Jobs.{update_job_status, update_request_status}
use inst_video_downloader_tg.Store.Jobs.Metrics.{finalize_job_metrics}
use inst_video_downloader_tg.Jobs.States.{FailureDetails}
use inst_video_downloader_tg.Jobs.{
  SharedJob, has_request, has_active, any_active, give_up_request, cancel_job,
  deactivate_request_in,
}
use inst_video_downloader_tg.Jobs.Manager.{JobManager, object_pk, key_of, pop_active}
use inst_video_downloader_tg.Jobs.Running.{failure_text, failure_retryable}

module _ {A : Type 0} where
  -- Store an object again
  abbrev pub put_job : SharedJob A → List (SharedJob A) → List (SharedJob A)
  put_job j = update (has object_pk j.job_id) (λ _. j)

  -- cancel_request, on the first listed job where the request is active
  unfoldable pub cancel_request : ℕ → String → JobManager A → JobManager A × Option String
  unfolding pop_active
  cancel_request now id m =
      elim (fetch_one (λ j. j.listed && has_active id j.requesters) m.objects) [
        | none ↦ (m, none)
        | some found ↦
            let job = give_up_request id found in
            let requests =
              update_request_status now id "cancelled" false none none m.tables.requests in
            (
              (if any_active job.requesters
                  then record m {
                    objects = put_job job m.objects;
                    tables = record (m.tables) { requests = requests };
                  }
                  else record {
                    objects = put_job (cancel_job job) m.objects;
                    active_jobs = pop_active (key_of found) m.active_jobs;
                    tables = record {
                      jobs = update_job_status now found.job_id "cancelled" none m.tables.jobs;
                      requests = requests;
                      metrics = finalize_job_metrics now found.job_id "cancelled" m.tables.metrics;
                    };
                  }),
              some found.job_id,
            )
      ]

  -- _deactivate_request, on the first listed job that has the request
  unfoldable pub deactivate_request : String → JobManager A → JobManager A
  deactivate_request id m =
      elim (fetch_one (λ j. j.listed && has_request id j.requesters) m.objects) [
        | none ↦ m
        | some found ↦ record m { objects = put_job (deactivate_request_in id found) m.objects }
      ]

  unfoldable pub mark_request_completed : ℕ → String → Bool → JobManager A → JobManager A
  unfolding deactivate_request
  mark_request_completed now id hit m = deactivate_request id (record m {
    tables = record (m.tables) {
      requests = update_request_status now id "completed" hit none none m.tables.requests;
    };
  })

  unfoldable pub mark_request_failed :
      ℕ → String → String → Option FailureDetails → JobManager A → JobManager A
  unfolding deactivate_request
  mark_request_failed now id status f m = deactivate_request id (record m {
    tables = record (m.tables) {
      requests =
          update_request_status now id status false (failure_text f) (failure_retryable f)
            m.tables.requests;
    };
  })

  -- The methods that change the delivery of a given job
  unfoldable pub on_job : (SharedJob A → SharedJob A) → String → JobManager A → JobManager A
  on_job f id m = record m { objects = update (has object_pk id) f m.objects }
