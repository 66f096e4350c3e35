-- ===== src/Jobs/Running.antt =====
-- JobManager._run_job and _set_state (services/job_manager.py): the life of a job's task. Each step runs
-- between two suspensions; what a listener does in between is not modelled.
use inst_video_downloader_tg.Base.{
  ℕ, Bool, true, false, Option, none, some, List, [], ◌∷◌, String, if◌then◌else◌,
}
use inst_video_downloader_tg.Sql.{update}
use inst_video_downloader_tg.Sql.Keys.{has}
use inst_video_downloader_tg.Store.Jobs.{RequestRow, update_job_status, update_request_status}
use inst_video_downloader_tg.Store.Jobs.Metrics.{mark_job_metrics_started, finalize_job_metrics}
use inst_video_downloader_tg.Jobs.States.{
  JobState, running, completed, failed, cancelled, state_value, reason_value, FailureDetails, Error,
  acquisition, classify_failure,
}
use inst_video_downloader_tg.Jobs.{ended, RequestRecord, SharedJob, resolve, drop_future, raise_in}
use inst_video_downloader_tg.Jobs.Manager.{JobManager, object_pk, key_of, pop_active}

-- The states that _set_state passes on to the requests
abbrev pub told : JobState → Bool
told completed = false
told _ = true

abbrev pub failure_text : Option FailureDetails → Option String
failure_text none = none
failure_text (some f) = some (reason_value f.reason)

abbrev pub failure_retryable : Option FailureDetails → Option Bool
failure_retryable none = none
failure_retryable (some f) = some f.retryable

-- The loop of _set_state over the requesters
unfoldable pub tell_requests :
    ℕ → JobState → Option FailureDetails → List RequestRecord → List RequestRow → List RequestRow
tell_requests now state f [] t = t
tell_requests now state f (r ∷ rs) t = tell_requests now state f rs (
    if r.active
    then update_request_status now r.request_id (state_value state) false (failure_text f)
        (failure_retryable f) t
    else t)

module _ {A : Type 0} where
  -- _set_state, on the job as it is before the assignment
  unfoldable pub set_state : ℕ → JobState → SharedJob A → JobManager A → JobManager A
  unfolding tell_requests
  set_state now state j m = record m {
    objects = update (has object_pk j.job_id) (λ o. record o { state = state }) m.objects;
    tables = record (m.tables) {
      jobs = update_job_status now j.job_id (state_value state) none m.tables.jobs;
      requests =
          if told state
          then tell_requests now state j.failure j.requesters m.tables.requests
          else m.tables.requests;
    };
  }

  -- _run_job once the semaphores are taken, up to the call of the executor
  unfoldable pub run_started : ℕ → SharedJob A → JobManager A → JobManager A
  unfolding set_state
  run_started now j m =
      let n = set_state now running j m in
      record n {
        tables = record (n.tables) {
          metrics = mark_job_metrics_started now j.job_id n.tables.metrics;
        };
      }

  -- The `finally` of _run_job, with which its task ends
  unfoldable pub run_finally : SharedJob A → JobManager A → JobManager A
  unfolding pop_active
  run_finally j m = record m {
    objects = update (has object_pk j.job_id) (λ o. record o { task = some ended }) m.objects;
    active_jobs = pop_active (key_of j) m.active_jobs;
  }

  -- _run_job when the executor returns
  unfoldable pub run_completed : ℕ → A → SharedJob A → JobManager A → JobManager A
  unfolding set_state run_finally
  run_completed now result j m =
      let m' = record m {
        objects =
            update (has object_pk j.job_id)
              (λ o. record o { result_future = resolve result o.result_future }) m.objects;
      } in
      let n = set_state now completed j m' in
      run_finally j (record n {
        tables = record (n.tables) {
          metrics = finalize_job_metrics now j.job_id "completed" n.tables.metrics;
        };
      })

  -- `except asyncio.CancelledError` of _run_job
  unfoldable pub run_cancelled : ℕ → SharedJob A → JobManager A → JobManager A
  unfolding set_state run_finally
  run_cancelled now j m =
      let m' = record m {
        objects =
            update (has object_pk j.job_id)
              (λ o. record o { result_future = drop_future o.result_future }) m.objects;
        tables = record (m.tables) {
          jobs = update_job_status now j.job_id "cancelled" none m.tables.jobs;
          metrics = finalize_job_metrics now j.job_id "cancelled" m.tables.metrics;
        };
      } in
      run_finally j (set_state now cancelled j m')

  -- `except Exception as error` of _run_job
  unfoldable pub run_failed : ℕ → Error → SharedJob A → JobManager A → JobManager A
  unfolding set_state run_finally
  run_failed now error j m =
      let f = classify_failure error acquisition false in
      let m' = record m {
        objects =
            update (has object_pk j.job_id)
              (λ o. record o { failure = some f; result_future = raise_in error o.result_future })
              m.objects;
        tables = record (m.tables) {
          jobs = update_job_status now j.job_id "failed" (some error.name) m.tables.jobs;
          metrics = finalize_job_metrics now j.job_id "failed" m.tables.metrics;
        };
      } in
      run_finally j (set_state now failed (record j { failure = some f }) m')
