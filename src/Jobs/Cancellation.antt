-- ===== src/Jobs/Cancellation.antt =====
-- The cancellation of the last request of a job.
use mathlib.Core.Path.{subst}
use inst_video_downloader_tg.Base.{
  ℕ, ◌≡◌, refl, sym, ap, false, ◌&&◌, none, some, List, [], ◌∷◌, String, arith, inl, inr,
  Bool-cases, ◌==◌, eq_refl,
}
use inst_video_downloader_tg.Sql.{update, fetch_one}
use inst_video_downloader_tg.Sql.Laws.{All-fetch_one}
use inst_video_downloader_tg.Sql.Keys.{at, has, Unique}
use inst_video_downloader_tg.Sql.Order.{at_own}
use inst_video_downloader_tg.Jobs.States.{cancelled}
use inst_video_downloader_tg.Jobs.{
  SharedJob, is_pending, has_active, any_active, deactivate, give_up_request, cancel_task,
  cancel_job,
}
use inst_video_downloader_tg.Jobs.Manager.{get_active, JobManager, object_pk, key_of}
use inst_video_downloader_tg.Jobs.Requests.{cancel_request, put_job}
use inst_video_downloader_tg.Jobs.Submission.{get_active-pop}

module _ {A : Type 0} where
  requesters-give_up :
      (id : String) (j : SharedJob A)
      → (give_up_request id j).requesters ≡ deactivate id j.requesters
  unfolding give_up_request
  requesters-give_up id j = ground arith

  task-give_up : (id : String) (j : SharedJob A) → (give_up_request id j).task ≡ j.task
  unfolding give_up_request
  task-give_up id j = ground arith

  name-give_up : (id : String) (j : SharedJob A) → (give_up_request id j).job_id ≡ j.job_id
  unfolding give_up_request
  name-give_up id j = ground arith

  put_row :
      (k : SharedJob A) (js : List (SharedJob A)) (j : SharedJob A)
      → at object_pk js k.job_id ≡ some j
      → at object_pk (update (has object_pk k.job_id) (λ _. k) js) k.job_id ≡ some k
  unfolding fetch_one update
  put_row k [] j a = absurd (ground (arith, a))
  put_row k (x ∷ js) j a = elim (Bool-cases (x.job_id == k.job_id)) [
    | inl y ↦ rw (y, eq_refl k.job_id) refl
    | inr n ↦ rw (n, n) (put_row k js j (ground (arith, n, a)))
  ]

  -- Cancelling the last active request of a job cancels the job: nobody waits for its result or its
  -- delivery any more, its task, if it still works, is asked to stop, and its chat and URL have no active job.
  pub cancel_last :
      (now : ℕ) (id : String) (m : JobManager A) {j : SharedJob A}
      → Unique object_pk m.objects
      → fetch_one (λ k. k.listed && has_active id k.requesters) m.objects ≡ some j
      → any_active (deactivate id j.requesters) ≡ false
      → let (m', found) = cancel_request now id m in
        (k : SharedJob A) × (found ≡ some j.job_id)
        × (at object_pk m'.objects j.job_id ≡ some k)
        × (k.state ≡ cancelled)
        × (k.task ≡ cancel_task j.task)
        × (is_pending k.result_future ≡ false)
        × (is_pending k.delivery_future ≡ false)
        × (any_active k.requesters ≡ false)
        × (get_active (key_of j) m'.active_jobs ≡ none)
  unfolding cancel_request
  cancel_last now id m {j} u e last =
      let idle : any_active (give_up_request id j).requesters ≡ false =
        rw (requesters-give_up id j) last in
      let own : at object_pk m.objects j.job_id ≡ some j =
        All-fetch_one (λ k. at object_pk m.objects k.job_id ≡ some k) _ m.objects
          (at_own object_pk m.objects u) e in
      rw (e, cancel_request)
        (rw (idle, cancel_request)
          (unfold cancel_job in
            (
              cancel_job (give_up_request id j),
              refl,
              subst
                  (λ i.
                    at object_pk (put_job (cancel_job (give_up_request id j)) m.objects) i
                    ≡ some (cancel_job (give_up_request id j)))
                  (name-give_up id j)
                  (put_row (cancel_job (give_up_request id j)) m.objects j
                    (subst (λ i. at object_pk m.objects i ≡ some j) (sym (name-give_up id j)) own)),
              refl,
              ap cancel_task (task-give_up id j),
              ground arith,
              ground arith,
              idle,
              get_active-pop (key_of j) m.active_jobs,
            )))
