-- ===== src/Jobs/Invariant.antt =====
-- Every sequence of the methods of JobManager and of the steps of its tasks.
use inst_video_downloader_tg.Base.{
  ℕ, ◌≡◌, refl, Bool, true, not, ◌&&◌, ◌||◌, Option, none, some, List, [], ◌∷◌, ◌++◌, String, arith,
  All, All-map, or_true, inl, inr, Bool-cases, Option-cases, ◌==◌, eq_refl,
}
use inst_video_downloader_tg.Sql.{update, fetch_one}
use inst_video_downloader_tg.Sql.Laws.{All-update, All-append, All-fetch_one}
use inst_video_downloader_tg.Sql.Keys.{at, has}
use inst_video_downloader_tg.Store.Jobs.{JobTables}
use inst_video_downloader_tg.Jobs.States.{JobState, FailureDetails, Error}
use inst_video_downloader_tg.Jobs.{
  delivery_error, is_pending, RequestRecord, SharedJob, has_active, has_request, any_active,
  give_up_request, cancel_job, deactivate_request_in, mark_delivery_completed,
  mark_delivery_unknown, mark_delivery_failed,
}
use inst_video_downloader_tg.Jobs.Delivery.{
  IsOwned, owner_active, handoff-IsOwned, give_up-IsOwned, cancel_job-IsOwned,
  deactivate_request_in-IsOwned, mark_delivery_completed-IsOwned, mark_delivery_unknown-IsOwned,
}
use inst_video_downloader_tg.Jobs.Manager.{
  JobManager, Request, new_requester, object_pk, init, submit, join_job, start_job, joinable,
}
use inst_video_downloader_tg.Jobs.Running.{
  set_state, run_started, run_completed, run_cancelled, run_failed,
}
use inst_video_downloader_tg.Jobs.Requests.{
  cancel_request, deactivate_request, mark_request_completed, mark_request_failed, on_job,
}

-- A call with its times and fresh ids, or a step of the task of a job, named by its id.
pub data Move (A : Type 0) : Type 0 where
  submitted : ℕ → ℕ → String → String → Request → Move A
  started : ℕ → String → Move A
  finished : ℕ → A → String → Move A
  interrupted : ℕ → String → Move A
  broke : ℕ → Error → String → Move A
  request_cancelled : ℕ → String → Move A
  request_completed : ℕ → String → Bool → Move A
  request_failed : ℕ → String → String → Option FailureDetails → Move A
  delivered : String → Move A
  delivery_unknown : Error → String → Move A
  delivery_failed : String → Error → String → Move A

has_active-append :
    (id : String) (rs : List RequestRecord) (r : RequestRecord)
    → has_active id rs ≡ true
    → has_active id (rs ++ r ∷ []) ≡ true
unfolding has_active
has_active-append id [] r h = cc
has_active-append id (x ∷ rs) r h = elim (Bool-cases ((x.request_id == id) && x.active)) [
  | inl y ↦ rw y refl
  | inr n ↦ rw n (has_active-append id rs r (ground (arith, h, n)))
]

owner-append :
    (o : Option String) (rs : List RequestRecord) (r : RequestRecord)
    → owner_active o rs ≡ true
    → owner_active o (rs ++ r ∷ []) ≡ true
owner-append none rs r h = cc
owner-append (some id) rs r h = has_active-append id rs r h

module _ {A : Type 0} where
  -- A step of a task acts on its job as it stands.
  abbrev task_step :
      String → (SharedJob A → JobManager A → JobManager A) → JobManager A → JobManager A
  task_step id f m = elim (at object_pk m.objects id) [ none ↦ m | some j ↦ f j m ]

  unfoldable pub perform : Move A → JobManager A → JobManager A
  perform (submitted tick now request_id job_id q) m = (submit tick now request_id job_id q m).0
  perform (started now id) m = task_step id (run_started now) m
  perform (finished now result id) m = task_step id (run_completed now result) m
  perform (interrupted now id) m = task_step id (run_cancelled now) m
  perform (broke now error id) m = task_step id (run_failed now error) m
  perform (request_cancelled now id) m = (cancel_request now id m).0
  perform (request_completed now id hit) m = mark_request_completed now id hit m
  perform (request_failed now id status f) m = mark_request_failed now id status f m
  perform (delivered id) m = on_job mark_delivery_completed id m
  perform (delivery_unknown error id) m = on_job (mark_delivery_unknown error) id m
  perform (delivery_failed request_id error id) m =
      on_job (λ j. (mark_delivery_failed request_id error j).0) id m

  unfoldable pub perform_all : List (Move A) → JobManager A → JobManager A
  unfolding perform
  perform_all [] m = m
  perform_all (v ∷ vs) m = perform_all vs (perform v m)

  abbrev pub AllOwned : JobManager A → Type 0
  AllOwned m = All IsOwned m.objects

  -- An update that leaves the delivery and the requesters
  update_same :
      (p : SharedJob A → Bool) (f : SharedJob A → SharedJob A) (js : List (SharedJob A))
      → ((j : SharedJob A) → IsOwned j → IsOwned (f j))
      → All IsOwned js
      → All IsOwned (update p f js)
  update_same p f js keep h = All-update IsOwned p f js (λ j _ o. keep j o) h

  submit-AllOwned :
      (tick now : ℕ) (request_id job_id : String) (q : Request) (m : JobManager A)
      → AllOwned m
      → AllOwned (submit tick now request_id job_id q m).0
  unfolding submit
  submit-AllOwned tick now request_id job_id q m h = elim (Option-cases (joinable q m)) [
    | inl e ↦
        rw (e, submit)
          (unfold start_job has_active in
            All-append IsOwned m.objects _ h ((λ _. ground (arith, eq_refl request_id)), tt))
    | inr (j, e) ↦
        rw (e, submit)
          (unfold join_job in
            update_same _ _ m.objects
              (λ k o p.
                owner-append k.delivery_request_id k.requesters (new_requester tick request_id q)
                  (o p))
              h)
  ]

  set_state-AllOwned :
      (now : ℕ) (s : JobState) (j : SharedJob A) (m : JobManager A)
      → AllOwned m
      → AllOwned (set_state now s j m)
  unfolding set_state
  set_state-AllOwned now s j m h = update_same _ _ m.objects (λ k o. o) h

  completed-AllOwned :
      (now : ℕ) (result : A) (j : SharedJob A) (m : JobManager A)
      → AllOwned m
      → AllOwned (run_completed now result j m)
  unfolding run_completed
  completed-AllOwned now result j m h =
      update_same _ _ _ (λ k o. o)
        (update_same _ _ _ (λ k o. o) (update_same _ _ m.objects (λ k o. o) h))

  cancelled-AllOwned :
      (now : ℕ) (j : SharedJob A) (m : JobManager A) → AllOwned m → AllOwned (run_cancelled now j m)
  unfolding run_cancelled
  cancelled-AllOwned now j m h =
      update_same _ _ _ (λ k o. o)
        (update_same _ _ _ (λ k o. o) (update_same _ _ m.objects (λ k o. o) h))

  failed-AllOwned :
      (now : ℕ) (e : Error) (j : SharedJob A) (m : JobManager A)
      → AllOwned m
      → AllOwned (run_failed now e j m)
  unfolding run_failed
  failed-AllOwned now e j m h =
      update_same _ _ _ (λ k o. o)
        (update_same _ _ _ (λ k o. o) (update_same _ _ m.objects (λ k o. o) h))

  put-AllOwned :
      (id : String) (j : SharedJob A) (js : List (SharedJob A))
      → IsOwned j
      → All IsOwned js
      → All IsOwned (update (has object_pk id) (λ _. j) js)
  put-AllOwned id j js o h = update_same (has object_pk id) (λ _. j) js (λ _ _. o) h

  cancel_request-AllOwned :
      (now : ℕ) (id : String) (m : JobManager A) → AllOwned m → AllOwned (cancel_request now id m).0
  unfolding cancel_request
  cancel_request-AllOwned now id m h =
      elim (Option-cases (fetch_one (λ j. j.listed && has_active id j.requesters) m.objects)) [
        | inl e ↦ rw (e, cancel_request) h
        | inr (j, e) ↦
            let o = give_up-IsOwned id j (All-fetch_one IsOwned _ m.objects h e) in
            rw (e, cancel_request)
              (elim (Bool-cases (any_active (give_up_request id j).requesters)) [
                | inl y ↦ rw y (put-AllOwned _ (give_up_request id j) m.objects o h)
                | inr n ↦ rw n (
                    put-AllOwned _ (cancel_job (give_up_request id j)) m.objects
                      (cancel_job-IsOwned (give_up_request id j)) h)
              ])
      ]

  deactivate-AllOwned :
      (id : String) (m : JobManager A) → AllOwned m → AllOwned (deactivate_request id m)
  unfolding deactivate_request
  deactivate-AllOwned id m h =
      elim (Option-cases (fetch_one (λ j. j.listed && has_request id j.requesters) m.objects)) [
        | inl e ↦ rw (e, deactivate_request) h
        | inr (j, e) ↦
            rw (e, deactivate_request)
              (put-AllOwned _ (deactivate_request_in id j) m.objects
                (deactivate_request_in-IsOwned id j (All-fetch_one IsOwned _ m.objects h e)) h)
      ]

  task-AllOwned :
      (id : String) (f : SharedJob A → JobManager A → JobManager A) (m : JobManager A)
      → ((j : SharedJob A) → AllOwned (f j m))
      → AllOwned m
      → AllOwned (task_step id f m)
  task-AllOwned id f m k h = elim (Option-cases (at object_pk m.objects id)) [
    | inl e ↦ rw (e, task_step) h
    | inr (j, e) ↦ rw (e, task_step) (k j)
  ]

  perform-AllOwned : (v : Move A) (m : JobManager A) → AllOwned m → AllOwned (perform v m)
  unfolding perform
  perform-AllOwned (submitted tick now request_id job_id q) m h =
      submit-AllOwned tick now request_id job_id q m h
  perform-AllOwned (started now id) m h =
      task-AllOwned id (run_started now) m
        (λ j. unfold run_started in set_state-AllOwned now _ j m h) h
  perform-AllOwned (finished now result id) m h =
      task-AllOwned id (run_completed now result) m (λ j. completed-AllOwned now result j m h) h
  perform-AllOwned (interrupted now id) m h =
      task-AllOwned id (run_cancelled now) m (λ j. cancelled-AllOwned now j m h) h
  perform-AllOwned (broke now error id) m h =
      task-AllOwned id (run_failed now error) m (λ j. failed-AllOwned now error j m h) h
  perform-AllOwned (request_cancelled now id) m h = cancel_request-AllOwned now id m h
  perform-AllOwned (request_completed now id hit) m h =
      unfold mark_request_completed in deactivate-AllOwned id _ h
  perform-AllOwned (request_failed now id status f) m h =
      unfold mark_request_failed in deactivate-AllOwned id _ h
  perform-AllOwned (delivered id) m h =
      unfold on_job in update_same _ _ m.objects (λ j _. mark_delivery_completed-IsOwned j) h
  perform-AllOwned (delivery_unknown error id) m h =
      unfold on_job in update_same _ _ m.objects (λ j _. mark_delivery_unknown-IsOwned error j) h
  perform-AllOwned (delivery_failed request_id error id) m h =
      unfold on_job mark_delivery_failed in
      update_same _ _ m.objects (λ j _. handoff-IsOwned request_id (delivery_error error) j) h

  perform_all-AllOwned :
      (vs : List (Move A)) (m : JobManager A) → AllOwned m → AllOwned (perform_all vs m)
  unfolding perform_all
  perform_all-AllOwned [] m h = h
  perform_all-AllOwned (v ∷ vs) m h = perform_all-AllOwned vs (perform v m) (perform-AllOwned v m h)

init-AllOwned : (A : Type 0) (now : ℕ) (t : JobTables) → AllOwned (init {A = A} now t)
unfolding init
init-AllOwned A now t = tt

-- Whatever is submitted, cancelled, delivered, handed over or fails, in any order, from the start of the
-- process: a delivery that somebody waits for is owned by an active requester of its job.
pub deliveries_owned :
    {A : Type 0} (now : ℕ) (t : JobTables) (vs : List (Move A))
    → All
        (λ j.
          (not (is_pending j.delivery_future) || owner_active j.delivery_request_id j.requesters)
          ≡ true)
        (perform_all vs (init now t)).objects
deliveries_owned now t vs =
    All-map (perform_all vs (init now t)).objects
      (λ j.
        or_true (is_pending j.delivery_future) (owner_active j.delivery_request_id j.requesters))
      (perform_all-AllOwned vs (init now t) (init-AllOwned _ now t))
