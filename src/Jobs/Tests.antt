-- ===== src/Jobs/Tests.antt =====
-- The job manager on concrete requests.
use inst_video_downloader_tg.Base.{
  ℕ, ◌≡◌, ◌⊎◌, refl, true, false, not, ◌||◌, none, some, List, [], ◌∷◌, String, ◌==◌, All, Mem, leb,
}
use inst_video_downloader_tg.Base.Int.{ℤ, pos, negsuc}
use inst_video_downloader_tg.Sql.{fetch_one}
use inst_video_downloader_tg.Sql.Keys.{at}
use inst_video_downloader_tg.Store.Jobs.{JobTables}
use inst_video_downloader_tg.Jobs.States.{running, cancelled, Error, network_error}
use inst_video_downloader_tg.Jobs.{
  RequestRecord, SharedJob, pending, working, is_pending, any_active, has_active, deactivate,
  cancel_task, is_candidate, mark_delivery_failed,
}
use inst_video_downloader_tg.Jobs.Manager.{
  JobManager, Request, get_active, object_pk, key_of, init, submit, new_requester,
}
use inst_video_downloader_tg.Jobs.Running.{run_finally}
use inst_video_downloader_tg.Jobs.Requests.{cancel_request}
use inst_video_downloader_tg.Jobs.Delivery.{owner_active, mark_delivery_failed_lem}
use inst_video_downloader_tg.Jobs.Invariant.{
  Move, submitted, started, request_cancelled, perform_all, deliveries_owned,
}
use inst_video_downloader_tg.Jobs.Cancellation.{cancel_last}
use inst_video_downloader_tg.Jobs.Submission.{submit_twice, finally_forgets}

abbrev request : ℤ → Request
request user = record {
  chat_id = negsuc 99;
  user_id = user;
  user_label = "user";
  provider = "twitter";
  provider_label = "X";
  original_url = "https://x.com/u/status/1";
  normalized_url = "https://x.com/u/status/1";
  duplicate_suppression = true;
  retry_of_request_id = none;
}

abbrev job : String → String → SharedJob ℕ
job id request_id = record {
  job_id = id;
  chat_id = negsuc 99;
  submitter_user_id = pos 7;
  provider = "twitter";
  provider_label = "X";
  original_url = "https://x.com/u/status/1";
  normalized_url = "https://x.com/u/status/1";
  state = running;
  created_monotonic = 1;
  requesters = new_requester 1 request_id (request (pos 7)) ∷ [];
  result_future = some pending;
  delivery_future = some pending;
  task = some working;
  queue_position_at_submit = 1;
  delivery_request_id = some request_id;
  last_delivery_error = none;
  failure = none;
  listed = true;
}

abbrev tables : JobTables
tables = record { jobs = []; requests = []; metrics = [] }

abbrev busy : JobManager ℕ
busy = record {
  objects = job "j1" "r1" ∷ [];
  active_jobs = ((negsuc 99, "https://x.com/u/status/1"), "j1") ∷ [];
  tables = tables;
}

abbrev idle : JobManager ℕ
idle = record { objects = []; active_jobs = []; tables = tables }

-- A cancelled job whose task has not ended, and the newer job of the same chat and URL
abbrev old : SharedJob ℕ
old = record (job "j0" "r0") { state = cancelled }

abbrev overlapping : JobManager ℕ
overlapping = record busy { objects = old ∷ job "j1" "r1" ∷ [] }

abbrev moves : List (Move ℕ)
moves =
    submitted 1 1 "r1" "j1" (request (pos 7))
    ∷ submitted 2 2 "r2" "j2" (request (negsuc 7))
    ∷ started 3 "j1"
    ∷ request_cancelled 4 "r1"
    ∷ []

abbrev timeout : Error
timeout = record {
  kind = network_error;
  text = "timed out";
  class_name = "networkerror";
  name = "NetworkError";
}

deliveries_owned_example :
    All
      (λ j.
        (not (is_pending j.delivery_future) || owner_active j.delivery_request_id j.requesters)
        ≡ true)
      (perform_all moves (init 0 tables)).objects
deliveries_owned_example = deliveries_owned 0 tables moves

submit_twice_example :
    let (m', s) = submit 1 1 "r1" "j1" (request (pos 7)) idle in
    let s' = (submit 2 2 "r2" "j2" (request (negsuc 7)) m').1 in
    (s'.is_new_job ≡ false) × (s'.job_id ≡ s.job_id)
unfolding fetch_one
submit_twice_example =
    submit_twice 1 1 2 2 "r1" "j1" "r2" "j2" (request (pos 7)) (request (negsuc 7)) idle refl refl
      refl refl

finally_forgets_example :
    ((submit 5 5 "r2" "j2" (request (negsuc 7)) overlapping).1.is_new_job ≡ false)
    × ((submit 5 5 "r2" "j2" (request (negsuc 7)) (run_finally old overlapping)).1.is_new_job
        ≡ true)
    × (at object_pk (run_finally old overlapping).objects "j1" ≡ some (job "j1" "r1"))
unfolding get_active fetch_one
finally_forgets_example =
    finally_forgets 5 5 "r2" "j2" (request (negsuc 7)) old (job "j1" "r1") overlapping refl refl
      refl refl refl refl

cancel_last_example :
    let (m', found) = cancel_request 5 "r1" busy in
    (k : SharedJob ℕ) × (found ≡ some "j1")
    × (at object_pk m'.objects "j1" ≡ some k)
    × (k.state ≡ cancelled)
    × (k.task ≡ cancel_task (job "j1" "r1").task)
    × (is_pending k.result_future ≡ false)
    × (is_pending k.delivery_future ≡ false)
    × (any_active k.requesters ≡ false)
    × (get_active (key_of (job "j1" "r1")) m'.active_jobs ≡ none)
unfolding fetch_one has_active deactivate
cancel_last_example = cancel_last 5 "r1" busy {j = job "j1" "r1"} (tt, tt) refl refl

mark_delivery_failed_lem_example :
    let (k, passed_on) = mark_delivery_failed "r1" timeout (job "j1" "r1") in
    (k.requesters ≡ (job "j1" "r1").requesters)
    × (((r : RequestRecord) × Mem r (job "j1" "r1").requesters
          × (passed_on ≡ true)
          × (k.delivery_request_id ≡ some r.request_id)
          × (k.delivery_future ≡ some pending)
          × (r.active ≡ true)
          × ((r.request_id == "r1") ≡ false)
          × All
              (λ q.
                (not (is_candidate (some "r1") q) || leb r.created_monotonic q.created_monotonic)
                ≡ true)
              (job "j1" "r1").requesters)
        ⊎ ((passed_on ≡ false)
            × (k.delivery_request_id ≡ none)
            × (is_pending k.delivery_future ≡ false)
            × All (λ q. is_candidate (some "r1") q ≡ false) (job "j1" "r1").requesters))
mark_delivery_failed_lem_example = mark_delivery_failed_lem "r1" timeout (job "j1" "r1")
