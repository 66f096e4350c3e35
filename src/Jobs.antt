-- ===== src/Jobs.antt =====
-- services/job_states.py and services/job_manager.py: the jobs that requesters share, and the hand-over
-- of their delivery. Here are the data of job_manager.py and the functions on one job; `Manager` has the
-- methods of JobManager. `tick` is `monotonic()` and `now` is `_utc_now()`.
pub mod States
pub mod Manager
pub mod Running
pub mod Requests
pub mod Views
pub mod Delivery
pub mod Invariant
pub mod Submission
pub mod Cancellation
pub mod Tests
use inst_video_downloader_tg.Base.{
  ℕ, suc, ◌+◌, ◌≡◌, Bool, true, false, not, ◌&&◌, ◌||◌, Option, none, some, List, [], ◌∷◌, ◌++◌,
  String, ◌==◌, eq_iff, is_none, map, any, if◌then◌else◌,
}
use inst_video_downloader_tg.Base.Int.{ℤ}
use inst_video_downloader_tg.Sql.{select, first_by}
use inst_video_downloader_tg.Sql.Keys.{Key}
use inst_video_downloader_tg.Store.InlineSessions.{is_text}
use inst_video_downloader_tg.Jobs.States.{
  JobState, queued, running, completed, failed, cancelled, FailureDetails, Error,
}

-- asyncio.Future: not done; done with a result or an exception; cancelled
pub data Future {ℓ} (A : Type ℓ) : Type ℓ where
  pending : Future A
  resolved : A → Future A
  raised : Error → Future A
  dropped : Future A

-- The task of a job: not done, not done and asked to cancel, or done
pub data Task : Type 0 where
  working cancelling ended : Task

pub record RequestRecord : Type 0 where
  pub request_id : String
  pub chat_id : ℤ
  pub user_id : ℤ
  pub user_label : String
  pub created_monotonic : ℕ
  pub active : Bool

-- What `last_delivery_error` may hold: asyncio.CancelledError or the error of a delivery
pub data DeliveryError : Type 0 where
  request_cancelled : DeliveryError
  delivery_error : Error → DeliveryError

-- SharedJob; `A` is what a provider's executor returns. `listed` says that the job is a value of
-- JobManager._jobs: a job stays an object of its task and of its callers after it has left that dict.
pub record SharedJob (A : Type 0) : Type 0 where
  pub job_id : String
  pub chat_id : ℤ
  pub submitter_user_id : ℤ
  pub provider : String
  pub provider_label : String
  pub original_url : String
  pub normalized_url : String
  pub state : JobState
  pub created_monotonic : ℕ
  pub requesters : List RequestRecord
  pub result_future : Option (Future A)
  pub delivery_future : Option (Future Bool)
  pub task : Option Task
  pub queue_position_at_submit : ℕ
  pub delivery_request_id : Option String
  pub last_delivery_error : Option DeliveryError
  pub failure : Option FailureDetails
  pub listed : Bool

-- state in {COMPLETED, FAILED, CANCELLED}
abbrev pub is_over : JobState → Bool
is_over completed = true
is_over failed = true
is_over cancelled = true
is_over _ = false

abbrev pub is_queued : JobState → Bool
is_queued queued = true
is_queued _ = false

abbrev pub is_running : JobState → Bool
is_running running = true
is_running _ = false

module _ {ℓ} {A : Type ℓ} where
  -- `future and not future.done()`
  abbrev pub is_pending : Option (Future A) → Bool
  is_pending (some pending) = true
  is_pending _ = false

  -- if future and not future.done(): future.set_result(a)
  abbrev pub resolve : A → Option (Future A) → Option (Future A)
  resolve a (some pending) = some (resolved a)
  resolve a f = f

  -- if future and not future.done(): future.cancel()
  abbrev pub drop_future : Option (Future A) → Option (Future A)
  drop_future (some pending) = some dropped
  drop_future f = f

  -- if future and not future.done(): future.set_exception(error)
  abbrev pub raise_in : Error → Option (Future A) → Option (Future A)
  raise_in e (some pending) = some (raised e)
  raise_in e f = f

-- not (future and future.done())
abbrev pub is_pending_or_none : Option (Future Bool) → Bool
is_pending_or_none none = true
is_pending_or_none (some pending) = true
is_pending_or_none (some _) = false

-- if job.task and not job.task.done(): job.task.cancel()
abbrev pub cancel_task : Option Task → Option Task
cancel_task (some working) = some cancelling
cancel_task t = t

-- requesters.get(id), seen as a test
pub has_request : String → List RequestRecord → Bool
has_request id = any (λ r. r.request_id == id)

-- request and request.active
pub has_active : String → List RequestRecord → Bool
has_active id = any (λ r. (r.request_id == id) && r.active)

-- any(item.active for item in job.requesters.values())
abbrev pub any_active : List RequestRecord → Bool
any_active = any (λ r. r.active)

-- request.active = False
pub deactivate : String → List RequestRecord → List RequestRecord
deactivate id [] = []
deactivate id (r ∷ rs) =
    (if r.request_id == id then record r { active = false } else r) ∷ deactivate id rs

-- request.active and request.request_id != exclude_request_id
abbrev pub is_candidate : Option String → RequestRecord → Bool
is_candidate exclude r = r.active && not (is_text exclude r.request_id)

abbrev pub candidate_id : Option RequestRecord → Option String
candidate_id none = none
candidate_id (some r) = some r.request_id

-- _next_delivery_request_id: the active request that came first, the excluded one left out
pub next_delivery_request_id : Option String → List RequestRecord → Option String
next_delivery_request_id exclude rs =
    candidate_id (first_by (λ r. r.created_monotonic) (select (is_candidate exclude) rs))

-- The future of the next delivery, or the current one set to False
abbrev pub renew : Option String → Option (Future Bool) → Option (Future Bool)
renew none f = resolve false f
renew (some _) f = some pending

module _ {A : Type 0} where
  -- _promote_delivery_request
  pub promote_delivery_request : SharedJob A → SharedJob A
  unfolding next_delivery_request_id
  promote_delivery_request j =
      let next = next_delivery_request_id none j.requesters in
      record j {
        delivery_future = renew next j.delivery_future;
        delivery_request_id = next;
        last_delivery_error = none;
      }

  -- _handoff_delivery, and whether there is a next request
  pub handoff_delivery : String → DeliveryError → SharedJob A → SharedJob A × Bool
  unfolding next_delivery_request_id
  handoff_delivery failed_id error j =
      let next = next_delivery_request_id (some failed_id) j.requesters in
      (
        record j {
          delivery_future = renew next j.delivery_future;
          delivery_request_id = next;
          last_delivery_error = some error;
        },
        not (is_none next),
      )

  -- cancel_request on the job that it found: the request is given up, and the delivery goes on
  pub give_up_request : String → SharedJob A → SharedJob A
  unfolding deactivate promote_delivery_request handoff_delivery
  give_up_request id j =
      let k = record j { requesters = deactivate id j.requesters } in
      if is_text j.delivery_request_id id
      then (if is_pending j.delivery_future
          then (handoff_delivery id request_cancelled k).0
          else promote_delivery_request k)
      else k

  -- cancel_request on a job that has no active request left
  pub cancel_job : SharedJob A → SharedJob A
  cancel_job j = record j {
    state = cancelled;
    result_future = drop_future j.result_future;
    delivery_future = resolve false j.delivery_future;
    task = cancel_task j.task;
  }

  -- The end of _deactivate_request: a job with no active request left leaves the dict if it is over,
  -- and has its task cancelled otherwise.
  pub close_if_idle : SharedJob A → SharedJob A
  close_if_idle j =
      if any_active j.requesters
      then j
      else if is_over j.state
      then record j { listed = false }
      else record j { task = cancel_task j.task }

  -- _deactivate_request on the job that it found
  pub deactivate_request_in : String → SharedJob A → SharedJob A
  unfolding deactivate promote_delivery_request close_if_idle
  deactivate_request_in id j =
      let k = record j { requesters = deactivate id j.requesters } in
      close_if_idle (
        if is_text k.delivery_request_id id && is_pending_or_none k.delivery_future
        then promote_delivery_request k
        else k)

  -- mark_delivery_completed
  pub mark_delivery_completed : SharedJob A → SharedJob A
  mark_delivery_completed j = record j {
    last_delivery_error = none;
    delivery_future = resolve true j.delivery_future;
  }

  -- mark_delivery_unknown
  pub mark_delivery_unknown : Error → SharedJob A → SharedJob A
  mark_delivery_unknown error j = record j {
    last_delivery_error = some (delivery_error error);
    delivery_request_id = none;
    delivery_future = resolve false j.delivery_future;
  }

  -- mark_delivery_failed
  pub mark_delivery_failed : String → Error → SharedJob A → SharedJob A × Bool
  unfolding handoff_delivery
  mark_delivery_failed id error = handoff_delivery id (delivery_error error)

  -- is_delivery_request
  pub is_delivery_request : SharedJob A → String → Bool
  unfolding has_active
  is_delivery_request j id = has_active id j.requesters && is_text j.delivery_request_id id
