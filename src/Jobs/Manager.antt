-- ===== src/Jobs/Manager.antt =====
-- The methods of JobManager (services/job_manager.py) over the job objects, the dict of active jobs and
-- the tables of the state store. Ids from `uuid4` are arguments; what a listener does is not modelled,
-- nor are the semaphores that delay a job's start.
use inst_video_downloader_tg.Base.{
  ℕ, ◌+◌, Bool, true, false, ◌&&◌, Option, none, some, List, [], ◌∷◌, ◌++◌, String, ◌==◌, eq_iff,
  if◌then◌else◌,
}
use inst_video_downloader_tg.Base.Int.{ℤ, int_eq}
use inst_video_downloader_tg.Sql.{update, row_count}
use inst_video_downloader_tg.Sql.Keys.{Key, at, has}
use inst_video_downloader_tg.Store.Jobs.{
  JobTables, create_job, create_request, reconcile_interrupted_jobs,
}
use inst_video_downloader_tg.Store.Jobs.Metrics.{start_job_metrics}
use inst_video_downloader_tg.Jobs.States.{queued, state_value}
use inst_video_downloader_tg.Jobs.{pending, working, RequestRecord, SharedJob, is_over, is_queued}

-- A key of _active_jobs: (chat_id, normalized_url)
abbrev pub ActiveKey : Type 0
ActiveKey = ℤ × String

abbrev pub key_eq : ActiveKey → ActiveKey → Bool
key_eq a b = int_eq a.0 b.0 && (a.1 == b.1)

-- _active_jobs.get(key), as the id of the job object
unfoldable pub get_active : ActiveKey → List (ActiveKey × String) → Option String
get_active k [] = none
get_active k (e ∷ es) = if key_eq e.0 k then some e.1 else get_active k es

-- _active_jobs.pop(key, None)
unfoldable pub pop_active : ActiveKey → List (ActiveKey × String) → List (ActiveKey × String)
pop_active k [] = []
pop_active k (e ∷ es) = let rest = pop_active k es in if key_eq e.0 k then rest else e ∷ rest

-- _active_jobs[key] = job
unfoldable pub put_active :
    ActiveKey → String → List (ActiveKey × String) → List (ActiveKey × String)
unfolding pop_active
put_active k id es = (k, id) ∷ pop_active k es

-- Every SharedJob that was made, in order of creation; those of `_jobs` are `listed`.
pub record JobManager (A : Type 0) : Type 0 where
  pub objects : List (SharedJob A)
  pub active_jobs : List (ActiveKey × String)
  pub tables : JobTables

-- The arguments of submit
pub record Request : Type 0 where
  pub chat_id : ℤ
  pub user_id : ℤ
  pub user_label : String
  pub provider : String
  pub provider_label : String
  pub original_url : String
  pub normalized_url : String
  pub duplicate_suppression : Bool
  pub retry_of_request_id : Option String

pub record JobSubmission : Type 0 where
  pub job_id : String
  pub request_id : String
  pub is_new_job : Bool
  pub queue_position : ℕ

abbrev pub object_pk : {A : Type 0} → Key (SharedJob A) String
object_pk = record { key = λ j. j.job_id; beq = ◌==◌; beq_iff = eq_iff }

-- __init__, over the tables that the store has
unfoldable pub init : {A : Type 0} → ℕ → JobTables → JobManager A
init now t = record {
  objects = [];
  active_jobs = [];
  tables = (reconcile_interrupted_jobs now "process_restarted" t).0;
}

abbrev pub key_of : {A : Type 0} → SharedJob A → ActiveKey
key_of j = (j.chat_id, j.normalized_url)

-- The requester that submit makes
abbrev pub new_requester : ℕ → String → Request → RequestRecord
new_requester tick id q = record {
  request_id = id;
  chat_id = q.chat_id;
  user_id = q.user_id;
  user_label = q.user_label;
  created_monotonic = tick;
  active = true;
}

module _ {A : Type 0} where
  -- The job that a duplicate may join: the active one of the same chat and URL, unless it is over.
  unfoldable pub joinable : Request → JobManager A → Option (SharedJob A)
  unfolding get_active
  joinable q m =
      if q.duplicate_suppression
      then elim (get_active (q.chat_id, q.normalized_url) m.active_jobs) [
        | none ↦ none
        | some id ↦ elim (at object_pk m.objects id) [
          | none ↦ none
          | some j ↦ if is_over j.state then none else some j
        ]
      ]
      else none

  unfoldable pub join_job :
      ℕ → ℕ → String → Request → SharedJob A → JobManager A → JobManager A × JobSubmission
  join_job tick now request_id q existing m = (
    record m {
      objects =
          update (has object_pk existing.job_id)
            (λ j. record j { requesters = j.requesters ++ new_requester tick request_id q ∷ [] })
            m.objects;
      tables = record (m.tables) {
        requests =
            create_request now request_id existing.job_id q.chat_id q.user_id q.user_label
              q.provider q.normalized_url (state_value existing.state) true q.retry_of_request_id
              m.tables.requests;
      };
    },
    record {
      job_id = existing.job_id;
      request_id = request_id;
      is_new_job = false;
      queue_position = existing.queue_position_at_submit;
    },
  )

  -- How many listed jobs are queued
  abbrev pub queued_count : JobManager A → ℕ
  queued_count m = row_count (λ j. j.listed && is_queued j.state) m.objects

  abbrev pub new_shared_job : ℕ → String → String → Request → ℕ → SharedJob A
  new_shared_job tick request_id job_id q position = record {
    job_id = job_id;
    chat_id = q.chat_id;
    submitter_user_id = q.user_id;
    provider = q.provider;
    provider_label = q.provider_label;
    original_url = q.original_url;
    normalized_url = q.normalized_url;
    state = queued;
    created_monotonic = tick;
    requesters = new_requester tick request_id q ∷ [];
    result_future = some pending;
    delivery_future = some pending;
    task = some working;
    queue_position_at_submit = position;
    delivery_request_id = some request_id;
    last_delivery_error = none;
    failure = none;
    listed = true;
  }

  unfoldable pub start_job :
      ℕ → ℕ → String → String → Request → JobManager A → JobManager A × JobSubmission
  unfolding put_active
  start_job tick now request_id job_id q m =
      let position = queued_count m + 1 in
      (
        record {
          objects = m.objects ++ new_shared_job tick request_id job_id q position ∷ [];
          active_jobs = put_active (q.chat_id, q.normalized_url) job_id m.active_jobs;
          tables = record {
            jobs =
                create_job now job_id q.chat_id q.normalized_url q.provider "queued" m.tables.jobs;
            metrics =
                start_job_metrics now job_id q.chat_id q.provider q.normalized_url m.tables.metrics;
            requests =
                create_request now request_id job_id q.chat_id q.user_id q.user_label q.provider
                  q.normalized_url "queued" false q.retry_of_request_id m.tables.requests;
          };
        },
        record {
          job_id = job_id;
          request_id = request_id;
          is_new_job = true;
          queue_position = position;
        },
      )

  unfoldable pub submit :
      ℕ → ℕ → String → String → Request → JobManager A → JobManager A × JobSubmission
  submit tick now request_id job_id q m = elim (joinable q m) [
    | some existing ↦ join_job tick now request_id q existing m
    | none ↦ start_job tick now request_id job_id q m
  ]
