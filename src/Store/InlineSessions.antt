-- ===== src/Store/InlineSessions.antt =====
-- The table inline_sessions of services/state_schema.py and the methods of StateStore
-- (services/state_store.py) that read and write it. `now` is `_utc_now()`; an instant is a number
-- of microseconds, which orders as the stored ISO texts of UTC instants do.
pub mod Machine
pub mod Refine
pub mod Trace
pub mod Fresh
pub mod Tests
use inst_video_downloader_tg.Base.{
  ℕ, ◌+◌, ◌≡◌, ◌↔◌, Bool, true, false, not, ◌&&◌, ◌||◌, Option, none, some, List, String, ◌==◌,
  eq_iff, leb, nat_eq, is_none, if◌then◌else◌,
}
use inst_video_downloader_tg.Sql.{update, row_count, upsert, fetch_one}
use inst_video_downloader_tg.Sql.Keys.{Key, at, has}

-- The statuses that the methods write, and those that their callers pass.
pub data SessionStatus : Type 0 where
  created chosen delivering delivered failed delivery_unknown cancelled : SessionStatus

pub record InlineSession : Type 0 where
  pub session_token : String
  pub user_id : ℕ
  pub original_url : String
  pub normalized_url : String
  pub provider : String
  pub provider_label : String
  pub access_kind : String
  pub inline_message_id : Option String
  pub status : SessionStatus
  pub delivery_stage : Option String
  pub failure_class : Option String
  pub failure_stage : Option String
  pub error_class : Option String
  pub failure_retryable : Bool
  pub attempt_count : ℕ
  pub created_at : ℕ
  pub expires_at : ℕ
  pub updated_at : ℕ

-- What the claiming and cancelling methods answer.
pub data Outcome : Type 0 where
  claimed cancelled expired unauthorized duplicate message_mismatch terminal not_retryable unsafe :
      Outcome

-- A method that may raise ValueError.
pub data Checked {ℓ} (A : Type ℓ) : Type ℓ where
  returned : A → Checked A
  value_error : Checked A

abbrev pub session_pk : Key InlineSession String
session_pk = record { key = λ r. r.session_token; beq = ◌==◌; beq_iff = eq_iff }

abbrev pub is_created : SessionStatus → Bool
is_created created = true
is_created _ = false

abbrev pub is_delivering : SessionStatus → Bool
is_delivering delivering = true
is_delivering _ = false

abbrev pub is_failed : SessionStatus → Bool
is_failed failed = true
is_failed _ = false

-- A text column under Python's `or`: neither NULL nor empty.
abbrev pub truthy : Option String → Bool
truthy none = false
truthy (some s) = not (s == "")

-- A text column compared with a text; NULL equals none.
abbrev pub is_text : Option String → String → Bool
is_text none s = false
is_text (some t) s = t == s

-- The row that create_inline_session inserts
abbrev pub new_session :
    ℕ → String → ℕ → String → String → String → String → ℕ → String → InlineSession
new_session now token user url normalized provider label expiry access = record {
  session_token = token;
  user_id = user;
  original_url = url;
  normalized_url = normalized;
  provider = provider;
  provider_label = label;
  access_kind = access;
  inline_message_id = none;
  status = created;
  delivery_stage = none;
  failure_class = none;
  failure_stage = none;
  error_class = none;
  failure_retryable = false;
  attempt_count = 0;
  created_at = now;
  expires_at = expiry;
  updated_at = now;
}

-- A new row, or the old one given a fresh start: ON CONFLICT sets every column of the new row but the
-- token, inline_message_id and created_at.
unfoldable pub create_inline_session :
    ℕ
    → String
    → ℕ
    → String
    → String
    → String
    → String
    → ℕ
    → String
    → List InlineSession
    → List InlineSession
create_inline_session now token user url normalized provider label expiry access t =
    let new = new_session now token user url normalized provider label expiry access in
    upsert (has session_pk token) new
      (λ r. record new {
        session_token = r.session_token;
        inline_message_id = r.inline_message_id;
        created_at = r.created_at;
      })
      t

-- get_inline_session, with and without the user
unfoldable pub get_inline_session : String → Option ℕ → List InlineSession → Option InlineSession
get_inline_session token none t = at session_pk t token
get_inline_session token (some user) t =
    fetch_one (λ r. has session_pk token r && nat_eq r.user_id user) t

-- The SET clause with which an attempt begins, but for the message.
abbrev pub start_attempt : ℕ → InlineSession → InlineSession
start_attempt now r = record r {
  status = delivering;
  delivery_stage = some "preflight";
  failure_class = none;
  failure_stage = none;
  error_class = none;
  failure_retryable = false;
  attempt_count = r.attempt_count + 1;
  updated_at = now;
}

-- The SET clause of claim_inline_delivery
abbrev pub bind_attempt : ℕ → String → InlineSession → InlineSession
bind_attempt now message r = record (start_attempt now r) { inline_message_id = some message }

-- The rest of the WHERE clause of claim_inline_delivery
abbrev pub claimable : ℕ → InlineSession → Bool
claimable user r = nat_eq r.user_id user && (is_created r.status && is_none r.inline_message_id)

unfoldable pub claim_inline_delivery :
    ℕ → String → ℕ → String → List InlineSession → List InlineSession × Outcome
claim_inline_delivery now token user message t = elim (at session_pk t token) [
  | none ↦ (t, expired)
  | some row ↦
      if not (nat_eq row.user_id user)
      then (t, unauthorized)
      else if leb row.expires_at now
      then (t, expired)
      else if not (is_created row.status) || truthy row.inline_message_id
      then (t, duplicate)
      else let where_ = λ (r : InlineSession). has session_pk token r && claimable user r in
        (
          update where_ (bind_attempt now message) t,
          if nat_eq (row_count where_ t) 1 then claimed else duplicate,
        )
]

abbrev pub is_stage : String → Bool
is_stage s = s == "preflight" || (s == "download" || (s == "storage_upload" || s == "inline_edit"))

pub advance_inline_delivery_stage :
    ℕ → String → String → List InlineSession → Checked (List InlineSession × Bool)
advance_inline_delivery_stage now token stage t =
    if not (is_stage stage)
    then value_error
    else let where_ = λ (r : InlineSession). has session_pk token r && is_delivering r.status in
      returned (
        update where_ (λ r. record r { delivery_stage = some stage; updated_at = now }) t,
        (if nat_eq (row_count where_ t) 1 then true else false),
      )

-- The rest of the WHERE clause of claim_inline_retry
abbrev pub retryable : ℕ → String → InlineSession → Bool
retryable user message r =
    nat_eq r.user_id user
    && (is_text r.inline_message_id message && (is_failed r.status && r.failure_retryable))

pub claim_inline_retry : ℕ → String → ℕ → String → List InlineSession → List InlineSession × Outcome
claim_inline_retry now token user message t = elim (at session_pk t token) [
  | none ↦ (t, expired)
  | some row ↦
      if not (nat_eq row.user_id user)
      then (t, unauthorized)
      else if not (is_text row.inline_message_id message)
      then (t, message_mismatch)
      else if leb row.expires_at now
      then (t, expired)
      else if is_delivering row.status
      then (t, duplicate)
      else if not (is_failed row.status)
      then (t, terminal)
      else if not row.failure_retryable
      then (t, not_retryable)
      else let where_ = λ (r : InlineSession). has session_pk token r && retryable user message r in
        (
          update where_ (start_attempt now) t,
          if nat_eq (row_count where_ t) 1 then claimed else duplicate,
        )
]

-- delivery_stage IN ('preflight', 'download', 'storage_upload')
abbrev pub before_edit : Option String → Bool
before_edit none = false
before_edit (some s) = s == "preflight" || (s == "download" || s == "storage_upload")

-- The rest of the WHERE clause of cancel_inline_delivery
abbrev pub cancellable : ℕ → String → InlineSession → Bool
cancellable user message r =
    nat_eq r.user_id user
    && (is_text r.inline_message_id message
        && (is_delivering r.status && before_edit r.delivery_stage))

abbrev pub cancel_row : ℕ → InlineSession → InlineSession
cancel_row now r = record r {
  status = SessionStatus.cancelled;
  failure_retryable = false;
  updated_at = now;
}

pub cancel_inline_delivery :
    ℕ → String → ℕ → String → List InlineSession → List InlineSession × Outcome
cancel_inline_delivery now token user message t = elim (at session_pk t token) [
  | none ↦ (t, expired)
  | some row ↦
      if not (nat_eq row.user_id user)
      then (t, unauthorized)
      else if not (is_text row.inline_message_id message)
      then (t, message_mismatch)
      else if not (is_delivering row.status)
      then (t, terminal)
      else if is_text row.delivery_stage "inline_edit"
      then (t, unsafe)
      else let where_ =
          λ (r : InlineSession). has session_pk token r && cancellable user message r in
        (
          update where_ (cancel_row now) t,
          if nat_eq (row_count where_ t) 1 then Outcome.cancelled else unsafe,
        )
]

-- The statuses with which finish_inline_delivery may be called
abbrev pub is_final : SessionStatus → Bool
is_final delivered = true
is_final failed = true
is_final delivery_unknown = true
is_final _ = false

-- The failure columns that finish_inline_delivery writes
pub record Failure : Type 0 where
  pub failure_class : Option String
  pub failure_stage : Option String
  pub error_class : Option String
  pub retryable : Bool

abbrev pub finish_row : ℕ → SessionStatus → Failure → InlineSession → InlineSession
finish_row now status f r = record r {
  status = status;
  failure_class = f.failure_class;
  failure_stage = f.failure_stage;
  error_class = f.error_class;
  failure_retryable = f.retryable;
  updated_at = now;
}

pub finish_inline_delivery :
    ℕ → String → SessionStatus → Failure → List InlineSession → Checked (List InlineSession × Bool)
finish_inline_delivery now token status f t =
    if not (is_final status)
    then value_error
    else if not (is_failed status) && f.retryable
    then value_error
    else let where_ = λ (r : InlineSession). has session_pk token r && is_delivering r.status in
      returned (
        update where_ (finish_row now status f) t,
        (if nat_eq (row_count where_ t) 1 then true else false),
      )

pub attach_inline_message : ℕ → String → String → List InlineSession → List InlineSession
attach_inline_message now token message =
    update (has session_pk token)
      (λ r. record r { inline_message_id = some message; status = chosen; updated_at = now })

unfoldable pub mark_inline_session_status :
    ℕ → String → SessionStatus → List InlineSession → List InlineSession
mark_inline_session_status now token status =
    update (has session_pk token) (λ r. record r { status = status; updated_at = now })

pub mark_inline_session_failed :
    ℕ → String → String → String → Option String → List InlineSession → List InlineSession
mark_inline_session_failed now token class stage error = update (has session_pk token) (λ r.
    record r {
      status = failed;
      delivery_stage = some stage;
      failure_class = some class;
      failure_stage = some stage;
      error_class = error;
      failure_retryable = false;
      updated_at = now;
    })
