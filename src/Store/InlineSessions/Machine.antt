-- ===== src/Store/InlineSessions/Machine.antt =====
-- An inline session as a state machine on one row: what each guarded method of StateStore promises,
-- written with one guard for each transition.
use inst_video_downloader_tg.Base.{
  ℕ, Bool, true, false, not, ◌&&◌, Option, none, some, String, leb, nat_eq, is_none, if◌then◌else◌,
}
use inst_video_downloader_tg.Store.InlineSessions.{
  InlineSession, SessionStatus, Outcome, claimed, expired, unauthorized, duplicate,
  message_mismatch, terminal, not_retryable, unsafe, is_created, is_delivering, is_failed, is_text,
  before_edit, start_attempt, bind_attempt, cancel_row, Failure, finish_row,
}

-- A method that may be tried on a session, with its arguments and the time of the call.
pub data Call : Type 0 where
  claim : ℕ → ℕ → String → Call
  retry : ℕ → ℕ → String → Call
  cancel : ℕ → ℕ → String → Call
  advance : ℕ → String → Call
  finish : ℕ → SessionStatus → Failure → Call

abbrev pub owned : ℕ → InlineSession → Bool
owned user r = nat_eq r.user_id user

abbrev pub unexpired : ℕ → InlineSession → Bool
unexpired now r = not (leb r.expires_at now)

-- The one guard of each transition.
abbrev pub may_claim : ℕ → ℕ → InlineSession → Bool
may_claim now user r =
    (owned user r && unexpired now r) && (is_created r.status && is_none r.inline_message_id)

abbrev pub may_retry : ℕ → ℕ → String → InlineSession → Bool
may_retry now user message r =
    ((owned user r && is_text r.inline_message_id message) && unexpired now r)
    && (is_failed r.status && r.failure_retryable)

abbrev pub may_cancel : ℕ → String → InlineSession → Bool
may_cancel user message r =
    (owned user r && is_text r.inline_message_id message)
    && (is_delivering r.status && before_edit r.delivery_stage)

-- Why a claim that may not be made is refused.
unfoldable pub claim_refusal : ℕ → ℕ → InlineSession → Outcome
claim_refusal now user r =
    if owned user r then (if unexpired now r then duplicate else expired) else unauthorized

unfoldable pub retry_refusal : ℕ → ℕ → String → InlineSession → Outcome
retry_refusal now user message r =
    if owned user r
    then (if is_text r.inline_message_id message
        then (if unexpired now r
            then (if is_delivering r.status
                then duplicate
                else if is_failed r.status
                then not_retryable
                else terminal)
            else expired)
        else message_mismatch)
    else unauthorized

unfoldable pub cancel_refusal : ℕ → String → InlineSession → Outcome
cancel_refusal user message r =
    if owned user r
    then (if is_text r.inline_message_id message
        then (if is_delivering r.status then unsafe else terminal)
        else message_mismatch)
    else unauthorized

unfoldable pub claim_spec : ℕ → ℕ → String → Option InlineSession → Option InlineSession × Outcome
claim_spec now user message none = (none, expired)
claim_spec now user message (some r) =
    if may_claim now user r
    then (some (bind_attempt now message r), claimed)
    else (some r, claim_refusal now user r)

unfoldable pub retry_spec : ℕ → ℕ → String → Option InlineSession → Option InlineSession × Outcome
retry_spec now user message none = (none, expired)
retry_spec now user message (some r) =
    if may_retry now user message r
    then (some (start_attempt now r), claimed)
    else (some r, retry_refusal now user message r)

unfoldable pub cancel_spec : ℕ → ℕ → String → Option InlineSession → Option InlineSession × Outcome
cancel_spec now user message none = (none, expired)
cancel_spec now user message (some r) =
    if may_cancel user message r
    then (some (cancel_row now r), Outcome.cancelled)
    else (some r, cancel_refusal user message r)

unfoldable pub advance_spec : ℕ → String → Option InlineSession → Option InlineSession × Bool
advance_spec now stage none = (none, false)
advance_spec now stage (some r) =
    if is_delivering r.status
    then (some (record r { delivery_stage = some stage; updated_at = now }), true)
    else (some r, false)

unfoldable pub finish_spec :
    ℕ → SessionStatus → Failure → Option InlineSession → Option InlineSession × Bool
finish_spec now status f none = (none, false)
finish_spec now status f (some r) =
    if is_delivering r.status then (some (finish_row now status f r), true) else (some r, false)
