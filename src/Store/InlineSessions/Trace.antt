-- ===== src/Store/InlineSessions/Trace.antt =====
-- Any interleaving of the guarded methods of inline_sessions, for any tokens, by any callers.
pub mod Counts
use inst_video_downloader_tg.Base.{
  ℕ, ◌+◌, ◌≤◌, ◌≡◌, refl, sym, ap, ◌∙◌, Bool, true, false, not, ◌&&◌, ◌||◌, Option, none, some,
  List, [], ◌∷◌, String, arith, ltb, is_none, if◌then◌else◌, inl, inr, Bool-cases, ◌==◌, eq_iff,
  eq_refl,
}
use inst_video_downloader_tg.Sql.Keys.{at, Unique}
use inst_video_downloader_tg.Sql.Refinement.{Implements, Implements-same}
use inst_video_downloader_tg.Store.InlineSessions.{
  InlineSession, SessionStatus, delivered, failed, delivery_unknown, Outcome, claimed, Checked,
  returned, value_error, session_pk, is_delivering, is_failed, is_final, is_stage, Failure,
  claim_inline_delivery, claim_inline_retry, cancel_inline_delivery, advance_inline_delivery_stage,
  finish_inline_delivery, cancel_row, is_created,
}
use inst_video_downloader_tg.Store.InlineSessions.Machine.{
  Call, claim, retry, cancel, advance, finish, claim_spec, retry_spec, cancel_spec, advance_spec,
  finish_spec, claim_refusal, retry_refusal, cancel_refusal, may_cancel,
}
use inst_video_downloader_tg.Store.InlineSessions.Refine.{
  claim-Implements, retry-Implements, cancel-Implements, advance-Implements, finish-Implements,
}

abbrev is_claimed : Outcome → Bool
is_claimed claimed = true
is_claimed _ = false

-- A ValueError leaves the table.
abbrev kept : List InlineSession → Checked (List InlineSession × Bool) → List InlineSession
kept t value_error = t
kept t (returned (t', _)) = t'

-- One call for a token: the table after it, and whether a delivery attempt began.
pub perform : String → Call → List InlineSession → List InlineSession × Bool
perform token (claim now user message) t =
    let (t', o) = claim_inline_delivery now token user message t in (t', is_claimed o)
perform token (retry now user message) t =
    let (t', o) = claim_inline_retry now token user message t in (t', is_claimed o)
perform token (cancel now user message) t =
    ((cancel_inline_delivery now token user message t).0, false)
perform token (advance now stage) t =
    (kept t (advance_inline_delivery_stage now token stage t), false)
perform token (finish now status f) t =
    (kept t (finish_inline_delivery now token status f t), false)

-- The calls of all tokens in the order in which the store's lock admits them.
pub run : List (String × Call) → List InlineSession → List InlineSession
run [] t = t
run ((token, c) ∷ cs) t = run cs (perform token c t).0

-- How many attempts the calls began for one token.
pub attempts : String → List (String × Call) → List InlineSession → ℕ
attempts k [] t = 0
attempts k ((token, c) ∷ cs) t =
    (if (token == k) && (perform token c t).1 then 1 else 0) + attempts k cs (perform token c t).0

-- The same call on the row alone.
pub row_step : Call → Option InlineSession → Option InlineSession × Bool
row_step (claim now user message) o =
    let (o', x) = claim_spec now user message o in (o', is_claimed x)
row_step (retry now user message) o =
    let (o', x) = retry_spec now user message o in (o', is_claimed x)
row_step (cancel now user message) o = ((cancel_spec now user message o).0, false)
row_step (advance now stage) o =
    if is_stage stage then ((advance_spec now stage o).0, false) else (o, false)
row_step (finish now status f) o =
    if is_final status && not (not (is_failed status) && f.retryable)
    then ((finish_spec now status f o).0, false)
    else (o, false)

advance_unknown :
    (now : ℕ) (token stage : String) (t : List InlineSession)
    → is_stage stage ≡ false
    → advance_inline_delivery_stage now token stage t ≡ value_error
unfolding advance_inline_delivery_stage
advance_unknown now token stage t e = rw e

finish_refused :
    (now : ℕ) (token : String) (status : SessionStatus) (f : Failure) (t : List InlineSession)
    → (is_final status && not (not (is_failed status) && f.retryable)) ≡ false
    → finish_inline_delivery now token status f t ≡ value_error
unfolding finish_inline_delivery
finish_refused now token status f t e = ground arith

pub perform-Implements :
    (token : String) (c : Call) (t : List InlineSession)
    → Unique session_pk t
    → Implements session_pk t token (perform token c t) (row_step c (at session_pk t token))
unfolding perform row_step
perform-Implements token (claim now user message) t u =
    let i = claim-Implements now token user message t u in
    record { outcome = ap is_claimed i.outcome; rows = i.rows; unique = i.unique }
perform-Implements token (retry now user message) t u =
    let i = retry-Implements now token user message t u in
    record { outcome = ap is_claimed i.outcome; rows = i.rows; unique = i.unique }
perform-Implements token (cancel now user message) t u =
    let i = cancel-Implements now token user message t u in
    record { outcome = refl; rows = i.rows; unique = i.unique }
perform-Implements token (advance now stage) t u = elim (Bool-cases (is_stage stage)) [
  | inr n ↦ rw (n, advance_unknown now token stage t n) (Implements-same session_pk t token false u)
  | inl y ↦
      let (result, e, i) = advance-Implements now token t stage y u in
      rw (y, e) (record { outcome = refl; rows = i.rows; unique = i.unique })
]
perform-Implements token (finish now status f) t u =
    elim (Bool-cases (is_final status && not (not (is_failed status) && f.retryable))) [
      | inr n ↦
          rw (n, finish_refused now token status f t n) (Implements-same session_pk t token false u)
      | inl y ↦
          let (result, e, i) =
            finish-Implements now token t status f (ground (arith, y)) (ground (arith, y)) u in
          rw (y, e) (record { outcome = refl; rows = i.rows; unique = i.unique })
    ]

-- A predicate on one row that each call on that row keeps holds of it after every run.
run_induction {ℓ} :
    (P : Option InlineSession → Type ℓ)
    → ((c : Call) (o : Option InlineSession) → P o → P (row_step c o).0)
    → (k : String) (cs : List (String × Call)) (t : List InlineSession) → Unique session_pk t
    → P (at session_pk t k)
    → P (at session_pk (run cs t) k)
unfolding run
run_induction P keep k [] t u h = h
run_induction P keep k ((token, c) ∷ cs) t u h =
    let i = perform-Implements token c t u in
    run_induction P keep k cs (perform token c t).0 i.unique (
      rw (i.rows k) (elim (Bool-cases (token == k)) [
        | inl y ↦ rw y (keep c (at session_pk t token) (rw (← (eq_iff token k).0 y) at h))
        | inr n ↦ rw n h
      ]))

abbrev ended_by : SessionStatus → Bool → Bool
ended_by delivered _ = true
ended_by delivery_unknown _ = true
ended_by SessionStatus.cancelled _ = true
ended_by failed again = not again
ended_by _ _ = false

-- The states that no method leaves: delivered, unknown, cancelled, or failed for good.
abbrev pub has_ended : InlineSession → Bool
has_ended r = ended_by r.status r.failure_retryable

ended_step : (r : InlineSession) (c : Call) → has_ended r ≡ true → (row_step c (some r)).0 ≡ some r
unfolding row_step claim_spec retry_spec cancel_spec advance_spec finish_spec
ended_step r (claim now user message) ended = ground arith
ended_step r c ended = ground arith

-- A session that was delivered, was cancelled, failed with no retry allowed, or has an unknown
-- outcome keeps its row under every run of claims, retries, cancellations, stages and results.
pub run-has_ended :
    (k : String) (cs : List (String × Call)) (t : List InlineSession) {r : InlineSession}
    → Unique session_pk t
    → at session_pk t k ≡ some r
    → has_ended r ≡ true
    → at session_pk (run cs t) k ≡ some r
run-has_ended k cs t {r} u e ended =
    run_induction (λ o. o ≡ some r) (λ c o h. rw h (ended_step r c ended)) k cs t u e

-- What every session row satisfies.
abbrev pub is_sound : InlineSession → Bool
is_sound r =
    (not (is_delivering r.status) || (ltb 0 r.attempt_count && not (is_none r.inline_message_id)))
    && (not r.failure_retryable || is_failed r.status)

abbrev pub Sound : Option InlineSession → Type 0
Sound none = Unit
Sound (some r) = is_sound r ≡ true

step-Sound : (c : Call) (o : Option InlineSession) → Sound o → Sound (row_step c o).0
unfolding row_step claim_spec retry_spec cancel_spec advance_spec finish_spec
step-Sound (claim now user message) none h = tt
step-Sound (retry now user message) none h = tt
step-Sound (cancel now user message) none h = tt
step-Sound (advance now stage) none h = elim (Bool-cases (is_stage stage)) [
  | inl y ↦ rw y tt
  | inr n ↦ rw n tt
]
step-Sound (finish now status f) none h =
    elim (Bool-cases (is_final status && not (not (is_failed status) && f.retryable))) [
      | inl y ↦ rw y tt
      | inr n ↦ rw n tt
    ]
step-Sound (claim now user message) (some r) h = ground arith
step-Sound c (some r) h = ground arith

-- From a sound row on, a session is sound after every run: one that is being delivered has begun an
-- attempt and is bound to its message, and only a failed one is marked retryable.
pub run-Sound :
    (k : String) (cs : List (String × Call)) (t : List InlineSession)
    → Unique session_pk t
    → Sound (at session_pk t k)
    → Sound (at session_pk (run cs t) k)
run-Sound k cs t u h = run_induction Sound step-Sound k cs t u h

cancel_spec_cancelled :
    (now user : ℕ) (message : String) (o : Option InlineSession)
    → (cancel_spec now user message o).1 ≡ Outcome.cancelled
    → (r : InlineSession) × (o ≡ some r)
      × (may_cancel user message r ≡ true)
      × ((cancel_spec now user message o).0 ≡ some (cancel_row now r))
unfolding cancel_spec cancel_refusal
cancel_spec_cancelled now user message none h = cc
cancel_spec_cancelled now user message (some r) h = elim (Bool-cases (may_cancel user message r)) [
  | inl y ↦ (r, refl, y, rw y refl)
  | inr n ↦ absurd (ground (arith, n, h))
]

-- A cancellation that answers "cancelled" caught the session of its user and message while it was
-- being delivered and before the final edit; from then on the row stays cancelled under every run of the guarded
-- calls: claim, retry, cancel, advance and finish. mark_inline_session_status has no guard and is not among them.
pub cancel_final :
    (now : ℕ) (k : String) (user : ℕ) (message : String) (cs : List (String × Call))
    (t : List InlineSession)
    → Unique session_pk t
    → (cancel_inline_delivery now k user message t).1 ≡ Outcome.cancelled
    → (r : InlineSession) × (at session_pk t k ≡ some r)
      × (may_cancel user message r ≡ true)
      × (at session_pk (run cs (cancel_inline_delivery now k user message t).0) k
          ≡ some (cancel_row now r))
cancel_final now k user message cs t u h =
    let i = cancel-Implements now k user message t u in
    let (r, e, ok_, row) =
      cancel_spec_cancelled now user message (at session_pk t k) (sym i.outcome ∙ h) in
    let here : at session_pk (cancel_inline_delivery now k user message t).0 k
        ≡ some (cancel_row now r) =
      rw (i.rows k, eq_refl k) row in
    (
      r,
      e,
      ok_,
      run-has_ended k cs (cancel_inline_delivery now k user message t).0 i.unique here refl,
    )
