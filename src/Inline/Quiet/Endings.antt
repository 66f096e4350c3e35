-- ===== src/Inline/Quiet/Endings.antt =====
-- The steps that end a delivery: it is done, it has failed, or there is no storage chat.
use inst_video_downloader_tg.Base.{
  ◌≡◌, refl, Bool, true, false, not, ◌&&◌, ◌||◌, none, some, List, [], ◌∷◌, String, ◌==◌, eq_iff,
  arith, if◌then◌else◌, inl, inr, Bool-cases, Option-cases, is_none,
}
use inst_video_downloader_tg.Sql.Keys.{has}
use inst_video_downloader_tg.Sql.Laws.{fetch_one_sound}
use inst_video_downloader_tg.Store.InlineSessions.{
  InlineSession, SessionStatus, delivered, failed, delivery_unknown, Failure, is_final, is_failed,
  session_pk, get_inline_session,
}
use inst_video_downloader_tg.Store.Payments.{inline_request}
use inst_video_downloader_tg.Store.Payments.Trace.{deliver, perform, run}
use inst_video_downloader_tg.Store.Events.{record_inline_delivery_event}
use inst_video_downloader_tg.Store.Cache.{InlineItem, get_inline_cached_media}
use inst_video_downloader_tg.Inline.Bot.{
  Config, Bot, Tick, discard_token, record_failed_inline_access, record_successful_inline_access,
  inline_media_cache_key,
}
use inst_video_downloader_tg.Inline.Failure.{
  DeliveryError, Stage, preflight, download, storage_upload, inline_edit,
  classify_inline_delivery_failure, delivery_unknown_after, retryable_after,
}
use inst_video_downloader_tg.Inline.Delivery.{
  Task, finish_as, give_up, storage_missing, no_failure, pay_off, record_success, failure_after,
  index_error, edit_first, deliver_prepared, deliver_edited, deliver_raised,
}
use inst_video_downloader_tg.Inline.Quiet.{
  Tame-same, Follows, Follows-same, Follows-then, Quiet-then, Quiet-same, Quiet-sessions,
}
use inst_video_downloader_tg.Inline.Quiet.Deliveries.{edit-Quiet}
use inst_video_downloader_tg.Inline.Quiet.Outcomes.{
  Adds, Adds-none, Adds-one, Moves, Quiet→Moves, finish-Quiet, outcome-Moves,
}

-- What is recorded once a session is finished: no session changes, and one event at most is added for it.
pub record Settles (token : String) (b b' : Bot) : Type 0 where
  pub sessions : b'.sessions ≡ b.sessions
  pub payments : Follows b.payments b'.payments
  pub events : Adds token b.events b'.events

Settles-same : (token : String) (b : Bot) → Settles token b b
Settles-same token b = record {
  sessions = refl;
  payments = Follows-same b.payments;
  events = Adds-none token b.events;
}

own_token :
    (token : String) (b : Bot) (s : InlineSession)
    → get_inline_session token none b.sessions ≡ some s
    → s.session_token ≡ token
unfolding get_inline_session
own_token token b s e =
    (eq_iff s.session_token token).0 (fetch_one_sound (has session_pk token) b.sessions e)

failed_access-Settles :
    (k : Tick) (token : String) (s : InlineSession) (b : Bot)
    → s.session_token ≡ token
    → Settles token b (record_failed_inline_access k s b)
unfolding record_failed_inline_access record_inline_delivery_event
failed_access-Settles k token s b h = elim (Bool-cases (s.access_kind == "subscription")) [
  | inl y ↦ rw y (record {
    sessions = refl;
    payments = Follows-same b.payments;
    events = Adds-one token _ b.events h;
  })
  | inr n ↦ rw n (Settles-same token b)
]

-- Only the tokens in delivery change after it.
Settles-discard :
    (token : String) (b b' : Bot) → Settles token b b' → Settles token b (discard_token token b')
Settles-discard token b b' h = record {
  sessions = h.sessions;
  payments = h.payments;
  events = h.events;
}

pub give_up-Settles :
    (k : Tick) (task : Task) (reason : String) (b : Bot)
    → Settles task.session_token b (give_up k task reason b).0
give_up-Settles k task reason b =
    elim (Option-cases (get_inline_session task.session_token none b.sessions)) [
      | inl e ↦
          rw (give_up, e)
            (Settles-discard task.session_token b b (Settles-same task.session_token b))
      | inr (s, e) ↦
          let h =
            failed_access-Settles k task.session_token s b (own_token task.session_token b s e) in
          elim (Option-cases task.payment) [
            | inl f ↦
                rw (give_up, e)
                  (rw f
                    (Settles-discard task.session_token b (record_failed_inline_access k s b) h))
            | inr (id, f) ↦ rw (give_up, e) (rw f h)
          ]
    ]

pub record_success-Settles :
    (k : Tick) (token : String) (b : Bot) → Settles token b (record_success k token b)
unfolding record_successful_inline_access record_inline_delivery_event
record_success-Settles k token b = elim (Option-cases (get_inline_session token none b.sessions)) [
  | inl e ↦ rw (record_success, e) (Settles-same token b)
  | inr (s, e) ↦ elim (Bool-cases (s.access_kind == "promo")) [
    | inl y ↦
        rw (record_success, e)
          (rw y (record {
            sessions = refl;
            payments = Follows-same b.payments;
            events = Adds-none token b.events;
          }))
    | inr n ↦ elim (Bool-cases (s.access_kind == "subscription")) [
      | inl y ↦
          rw (record_success, e)
            (rw (n, y)
              (record {
                sessions = refl;
                payments = Follows-same b.payments;
                events = Adds-one token _ b.events (own_token token b s e);
              }))
      | inr n' ↦ rw (record_success, e) (rw (n, n') (Settles-same token b))
    ]
  ]
]

pub pay_off-Settles :
    (k : Tick) (task : Task) (b b' : Bot)
    → Settles task.session_token b b'
    → Settles task.session_token b (pay_off k task b')
unfolding run perform
pay_off-Settles k task b b' h = elim (Option-cases task.payment) [
  | inl e ↦ rw (pay_off, e) h
  | inr (id, e) ↦
      rw (pay_off, e)
        (record {
          sessions = h.sessions;
          payments =
              Follows-then b.payments b'.payments _ h.payments
                (deliver k.now id (inline_request task.session_token) ∷ [], refl);
          events = h.events;
        })
]

module _ (k : Tick) (token : String) (status : SessionStatus) (f : Failure) (b : Bot)
    (known : is_final status ≡ true) (safe : (not (is_failed status) && f.retryable) ≡ false) where
  -- Finishing a session for good, and what is recorded then
  settled-Moves :
      (b' : Bot)
      → (finish_as k token status f b).1 ≡ true
      → f.retryable ≡ false
      → Settles token (finish_as k token status f b).0 b'
      → Moves none b b'
  settled-Moves b' done never h =
      outcome-Moves k token status f b known safe b' done never h.sessions h.payments h.events

  -- Finishing that is refused, or a failure that may be tried again
  refused-Moves : Moves none b (discard_token token (finish_as k token status f b).0)
  refused-Moves =
      let q = finish-Quiet k token status f b known safe in
      Quiet→Moves b _ (
        Quiet-then b _ _ q
          (Quiet-sessions (finish_as k token status f b).0 _ (Tame-same _) refl refl refl))

pub edited-Moves : (k : Tick) (task : Task) (b : Bot) → Moves none b (deliver_edited k task b)
unfolding deliver_edited
edited-Moves k task b =
    let token = task.session_token in
    let b' = (finish_as k token delivered no_failure b).0 in
    elim (Bool-cases (finish_as k token delivered no_failure b).1) [
      | inr n ↦ rw n (refused-Moves k token delivered no_failure b refl refl)
      | inl y ↦ rw y (
          settled-Moves k token delivered no_failure b refl refl _ y refl (
            Settles-discard token b' _
              (pay_off-Settles k task b' _ (record_success-Settles k token b'))))
    ]

-- An outcome is not both unknown and to be tried again.
pub unknown_or_retryable :
    (e : DeliveryError) (stage : Stage)
    → (delivery_unknown_after e stage && retryable_after e stage) ≡ false
unfolding delivery_unknown_after retryable_after
unknown_or_retryable e preflight = refl
unknown_or_retryable e download = refl
unknown_or_retryable e storage_upload = refl
unknown_or_retryable e inline_edit = ground arith

finishes : (done unknown again : Bool) → (not done || (unknown || again)) ≡ false → done ≡ true
finishes true unknown again h = refl
finishes false unknown again h = absurd (ground (arith, h))

final : (done unknown again : Bool) → (not done || (unknown || again)) ≡ false → again ≡ false
final done unknown false h = refl
final done unknown true h = absurd (ground (arith, h))

abbrev pub status_after : DeliveryError → Stage → SessionStatus
status_after e stage = if delivery_unknown_after e stage then delivery_unknown else failed

pub status_after-final :
    (e : DeliveryError) (stage : Stage) → is_final (status_after e stage) ≡ true
status_after-final e stage = ground arith

pub status_after-safe :
    (e : DeliveryError) (stage : Stage)
    → (not (is_failed (status_after e stage)) && retryable_after e stage) ≡ false
status_after-safe e stage = ground (arith, unknown_or_retryable e stage)

pub raised-Moves :
    (k : Tick) (task : Task) (e : DeliveryError) (stage : Stage) (b : Bot)
    → Moves none b (deliver_raised k task e stage b).0
unfolding deliver_raised
raised-Moves k task e stage b =
    let token = task.session_token in
    let f = failure_after e stage in
    let s = status_after e stage in
    let known = status_after-final e stage in
    let safe = status_after-safe e stage in
    let done = (finish_as k token s f b).1 in
    elim (Bool-cases (not done || (delivery_unknown_after e stage || retryable_after e stage))) [
      | inl y ↦ rw y (refused-Moves k token s f b known safe)
      | inr n ↦ rw n (
          settled-Moves k token s f b known safe _
            (finishes done (delivery_unknown_after e stage) (retryable_after e stage) n)
            (final done (delivery_unknown_after e stage) (retryable_after e stage) n)
            (give_up-Settles k task (classify_inline_delivery_failure e stage)
              (finish_as k token s f b).0))
    ]

first-Moves :
    (k : Tick) (task : Task) (items : List InlineItem) (b : Bot)
    → Moves none b (edit_first k task items b).0
first-Moves k task [] b = raised-Moves k task index_error preflight b
first-Moves k task (item ∷ items) b = Quiet→Moves b _ (edit-Quiet k task b)

pub prepared-Moves :
    (c : Config) (k : Tick) (task : Task) (b : Bot) → Moves none b (deliver_prepared c k task b).0
unfolding deliver_prepared
prepared-Moves c k task b =
    let token = task.session_token in
    let b' = (finish_as k token failed storage_missing b).0 in
    elim (Bool-cases (is_none c.inline_storage_chat_id)) [
      | inr n ↦
          elim (Option-cases (
            get_inline_cached_media (inline_media_cache_key task.provider task.normalized_url)
              b.media)) [
                | inl q ↦ rw (deliver_prepared, n, q) (Quiet→Moves b _ (Quiet-same b))
                | inr (m, q) ↦ rw (deliver_prepared, n, q) (first-Moves k task m.media_items b)
              ]
      | inl y ↦ elim (Bool-cases (finish_as k token failed storage_missing b).1) [
        | inr n ↦ rw (y, n) (refused-Moves k token failed storage_missing b refl refl)
        | inl done ↦
            rw (y, done)
              (settled-Moves k token failed storage_missing b refl refl _ done refl
                (give_up-Settles k task "inline_storage_missing" b'))
      ]
    ]
