-- ===== src/Inline/Delivery/Whole/Ends.antt =====
-- A delivery that nothing disturbs ends.
use inst_video_downloader_tg.Base.{
  ◌||◌, ℕ, ◌≡◌, refl, ap, ◌∙◌, true, false, not, ◌&&◌, Option, none, some, List, [], ◌∷◌, String,
  eq_refl, arith, is_none, ◌⊎◌, if◌then◌else◌, inl, inr, Bool-cases, Option-cases,
}
use inst_video_downloader_tg.Sql.Keys.{at, Unique}
use inst_video_downloader_tg.Store.InlineSessions.{
  InlineSession, SessionStatus, delivered, failed, session_pk, truthy, is_delivering, is_final,
  is_failed, Failure, finish_row, get_inline_session,
}
use inst_video_downloader_tg.Store.Cache.{
  InlineItem, InlineMedia, get_inline_cached_media, save_inline_cached_media,
}
use inst_video_downloader_tg.Inline.Bot.{inline_media_cache_key, Config, Bot, Tick, discard_token}
use inst_video_downloader_tg.Inline.Failure.{
  DeliveryError, Stage, preflight, download, storage_upload, inline_edit, stage_name,
  delivery_unknown_after, retryable_after, classify_inline_delivery_failure,
}
use inst_video_downloader_tg.Inline.Delivery.{
  Task, Next, index_error, edit_first, checked, advance_to, finish_as, start_edit, deliver_stage,
  payment_of, message_of, storage_missing, no_failure, failure_after, deliver_raised,
  deliver_edited, give_up, Refund, sent, refused, refund_answered, refund_due, refunding, ended,
  waiting, downloading, uploading, editing, record_success, pay_off, deliver_downloaded,
  deliver_in_turn, deliver_uploaded, deliver_prepared, deliver_start,
}
use inst_video_downloader_tg.Inline.Quiet.Deliveries.{stage_known}
use inst_video_downloader_tg.Inline.Quiet.Endings.{
  status_after, status_after-final, status_after-safe, give_up-Settles, pay_off-Settles,
  record_success-Settles,
}
use inst_video_downloader_tg.Inline.Delivery.Whole.{
  World, settle, then_edit, then_upload, then_download, then_deliver, deliver_inline_session,
}
use inst_video_downloader_tg.Store.InlineSessions.Machine.{advance_spec, finish_spec}
use inst_video_downloader_tg.Store.InlineSessions.Refine.{advance-Implements, finish-Implements}

-- The session of a token is being delivered.
record Live (token : String) (b : Bot) : Type 0 where
  unique : Unique session_pk b.sessions
  session : InlineSession
  found : at session_pk b.sessions token ≡ some session
  busy : is_delivering session.status ≡ true

-- The session of a token has a status.
abbrev pub HasStatus : String → SessionStatus → Bot → Type 0
HasStatus token status b =
    (s : InlineSession) × (at session_pk b.sessions token ≡ some s) × (s.status ≡ status)

advance_row :
    (now : ℕ) (stage : String) (s : InlineSession)
    → is_delivering s.status ≡ true
    → (r : InlineSession) × ((advance_spec now stage (some s)).0 ≡ some r)
      × (is_delivering r.status ≡ true)
      × ((advance_spec now stage (some s)).1 ≡ true)
unfolding advance_spec
advance_row now stage s h =
    (record s { delivery_stage = some stage; updated_at = now }, rw h refl, h, rw h refl)

finish_row-status :
    (now : ℕ) (status : SessionStatus) (f : Failure) (s : InlineSession)
    → is_delivering s.status ≡ true
    → ((finish_spec now status f (some s)).0 ≡ some (finish_row now status f s))
      × ((finish_spec now status f (some s)).1 ≡ true)
unfolding finish_spec
finish_row-status now status f s h = (rw h refl, rw h refl)

-- A stage of a live delivery is entered.
advance-Live :
    (k : Tick) (token : String) (stage : Stage) (b : Bot)
    → Live token b
    → (b' : Bot) × (advance_to k token stage b ≡ (b', true)) × Live token b'
advance-Live k token stage b l =
    let (result, e, i) =
      advance-Implements k.now token b.sessions (stage_name stage) (stage_known stage) l.unique in
    let (r, row, busy, done) = advance_row k.now (stage_name stage) l.session l.busy in
    let b' : Bot = record b { sessions = result.0 } in
    let yes_ : result.1 ≡ true =
      i.outcome ∙ ap (λ o. (advance_spec k.now (stage_name stage) o).1) l.found ∙ done in
    let here : at session_pk result.0 token ≡ some r =
      i.rows token
      ∙ rw (eq_refl token) (ap (λ o. (advance_spec k.now (stage_name stage) o).0) l.found ∙ row) in
    (
      b',
      ap (checked b) e ∙ ap (λ x. (b', x)) yes_,
      record { unique = i.unique; session = r; found = here; busy = busy },
    )

-- A live delivery is finished with the status given.
finish-Live :
    (k : Tick) (token : String) (status : SessionStatus) (f : Failure) (b : Bot)
    → is_final status ≡ true
    → (not (is_failed status) && f.retryable) ≡ false
    → Live token b
    → (b' : Bot) × (finish_as k token status f b ≡ (b', true)) × HasStatus token status b'
finish-Live k token status f b known safe l =
    let (result, e, i) = finish-Implements k.now token b.sessions status f known safe l.unique in
    let (row, done) = finish_row-status k.now status f l.session l.busy in
    let b' : Bot = record b { sessions = result.0 } in
    let yes_ : result.1 ≡ true =
      i.outcome ∙ ap (λ o. (finish_spec k.now status f o).1) l.found ∙ done in
    let here : at session_pk result.0 token ≡ some (finish_row k.now status f l.session) =
      i.rows token
      ∙ rw (eq_refl token) (ap (λ o. (finish_spec k.now status f o).0) l.found ∙ row) in
    (
      b',
      ap (checked b) e ∙ ap (λ x. (b', x)) yes_,
      (finish_row k.now status f l.session, here, refl),
    )

-- What leaves the sessions leaves their status.
kept_status :
    (token : String) (status : SessionStatus) (b b' : Bot)
    → b'.sessions ≡ b.sessions
    → HasStatus token status b
    → HasStatus token status b'
kept_status token status b b' e (s, h, q) = (s, rw e h, q)

refund-sessions :
    (k : Tick) (id reason : String) (answer : Refund) (b : Bot)
    → (refund_answered k id reason answer b).sessions ≡ b.sessions
unfolding refund_answered
refund-sessions k id reason sent b = refl
refund-sessions k id reason (refused name) b = refl

settle-sessions : (k : Tick) (w : World) (x : Bot × Next) → (settle k w x).sessions ≡ x.0.sessions
settle-sessions k w (b, ended) = refl
settle-sessions k w (b, waiting) = refl
settle-sessions k w (b, downloading) = refl
settle-sessions k w (b, uploading) = refl
settle-sessions k w (b, editing) = refl
settle-sessions k w (b, refunding id reason) = elim (Bool-cases (is_none (refund_due id b))) [
  | inl y ↦ rw y refl
  | inr n ↦ rw n (refund-sessions k id reason w.refund b)
]

-- Giving up and refunding leave the status.
gave_up :
    (k : Tick) (w : World) (task : Task) (reason : String) (status : SessionStatus) (b : Bot)
    → HasStatus task.session_token status b
    → HasStatus task.session_token status (settle k w (give_up k task reason b))
gave_up k w task reason status b =
    let x = give_up k task reason b in
    kept_status task.session_token status b (settle k w x)
      (settle-sessions k w x ∙ (give_up-Settles k task reason b).sessions)

raised_ends :
    (k : Tick) (w : World) (task : Task) (e : DeliveryError) (stage : Stage) (b : Bot)
    → Live task.session_token b
    → HasStatus task.session_token
        (status_after e stage)
        (settle k w (deliver_raised k task e stage b))
unfolding deliver_raised
raised_ends k w task e stage b l =
    let token = task.session_token in
    let status = status_after e stage in
    let (b', q, h) =
      finish-Live k token status (failure_after e stage) b (status_after-final e stage)
        (status_after-safe e stage) l in
    elim (Bool-cases (delivery_unknown_after e stage || retryable_after e stage)) [
      | inl y ↦
          rw (deliver_raised, q)
            (rw y (kept_status token status b' (discard_token token b') refl h))
      | inr n ↦
          rw (deliver_raised, q)
            (rw n (gave_up k w task (classify_inline_delivery_failure e stage) status b' h))
    ]

edited_ends :
    (k : Tick) (task : Task) (b : Bot)
    → Live task.session_token b
    → HasStatus task.session_token delivered (deliver_edited k task b)
unfolding deliver_edited
edited_ends k task b l =
    let token = task.session_token in
    let (b', e, h) = finish-Live k token delivered no_failure b refl refl l in
    let done = record_success k token b' in
    let r = pay_off-Settles k task b' done (record_success-Settles k token b') in
    rw e (kept_status token delivered b' (discard_token token (pay_off k task done)) r.sessions h)

Live-same : (token : String) (b b' : Bot) → b'.sessions ≡ b.sessions → Live token b → Live token b'
Live-same token b b' e l = record {
  unique = rw e l.unique;
  session = l.session;
  found = rw e l.found;
  busy = l.busy;
}

abbrev edit_status : World → SessionStatus
edit_status w = elim w.edit [ none ↦ delivered | some e ↦ status_after e inline_edit ]

abbrev upload_status : World → SessionStatus
upload_status w = elim w.upload [ inl e ↦ status_after e storage_upload | inr item ↦ edit_status w ]

abbrev download_status : World → SessionStatus
download_status w = elim w.download [ some e ↦ status_after e download | none ↦ upload_status w ]

-- With media in the cache the first of them is edited in; there is none in an empty list.
abbrev pub cached_status : World → List InlineItem → SessionStatus
cached_status w [] = failed
cached_status w (item ∷ items) = edit_status w

-- How a delivery ends: `cached` is what the cache holds for the media.
abbrev pub final_status : Config → World → Option InlineMedia → SessionStatus
final_status c w cached =
    if is_none c.inline_storage_chat_id
    then failed
    else elim cached [ none ↦ download_status w | some m ↦ cached_status w m.media_items ]

module _ (k : Tick) (w : World) (task : Task) where
  edit_at :
      (b : Bot)
      → Live task.session_token b
      → HasStatus task.session_token (edit_status w) (then_edit k w task (b, editing))
  edit_at b l = elim (Option-cases w.edit) [
    | inl q ↦ rw q (edited_ends k task b l)
    | inr (err, q) ↦ rw q (raised_ends k w task err inline_edit b l)
  ]

  edit_ends :
      (b : Bot)
      → Live task.session_token b
      → HasStatus task.session_token (edit_status w) (then_edit k w task (start_edit k task b))
  edit_ends b l =
      let (b', e, l') = advance-Live k task.session_token inline_edit b l in rw e (edit_at b' l')

  uploaded_ends :
      (b : Bot) (u : DeliveryError ⊎ InlineItem)
      → w.upload ≡ u
      → Live task.session_token b
      → HasStatus task.session_token (upload_status w) (then_upload k w task (b, uploading))
  unfolding deliver_uploaded
  uploaded_ends b (inl err) q l = rw q (raised_ends k w task err storage_upload b l)
  uploaded_ends b (inr item) q l =
      rw q (edit_ends (saved item) (Live-same task.session_token b (saved item) refl l))
    where
      saved : InlineItem → Bot
      saved item = record b {
        media =
            save_inline_cached_media k.now
              (inline_media_cache_key task.provider task.normalized_url) task.provider
              task.normalized_url (item ∷ []) b.media;
      }

  upload_ends :
      (b : Bot)
      → Live task.session_token b
      → HasStatus task.session_token
          (upload_status w)
          (then_upload k w task (deliver_downloaded k task b))
  unfolding deliver_downloaded deliver_stage
  upload_ends b l =
      let (b', e, l') = advance-Live k task.session_token storage_upload b l in
      rw (deliver_downloaded, deliver_stage, e) (uploaded_ends b' w.upload refl l')

  download_ends :
      (b : Bot)
      → Live task.session_token b
      → HasStatus task.session_token
          (download_status w)
          (then_download k w task (deliver_in_turn k task b))
  unfolding deliver_in_turn deliver_stage
  download_ends b l =
      let (b', e, l') = advance-Live k task.session_token download b l in
      rw (deliver_in_turn, deliver_stage, e)
        (elim (Option-cases w.download) [
          | inl q ↦ rw q (upload_ends b' l')
          | inr (err, q) ↦ rw q (raised_ends k w task err download b' l')
        ])

  give_up_deliver :
      (reason : String) (b : Bot)
      → then_deliver k w task (give_up k task reason b) ≡ settle k w (give_up k task reason b)
  give_up_deliver reason b =
      elim (Option-cases (get_inline_session task.session_token none b.sessions)) [
        | inl e ↦ rw (give_up, e) refl
        | inr (s, e) ↦ elim (Option-cases task.payment) [
          | inl q ↦ rw (give_up, e) (rw q refl)
          | inr (id, q) ↦ rw (give_up, e) (rw q refl)
        ]
      ]

  cached_ends :
      (b : Bot)
      → Live task.session_token b
      → HasStatus task.session_token (edit_status w) (then_deliver k w task (start_edit k task b))
  cached_ends b l =
      let (b', e, l') = advance-Live k task.session_token inline_edit b l in rw e (edit_at b' l')

  raised_deliver :
      (e : DeliveryError) (stage : Stage) (b : Bot)
      → then_deliver k w task (deliver_raised k task e stage b)
        ≡ settle k w (deliver_raised k task e stage b)
  unfolding deliver_raised
  raised_deliver e stage b =
      let b' = finish_as k task.session_token (status_after e stage) (failure_after e stage) b in
      elim (Bool-cases (not b'.1 || (delivery_unknown_after e stage || retryable_after e stage))) [
        | inl y ↦ rw y refl
        | inr n ↦ rw n (give_up_deliver (classify_inline_delivery_failure e stage) b'.0)
      ]

  first_ends :
      (items : List InlineItem) (b : Bot)
      → Live task.session_token b
      → HasStatus task.session_token
          (cached_status w items)
          (then_deliver k w task (edit_first k task items b))
  unfolding delivery_unknown_after
  first_ends [] b l =
      rw (raised_deliver index_error preflight b) (raised_ends k w task index_error preflight b l)
  first_ends (item ∷ items) b l = cached_ends b l

  task_ends :
      (c : Config) (b : Bot)
      → Live task.session_token b
      → HasStatus task.session_token
          (final_status c w (
            get_inline_cached_media
              (inline_media_cache_key task.provider task.normalized_url)
              b.media))
          (then_deliver k w task (deliver_prepared c k task b))
  unfolding deliver_prepared
  task_ends c b l = elim (Bool-cases (is_none c.inline_storage_chat_id)) [
    | inl y ↦
        let (b', e, h) = finish-Live k task.session_token failed storage_missing b refl refl l in
        rw (deliver_prepared, y, e)
          (rw (give_up_deliver "inline_storage_missing" b')
            (gave_up k w task "inline_storage_missing" failed b' h))
    | inr n ↦
        elim (Option-cases (
          get_inline_cached_media (inline_media_cache_key task.provider task.normalized_url)
            b.media)) [
              | inl q ↦ rw (deliver_prepared, n, q) (download_ends b l)
              | inr (m, q) ↦ rw (deliver_prepared, n, q) (first_ends m.media_items b l)
            ]
  ]

-- The task of a session that is being delivered and is bound to a message
abbrev task_of : String → Option String → String → InlineSession → Bot → Task
task_of token payment message s b = record {
  session_token = token;
  payment = payment_of token payment b;
  inline_message_id = message;
  user_id = s.user_id;
  provider = s.provider;
  normalized_url = s.normalized_url;
}

bound_message :
    (s : InlineSession)
    → truthy s.inline_message_id ≡ true
    → (message : String) × (message_of s ≡ some message)
unfolding message_of
bound_message s m = elim (Option-cases s.inline_message_id) [
  | inl e ↦ absurd (ground (arith, e, m))
  | inr (message, e) ↦ (message, rw (message_of, m) e)
]

started :
    (k : Tick) (token : String) (payment : Option String) (message : String) (b : Bot)
    {s : InlineSession}
    → at session_pk b.sessions token ≡ some s
    → s.status ≡ SessionStatus.delivering
    → message_of s ≡ some message
    → deliver_start k token payment b ≡ (b, some (task_of token payment message s b))
unfolding deliver_start get_inline_session
started k token payment message b {s} e q m = rw (deliver_start, e) (rw m (rw q (rw e (rw q refl))))

-- A delivery of a session that is being delivered and is bound to a message ends, if nothing disturbs it: it is
-- failed without a storage chat, by an error of the download or the upload, or by a row of the cache without media, it has an unknown outcome after a
-- network error of the edit and is failed by another error of it, and else it is delivered.
pub delivery_ends :
    (c : Config) (k : Tick) (w : World) (token : String) (payment : Option String) (b : Bot)
    {s : InlineSession}
    → Unique session_pk b.sessions
    → at session_pk b.sessions token ≡ some s
    → s.status ≡ SessionStatus.delivering
    → truthy s.inline_message_id ≡ true
    → HasStatus token
        (final_status c w
          (get_inline_cached_media (inline_media_cache_key s.provider s.normalized_url) b.media))
        (deliver_inline_session c k w token payment b)
unfolding deliver_inline_session
delivery_ends c k w token payment b {s} u e q m =
    let (message, em) = bound_message s m in
    let live : Live token b = record { unique = u; session = s; found = e; busy = rw q refl } in
    rw (started k token payment message b e q em)
      (task_ends k w (task_of token payment message s b) c b live)
