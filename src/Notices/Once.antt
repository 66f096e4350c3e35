-- ===== src/Notices/Once.antt =====
-- Which users are called again, over any number of deploys.
use mathlib.Core.Path.{subst}
use inst_video_downloader_tg.Base.{
  ℕ, ◌+◌, ◌≡◌, refl, sym, ◌∙◌, Bool, true, false, ◌&&◌, ◌||◌, Option, none, some, List, [], ◌∷◌,
  ◌++◌, String, ◌==◌, eq_iff, arith, any, if◌then◌else◌, inl, inr, Bool-cases,
}
use inst_video_downloader_tg.Base.Int.{ℤ, int_eq, int_eq_iff}
use inst_video_downloader_tg.Sql.{upsert}
use inst_video_downloader_tg.Sql.Laws.{any-fetch_one}
use inst_video_downloader_tg.Sql.Any.{any-upsert_in, any-upsert_out}
use inst_video_downloader_tg.Store.Jobs.{RequestRow}
use inst_video_downloader_tg.Store.Groups.{
  Notification, is_for, is_terminal, notification_should_skip, record_user_notification,
}
use inst_video_downloader_tg.Notices.{
  Answer, accepted, forbidden, telegram_error, raised, Attempt, Call, Progress, and_then, note,
  take_answer, add_call, announce, announce_each, list_distinct_request_user_ids,
  send_announcement_once,
}

-- The call after which _send_announcement_once leaves a user in peace: it returned, or raised Forbidden or an
-- exception that is no TelegramError.
abbrev pub is_settled : Answer → Bool
is_settled (telegram_error _) = false
is_settled _ = true

abbrev pub settled_call : String → ℤ → Call → Bool
settled_call key user c =
    (c.notification_key == key) && int_eq c.user_id user && is_settled c.answer

-- A start of the bot that announces something
pub record Deploy : Type 0 where
  pub notification_key : String
  pub requests : List RequestRow
  pub attempts : ℤ → Attempt

-- The calls of all announcements, one after the other, on the same table
unfoldable pub calls_of : List Deploy → List Notification → List Call
calls_of [] t = []
calls_of (d ∷ ds) t =
    let p = (send_announcement_once d.attempts d.notification_key d.requests t).0 in
    p.calls ++ calls_of ds p.notifications

-- The table after them
unfoldable pub table_after : List Deploy → List Notification → List Notification
table_after [] t = t
table_after (d ∷ ds) t =
    table_after ds
      (send_announcement_once d.attempts d.notification_key d.requests t).0.notifications

-- How many calls for an announcement to a user come after one that settled it; `done` tells whether it was settled
-- before the first of these calls.
pub sent_after : Bool → String → ℤ → List Call → ℕ
sent_after done key user [] = 0
sent_after done key user (c ∷ cs) =
    (if done && ((c.notification_key == key) && int_eq c.user_id user) then 1 else 0)
    + sent_after (done || settled_call key user c) key user cs

module _ (k : String) (u : ℤ) where
  abbrev ends_for : Notification → Bool
  ends_for r = is_for k u r && is_terminal r.status

  abbrev is_done : List Notification → Bool
  is_done t = any ends_for t

  abbrev wrote : ℕ → String → ℤ → String → Option String → List Notification → List Notification
  wrote now key user status error t =
      upsert (is_for key user)
        (record {
          notification_key = key;
          user_id = user;
          status = status;
          error_class = error;
          created_at = now;
          updated_at = now;
        })
        (λ r. record r { status = status; error_class = error; updated_at = now }) t

  -- A write about a user decides for that user alone.
  noted :
      (now : ℕ) (key : String) (user : ℤ) (status : String) (error : Option String)
      (t : List Notification)
      → is_done (wrote now key user status error t)
        ≡ (if (key == k) && int_eq user u then is_terminal status else is_done t)
  noted now key user status error t =
      let new : Notification = record {
        notification_key = key;
        user_id = user;
        status = status;
        error_class = error;
        created_at = now;
        updated_at = now;
      } in
      let f =
        λ (r : Notification). record r { status = status; error_class = error; updated_at = now } in
      elim (Bool-cases ((key == k) && int_eq user u)) [
        | inl y ↦ rw y (
            any-upsert_in ends_for (is_for key user)
              (λ r h. ground (
                arith,
                h,
                y,
                eq_iff key k,
                eq_iff r.notification_key k,
                eq_iff r.notification_key key,
              ))
              f (is_terminal status)
              (λ r h. ground (
                arith,
                h,
                y,
                eq_iff key k,
                eq_iff r.notification_key k,
                eq_iff r.notification_key key,
              ))
              new t (ground (arith, y)))
        | inr n ↦ rw n (
            any-upsert_out ends_for (is_for key user) f
              (λ r h. ground (
                arith,
                h,
                n,
                eq_iff key k,
                eq_iff r.notification_key k,
                eq_iff r.notification_key key,
              ))
              new t (ground (arith, n)))
      ]

  fresh :
      (key : String) (user : ℤ) (t : List Notification)
      → notification_should_skip key user t ≡ false
      → ((key == k) && int_eq user u) ≡ true
      → is_done t ≡ false
  unfolding notification_should_skip
  fresh key user t s y =
      let kk : key ≡ k = (eq_iff key k).0 (ground (arith, y)) in
      let uu : user ≡ u = (int_eq_iff user u).0 (ground (arith, y)) in
      let own : notification_should_skip k u t ≡ false =
        subst (λ j. notification_should_skip j u t ≡ false) kk
          (subst (λ v. notification_should_skip key v t ≡ false) uu s) in
      ground (arith, any-fetch_one ends_for t, own)

  after-append :
      (done : Bool) (xs ys : List Call)
      → sent_after done k u (xs ++ ys)
        ≡ sent_after done k u xs + sent_after (done || any (settled_call k u) xs) k u ys
  unfolding sent_after
  after-append done [] ys = ground arith
  after-append done (c ∷ xs) ys = ground (arith, after-append (done || settled_call k u c) xs ys)

  any-join :
      (xs ys : List Call)
      → any (settled_call k u) (xs ++ ys) ≡ any (settled_call k u) xs || any (settled_call k u) ys
  any-join [] ys = refl
  any-join (c ∷ xs) ys = ground (arith, any-join xs ys)

  -- The calls made so far came while the user was not done, and the user is done from a settled one on.
  abbrev Tells : Bool → Progress → Type 0
  Tells done p =
      (sent_after done k u p.calls ≡ 0)
      × ((done || any (settled_call k u) p.calls) ≡ is_done p.notifications)

  counted :
      (done : Bool) (key : String) (user : ℤ) (a : Answer) (calls : List Call)
      (t t' : List Notification)
      → notification_should_skip key user t ≡ false
      → is_done t' ≡ (if (key == k) && int_eq user u then is_settled a else is_done t)
      → sent_after done k u calls ≡ 0
      → (done || any (settled_call k u) calls) ≡ is_done t
      → let call : Call = record { notification_key = key; user_id = user; answer = a } in
        (sent_after done k u (calls ++ call ∷ []) ≡ 0)
        × ((done || any (settled_call k u) (calls ++ call ∷ [])) ≡ is_done t')
  unfolding sent_after
  counted done key user a calls t t' s e none_ told =
      let call : Call = record { notification_key = key; user_id = user; answer = a } in
      let cut = after-append done calls (call ∷ []) in
      let both = any-join calls (call ∷ []) in
      elim (Bool-cases ((key == k) && int_eq user u)) [
        | inl y ↦
            let idle = fresh key user t s y in
            (ground (arith, cut, none_, told, idle, y), ground (arith, both, e, told, idle, y))
        | inr n ↦ (ground (arith, cut, none_, n), ground (arith, both, e, told, n))
      ]

  noted_twice :
      (now later : ℕ) (key : String) (user : ℤ) (status : String) (error : Option String)
      (t : List Notification)
      → is_done (wrote later key user status error (wrote now key user "attempted" none t))
        ≡ (if (key == k) && int_eq user u then is_terminal status else is_done t)
  noted_twice now later key user status error t =
      let once = wrote now key user "attempted" none t in
      ground (arith, noted later key user status error once, noted now key user "attempted" none t)

  answered-Tells :
      (done : Bool) (key : String) (user : ℤ) (now later : ℕ) (a : Answer) (p : Progress)
      → notification_should_skip key user p.notifications ≡ false
      → Tells done p
      → let call : Call = record { notification_key = key; user_id = user; answer = a } in
        Tells done
          (and_then
            (note now key user "attempted" none p)
            (λ q. take_answer key user later a (add_call call q))).0
  unfolding take_answer record_user_notification
  answered-Tells done key user now later accepted p s h =
      let t = p.notifications in
      counted done key user accepted p.calls t
        (wrote later key user "sent" none (wrote now key user "attempted" none t)) s
        (noted_twice now later key user "sent" none t) h.0 h.1
  answered-Tells done key user now later (forbidden e) p s h =
      let t = p.notifications in
      counted done key user (forbidden e) p.calls t
        (wrote later key user "failed" (some e) (wrote now key user "attempted" none t)) s
        (noted_twice now later key user "failed" (some e) t) h.0 h.1
  answered-Tells done key user now later (telegram_error e) p s h =
      let t = p.notifications in
      counted done key user (telegram_error e) p.calls t
        (wrote later key user "retryable_failed" (some e) (wrote now key user "attempted" none t)) s
        (noted_twice now later key user "retryable_failed" (some e) t) h.0 h.1
  answered-Tells done key user now later raised p s h =
      let t = p.notifications in
      counted done key user raised p.calls t (wrote now key user "attempted" none t) s
        (noted now key user "attempted" none t) h.0 h.1

  announce-Tells :
      (done : Bool) (key : String) (user : ℤ) (a : Attempt) (p : Progress)
      → Tells done p
      → Tells done (announce key user a p).0
  unfolding announce
  announce-Tells done key user a p h =
      elim (Bool-cases (notification_should_skip key user p.notifications)) [
        | inl y ↦ rw y h
        | inr n ↦ rw n (answered-Tells done key user a.started_at a.ended_at a.answer p n h)
      ]

  and_then-Tells :
      (done : Bool) (r : Progress × Bool) (next : Progress → Progress × Bool)
      → Tells done r.0
      → ((q : Progress) → Tells done q → Tells done (next q).0)
      → Tells done (and_then r next).0
  and_then-Tells done (q, false) next g h = g
  and_then-Tells done (q, true) next g h = h q g

  each-Tells :
      (done : Bool) (attempts : ℤ → Attempt) (key : String) (users : List ℤ) (p : Progress)
      → Tells done p
      → Tells done (announce_each attempts key users p).0
  unfolding announce_each
  each-Tells done attempts key [] p h = h
  each-Tells done attempts key (user ∷ users) p h =
      and_then-Tells done (announce key user (attempts user) p)
        (λ q. announce_each attempts key users q) (announce-Tells done key user (attempts user) p h)
        (λ q g. each-Tells done attempts key users q g)

  runs :
      (ds : List Deploy) (t : List Notification)
      → (sent_after (is_done t) k u (calls_of ds t) ≡ 0)
        × ((is_done t || any (settled_call k u) (calls_of ds t)) ≡ is_done (table_after ds t))
  unfolding calls_of table_after send_announcement_once sent_after
  runs [] t = (refl, ground arith)
  runs (d ∷ ds) t =
      let start : Progress = record {
        notifications = t;
        calls = [];
        sent = 0;
        failed = 0;
        skipped = 0;
      } in
      let users = list_distinct_request_user_ids d.requests in
      let p = (announce_each d.attempts d.notification_key users start).0 in
      let (idle, told) =
        each-Tells (is_done t) d.attempts d.notification_key users start (refl, ground arith) in
      let (idle', told') = runs ds p.notifications in
      let rest = calls_of ds p.notifications in
      (
        after-append (is_done t) p.calls rest ∙ rw (told, idle, idle') refl,
        ground (arith, any-join p.calls rest, told, told'),
      )

  skip_done : (t : List Notification) → notification_should_skip k u t ≡ is_done t
  unfolding notification_should_skip
  skip_done t = ground (arith, any-fetch_one ends_for t)

  -- However often the bot starts and whichever announcements it makes, it calls a user for an announcement no more
  -- once one call for it was accepted, met a block or was cut off by an exception that is no TelegramError, or if its
  -- status was attempted, sent or failed from the beginning. Later runs
  -- leave the user out in just these cases, so not after another TelegramError, TimedOut among them.
  pub not_called_again :
      (ds : List Deploy) (t : List Notification)
      → (sent_after (notification_should_skip k u t) k u (calls_of ds t) ≡ 0)
        × (notification_should_skip k u (table_after ds t)
            ≡ (notification_should_skip k u t || any (settled_call k u) (calls_of ds t)))
  not_called_again ds t =
      let (idle, told) = runs ds t in
      rw (skip_done t, skip_done (table_after ds t)) (idle, sym told)
