-- ===== src/Inline/Quiet/Outcomes.antt =====
-- The steps that record an outcome close their session by it, so a session has one outcome recorded.
use mathlib.Core.Path.{subst}
use inst_video_downloader_tg.Base.{
  ℕ, ◌+◌, ◌≤◌, ◌≡◌, refl, sym, ap, ◌∙◌, Bool, true, false, not, ◌&&◌, Option, none, some, List, [],
  ◌∷◌, ◌++◌, String, ◌==◌, eq_iff, eq_refl, arith, if◌then◌else◌, inl, inr, Bool-cases,
}
use inst_video_downloader_tg.Sql.{row_count}
use inst_video_downloader_tg.Sql.Keys.{at, Unique}
use inst_video_downloader_tg.Store.InlineSessions.{
  InlineSession, SessionStatus, session_pk, is_final, is_failed, Failure, finish_row, Checked,
  finish_inline_delivery,
}
use inst_video_downloader_tg.Store.InlineSessions.Machine.{finish_spec}
use inst_video_downloader_tg.Store.InlineSessions.Refine.{finish-Implements}
use inst_video_downloader_tg.Store.Events.{DeliveryEvent}
use inst_video_downloader_tg.Inline.Bot.{Bot, Tick}
use inst_video_downloader_tg.Inline.Delivery.{finish_as, checked}
use inst_video_downloader_tg.Inline.Quiet.Deliveries.{Tame-checked, checked-Quiet}
use inst_video_downloader_tg.Inline.Quiet.{left_open, Follows, Follows-then, Quiet}

-- How many delivery events are recorded for a session
abbrev pub recorded : String → List DeliveryEvent → ℕ
recorded j t = row_count (λ e. e.session_token == j) t

-- The events recorded for a session and its chance of one more; `opened` is a token that was just created.
abbrev pub budget : String → Bot → ℕ
budget j b = recorded j b.events + left_open (at session_pk b.sessions j)

abbrev pub is_opened : Option String → String → ℕ
is_opened none j = 0
is_opened (some token) j = if token == j then 1 else 0

pub record Moves (opened : Option String) (b b' : Bot) : Type 0 where
  pub unique : Unique session_pk b.sessions → Unique session_pk b'.sessions
  pub payments : Follows b.payments b'.payments
  pub bounded :
      Unique session_pk b.sessions → (j : String) → budget j b' ≤ budget j b + is_opened opened j

pub Quiet→Moves : (b b' : Bot) → Quiet b b' → Moves none b b'
Quiet→Moves b b' q = record {
  unique = q.sessions.unique;
  payments = q.payments;
  bounded = λ u j. rw q.events (omega (arith, q.sessions.closing u j));
}

pub Moves-then : (o : Option String) (a b c : Bot) → Moves none a b → Moves o b c → Moves o a c
Moves-then o a b c p q = record {
  unique = λ u. q.unique (p.unique u);
  payments = Follows-then a.payments b.payments c.payments p.payments q.payments;
  bounded = λ u j. omega (arith, p.bounded u j, q.bounded (p.unique u) j);
}

-- At most one more event, and for the session of `token` alone
abbrev pub Adds : String → List DeliveryEvent → List DeliveryEvent → Type 0
Adds token t t' = (j : String) → recorded j t' ≤ recorded j t + (if token == j then 1 else 0)

recorded-append :
    (j : String) (e : DeliveryEvent) (t : List DeliveryEvent)
    → recorded j (t ++ e ∷ []) ≡ recorded j t + (if e.session_token == j then 1 else 0)
unfolding row_count
recorded-append j e [] = omega arith
recorded-append j e (x ∷ t) = omega (arith, recorded-append j e t)

pub Adds-none : (token : String) (t : List DeliveryEvent) → Adds token t t
Adds-none token t j = omega arith

pub Adds-one :
    (token : String) (e : DeliveryEvent) (t : List DeliveryEvent)
    → e.session_token ≡ token
    → Adds token t (t ++ e ∷ [])
Adds-one token e t h j = rw (recorded-append j e t, h) (omega arith)

finish_open :
    (now : ℕ) (status : SessionStatus) (f : Failure) (o : Option InlineSession)
    → left_open (finish_spec now status f o).0 ≤ left_open o
unfolding finish_spec
finish_open now status f none = omega arith
finish_open now status f (some s) = ground arith

finish_spec_done :
    (now : ℕ) (status : SessionStatus) (f : Failure) (o : Option InlineSession)
    → (finish_spec now status f o).1 ≡ true
    → (s : InlineSession) × (o ≡ some s)
      × (left_open (some s) ≡ 1)
      × ((finish_spec now status f o).0 ≡ some (finish_row now status f s))
unfolding finish_spec
finish_spec_done now status f none h = absurd (ground (arith, h))
finish_spec_done now status f (some s) h = (s, refl, ground (arith, h), ground (arith, h))

finish_row_closed :
    (now : ℕ) (status : SessionStatus) (f : Failure) (s : InlineSession)
    → is_final status ≡ true
    → f.retryable ≡ false
    → left_open (some (finish_row now status f s)) ≡ 0
finish_row_closed now status f s h r = ground (arith, h, r)

module _ (k : Tick) (token : String) (status : SessionStatus) (f : Failure) (b : Bot)
    (known : is_final status ≡ true) (safe : (not (is_failed status) && f.retryable) ≡ false) where
  abbrev outcome : Checked (List InlineSession × Bool)
  outcome = finish_inline_delivery k.now token status f b.sessions

  abbrev spec : Option InlineSession × Bool
  spec = finish_spec k.now status f (at session_pk b.sessions token)

  pub finish-Quiet : Quiet b (finish_as k token status f b).0
  finish-Quiet = checked-Quiet b outcome (
      Tame-checked b.sessions token outcome spec
        (λ u. finish-Implements k.now token b.sessions status f known safe u)
        (finish_open k.now status f (at session_pk b.sessions token)))

  -- What finish does when it answers True
  abbrev pub Finished : Type 0
  Finished =
      (s : InlineSession) × (at session_pk b.sessions token ≡ some s)
      × (left_open (some s) ≡ 1)
      × (at session_pk (finish_as k token status f b).0.sessions token
          ≡ some (finish_row k.now status f s))
      × ((j : String)
          → at session_pk (finish_as k token status f b).0.sessions j ≡ (
              if token == j
              then some (finish_row k.now status f s)
              else at session_pk b.sessions j))

  pub finished : Unique session_pk b.sessions → (finish_as k token status f b).1 ≡ true → Finished
  finished u done =
      let (result, e, i) = finish-Implements k.now token b.sessions status f known safe u in
      let step : finish_as k token status f b ≡ (record b { sessions = result.0 }, result.1) =
        ap (checked b) e in
      let (s, found, was, row) =
        finish_spec_done k.now status f (at session_pk b.sessions token)
          (sym i.outcome ∙ ap (λ x. x.1) (sym step) ∙ done) in
      let rows : (j : String)
          → at session_pk (finish_as k token status f b).0.sessions j ≡ (
              if token == j
              then some (finish_row k.now status f s)
              else at session_pk b.sessions j) =
        λ j.
          ap (λ x. at session_pk x.0.sessions j) step
          ∙ i.rows j
          ∙ ap (λ o. if token == j then o else at session_pk b.sessions j) row in
      (s, found, was, rows token ∙ rw (eq_refl token) refl, rows)

  -- A step that records an outcome: it finishes the session for good and adds at most one event for it.
  pub outcome-Moves :
      (b' : Bot)
      → (finish_as k token status f b).1 ≡ true
      → f.retryable ≡ false
      → b'.sessions ≡ (finish_as k token status f b).0.sessions
      → Follows (finish_as k token status f b).0.payments b'.payments
      → Adds token (finish_as k token status f b).0.events b'.events
      → Moves none b b'
  outcome-Moves b' done never same pay add = record {
    unique = λ u. rw same (finish-Quiet.sessions.unique u);
    payments =
        Follows-then b.payments (finish_as k token status f b).0.payments b'.payments
          finish-Quiet.payments pay;
    bounded = λ u j.
        let (s, found, was, _, rows) = finished u done in
        let more : recorded j b'.events ≤ recorded j b.events + (if token == j then 1 else 0) =
          subst (λ t. recorded j b'.events ≤ recorded j t + (if token == j then 1 else 0))
            finish-Quiet.events (add j) in
        rw (same, rows j)
          (elim (Bool-cases (token == j)) [
            | inl y ↦
                let here : left_open (at session_pk b.sessions j) ≡ 1 =
                  subst (λ i. left_open (at session_pk b.sessions i) ≡ 1) ((eq_iff token j).0 y)
                    (rw found was) in
                ground (arith, y, more, here, finish_row_closed k.now status f s known never)
            | inr n ↦ ground (arith, n, more)
          ]);
  }
