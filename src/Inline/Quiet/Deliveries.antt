-- ===== src/Inline/Quiet/Deliveries.antt =====
-- The steps of a delivery that end nothing, and the refunds, are quiet.
use Prim.Native.String.{◌++◌ as append}
use mathlib.Core.Path.{subst}
use inst_video_downloader_tg.Base.{
  sym, ap, eq_iff, ◌∙◌, ℕ, ◌≤◌, ◌≡◌, refl, Bool, true, false, Option, none, some, List, [], ◌∷◌,
  String, ◌==◌, arith, if◌then◌else◌, inl, inr, Bool-cases, Option-cases,
}
use inst_video_downloader_tg.Store.Cache.{InlineItem}
use inst_video_downloader_tg.Sql.Keys.{at, has, Unique, Unique-update}
use inst_video_downloader_tg.Sql.Laws.{fetch_one-update, touched, fetch_one_sound}
use inst_video_downloader_tg.Base.Order.{==_comm}
use inst_video_downloader_tg.Sql.Refinement.{Implements}
use inst_video_downloader_tg.Store.InlineSessions.{
  InlineSession, SessionStatus, session_pk, is_delivering, is_stage, Checked, returned, value_error,
  get_inline_session, advance_inline_delivery_stage, mark_inline_session_status,
}
use inst_video_downloader_tg.Store.InlineSessions.Machine.{advance_spec}
use inst_video_downloader_tg.Store.InlineSessions.Refine.{advance-Implements}
use inst_video_downloader_tg.Store.Payments.Trace.{refund, fail_refund, perform, run}
use inst_video_downloader_tg.Inline.Bot.{Bot, Tick, discard_token}
use inst_video_downloader_tg.Inline.Failure.{
  Stage, stage_name, inline_edit, download, storage_upload, preflight,
}
use inst_video_downloader_tg.Inline.Delivery.{
  Task, Next, message_of, checked, editing, advance_to, take_chosen, is_chosen, deliver_start,
  start_edit, deliver_stage, deliver_uploaded, Refund, sent, refused, refund_answered,
}
use inst_video_downloader_tg.Inline.Quiet.{
  left_open, Tame, Tame-same, Tame-Implements, Quiet, Quiet-then, Quiet-same, Quiet-sessions,
  Quiet-if, Quiet-option,
}

advance_open :
    (now : ℕ) (stage : String) (o : Option InlineSession)
    → left_open (advance_spec now stage o).0 ≤ left_open o
unfolding advance_spec
advance_open now stage none = omega arith
advance_open now stage (some r) = ground arith

pub stage_known : (stage : Stage) → is_stage (stage_name stage) ≡ true
stage_known preflight = refl
stage_known download = refl
stage_known storage_upload = refl
stage_known inline_edit = refl

abbrev unwrap :
    List InlineSession × Bool → Checked (List InlineSession × Bool) → List InlineSession × Bool
unwrap d value_error = d
unwrap d (returned x) = x

-- A checked method that implements a tame transition
pub Tame-checked :
    (t : List InlineSession) (token : String) (r : Checked (List InlineSession × Bool))
    (spec : Option InlineSession × Bool)
    → (Unique session_pk t
        → (result : List InlineSession × Bool) × (r ≡ returned result)
          × Implements session_pk t token result spec)
    → left_open spec.0 ≤ left_open (at session_pk t token)
    → (x : List InlineSession × Bool) → r ≡ returned x
    → Tame t x.0
Tame-checked t token r spec i h x e =
    Tame-Implements t token x spec
      (λ u.
        let (result, e', w) = i u in
        subst (λ y. Implements session_pk t token y spec) (ap (unwrap x) (sym e' ∙ e)) w)
      h

pub checked-Quiet :
    (b : Bot) (r : Checked (List InlineSession × Bool))
    → ((x : List InlineSession × Bool) → r ≡ returned x → Tame b.sessions x.0)
    → Quiet b (checked b r).0
checked-Quiet b value_error h = Quiet-same b
checked-Quiet b (returned x) h = Quiet-sessions b _ (h x refl) refl refl refl

pub advance-Quiet :
    (k : Tick) (token : String) (stage : Stage) (b : Bot) → Quiet b (advance_to k token stage b).0
advance-Quiet k token stage b =
    let r = advance_inline_delivery_stage k.now token (stage_name stage) b.sessions in
    let o = at session_pk b.sessions token in
    checked-Quiet b r (
      Tame-checked b.sessions token r (advance_spec k.now (stage_name stage) o)
        (λ u. advance-Implements k.now token b.sessions (stage_name stage) (stage_known stage) u)
        (advance_open k.now (stage_name stage) o))

pub stage-Quiet :
    (k : Tick) (task : Task) (stage : Stage) (next : Next) (b : Bot)
    → Quiet b (deliver_stage k task stage next b).0
unfolding deliver_stage
stage-Quiet k task stage next b =
    let result = advance_to k task.session_token stage b in
    let q = advance-Quiet k task.session_token stage b in
    Quiet-if result.1 b _ _ q (
      Quiet-then b result.0 (discard_token task.session_token result.0) q
        (Quiet-sessions result.0 _ (Tame-same result.0.sessions) refl refl refl))

pub edit-Quiet : (k : Tick) (task : Task) (b : Bot) → Quiet b (start_edit k task b).0
edit-Quiet k task b = unfold deliver_stage in stage-Quiet k task inline_edit editing b

pub uploaded-Quiet :
    (k : Tick) (task : Task) (item : InlineItem) (b : Bot)
    → Quiet b (deliver_uploaded k task item b).0
unfolding deliver_uploaded
uploaded-Quiet k task item b =
    Quiet-then b _ _ (Quiet-sessions b _ (Tame-same b.sessions) refl refl refl)
      (edit-Quiet k task _)

abbrev begun : ℕ → InlineSession → InlineSession
begun now r = record r { status = SessionStatus.delivering; updated_at = now }

begun_open :
    (c : Bool) (now : ℕ) (s : InlineSession)
    → is_chosen s.status ≡ true
    → left_open (some (if c then begun now s else s)) ≤ left_open (some s)
begun_open c now s h = ground (arith, h)

other_row :
    (token j : String) (f : InlineSession → InlineSession) (t : List InlineSession)
    → (token == j) ≡ false
    → touched (has session_pk token) f (at session_pk t j) ≡ at session_pk t j
other_row token j f t n = elim (Option-cases (at session_pk t j)) [
  | inl e ↦ rw e refl
  | inr (r, e) ↦
      let key : r.session_token ≡ j =
        (eq_iff r.session_token j).0 (fetch_one_sound (has session_pk j) t e) in
      let other : (r.session_token == token) ≡ false =
        ==_comm r.session_token token ∙ ap (λ x. token == x) key ∙ n in
      rw (e, other) refl
]

-- A chosen session is not closed.
marked_chosen :
    (now : ℕ) (token : String) (t : List InlineSession) {s : InlineSession}
    → at session_pk t token ≡ some s
    → is_chosen s.status ≡ true
    → Tame t (mark_inline_session_status now token SessionStatus.delivering t)
unfolding mark_inline_session_status
marked_chosen now token t {s} e h = record {
  unique = λ u. Unique-update session_pk _ _ t (λ r. refl) u;
  closing = λ u j.
      rw (fetch_one-update (has session_pk j) (has session_pk token) (begun now) t (λ r. refl))
        (elim (Bool-cases (token == j)) [
          | inl y ↦
              subst
                (λ i.
                  left_open (touched (has session_pk token) (begun now) (at session_pk t i))
                  ≤ left_open (at session_pk t i))
                ((eq_iff token j).0 y) (rw e (begun_open (has session_pk token s) now s h))
          | inr n ↦ rw (other_row token j (begun now) t n) (omega arith)
        ]);
}

take_chosen-Quiet :
    (k : Tick) (token : String) (b : Bot) {s : InlineSession}
    → at session_pk b.sessions token ≡ some s
    → Quiet b (take_chosen k token s b)
take_chosen-Quiet k token b {s} e = elim (Bool-cases (is_chosen s.status)) [
  | inr n ↦ rw n (Quiet-same b)
  | inl y ↦
      let b' : Bot = record b {
        sessions = mark_inline_session_status k.now token SessionStatus.delivering b.sessions;
      } in
      rw y (
        Quiet-then b b' (advance_to k token preflight b').0
          (Quiet-sessions b b' (marked_chosen k.now token b.sessions e y) refl refl refl)
          (advance-Quiet k token preflight b'))
]

pub start-Quiet :
    (k : Tick) (token : String) (payment : Option String) (b : Bot)
    → Quiet b (deliver_start k token payment b).0
unfolding deliver_start
start-Quiet k token payment b =
    let gone : Quiet b (discard_token token b) =
      Quiet-sessions b _ (Tame-same b.sessions) refl refl refl in
    Quiet-option (get_inline_session token none b.sessions) b _ _ gone (λ s e.
      let b' = take_chosen k token s b in
      let q = take_chosen-Quiet k token b {s = s} (unfold get_inline_session in e) in
      let q' : Quiet b (discard_token token b') =
        Quiet-then b b' _ q (Quiet-sessions b' _ (Tame-same b'.sessions) refl refl refl) in
      Quiet-option (message_of s) b _ _ gone (λ m e'.
        Quiet-option (get_inline_session token none b'.sessions) b _ _ q'
          (λ r e''. Quiet-if (is_delivering r.status) b _ _ q q')))

pub refund-Quiet :
    (k : Tick) (id reason : String) (answer : Refund) (b : Bot)
    → Quiet b (refund_answered k id reason answer b)
unfolding refund_answered run perform
refund-Quiet k id reason sent b = record {
  sessions = Tame-same b.sessions;
  payments = (refund k.now id reason ∷ [], refl);
  events = refl;
  promos = refl;
}
refund-Quiet k id reason (refused name) b = record {
  sessions = Tame-same b.sessions;
  payments = (fail_refund k.now id (append reason (append ":" name)) ∷ [], refl);
  events = refl;
  promos = refl;
}
