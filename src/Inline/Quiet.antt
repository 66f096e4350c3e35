-- ===== src/Inline/Quiet.antt =====
-- What most steps of inline delivery have in common: they open no session again, change payments only by
-- the methods of StateStore for them, and record neither a delivery event nor a promo success.
pub mod Taps
pub mod Deliveries
pub mod Outcomes
pub mod Endings
pub mod Queries
use mathlib.Core.Path.{subst}
use inst_video_downloader_tg.Base.{
  ℕ, ◌+◌, ◌≤◌, ◌≡◌, refl, sym, ap, ◌∙◌, Bool, true, false, not, ◌&&◌, Option, none, some, List, [],
  ◌∷◌, ◌++◌, String, ◌==◌, eq_iff, arith, if◌then◌else◌, inl, inr, Bool-cases, Option-cases,
}
use inst_video_downloader_tg.Sql.Keys.{at, has, Unique, Unique-update}
use inst_video_downloader_tg.Sql.Laws.{fetch_one-update}
use inst_video_downloader_tg.Sql.Refinement.{Implements}
use inst_video_downloader_tg.Store.InlineSessions.{
  InlineSession, SessionStatus, created, chosen, delivering, delivered, failed, delivery_unknown,
  Outcome, session_pk, mark_inline_session_status,
}
use inst_video_downloader_tg.Store.Payments.{Payment}
use inst_video_downloader_tg.Store.Payments.Trace.{Event, run}
use inst_video_downloader_tg.Inline.Bot.{Bot}

abbrev is_over : SessionStatus → Bool
is_over delivered = true
is_over delivery_unknown = true
is_over SessionStatus.cancelled = true
is_over failed = true
is_over _ = false

-- A session that no guarded method takes up again
abbrev pub is_closed : InlineSession → Bool
is_closed s = not s.failure_retryable && is_over s.status

-- 1 for a session that may still have an outcome recorded, 0 for one that is closed or not there
abbrev pub left_open : Option InlineSession → ℕ
left_open none = 0
left_open (some s) = if is_closed s then 0 else 1

pub record Tame (t t' : List InlineSession) : Type 0 where
  pub unique : Unique session_pk t → Unique session_pk t'
  pub closing :
      Unique session_pk t
      → (j : String) → left_open (at session_pk t' j) ≤ left_open (at session_pk t j)

pub Tame-same : (t : List InlineSession) → Tame t t
Tame-same t = record { unique = λ u. u; closing = λ u j. omega arith }

pub Tame-then : (t t' t'' : List InlineSession) → Tame t t' → Tame t' t'' → Tame t t''
Tame-then t t' t'' a b = record {
  unique = λ u. b.unique (a.unique u);
  closing = λ u j. omega (arith, a.closing u j, b.closing (a.unique u) j);
}

-- A method that does to the row of one token what a tame transition does
pub Tame-Implements {ℓ} :
    {O : Type ℓ} (t : List InlineSession) (token : String) (result : List InlineSession × O)
    (spec : Option InlineSession × O)
    → (Unique session_pk t → Implements session_pk t token result spec)
    → left_open spec.0 ≤ left_open (at session_pk t token)
    → Tame t result.0
Tame-Implements t token result spec i h = record {
  unique = λ u. (i u).unique;
  closing = λ u j. elim (Bool-cases (token == j)) [
    | inl y ↦
        rw ((i u).rows j, y)
          (subst (λ k. left_open spec.0 ≤ left_open (at session_pk t k)) ((eq_iff token j).0 y) h)
    | inr n ↦ rw ((i u).rows j, n) (omega arith)
  ];
}

marked_open :
    (c : Bool) (r : InlineSession) (now : ℕ)
    → left_open (some (if c then record r { status = failed; updated_at = now } else r))
      ≤ left_open (some r)
marked_open true r now = ground arith
marked_open false r now = omega arith

pub Tame-failed :
    (now : ℕ) (token : String) (t : List InlineSession)
    → Tame t (mark_inline_session_status now token failed t)
unfolding mark_inline_session_status
Tame-failed now token t = record {
  unique = λ u. Unique-update session_pk _ _ t (λ r. refl) u;
  closing = λ u j.
      rw
        (fetch_one-update (has session_pk j) (has session_pk token)
          (λ r. record r { status = failed; updated_at = now }) t (λ r. refl))
        (elim (Option-cases (at session_pk t j)) [
          | inl e ↦ rw e (omega arith)
          | inr (r, e) ↦ rw e (marked_open (has session_pk token r) r now)
        ]);
}

-- Payments change by the events of their table alone.
abbrev pub Follows : List Payment → List Payment → Type 0
Follows t t' = (es : List Event) × (t' ≡ run es t)

run-append : (es fs : List Event) (t : List Payment) → run (es ++ fs) t ≡ run fs (run es t)
unfolding run
run-append [] fs t = refl
run-append (e ∷ es) fs t = run-append es fs _

pub Follows-same : (t : List Payment) → Follows t t
unfolding run
Follows-same t = ([], refl)

pub Follows-then : (t t' t'' : List Payment) → Follows t t' → Follows t' t'' → Follows t t''
Follows-then t t' t'' p q = (p.0 ++ q.0, q.1 ∙ ap (run q.0) p.1 ∙ sym (run-append p.0 q.0 t))

pub record Quiet (b b' : Bot) : Type 0 where
  pub sessions : Tame b.sessions b'.sessions
  pub payments : Follows b.payments b'.payments
  pub events : b'.events ≡ b.events
  pub promos : b'.promos ≡ b.promos

pub Quiet-then : (a b c : Bot) → Quiet a b → Quiet b c → Quiet a c
Quiet-then a b c p q = record {
  sessions = Tame-then a.sessions b.sessions c.sessions p.sessions q.sessions;
  payments = Follows-then a.payments b.payments c.payments p.payments q.payments;
  events = q.events ∙ p.events;
  promos = q.promos ∙ p.promos;
}

-- Only the sessions change, and tamely.
pub Quiet-sessions :
    (b b' : Bot)
    → Tame b.sessions b'.sessions
    → b'.payments ≡ b.payments
    → b'.events ≡ b.events
    → b'.promos ≡ b.promos
    → Quiet b b'
unfolding run
Quiet-sessions b b' s p e q = record { sessions = s; payments = ([], p); events = e; promos = q }

pub Quiet-same : (b : Bot) → Quiet b b
Quiet-same b = Quiet-sessions b b (Tame-same b.sessions) refl refl refl

pub Quiet-if {ℓ} :
    {A : Type ℓ} (c : Bool) (b : Bot) (x y : Bot × A)
    → Quiet b x.0
    → Quiet b y.0
    → Quiet b (if c then x else y).0
Quiet-if true b x y p q = p
Quiet-if false b x y p q = q

pub Quiet-option {ℓ κ} :
    {A : Type ℓ} {X : Type κ} (o : Option X) (b : Bot) (x : Bot × A) (f : X → Bot × A)
    → Quiet b x.0
    → ((a : X) → o ≡ some a → Quiet b (f a).0)
    → Quiet b (elim o as (λ y. Bot × A) [ none ↦ x | some a ↦ f a ]).0
Quiet-option none b x f p q = p
Quiet-option (some a) b x f p q = q a refl
