-- ===== src/Store/Payments/Laws.antt =====
-- Which payment a session takes, and what the claim leaves.
use inst_video_downloader_tg.Base.{
  ℕ, ◌≤◌, ◌≡◌, ◌⊎◌, refl, true, false, not, ◌&&◌, ◌||◌, none, some, List, String, arith, leb, All,
  All-map, or_leb, if◌then◌else◌, inl, inr, Option-cases, ◌==◌,
}
use inst_video_downloader_tg.Base.Order.{drop_chars-inline}
use inst_video_downloader_tg.Sql.{select, first_by}
use inst_video_downloader_tg.Sql.Laws.{fetch_one-update}
use inst_video_downloader_tg.Sql.Keys.{at, has, Unique}
use inst_video_downloader_tg.Sql.Refinement.{Implements, Implements-update, guarded}
use inst_video_downloader_tg.Sql.Order.{
  All-select, All-first_by, first_by-none, first_by-select_least, at_own,
}
use inst_video_downloader_tg.Store.InlineSessions.{InlineSession, session_pk, get_inline_session}
use inst_video_downloader_tg.Store.Payments.{
  Payment, payment_pk, is_paid, available, unclaimed, claim_row, holds, protected, stale,
  release_row, inline_request, get_available_inline_one_time_payment, claim_inline_one_time_payment,
  release_stale_inline_one_time_claims, claim_one_time_payment_for_session,
}

available_least :
    (sessions : List InlineSession) (user : ℕ) (provider url : String) (t : List Payment)
    → Unique payment_pk t
    → ((p : Payment) × (get_available_inline_one_time_payment sessions user provider url t ≡ some p)
        × (at payment_pk t p.payment_id ≡ some p)
        × (available sessions user provider url p ≡ true)
        × All (λ q. available sessions user provider url q ≡ true → p.created_at ≤ q.created_at) t)
      ⊎ ((get_available_inline_one_time_payment sessions user provider url t ≡ none)
          × All (λ q. available sessions user provider url q ≡ false) t)
unfolding get_available_inline_one_time_payment
available_least sessions user provider url t u =
    let c = available sessions user provider url in
    let age = λ (p : Payment). p.created_at in
    elim (Option-cases (first_by age (select c t))) [
      | inl e ↦ inr (e, first_by-none age c t e)
      | inr (p, e) ↦
          let own =
            All-first_by (λ q. (at payment_pk t q.payment_id ≡ some q) × (c q ≡ true)) age
              (select c t)
              (All-select (λ q. at payment_pk t q.payment_id ≡ some q) c t (at_own payment_pk t u))
              e in
          inl (p, e, own.0, own.1, first_by-select_least age c t e)
    ]

module _ (now : ℕ) (id request : String) (t : List Payment) where
  -- claim_inline_one_time_payment answers whether the payment was paid and unclaimed, binds it then to
  -- the request, and changes no other payment.
  pub claim_payment-Implements :
      Unique payment_pk t
      → Implements payment_pk t id
          (claim_inline_one_time_payment now id request t)
          (guarded unclaimed (claim_row now request) true false (at payment_pk t id))
  unfolding claim_inline_one_time_payment
  claim_payment-Implements u =
      Implements-update payment_pk t id unclaimed (claim_row now request) true false (λ x. refl) u

available-unclaimed :
    (sessions : List InlineSession) (user : ℕ) (provider url : String) (p : Payment)
    → available sessions user provider url p ≡ true
    → unclaimed p ≡ true
available-unclaimed sessions user provider url p h = ground arith

-- The payment that get_available_inline_one_time_payment answers is a row of the table that is paid,
-- unclaimed, the user's and for this media, and the oldest such; `none` means that there is no such row.
pub get_available_least :
    (sessions : List InlineSession) (user : ℕ) (provider url : String) (t : List Payment)
    → Unique payment_pk t
    → ((p : Payment) × (get_available_inline_one_time_payment sessions user provider url t ≡ some p)
        × (at payment_pk t p.payment_id ≡ some p)
        × (available sessions user provider url p ≡ true)
        × All
            (λ q.
              (not (available sessions user provider url q) || leb p.created_at q.created_at)
              ≡ true)
            t)
      ⊎ ((get_available_inline_one_time_payment sessions user provider url t ≡ none)
          × All (λ q. available sessions user provider url q ≡ false) t)
get_available_least sessions user provider url t u =
    elim (available_least sessions user provider url t u) [
      | inl (p, e, own, ok_, least) ↦ inl (
        p,
        e,
        own,
        ok_,
        All-map t (λ q. or_leb (available sessions user provider url q) p.created_at q.created_at)
            least,
      )
      | inr e ↦ inr e
    ]

-- What a session takes: if the table has a payment that is available to the session's user and media, the claim
-- succeeds, the oldest such payment is bound to the request of the session, and no other payment changes; if it has
-- none, nothing changes.
pub session_takes :
    (now : ℕ) (token : String) (user : ℕ) (sessions : List InlineSession) (t : List Payment)
    (j : String) {s : InlineSession}
    → Unique payment_pk t
    → get_inline_session token (some user) sessions ≡ some s
    → let result = claim_one_time_payment_for_session now token user sessions t in
      let choice =
        get_available_inline_one_time_payment sessions user s.provider s.normalized_url t in
      ((p : Payment) × (choice ≡ some p)
        × (at payment_pk t p.payment_id ≡ some p)
        × (available sessions user s.provider s.normalized_url p ≡ true)
        × All
            (λ q.
              (not (available sessions user s.provider s.normalized_url q)
                || leb p.created_at q.created_at)
              ≡ true)
            t
        × (result.1 ≡ some p.payment_id)
        × (at payment_pk result.0 j ≡ (
            if p.payment_id == j
            then some (claim_row now (inline_request token) p)
            else at payment_pk t j)))
      ⊎ ((choice ≡ none)
          × All (λ q. available sessions user s.provider s.normalized_url q ≡ false) t
          × (result ≡ (t, none)))
unfolding claim_one_time_payment_for_session
session_takes now token user sessions t j {s} u found =
    elim (get_available_least sessions user s.provider s.normalized_url t u) [
      | inr (e, none_) ↦ inr (e, none_, ground (arith, found, e))
      | inl (p, e, own, ok_, least) ↦
          let i = claim_payment-Implements now p.payment_id (inline_request token) t u in
          let c = available-unclaimed sessions user s.provider s.normalized_url p ok_ in
          inl (
            p,
            e,
            own,
            ok_,
            least,
            ground (arith, found, e, i.outcome, own, c),
            ground (arith, found, e, i.rows j, own, c),
          )
    ]

-- A payment that is bound to the request of a session is released by release_stale exactly if it is
-- still paid, was claimed by the cutoff, and its session neither has been delivering since after the
-- cutoff nor ended with an unknown outcome; otherwise its row stays. So the claim of a failed session that may be
-- retried is released, and that of a session which was last updated by the cutoff and is still delivering.
pub release_exact :
    (now cutoff : ℕ) (sessions : List InlineSession) (t : List Payment) (id token : String)
    {p : Payment}
    → at payment_pk t id ≡ some p
    → p.request_id ≡ some (inline_request token)
    → at payment_pk (release_stale_inline_one_time_claims now cutoff sessions t).0 id ≡ (
        if is_paid p.status
          && (leb p.updated_at cutoff && not (holds cutoff (at session_pk sessions token)))
        then some (release_row now p)
        else some p)
unfolding release_stale_inline_one_time_claims protected
release_exact now cutoff sessions t id token {p} e bound =
    rw
      (
        fetch_one-update (has payment_pk id) (stale cutoff sessions) (release_row now) t
            (λ r. refl),
        e,
        bound,
        drop_chars-inline token,
      )
      (ground arith)
