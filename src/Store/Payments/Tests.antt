-- ===== src/Store/Payments/Tests.antt =====
-- One-time payments on concrete tables.
use inst_video_downloader_tg.Base.{
  ◌+◌, ◌≤◌, ◌≡◌, ◌⊎◌, refl, false, not, ◌&&◌, none, some, List, [], ◌∷◌, ◌==◌, leb, true, ◌||◌, All,
  if◌then◌else◌,
}
use inst_video_downloader_tg.Sql.{fetch_one}
use inst_video_downloader_tg.Sql.Keys.{at}
use inst_video_downloader_tg.Store.InlineSessions.{
  InlineSession, delivering, session_pk, get_inline_session,
}
use inst_video_downloader_tg.Store.Payments.{
  Payment, paid, delivered, payment_pk, available, is_paid, claim_row, holds, release_row,
  inline_request, get_available_inline_one_time_payment, release_stale_inline_one_time_claims,
  claim_one_time_payment_for_session,
}
use inst_video_downloader_tg.Store.Payments.Laws.{session_takes, release_exact}
use inst_video_downloader_tg.Store.Payments.Trace.{
  Event, claim, release, deliver, claim_count, release_count, claim_count-le,
}

abbrev session : InlineSession
session = record {
  session_token = "s1";
  user_id = 7;
  original_url = "https://x.com/u/status/1";
  normalized_url = "https://x.com/u/status/1";
  provider = "twitter";
  provider_label = "X";
  access_kind = "one_time";
  inline_message_id = some "m1";
  status = delivering;
  delivery_stage = some "download";
  failure_class = none;
  failure_stage = none;
  error_class = none;
  failure_retryable = false;
  attempt_count = 1;
  created_at = 1;
  expires_at = 100;
  updated_at = 1;
}

abbrev unused : Payment
unused = record {
  payment_id = "p1";
  user_id = 7;
  session_token = "s1";
  provider = some "twitter";
  normalized_url = some "https://x.com/u/status/1";
  telegram_payment_charge_id = "c1";
  total_amount = 5;
  status = paid;
  request_id = none;
  refund_reason = none;
  created_at = 1;
  updated_at = 1;
}

abbrev taken : Payment
taken = record unused { request_id = some (inline_request "s1") }

abbrev spent : Payment
spent = record unused { status = delivered }

abbrev events : List Event
events =
    claim 10 "p1" "inline:s1"
    ∷ claim 11 "p1" "inline:s2"
    ∷ release 400 300 []
    ∷ deliver 12 "p1" "inline:s1"
    ∷ []

session_takes_example :
    let result = claim_one_time_payment_for_session 10 "s1" 7 (session ∷ []) (unused ∷ []) in
    let choice =
      get_available_inline_one_time_payment
        (session ∷ [])
        7
        "twitter"
        "https://x.com/u/status/1"
        (unused ∷ []) in
    ((p : Payment) × (choice ≡ some p)
      × (at payment_pk (unused ∷ []) p.payment_id ≡ some p)
      × (available (session ∷ []) 7 "twitter" "https://x.com/u/status/1" p ≡ true)
      × All
          (λ q.
            (not (available (session ∷ []) 7 "twitter" "https://x.com/u/status/1" q)
              || leb p.created_at q.created_at)
            ≡ true)
          (unused ∷ [])
      × (result.1 ≡ some p.payment_id)
      × (at payment_pk result.0 "p2" ≡ (
          if p.payment_id == "p2"
          then some (claim_row 10 (inline_request "s1") p)
          else at payment_pk (unused ∷ []) "p2")))
    ⊎ ((choice ≡ none)
        × All
            (λ q. available (session ∷ []) 7 "twitter" "https://x.com/u/status/1" q ≡ false)
            (unused ∷ [])
        × (result ≡ (unused ∷ [], none)))
unfolding get_inline_session fetch_one
session_takes_example =
    session_takes 10 "s1" 7 (session ∷ []) (unused ∷ []) "p2" {s = session} (tt, tt) refl

release_exact_example :
    at payment_pk (release_stale_inline_one_time_claims 400 300 (session ∷ []) (taken ∷ [])).0 "p1"
    ≡ (if is_paid paid && (leb 1 300 && not (holds 300 (at session_pk (session ∷ []) "s1")))
        then some (release_row 400 taken)
        else some taken)
unfolding fetch_one
release_exact_example =
    release_exact 400 300 (session ∷ []) (taken ∷ []) "p1" "s1" {p = taken} refl refl

claim_count-le_example :
    claim_count "p1" events (unused ∷ []) ≤ release_count "p1" events (unused ∷ []) + 1
claim_count-le_example = claim_count-le events "p1" (unused ∷ []) (tt, tt)
