-- ===== src/Store/InlineSessions/Tests.antt =====
-- The session machine on concrete sessions.
use inst_video_downloader_tg.Base.{
  ◌+◌, ◌≤◌, ◌≡◌, refl, true, false, none, some, List, [], ◌∷◌, String,
}
use inst_video_downloader_tg.Sql.{fetch_one, update, row_count}
use inst_video_downloader_tg.Sql.Keys.{at}
use inst_video_downloader_tg.Sql.Refinement.{Implements}
use inst_video_downloader_tg.Store.InlineSessions.{
  InlineSession, created, delivering, delivered, failed, session_pk, Failure, cancel_row,
  claim_inline_delivery, cancel_inline_delivery,
}
use inst_video_downloader_tg.Store.InlineSessions.{
  claimed, expired, unauthorized, duplicate, create_inline_session,
}
use inst_video_downloader_tg.Store.InlineSessions.Fresh.{bound, create_claim}
use inst_video_downloader_tg.Base.{leb, nat_eq, is_none, if◌then◌else◌}
use inst_video_downloader_tg.Store.InlineSessions.Machine.{
  Call, claim, cancel, finish, claim_spec, may_cancel,
}
use inst_video_downloader_tg.Store.InlineSessions.Refine.{claim-Implements}
use inst_video_downloader_tg.Store.InlineSessions.Trace.{
  run, attempts, Sound, run-has_ended, run-Sound, cancel_final,
}
use inst_video_downloader_tg.Store.InlineSessions.Trace.Counts.{
  tries, tries-run, first_claims, first_claims-le-one,
}

abbrev fresh : InlineSession
fresh = record {
  session_token = "s1";
  user_id = 7;
  original_url = "https://x.com/u/status/1";
  normalized_url = "https://x.com/u/status/1";
  provider = "twitter";
  provider_label = "X";
  access_kind = "free";
  inline_message_id = none;
  status = created;
  delivery_stage = none;
  failure_class = none;
  failure_stage = none;
  error_class = none;
  failure_retryable = false;
  attempt_count = 0;
  created_at = 1;
  expires_at = 100;
  updated_at = 1;
}

abbrev sending : InlineSession
sending = record fresh {
  inline_message_id = some "m1";
  status = delivering;
  delivery_stage = some "download";
  attempt_count = 1;
}

abbrev done : InlineSession
done = record sending { status = delivered }

abbrev broken : InlineSession
broken = record sending { status = failed; failure_retryable = true }

abbrev no_failure : Failure
no_failure = record {
  failure_class = none;
  failure_stage = none;
  error_class = none;
  retryable = false;
}

abbrev calls : List (String × Call)
calls =
    ("s1", claim 10 7 "m1")
    ∷ ("s1", claim 11 7 "m2")
    ∷ ("s1", finish 12 delivered no_failure)
    ∷ ("s1", cancel 13 7 "m1")
    ∷ []

claim-Implements_example :
    Implements session_pk
      (fresh ∷ [])
      "s1"
      (claim_inline_delivery 10 "s1" 7 "m1" (fresh ∷ []))
      (claim_spec 10 7 "m1" (at session_pk (fresh ∷ []) "s1"))
claim-Implements_example = claim-Implements 10 "s1" 7 "m1" (fresh ∷ []) (tt, tt)

run-has_ended_example : at session_pk (run calls (done ∷ [])) "s1" ≡ some done
unfolding fetch_one
run-has_ended_example = run-has_ended "s1" calls (done ∷ []) {r = done} (tt, tt) refl refl

tries-run_example :
    tries (at session_pk (run calls (fresh ∷ [])) "s1")
    ≡ tries (at session_pk (fresh ∷ []) "s1") + attempts "s1" calls (fresh ∷ [])
tries-run_example = tries-run "s1" calls (fresh ∷ []) (tt, tt)

run-Sound_example : Sound (at session_pk (run calls (fresh ∷ [])) "s1")
unfolding fetch_one
run-Sound_example = run-Sound "s1" calls (fresh ∷ []) (tt, tt) refl

first_claims-le-one_example : first_claims "s1" calls (fresh ∷ []) ≤ 1
first_claims-le-one_example = first_claims-le-one "s1" calls (fresh ∷ []) (tt, tt)

cancel_final_example :
    (r : InlineSession) × (at session_pk (sending ∷ []) "s1" ≡ some r)
    × (may_cancel 7 "m1" r ≡ true)
    × (at session_pk (run calls (cancel_inline_delivery 10 "s1" 7 "m1" (sending ∷ [])).0) "s1"
        ≡ some (cancel_row 10 r))
unfolding cancel_inline_delivery fetch_one row_count update
cancel_final_example = cancel_final 10 "s1" 7 "m1" calls (sending ∷ []) (tt, tt) refl

create_claim_example :
    (claim_inline_delivery 10 "s1" 7 "m9"
      (create_inline_session 5 "s1" 7 "u" "u" "twitter" "X" 90 "free" (sending ∷ []))).1
    ≡ (if nat_eq 7 7
        then (if leb 90 10
            then expired
            else if is_none (bound (at session_pk (sending ∷ []) "s1"))
            then claimed
            else duplicate)
        else unauthorized)
create_claim_example =
    create_claim 5 10 "s1" 7 7 "u" "u" "twitter" "X" 90 "free" "m9" (sending ∷ []) (tt, tt)
