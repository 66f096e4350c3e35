-- ===== src/Store/InlineSessions/Fresh.antt =====
-- A session from its creation to its first claim.
use inst_video_downloader_tg.Base.{
  ℕ, ◌≡◌, refl, ◌∙◌, Option, none, some, List, String, arith, leb, nat_eq, is_none, if◌then◌else◌,
  inl, inr, Option-cases, eq_refl,
}
use inst_video_downloader_tg.Sql.Keys.{at, Unique, at-upsert, Unique-upsert}
use inst_video_downloader_tg.Store.InlineSessions.{
  InlineSession, claimed, duplicate, expired, unauthorized, session_pk, new_session,
  create_inline_session, claim_inline_delivery,
}
use inst_video_downloader_tg.Store.InlineSessions.Machine.{claim_spec, claim_refusal}
use inst_video_downloader_tg.Store.InlineSessions.Refine.{claim-Implements}

-- The message that the row of a token is bound to, if any
abbrev pub bound : Option InlineSession → Option String
bound none = none
bound (some r) = r.inline_message_id

-- A created session can be claimed by its user alone and before its expiry, with any message: a claim by
-- another user is unauthorized, one at the expiry or later is expired, and one of a session that was
-- created anew over a row bound to a message is a duplicate, as that message stays.
pub create_claim :
    (now later : ℕ) (token : String) (user claimer : ℕ) (url normalized provider label : String)
    (expiry : ℕ) (access message : String) (t : List InlineSession)
    → Unique session_pk t
    → (claim_inline_delivery later token claimer message
        (create_inline_session now token user url normalized provider label expiry access t)).1
      ≡ (if nat_eq user claimer
          then (if leb expiry later
              then expired
              else if is_none (bound (at session_pk t token))
              then claimed
              else duplicate)
          else unauthorized)
unfolding create_inline_session
create_claim now later token user claimer url normalized provider label expiry access message t u =
    let new = new_session now token user url normalized provider label expiry access in
    let again : InlineSession → InlineSession = λ r. record new {
      session_token = r.session_token;
      inline_message_id = r.inline_message_id;
      created_at = r.created_at;
    } in
    let row = at-upsert session_pk token token new again t (λ r. refl) refl in
    let made = create_inline_session now token user url normalized provider label expiry access t in
    let i =
      claim-Implements later token claimer message made
        (Unique-upsert session_pk token new again t (λ r. refl) refl u) in
    elim (Option-cases (at session_pk t token)) [
      | inl e ↦
          let here : at session_pk made token ≡ some new = row ∙ rw (e, eq_refl token) refl in
          i.outcome ∙ rw (here, e) (unfold claim_spec claim_refusal in ground arith)
      | inr (r, e) ↦
          let here : at session_pk made token ≡ some (again r) = row ∙ rw (e, eq_refl token) refl in
          i.outcome ∙ rw (here, e) (unfold claim_spec claim_refusal in ground arith)
    ]
