-- ===== src/Store/InlineSessions/Trace/Counts.antt =====
-- How often the calls for one token begin an attempt.
use inst_video_downloader_tg.Base.{
  ℕ, ◌+◌, ◌≤◌, ◌≡◌, refl, Bool, true, false, ◌&&◌, Option, none, some, List, [], ◌∷◌, String, arith,
  if◌then◌else◌, inl, inr, Bool-cases, ◌==◌, eq_iff,
}
use inst_video_downloader_tg.Sql.Keys.{at, Unique}
use inst_video_downloader_tg.Store.InlineSessions.{InlineSession, session_pk, is_created}
use inst_video_downloader_tg.Store.InlineSessions.Machine.{
  Call, claim, claim_spec, retry_spec, cancel_spec, advance_spec, finish_spec, claim_refusal,
  retry_refusal,
}
use inst_video_downloader_tg.Store.InlineSessions.Trace.{
  perform, run, attempts, row_step, perform-Implements,
}

abbrev pub tries : Option InlineSession → ℕ
tries none = 0
tries (some r) = r.attempt_count

tries-row_step :
    (c : Call) (o : Option InlineSession)
    → tries (row_step c o).0 ≡ tries o + (if (row_step c o).1 then 1 else 0)
unfolding row_step claim_spec retry_spec cancel_spec advance_spec finish_spec claim_refusal
    retry_refusal
tries-row_step (claim now user message) none = refl
tries-row_step c none = ground arith
tries-row_step c (some r) = ground arith

-- The attempt_count of a session grows by exactly the number of claims and retries that succeeded.
pub tries-run :
    (k : String) (cs : List (String × Call)) (t : List InlineSession)
    → Unique session_pk t
    → tries (at session_pk (run cs t) k) ≡ tries (at session_pk t k) + attempts k cs t
unfolding run attempts
tries-run k [] t u = omega arith
tries-run k ((token, c) ∷ cs) t u =
    let i = perform-Implements token c t u in
    let ih = tries-run k cs (perform token c t).0 i.unique in
    elim (Bool-cases (token == k)) [
      | inl y ↦ ground (
        arith,
        y,
        (eq_iff token k).0 y,
        i.rows k,
        i.outcome,
        ih,
        tries-row_step c (at session_pk t token),
      )
      | inr n ↦ ground (arith, n, i.rows k, ih)
    ]

-- The claims (retries left out) that began an attempt for one token.
abbrev is_claim : Call → Bool
is_claim (claim _ _ _) = true
is_claim _ = false

pub first_claims : String → List (String × Call) → List InlineSession → ℕ
first_claims k [] t = 0
first_claims k ((token, c) ∷ cs) t =
    (if (token == k) && (is_claim c && (perform token c t).1) then 1 else 0)
    + first_claims k cs (perform token c t).0

-- Whether a session may still be claimed.
abbrev claims_left : Option InlineSession → ℕ
claims_left none = 0
claims_left (some r) = if is_created r.status then 1 else 0

claims_left-step :
    (c : Call) (o : Option InlineSession)
    → (if is_claim c && (row_step c o).1 then 1 else 0) + claims_left (row_step c o).0
      ≤ claims_left o
unfolding row_step claim_spec retry_spec cancel_spec advance_spec finish_spec claim_refusal
claims_left-step (claim now user message) none = ground arith
claims_left-step c none = ground arith
claims_left-step (claim now user message) (some r) = ground arith
claims_left-step c (some r) = ground arith

claims_left-run :
    (k : String) (cs : List (String × Call)) (t : List InlineSession)
    → Unique session_pk t
    → first_claims k cs t + claims_left (at session_pk (run cs t) k)
      ≤ claims_left (at session_pk t k)
unfolding run first_claims
claims_left-run k [] t u = omega arith
claims_left-run k ((token, c) ∷ cs) t u =
    let i = perform-Implements token c t u in
    let ih = claims_left-run k cs (perform token c t).0 i.unique in
    elim (Bool-cases (token == k)) [
      | inl y ↦ ground (
        arith,
        y,
        (eq_iff token k).0 y,
        i.rows k,
        i.outcome,
        ih,
        claims_left-step c (at session_pk t token),
      )
      | inr n ↦ ground (arith, n, i.rows k, ih)
    ]

-- However the calls interleave, claim_inline_delivery answers "claimed" for one token at most once.
pub first_claims-le-one :
    (k : String) (cs : List (String × Call)) (t : List InlineSession)
    → Unique session_pk t
    → first_claims k cs t ≤ 1
first_claims-le-one k cs t u = ground (arith, claims_left-run k cs t u)
