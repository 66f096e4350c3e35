-- ===== src/Store/InlineSessions/Refine.antt =====
-- The guarded methods of inline_sessions do to the table what the state machine does to one row.
use mathlib.Core.Path.{subst}
use inst_video_downloader_tg.Base.{
  ℕ, ◌≡◌, refl, Bool, true, false, not, ◌&&◌, ◌||◌, Option, none, some, List, String, arith, leb,
  nat_eq, is_none, if◌then◌else◌, inl, inr, Bool-cases, Option-cases, eq_iff,
}
use inst_video_downloader_tg.Sql.Keys.{at, has, Unique}
use inst_video_downloader_tg.Sql.{update, row_count}
use inst_video_downloader_tg.Sql.Refinement.{
  Implements, Implements-return, Implements-update, Implements-done, Implements-refused, guarded,
}
use inst_video_downloader_tg.Store.InlineSessions.{
  InlineSession, SessionStatus, Outcome, claimed, expired, unauthorized, duplicate,
  message_mismatch, terminal, not_retryable, unsafe, session_pk, is_created, is_delivering,
  is_failed, is_text, truthy, claimable, retryable, cancellable, before_edit, start_attempt,
  bind_attempt, cancel_row, claim_inline_delivery, claim_inline_retry, cancel_inline_delivery,
  advance_inline_delivery_stage, finish_inline_delivery, returned, is_stage, is_final, Failure,
  finish_row,
}
use inst_video_downloader_tg.Store.InlineSessions.Machine.{
  claim_spec, retry_spec, cancel_spec, claim_refusal, retry_refusal, cancel_refusal, advance_spec,
  finish_spec,
}

module _ (now : ℕ) (token : String) (user : ℕ) (message : String) (t : List InlineSession) where
  claim-Implements_found :
      (r : InlineSession)
      → at session_pk t token ≡ some r
      → Unique session_pk t
      → Implements session_pk t token
          (claim_inline_delivery now token user message t)
          (claim_spec now user message (some r))
  unfolding claim_inline_delivery claim_spec claim_refusal
  claim-Implements_found r e u =
      rw (e, claim_inline_delivery)
        (elim (Bool-cases (nat_eq r.user_id user)) [
          | inr n ↦ rw n (Implements-return session_pk t token unauthorized e u)
          | inl y ↦ rw y (elim (Bool-cases (leb r.expires_at now)) [
            | inl late ↦ rw late (Implements-return session_pk t token expired e u)
            | inr soon ↦
                rw soon
                  (elim (Bool-cases (not (is_created r.status) || truthy r.inline_message_id)) [
                    | inl bound ↦
                        let shut : (is_created r.status && is_none r.inline_message_id) ≡ false =
                          ground (arith, bound) in
                        rw (bound, shut) (Implements-return session_pk t token duplicate e u)
                    | inr free ↦
                        rw free
                          (elim (Bool-cases (is_created r.status && is_none r.inline_message_id)) [
                            | inl c ↦ rw c (
                                Implements-done session_pk t token (claimable user)
                                  (bind_attempt now message) claimed duplicate (λ x. refl) u e
                                  (ground (arith, y, c)))
                            | inr c ↦ rw c (
                                Implements-refused session_pk t token (claimable user)
                                  (bind_attempt now message) claimed duplicate (λ x. refl) u e
                                  (ground (arith, y, c)))
                          ])
                  ])
          ])
        ])

  claim-Implements_absent :
      at session_pk t token ≡ none
      → Unique session_pk t
      → Implements session_pk t token
          (claim_inline_delivery now token user message t)
          (claim_spec now user message none)
  unfolding claim_inline_delivery claim_spec
  claim-Implements_absent e u =
      rw (e, claim_inline_delivery) (Implements-return session_pk t token expired e u)

  -- claim_inline_delivery answers, and changes the table, as one guarded transition of the row of its
  -- token does; every other row stays, and the tokens stay unique.
  pub claim-Implements :
      Unique session_pk t
      → Implements session_pk t token
          (claim_inline_delivery now token user message t)
          (claim_spec now user message (at session_pk t token))
  claim-Implements u = elim (Option-cases (at session_pk t token)) [
    | inl e ↦ rw e (claim-Implements_absent e u)
    | inr (r, e) ↦ rw e (claim-Implements_found r e u)
  ]

  retry-Implements_absent :
      at session_pk t token ≡ none
      → Unique session_pk t
      → Implements session_pk t token
          (claim_inline_retry now token user message t)
          (retry_spec now user message none)
  unfolding claim_inline_retry retry_spec
  retry-Implements_absent e u =
      rw (e, claim_inline_retry) (Implements-return session_pk t token expired e u)

  retry-Implements_found :
      (r : InlineSession)
      → at session_pk t token ≡ some r
      → Unique session_pk t
      → Implements session_pk t token
          (claim_inline_retry now token user message t)
          (retry_spec now user message (some r))
  unfolding claim_inline_retry retry_spec retry_refusal
  retry-Implements_found r e u =
      rw (e, claim_inline_retry)
        (elim (Bool-cases (nat_eq r.user_id user)) [
          | inr n ↦ rw n (Implements-return session_pk t token unauthorized e u)
          | inl y ↦ rw y (elim (Bool-cases (is_text r.inline_message_id message)) [
            | inr other ↦ rw other (Implements-return session_pk t token message_mismatch e u)
            | inl same ↦ rw same (elim (Bool-cases (leb r.expires_at now)) [
              | inl late ↦ rw late (Implements-return session_pk t token expired e u)
              | inr soon ↦ rw soon (elim (Bool-cases (is_delivering r.status)) [
                | inl busy ↦
                    let shut : is_failed r.status ≡ false = ground (arith, busy) in
                    rw (busy, shut) (Implements-return session_pk t token duplicate e u)
                | inr idle ↦ rw idle (elim (Bool-cases (is_failed r.status)) [
                  | inr over ↦ rw over (Implements-return session_pk t token terminal e u)
                  | inl open_ ↦ rw open_ (elim (Bool-cases r.failure_retryable) [
                    | inr no_ ↦ simp no_ (Implements-return session_pk t token not_retryable e u)
                    | inl again ↦ simp again (
                        Implements-done session_pk t token (retryable user message)
                          (start_attempt now) claimed duplicate (λ x. refl) u e
                          (ground (arith, y, same, open_, again)))
                  ])
                ])
              ])
            ])
          ])
        ])

  -- claim_inline_retry answers, and changes the table, as one guarded transition of the row of its
  -- token does; every other row stays, and the tokens stay unique.
  pub retry-Implements :
      Unique session_pk t
      → Implements session_pk t token
          (claim_inline_retry now token user message t)
          (retry_spec now user message (at session_pk t token))
  retry-Implements u = elim (Option-cases (at session_pk t token)) [
    | inl e ↦ rw e (retry-Implements_absent e u)
    | inr (r, e) ↦ rw e (retry-Implements_found r e u)
  ]

  cancel-Implements_absent :
      at session_pk t token ≡ none
      → Unique session_pk t
      → Implements session_pk t token
          (cancel_inline_delivery now token user message t)
          (cancel_spec now user message none)
  unfolding cancel_inline_delivery cancel_spec
  cancel-Implements_absent e u =
      rw (e, cancel_inline_delivery) (Implements-return session_pk t token expired e u)

  -- A stage that is before the edit is not the edit.
  edit_shut : (s : Option String) → is_text s "inline_edit" ≡ true → before_edit s ≡ false
  edit_shut none h = refl
  edit_shut (some s) h = rw ((eq_iff s "inline_edit").0 h)

  cancel-Implements_found :
      (r : InlineSession)
      → at session_pk t token ≡ some r
      → Unique session_pk t
      → Implements session_pk t token
          (cancel_inline_delivery now token user message t)
          (cancel_spec now user message (some r))
  unfolding cancel_inline_delivery cancel_spec cancel_refusal
  cancel-Implements_found r e u =
      rw (e, cancel_inline_delivery)
        (elim (Bool-cases (nat_eq r.user_id user)) [
          | inr n ↦ rw n (Implements-return session_pk t token unauthorized e u)
          | inl y ↦ rw y (elim (Bool-cases (is_text r.inline_message_id message)) [
            | inr other ↦ rw other (Implements-return session_pk t token message_mismatch e u)
            | inl same ↦ rw same (elim (Bool-cases (is_delivering r.status)) [
              | inr idle ↦ rw idle (Implements-return session_pk t token terminal e u)
              | inl busy ↦ rw busy (elim (Bool-cases (is_text r.delivery_stage "inline_edit")) [
                | inl late ↦
                    rw (late, edit_shut r.delivery_stage late)
                      (Implements-return session_pk t token unsafe e u)
                | inr early ↦ rw early (elim (Bool-cases (before_edit r.delivery_stage)) [
                  | inl c ↦ rw c (
                      Implements-done session_pk t token (cancellable user message) (cancel_row now)
                        Outcome.cancelled unsafe (λ x. refl) u e (ground (arith, y, same, busy, c)))
                  | inr c ↦ rw c (
                      Implements-refused session_pk t token (cancellable user message)
                        (cancel_row now) Outcome.cancelled unsafe (λ x. refl) u e
                        (ground (arith, y, same, busy, c)))
                ])
              ])
            ])
          ])
        ])

  -- cancel_inline_delivery answers, and changes the table, as one guarded transition of the row of
  -- its token does; every other row stays, and the tokens stay unique.
  pub cancel-Implements :
      Unique session_pk t
      → Implements session_pk t token
          (cancel_inline_delivery now token user message t)
          (cancel_spec now user message (at session_pk t token))
  cancel-Implements u = elim (Option-cases (at session_pk t token)) [
    | inl e ↦ rw e (cancel-Implements_absent e u)
    | inr (r, e) ↦ rw e (cancel-Implements_found r e u)
  ]

module _ (now : ℕ) (token : String) (t : List InlineSession) where
  guarded-advance_spec :
      (stage : String) (o : Option InlineSession)
      → guarded
          (λ r. is_delivering r.status)
          (λ r. record r { delivery_stage = some stage; updated_at = now })
          true
          false
          o
        ≡ advance_spec now stage o
  unfolding advance_spec
  guarded-advance_spec stage none = refl
  guarded-advance_spec stage (some r) = refl

  -- advance_inline_delivery_stage accepts the four stages, and then sets the stage of a session that
  -- is being delivered, answers whether it did, and changes no other row.
  pub advance-Implements :
      (stage : String)
      → is_stage stage ≡ true
      → Unique session_pk t
      → (result : List InlineSession × Bool) × (advance_inline_delivery_stage now token stage t
          ≡ returned result)
        × Implements session_pk t token result (advance_spec now stage (at session_pk t token))
  unfolding advance_inline_delivery_stage
  advance-Implements stage known u =
      let f = λ (r : InlineSession). record r { delivery_stage = some stage; updated_at = now } in
      let c = λ (r : InlineSession). is_delivering r.status in
      let where_ = λ (r : InlineSession). has session_pk token r && c r in
      let result : List InlineSession × Bool =
        (update where_ f t, (if nat_eq (row_count where_ t) 1 then true else false)) in
      (
        result,
        rw known refl,
        subst (Implements session_pk t token result)
            (guarded-advance_spec stage (at session_pk t token))
            (Implements-update session_pk t token c f true false (λ x. refl) u),
      )

  guarded-finish_spec :
      (status : SessionStatus) (f : Failure) (o : Option InlineSession)
      → guarded (λ r. is_delivering r.status) (finish_row now status f) true false o
        ≡ finish_spec now status f o
  unfolding finish_spec
  guarded-finish_spec status f none = refl
  guarded-finish_spec status f (some r) = refl

  -- finish_inline_delivery accepts the three outcomes, with `retryable` for a failure alone, and then
  -- finalises a session that is being delivered, answers whether it did, and changes no other row.
  pub finish-Implements :
      (status : SessionStatus) (f : Failure)
      → is_final status ≡ true
      → (not (is_failed status) && f.retryable) ≡ false
      → Unique session_pk t
      → (result : List InlineSession × Bool) × (finish_inline_delivery now token status f t
          ≡ returned result)
        × Implements session_pk t token result (finish_spec now status f (at session_pk t token))
  unfolding finish_inline_delivery
  finish-Implements status f known safe u =
      let c = λ (r : InlineSession). is_delivering r.status in
      let where_ = λ (r : InlineSession). has session_pk token r && c r in
      let result : List InlineSession × Bool = (
        update where_ (finish_row now status f) t,
        (if nat_eq (row_count where_ t) 1 then true else false),
      ) in
      (
        result,
        rw (known, safe) refl,
        subst (Implements session_pk t token result)
            (guarded-finish_spec status f (at session_pk t token))
            (Implements-update session_pk t token c (finish_row now status f) true false (λ x. refl)
              u),
      )
