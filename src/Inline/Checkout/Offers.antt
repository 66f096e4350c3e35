-- ===== src/Inline/Checkout/Offers.antt =====
-- From a one-time payment to the delivery that it buys.
use inst_video_downloader_tg.Base.{
  ℕ, ◌≡◌, refl, sym, ap, ◌∙◌, true, false, Option, none, some, List, [], ◌∷◌, ◌++◌, String, ◌==◌,
  eq_refl, eq_iff, arith, is_none, leb, any, inl, inr,
}
use inst_video_downloader_tg.Base.Int.{pos, int_eq, int_eq_iff}
use mathlib.Core.Path.{subst}
use inst_video_downloader_tg.Sql.{insert}
use inst_video_downloader_tg.Sql.Keys.{at, has, Unique, inserted}
use inst_video_downloader_tg.Sql.Laws.{any-fetch_one, All-fetch_one}
use inst_video_downloader_tg.Store.InlineSessions.{InlineSession, get_inline_session}
use inst_video_downloader_tg.Store.Payments.{
  Payment, paid, payment_pk, available, get_available_inline_one_time_payment,
  get_inline_one_time_payment_by_charge_id, record_inline_one_time_payment,
}
use inst_video_downloader_tg.Store.Payments.Laws.{get_available_least}
use inst_video_downloader_tg.Store.Payments.Trace.{
  pay, release, perform, perform-effect, perform-Unique,
}
use inst_video_downloader_tg.Inline.Access.{
  Numbers, one_time, parse_inline_payment_payload, build_one_time_entitlement_result_id,
}
use inst_video_downloader_tg.Inline.Bot.{Config, Bot, Tick}
use inst_video_downloader_tg.Inline.Answers.{
  ParsedLink, delivery_option, paid_or_free_inline_access_kind_for_user,
  answer_inline_delivery_option, recovery_cutoff, release_stale, answer_without_access,
  inline_query_handler,
}
use inst_video_downloader_tg.Inline.Checkout.{
  SuccessfulPayment, recorded, session_is_open, take_one_time_payment, successful_payment_handler,
}

-- The row of a payment that was just made
abbrev bought : Tick → SuccessfulPayment → String → InlineSession → Payment
bought k p token s = record {
  payment_id = k.uuid;
  user_id = p.user_id;
  session_token = token;
  provider = some s.provider;
  normalized_url = some s.normalized_url;
  telegram_payment_charge_id = p.charge_id;
  total_amount = p.total_amount;
  status = paid;
  request_id = none;
  refund_reason = none;
  created_at = k.now;
  updated_at = k.now;
}

abbrev payment_of :
    Tick → SuccessfulPayment → String → InlineSession → List Payment → Option (List Payment)
payment_of k p token s t =
    record_inline_one_time_payment k.now k.uuid p.user_id token p.charge_id p.total_amount
      (some s.provider) (some s.normalized_url) t

-- A payment with a fresh id is a row of the table.
paid_row :
    (k : Tick) (p : SuccessfulPayment) (token : String) (s : InlineSession) (t : List Payment)
    → at payment_pk t k.uuid ≡ none
    → Unique payment_pk t
    → (t' : List Payment) × (payment_of k p token s t ≡ some t')
      × (at payment_pk t' k.uuid ≡ some (bought k p token s))
      × Unique payment_pk t'
unfolding perform record_inline_one_time_payment insert
paid_row k p token s t fresh u =
    let e =
      pay k.now k.uuid p.user_id token p.charge_id p.total_amount (some s.provider)
        (some s.normalized_url) in
    let t' = t ++ bought k p token s ∷ [] in
    let free : any (has payment_pk k.uuid) t ≡ false =
      any-fetch_one (has payment_pk k.uuid) t ∙ rw fresh refl in
    let q : payment_of k p token s t ≡ some t' = rw free refl in
    let same : perform e t ≡ t' = ap (inserted payment_pk t) q in
    (
      t',
      q,
      ap (λ x. at payment_pk x k.uuid) (sym same)
          ∙ perform-effect e k.uuid t
          ∙ rw (fresh, eq_refl k.uuid) refl,
      subst (Unique payment_pk) same (perform-Unique e t u),
    )

is_available :
    (k : Tick) (p : SuccessfulPayment) (token : String) (s : InlineSession) (link : ParsedLink)
    (sessions : List InlineSession)
    → link.provider ≡ s.provider
    → link.normalized_url ≡ s.normalized_url
    → available sessions p.user_id link.provider link.normalized_url (bought k p token s) ≡ true
is_available k p token s link sessions e f =
    rw (e, f) (rw (eq_refl s.provider, eq_refl s.normalized_url) (ground arith))

-- The release of stale claims leaves a payment that nothing has claimed.
kept_row :
    (c : Config) (k : Tick) (b : Bot) (id : String) {row : Payment}
    → at payment_pk b.payments id ≡ some row
    → row.request_id ≡ none
    → at payment_pk (release_stale c k b).payments id ≡ some row
unfolding perform
kept_row c k b id {row} e none_ =
    perform-effect (release k.now (recovery_cutoff c k.now) b.sessions) id b.payments
    ∙ rw e (rw none_ (ground arith))

-- A row that is available is found, or an older one.
finds_available :
    (sessions : List InlineSession) (user : ℕ) (provider url id : String) (t : List Payment)
    {row : Payment}
    → Unique payment_pk t
    → at payment_pk t id ≡ some row
    → available sessions user provider url row ≡ true
    → is_none (get_available_inline_one_time_payment sessions user provider url t) ≡ false
finds_available sessions user provider url id t {row} u e a =
    elim (get_available_least sessions user provider url t u) [
      | inl (p, found, _, _, _) ↦ rw found refl
      | inr (_, never) ↦
          let no_ =
            All-fetch_one (λ q. available sessions user provider url q ≡ false) (has payment_pk id)
              t never e in
          absurd (ground (arith, no_, a))
    ]

took :
    (k : Tick) (p : SuccessfulPayment) (token : String) (b : Bot) (t : List Payment)
    {s : InlineSession}
    → get_inline_one_time_payment_by_charge_id p.charge_id b.payments ≡ none
    → get_inline_session token (some p.user_id) b.sessions ≡ some s
    → payment_of k p token s b.payments ≡ some t
    → leb s.expires_at k.now ≡ false
    → take_one_time_payment k p token b ≡ (record b { payments = t }, recorded)
unfolding take_one_time_payment
took k p token b t new found made open_ =
    rw (take_one_time_payment, new)
      (rw found (rw made (rw (session_is_open, found) (rw open_ refl))))

handled_one_time :
    (n : Numbers) (c : Config) (k : Tick) (p : SuccessfulPayment) (token : String) (b : Bot)
    → parse_inline_payment_payload n p.invoice_payload
      ≡ some (record { kind = one_time; user_id = pos p.user_id; session_token = token })
    → p.currency ≡ "XTR"
    → successful_payment_handler n c k p b ≡ take_one_time_payment k p token b
unfolding successful_payment_handler
handled_one_time n c k p token b parsed xtr =
    let own : int_eq (pos p.user_id) (pos p.user_id) ≡ true =
      (int_eq_iff (pos p.user_id) (pos p.user_id)).1 refl in
    let stars : (p.currency == "XTR") ≡ true = (eq_iff p.currency "XTR").1 xtr in
    rw (successful_payment_handler, parsed) (rw (own, stars) refl)

offered :
    (c : Config) (k : Tick) (token : String) (user : ℕ) (link : ParsedLink) (b : Bot)
    → c.inline_mode_enabled ≡ true
    → is_none c.inline_storage_chat_id ≡ false
    → paid_or_free_inline_access_kind_for_user c k user b ≡ none
    → is_none (
        get_available_inline_one_time_payment b.sessions user link.provider link.normalized_url
          (release_stale c k b).payments)
      ≡ false
    → (inline_query_handler c k token user (some link) b).1
      ≡ delivery_option (build_one_time_entitlement_result_id token)
unfolding inline_query_handler answer_inline_delivery_option
offered c k token user link b on storage access offer =
    rw (inline_query_handler, on, storage) (rw access (rw (answer_without_access, offer) refl))

-- What is paid for is offered: after a one-time payment for a session that is open, with a fresh charge and
-- payment id, the payment is recorded, and the next query of the user for the same media, if the user has no other
-- access then, is answered with a delivery that spends a one-time payment.
pub paid_then_offered :
    (n : Numbers) (c : Config) (k later : Tick) (p : SuccessfulPayment) (token next_token : String)
    (link : ParsedLink) (b : Bot) {s : InlineSession}
    → parse_inline_payment_payload n p.invoice_payload
      ≡ some (record { kind = one_time; user_id = pos p.user_id; session_token = token })
    → p.currency ≡ "XTR"
    → get_inline_one_time_payment_by_charge_id p.charge_id b.payments ≡ none
    → at payment_pk b.payments k.uuid ≡ none
    → Unique payment_pk b.payments
    → get_inline_session token (some p.user_id) b.sessions ≡ some s
    → leb s.expires_at k.now ≡ false
    → link.provider ≡ s.provider
    → link.normalized_url ≡ s.normalized_url
    → c.inline_mode_enabled ≡ true
    → is_none c.inline_storage_chat_id ≡ false
    → paid_or_free_inline_access_kind_for_user c later p.user_id b ≡ none
    → let result = successful_payment_handler n c k p b in
      (result.1 ≡ recorded)
      × ((inline_query_handler c later next_token p.user_id (some link) result.0).1
          ≡ delivery_option (build_one_time_entitlement_result_id next_token))
paid_then_offered n c k later p token next_token link b {s} parsed xtr new fresh u found open_
      same_provider same_url on storage access =
    let (t, made, row, u') = paid_row k p token s b.payments fresh u in
    let b' : Bot = record b { payments = t } in
    let no_access : paid_or_free_inline_access_kind_for_user c later p.user_id b' ≡ none =
      unfold paid_or_free_inline_access_kind_for_user in access in
    let handled =
      handled_one_time n c k p token b parsed xtr ∙ took k p token b t new found made open_ in
    let released = release_stale c later b' in
    let offer =
      finds_available b'.sessions p.user_id link.provider link.normalized_url k.uuid
        released.payments
        (unfold perform in
          perform-Unique (release later.now (recovery_cutoff c later.now) b.sessions) t u')
        (kept_row c later b' k.uuid row refl)
        (is_available k p token s link b'.sessions same_provider same_url) in
    (
      ap (λ x. x.1) handled,
      ap (λ x. (inline_query_handler c later next_token p.user_id (some link) x.0).1) handled
          ∙ offered c later next_token p.user_id link b' on storage no_access offer,
    )
