-- ===== src/Inline/Access/Payloads.antt =====
-- What is built is parsed: invoice payloads and result ids.
use Prim.Native.String.{◌++◌ as append}
use text.Mathlib.TextLemmas.{append-nil}
use inst_video_downloader_tg.Base.{ℕ, ◌≡◌, refl, ap, ◌∙◌, true, false, some, [], ◌∷◌, String}
use inst_video_downloader_tg.Base.Int.{pos}
use inst_video_downloader_tg.Base.Order.{drop_chars-append}
use inst_video_downloader_tg.Base.Prefix.{has_prefix-append, has_prefix-clash}
use inst_video_downloader_tg.Base.Split.{
  split_colon, split_colon-append, split_colon-cons, split_colon-colon, split_colon-no_colon,
  no_colon, strip, is_blank,
}
use inst_video_downloader_tg.Inline.Access.{
  Numbers, PaymentKind, subscription, one_time, subscription_prefix, one_time_prefix, build_payload,
  build_subscription_payload, build_one_time_payload, parse_parts, parse_split,
  parse_inline_payment_payload, kind_of, once, free, build_inline_result_id,
  build_one_time_entitlement_result_id, parse_inline_result_id, parse_chosen_inline_session_token,
}

-- int reads back what str writes, which has no colon.
pub record ReadsBack (x : Numbers) : Type 0 where
  pub number : (n : ℕ) → x.int (x.str n) ≡ some (pos n)
  pub digits : (n : ℕ) → no_colon (x.str n) ≡ true

-- A session token as secrets.token_urlsafe makes them: not blank, without colons or spaces around it
pub record IsToken (token : String) : Type 0 where
  pub colon_free : no_colon token ≡ true
  pub stripped : strip token ≡ token
  pub filled : is_blank token ≡ false

split_payload :
    (x : Numbers) (prefix p0 p1 token : String) (user : ℕ)
    → ReadsBack x
    → IsToken token
    → split_colon prefix ≡ p0 ∷ p1 ∷ []
    → split_colon (build_payload x prefix user token) ≡ p0 ∷ p1 ∷ x.str user ∷ token ∷ []
split_payload x prefix p0 p1 token user h t e =
    rw
      (
        split_colon-append prefix (append ":" (append (x.str user) (append ":" token))),
        e,
        split_colon-colon (append (x.str user) (append ":" token)),
        split_colon-cons (x.str user) token (h.digits user),
        split_colon-no_colon token t.colon_free,
        append-nil p1,
      )
      refl

parse_parts-token :
    (x : Numbers) (p0 p1 token : String) (user : ℕ) (kind : PaymentKind)
    → ReadsBack x
    → IsToken token
    → kind_of (append p0 (append ":" p1)) ≡ some kind
    → parse_parts x p0 p1 (x.str user) token
      ≡ some (record { kind = kind; user_id = pos user; session_token = token })
parse_parts-token x p0 p1 token user kind h t k =
    rw (parse_parts, k, h.number user, t.stripped, t.filled) refl

-- The payload of an invoice is read back: a subscription's and a one-time payment's, each with its user
-- and its session token, if int reads back what str writes and the token is not blank, has no colon and no space around it.
pub payload_roundtrip :
    (x : Numbers) (user : ℕ) (token : String)
    → ReadsBack x
    → IsToken token
    → (parse_inline_payment_payload x (build_subscription_payload x user token)
        ≡ some (record { kind = subscription; user_id = pos user; session_token = token }))
      × (parse_inline_payment_payload x (build_one_time_payload x user token)
          ≡ some (record { kind = one_time; user_id = pos user; session_token = token }))
unfolding parse_inline_payment_payload build_subscription_payload build_one_time_payload kind_of
payload_roundtrip x user token h t = (
  ap (parse_split x) (
        split_payload x subscription_prefix "inline_sub" "v1" token user h t
          (unfold split_colon in refl))
      ∙ parse_parts-token x "inline_sub" "v1" token user subscription h t refl,
  ap (parse_split x) (
        split_payload x one_time_prefix "inline_once" "v1" token user h t
          (unfold split_colon in refl))
      ∙ parse_parts-token x "inline_once" "v1" token user one_time h t refl,
)

-- The id of an inline result, or the data of its button, gives back its token and whether it spends a one-time
-- payment, for a token that is not blank and has no space around it.
result_id_roundtrip :
    (token : String)
    → IsToken token
    → (parse_chosen_inline_session_token (build_inline_result_id token) ≡ some (free, token))
      × (parse_chosen_inline_session_token (build_one_time_entitlement_result_id token)
          ≡ some (once, token))
unfolding parse_chosen_inline_session_token parse_inline_result_id build_inline_result_id
    build_one_time_entitlement_result_id
result_id_roundtrip token t =
    let other = has_prefix-clash "inline_once:" "inline:" token refl in
    let plain = has_prefix-append "inline:" token in
    let own = has_prefix-append "inline_once:" token in
    let rest = drop_chars-append "inline:" token in
    let rest' = drop_chars-append "inline_once:" token in
    (rw (other, plain, rest, t.stripped, t.filled) refl, rw (own, rest', t.stripped, t.filled) refl)
