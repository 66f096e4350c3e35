-- ===== src/Inline/Access.antt =====
-- services/inline_access.py, and the functions of services/telegram_inline_sessions.py that read a
-- result id. Python's str and int on numbers are parameters.
pub mod Payloads
pub mod Tests
use Prim.Native.String.{◌++◌ as append}
use inst_video_downloader_tg.Base.{
  ℕ, Bool, true, false, ◌||◌, Option, none, some, List, [], ◌∷◌, String, ◌==◌, ltb, if◌then◌else◌,
}
use inst_video_downloader_tg.Base.Int.{ℤ, pos, negsuc}
use inst_video_downloader_tg.Base.Order.{drop_chars}
use inst_video_downloader_tg.Base.Split.{split_colon, strip, is_blank}
use inst_video_downloader_tg.Base.Texts.{has_prefix}

-- str(n), and int(text), with `none` for a ValueError
pub record Numbers : Type 0 where
  pub str : ℕ → String
  pub int : String → Option ℤ

abbrev pub subscription_prefix : String
subscription_prefix = "inline_sub:v1"

abbrev pub one_time_prefix : String
one_time_prefix = "inline_once:v1"

pub data PaymentKind : Type 0 where
  subscription one_time : PaymentKind

pub record InlinePaymentPayload : Type 0 where
  pub kind : PaymentKind
  pub user_id : ℤ
  pub session_token : String

pub build_inline_result_id : String → String
build_inline_result_id token = append "inline:" token

pub build_one_time_entitlement_result_id : String → String
build_one_time_entitlement_result_id token = append "inline_once:" token

-- `token or None`, in the form that says whether there is a token
abbrev pub nonblank : String → Option String
nonblank token = if is_blank token then none else some token

unfoldable pub parse_inline_result_id : String → Option String
parse_inline_result_id result_id =
    if has_prefix "inline:" result_id then nonblank (strip (drop_chars 7 result_id)) else none

abbrev pub build_payload : Numbers → String → ℕ → String → String
build_payload x prefix user token =
    append prefix (append ":" (append (x.str user) (append ":" token)))

pub build_subscription_payload : Numbers → ℕ → String → String
build_subscription_payload x user token = build_payload x subscription_prefix user token

pub build_one_time_payload : Numbers → ℕ → String → String
build_one_time_payload x user token = build_payload x one_time_prefix user token

unfoldable pub kind_of : String → Option PaymentKind
kind_of prefix =
    if prefix == subscription_prefix
    then some subscription
    else if prefix == one_time_prefix
    then some one_time
    else none

-- The tests of parse_inline_payment_payload once the text has four parts
abbrev pub parse_parts : Numbers → String → String → String → String → Option InlinePaymentPayload
parse_parts x p0 p1 p2 p3 = elim (kind_of (append p0 (append ":" p1))) [
  | none ↦ none
  | some kind ↦ elim (x.int p2) [
    | none ↦ none
    | some user ↦ elim (nonblank (strip p3)) [
      | none ↦ none
      | some token ↦ some (record { kind = kind; user_id = user; session_token = token })
    ]
  ]
]

abbrev pub parse_split : Numbers → List String → Option InlinePaymentPayload
parse_split x (p0 ∷ p1 ∷ p2 ∷ p3 ∷ []) = parse_parts x p0 p1 p2 p3
parse_split x _ = none

unfoldable pub parse_inline_payment_payload : Numbers → String → Option InlinePaymentPayload
parse_inline_payment_payload x payload = parse_split x (split_colon payload)

abbrev pub in_star_range : ℤ → Option ℕ
in_star_range (negsuc _) = none
in_star_range (pos amount) = if ltb amount 1 || ltb 10000 amount then none else some amount

pub validate_star_amount : Numbers → String → Option ℕ
validate_star_amount x raw_value = elim (x.int raw_value) [
  | none ↦ none
  | some amount ↦ in_star_range amount
]

-- The first component of the pair that parse_chosen_inline_session_token answers
pub data ResultKind : Type 0 where
  once free paid : ResultKind

abbrev pub with_kind : ResultKind → Option String → Option (ResultKind × String)
with_kind kind none = none
with_kind kind (some token) = some (kind, token)

-- parse_chosen_inline_session_token; `none` stands for (None, None)
unfoldable pub parse_chosen_inline_session_token : String → Option (ResultKind × String)
parse_chosen_inline_session_token result_id =
    if has_prefix "inline_once:" result_id
    then with_kind once (nonblank (strip (drop_chars 12 result_id)))
    else elim (parse_inline_result_id result_id) [
      | some token ↦ some (free, token)
      | none ↦
          if has_prefix "sub:" result_id
          then with_kind paid (nonblank (strip (drop_chars 4 result_id)))
          else if has_prefix "once:" result_id
          then with_kind paid (nonblank (strip (drop_chars 5 result_id)))
          else none
    ]
