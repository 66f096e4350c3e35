-- ===== src/Telegram/Actions/RoundTrip.antt =====
-- The data of a button that is built is read back.
use Prim.Native.String.{◌++◌ as append}
use text.Mathlib.TextLemmas.{nil-append, cons-append}
use inst_video_downloader_tg.Base.{
  ℕ, ◌≡◌, refl, Bool, true, false, not, ◌&&◌, none, some, String, eq_refl, arith, leb, ltb,
  if◌then◌else◌, inl, inr, Bool-cases,
}
use inst_video_downloader_tg.Base.Split.{is_blank, is_colon, no_colon}
use inst_video_downloader_tg.Telegram.Actions.{
  Action, cancel, retry, action_value, action_data, is_request_id, byte_length, build_action_data,
  cut, parse_action, parse_rest, parse_cut, parse_action_data,
}

cut-append : (a b : String) → no_colon a ≡ true → cut (append a (append ":" b)) ≡ (a, some b)
unfolding cut no_colon
cut-append String.[] b h =
    rw (nil-append (append ":" b), cons-append ":" String.[] b, nil-append b) refl
cut-append (String.◌∷◌ c a) b h = elim (Bool-cases (is_colon c)) [
  | inl y ↦ absurd (ground (arith, y, h))
  | inr n ↦ rw (cons-append c a (append ":" b), n, cut-append a b (ground (arith, n, h))) refl
]

blank-append : (a b : String) → is_blank a ≡ false → is_blank (append a b) ≡ false
blank-append String.[] b h = absurd (ground (arith, h))
blank-append (String.◌∷◌ c a) b h = rw (cons-append c a b) refl

value-no_colon : (action : Action) → no_colon (action_value action) ≡ true
unfolding no_colon
value-no_colon cancel = refl
value-no_colon retry = refl

parse_action-value : (action : Action) → parse_action (action_value action) ≡ some action
unfolding parse_action
parse_action-value cancel = refl
parse_action-value retry = refl

built_if {ℓ} :
    {A : Type ℓ} (r : Bool) (n : ℕ) (x : A)
    → (if not r then none else if ltb 64 n then none else some x)
      ≡ (if r && leb n 64 then some x else none)
built_if true n x = ground arith
built_if false n x = refl

read_if {ℓ} :
    {A : Type ℓ} (r : Bool) (n : ℕ) (x : A)
    → (if ltb 64 n then none else if r then some x else none)
      ≡ (if r && leb n 64 then some x else none)
read_if true n x = ground arith
read_if false n x = ground arith

parse_cut-data :
    (name id : String) (action : Action)
    → no_colon name ≡ true
    → parse_cut name (cut (action_data name action id))
      ≡ (if is_request_id id then some (action, id) else none)
parse_cut-data name id action h =
    rw (cut-append name (append (action_value action) (append ":" id)) h) (
      rw (eq_refl name) (
        rw (cut-append (action_value action) id (value-no_colon action))
          (rw (parse_rest, parse_action-value action) refl)))

-- What is built for a button is within Telegram's limit of 64 bytes and is read back as the action and the id; it is
-- built for every id of the allowed characters that leaves the data within the limit, and for no other. The first part of
-- the data is any text that is not empty and has no colon.
pub action_roundtrip :
    (name id : String) (action : Action)
    → no_colon name ≡ true
    → is_blank name ≡ false
    → (build_action_data name action id ≡ (
        if is_request_id id && leb (byte_length (action_data name action id)) 64
        then some (action_data name action id)
        else none))
      × (parse_action_data name (action_data name action id) ≡ (
          if is_request_id id && leb (byte_length (action_data name action id)) 64
          then some (action, id)
          else none))
unfolding build_action_data parse_action_data
action_roundtrip name id action h f =
    let d = action_data name action id in
    let full : is_blank d ≡ false =
      blank-append name (append ":" (append (action_value action) (append ":" id))) f in
    (
      built_if (is_request_id id) (byte_length d) d,
      rw (parse_action_data, full)
          (rw (parse_cut-data name id action h)
            (read_if (is_request_id id) (byte_length d) (action, id))),
    )
