-- ===== src/Telegram/Actions.antt =====
-- The data of action buttons: services/telegram/job_actions.py and services/telegram/inline_actions.py,
-- which differ in their first part, "job" or "inline-action", alone. Telegram allows 64 bytes.
pub mod RoundTrip
pub mod Tests
use Prim.Native.Char.{code}
use Prim.Native.String.{◌++◌ as append}
use inst_video_downloader_tg.Base.{
  ℕ, ◌+◌, Bool, true, false, not, ◌&&◌, ◌||◌, Option, none, some, List, [], ◌∷◌, String, ◌==◌, leb,
  ltb, nat_eq, if◌then◌else◌,
}
use inst_video_downloader_tg.Base.Split.{is_blank, is_colon, cons_first}

-- JobAction and InlineAction
pub data Action : Type 0 where
  cancel retry : Action

abbrev pub action_value : Action → String
action_value cancel = "cancel"
action_value retry = "retry"

-- The character class [A-Za-z0-9_-]
abbrev pub is_id_code : ℕ → Bool
is_id_code n =
    (leb 65 n && leb n 90)
    || ((leb 97 n && leb n 122) || ((leb 48 n && leb n 57) || (nat_eq n 95 || nat_eq n 45)))

pub all_id : String → Bool
all_id String.[] = true
all_id (String.◌∷◌ c s) = is_id_code (code c) && all_id s

-- _REQUEST_ID_PATTERN.fullmatch, which wants at least one character
abbrev pub is_request_id : String → Bool
is_request_id s = not (is_blank s) && all_id s

abbrev pub char_bytes : ℕ → ℕ
char_bytes n = if ltb n 128 then 1 else if ltb n 2048 then 2 else if ltb n 65536 then 3 else 4

-- len(data.encode("utf-8"))
pub byte_length : String → ℕ
byte_length String.[] = 0
byte_length (String.◌∷◌ c s) = char_bytes (code c) + byte_length s

abbrev pub action_data : String → Action → String → String
action_data name action id = append name (append ":" (append (action_value action) (append ":" id)))

-- build_job_action_data and build_inline_action_data; `none` is a ValueError
pub build_action_data : String → Action → String → Option String
build_action_data name action id =
    if not (is_request_id id)
    then none
    else if ltb 64 (byte_length (action_data name action id))
    then none
    else some (action_data name action id)

-- text.split(":", maxsplit=1), as the part before the first colon and the rest after it
pub cut : String → String × Option String
cut String.[] = (String.[], none)
cut (String.◌∷◌ c s) =
    let rest = cut s in if is_colon c then (String.[], some s) else (String.◌∷◌ c rest.0, rest.1)

-- JobAction(value)
pub parse_action : String → Option Action
parse_action s = if s == "cancel" then some cancel else if s == "retry" then some retry else none

-- The tests on the three parts of data.split(":", maxsplit=2)
abbrev pub parse_rest : String × Option String → Option (Action × String)
parse_rest (_, none) = none
parse_rest (value, some id) = elim (parse_action value) [
  | none ↦ none
  | some action ↦ if is_request_id id then some (action, id) else none
]

abbrev pub parse_cut : String → String × Option String → Option (Action × String)
parse_cut name (_, none) = none
parse_cut name (first, some rest) = if first == name then parse_rest (cut rest) else none

-- parse_job_action_data and parse_inline_action_data
pub parse_action_data : String → String → Option (Action × String)
parse_action_data name data_ =
    if is_blank data_ || ltb 64 (byte_length data_) then none else parse_cut name (cut data_)
