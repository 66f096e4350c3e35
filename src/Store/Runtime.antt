-- ===== src/Store/Runtime.antt =====
-- The table inline_runtime_settings of services/state_schema.py and its methods in
-- services/state_store.py. Python's str and int on numbers, and str.strip and str.lower together, are
-- parameters.
pub mod Effects
pub mod Tests
use inst_video_downloader_tg.Base.{
  ℕ, Bool, true, false, ◌||◌, Option, none, some, List, [], ◌∷◌, String, ◌==◌, eq_iff,
  if◌then◌else◌,
}
use inst_video_downloader_tg.Sql.{upsert}
use inst_video_downloader_tg.Sql.Keys.{Key, at, has}

pub record RuntimeRow : Type 0 where
  pub key : String
  pub value : String
  pub updated_at : ℕ

abbrev pub runtime_pk : Key RuntimeRow String
runtime_pk = record { key = λ r. r.key; beq = ◌==◌; beq_iff = eq_iff }

pub record RuntimeSettings : Type 0 where
  pub subscription_stars : ℕ
  pub one_time_enabled : Bool
  pub one_time_stars : ℕ

-- str(n), int(s) with `none` for a ValueError, and s.strip().lower()
pub record Texts : Type 0 where
  pub str : ℕ → String
  pub int : String → Option ℕ
  pub strip_lower : String → String

-- _parse_runtime_bool
pub parse_runtime_bool : Texts → String → Option Bool
parse_runtime_bool x value =
    let s = x.strip_lower value in
    if s == "1" || (s == "true" || (s == "yes" || s == "on"))
    then some true
    else if s == "0" || (s == "false" || (s == "no" || s == "off"))
    then some false
    else none

abbrev pub or_else {ℓ} : {A : Type ℓ} → A → Option A → A
or_else a none = a
or_else a (some b) = b

-- The loop of get_inline_runtime_settings over the rows
pub read_row : Texts → RuntimeSettings → RuntimeRow → RuntimeSettings
read_row x v r =
    if r.key == "subscription_stars"
    then record v { subscription_stars = or_else v.subscription_stars (x.int r.value) }
    else if r.key == "one_time_stars"
    then record v { one_time_stars = or_else v.one_time_stars (x.int r.value) }
    else if r.key == "one_time_enabled"
    then record v { one_time_enabled = or_else v.one_time_enabled (parse_runtime_bool x r.value) }
    else v

pub read_rows : Texts → RuntimeSettings → List RuntimeRow → RuntimeSettings
read_rows x v [] = v
read_rows x v (r ∷ rs) = read_rows x (read_row x v r) rs

-- `defaults` are the values of config/settings.py.
unfoldable pub get_inline_runtime_settings :
    Texts → RuntimeSettings → List RuntimeRow → RuntimeSettings
get_inline_runtime_settings x defaults t = read_rows x defaults t

abbrev pub put_value : ℕ → String → Option String → List RuntimeRow → List RuntimeRow
put_value now key none t = t
put_value now key (some value) t =
    upsert (has runtime_pk key) (record { key = key; value = value; updated_at = now })
      (λ r. record r { value = value; updated_at = now }) t

abbrev pub bool_text : Option Bool → Option String
bool_text none = none
bool_text (some true) = some "1"
bool_text (some false) = some "0"

abbrev pub number_text : Texts → Option ℕ → Option String
number_text x none = none
number_text x (some n) = some (x.str n)

pub update_inline_runtime_settings :
    Texts → ℕ → Option ℕ → Option Bool → Option ℕ → List RuntimeRow → List RuntimeRow
update_inline_runtime_settings x now subscription_stars one_time_enabled one_time_stars t =
    put_value now "one_time_stars" (number_text x one_time_stars) (
      put_value now "one_time_enabled" (bool_text one_time_enabled)
        (put_value now "subscription_stars" (number_text x subscription_stars) t))
