-- ===== src/AuthPool.antt =====
-- services/instagram_auth_pool.py: the pool of Instagram auth contexts, which attempts take in turn and
-- which rest after a failure, and the parsing of the credential file. Times are milliseconds of the clock
-- that the pool is given; str.lower is a parameter, and the file's JSON object comes as its two lists.
pub mod Cooling
pub mod Turns
pub mod Headers
pub mod Tests
use Prim.Native.Nat.{◌%◌}
use Prim.Native.String.{◌++◌ as append}
use Prim.Native.Char.{code}
use inst_video_downloader_tg.Base.{
  ℕ, zero, suc, ◌+◌, min, ◌≡◌, Bool, true, false, not, ◌&&◌, ◌||◌, Option, none, some, List, [],
  ◌∷◌, ◌++◌, String, ◌==◌, eq_iff, length, get_elem?, any, leb, ltb, nat_eq, if◌then◌else◌,
}
use inst_video_downloader_tg.Base.Order.{drop_chars}
use inst_video_downloader_tg.Base.Split.{strip, is_blank}
use inst_video_downloader_tg.Base.Texts.{has_prefix}
use inst_video_downloader_tg.Sql.{select, delete, upsert}
use inst_video_downloader_tg.Sql.Keys.{Key, has}

pub data AuthContextKind : Type 0 where
  cookie bearer : AuthContextKind

pub record InstagramAuthContext : Type 0 where
  pub context_id : String
  pub kind : AuthContextKind
  pub value : String

-- as_headers: the name and the value of the one header
pub as_headers : InstagramAuthContext → String × String
as_headers c = elim c.kind [
  | cookie ↦ ("Cookie", c.value)
  | bearer ↦ ("Authorization", append "Bearer " c.value)
]

-- An entry of _cooldowns, under its context's id
pub record Cooldown : Type 0 where
  pub context_id : String
  pub expires_at : ℕ
  pub reason : String

abbrev pub cooldown_pk : Key Cooldown String
cooldown_pk = record { key = λ c. c.context_id; beq = ◌==◌; beq_iff = eq_iff }

pub record InstagramAuthPool : Type 0 where
  pub contexts : List InstagramAuthContext
  pub max_contexts_per_attempt : ℕ
  pub cooldown : ℕ
  pub cursor : ℕ
  pub cooldowns : List Cooldown

-- max(1, int(max_contexts_per_attempt or 1)), and a pool that has just been made
pub make_pool : List InstagramAuthContext → ℕ → ℕ → InstagramAuthPool
make_pool contexts max_contexts cooldown = record {
  contexts = contexts;
  max_contexts_per_attempt = if leb 1 max_contexts then max_contexts else 1;
  cooldown = cooldown;
  cursor = 0;
  cooldowns = [];
}

-- _usable_contexts_locked
abbrev pub drop_expired : ℕ → InstagramAuthPool → InstagramAuthPool
drop_expired now pool = record pool {
  cooldowns = delete (λ c. leb c.expires_at now) pool.cooldowns;
}

abbrev pub cools_down : InstagramAuthPool → String → Bool
cools_down pool id = any (has cooldown_pk id) pool.cooldowns

pub usable_contexts : ℕ → InstagramAuthPool → InstagramAuthPool × List InstagramAuthContext
usable_contexts now pool =
    let kept = drop_expired now pool in
    (kept, select (λ c. not (cools_down kept c.context_id)) pool.contexts)

-- usable[(cursor + offset) % len(usable)] for `left` offsets from `offset` on
pub take_round : List InstagramAuthContext → ℕ → ℕ → ℕ → List InstagramAuthContext
take_round usable cursor zero offset = []
take_round usable cursor (suc left) offset =
    let rest = take_round usable cursor left (suc offset) in
    elim (get_elem? usable ((cursor + offset) % length usable)) [ none ↦ rest | some c ↦ c ∷ rest ]

pub get_contexts_for_attempt : ℕ → InstagramAuthPool → InstagramAuthPool × List InstagramAuthContext
unfolding usable_contexts take_round
get_contexts_for_attempt now pool =
    let (kept, usable) = usable_contexts now pool in
    if nat_eq (length usable) 0
    then (kept, [])
    else (let limit = min pool.max_contexts_per_attempt (length usable) in
        (
          record kept { cursor = (pool.cursor + limit) % length usable },
          take_round usable pool.cursor limit 0,
        ))

pub filter_usable_contexts :
    ℕ
    → List InstagramAuthContext
    → InstagramAuthPool
    → InstagramAuthPool × List InstagramAuthContext
unfolding usable_contexts
filter_usable_contexts now contexts pool =
    let (kept, usable) = usable_contexts now pool in
    (kept, select (λ c. any (λ u. u.context_id == c.context_id) usable) contexts)

abbrev pub three_digits : String → Bool
three_digits (String.◌∷◌ a (String.◌∷◌ b (String.◌∷◌ c String.[]))) =
    (leb 48 (code a) && leb (code a) 57)
    && ((leb 48 (code b) && leb (code b) 57) && (leb 48 (code c) && leb (code c) 57))
three_digits _ = false

pub redact_reason : String → String
redact_reason reason =
    if reason == ""
    then "unknown"
    else if has_prefix "http_" reason && three_digits (drop_chars 5 reason)
    then reason
    else if (reason == "login_required")
        || ((reason == "challenge_required")
            || ((reason == "checkpoint") || (reason == "rate_limited")))
    then reason
    else "classified_failure"

abbrev pub is_configured : InstagramAuthPool → String → Bool
is_configured pool id = any (λ c. c.context_id == id) pool.contexts

pub mark_cooldown : ℕ → String → String → InstagramAuthPool → InstagramAuthPool
unfolding redact_reason
mark_cooldown now id reason pool =
    let entry : Cooldown = record {
      context_id = id;
      expires_at = now + pool.cooldown;
      reason = redact_reason reason;
    } in
    if is_configured pool id
    then record pool { cooldowns = upsert (has cooldown_pk id) entry (λ c. entry) pool.cooldowns }
    else pool

-- _clean_header_value; `none` is an InstagramAuthConfigError
pub is_clean : String → Bool
is_clean String.[] = true
is_clean (String.◌∷◌ c s) = (leb 32 (code c) && not (nat_eq (code c) 127)) && is_clean s

pub clean_header_value : String → Option String
clean_header_value raw_value =
    let value = strip raw_value in
    if is_blank value then none else if is_clean value then some value else none

abbrev pub without_scheme : (String → String) → String → String
without_scheme lower value =
    if has_prefix "token=" (lower value)
    then strip (drop_chars 6 value)
    else if has_prefix "bearer " (lower value)
    then strip (drop_chars 7 value)
    else value

pub normalize_bearer_token : (String → String) → String → Option String
normalize_bearer_token lower raw_value = elim (clean_header_value raw_value) [
  | none ↦ none
  | some value ↦ clean_header_value (without_scheme lower value)
]

abbrev pub cons_context :
    (ℕ → String)
    → String
    → AuthContextKind
    → ℕ
    → String
    → Option (List InstagramAuthContext)
    → Option (List InstagramAuthContext)
cons_context str name kind index value none = none
cons_context str name kind index value (some rest) =
    some (record { context_id = append name (str index); kind = kind; value = value } ∷ rest)

-- One loop of _parse_contexts, from an index on
pub parse_each :
    (ℕ → String)
    → String
    → AuthContextKind
    → (String → Option String)
    → ℕ
    → List String
    → Option (List InstagramAuthContext)
parse_each str name kind clean index [] = some []
parse_each str name kind clean index (raw ∷ rest) =
    let others = parse_each str name kind clean (suc index) rest in
    elim (clean raw) [ none ↦ none | some value ↦ cons_context str name kind index value others ]

abbrev pub join :
    Option (List InstagramAuthContext)
    → Option (List InstagramAuthContext)
    → Option (List InstagramAuthContext)
join none _ = none
join (some xs) none = none
join (some xs) (some ys) = some (xs ++ ys)

pub parse_contexts :
    (ℕ → String)
    → (String → String)
    → List String
    → List String
    → Option (List InstagramAuthContext)
unfolding parse_each
parse_contexts str lower cookies bearers =
    join (parse_each str "cookie:" cookie clean_header_value 0 cookies)
      (parse_each str "bearer:" bearer (normalize_bearer_token lower) 0 bearers)
