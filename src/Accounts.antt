-- ===== src/Accounts.antt =====
-- utils/account_manager.py: the pool of Instagram accounts and its leases.
-- Objects in `accounts` are rows in the order of the file, named by their username. Times are seconds.
-- random.choice is a parameter; writing accounts_state.json is left out.
pub mod Pool
pub mod Health
pub mod Tests
use Prim.Native.String.{◌++◌ as append}
use inst_video_downloader_tg.Base.{
  ℕ, suc, ◌+◌, ◌-◌, ◌*◌, max, min, Bool, true, false, not, ◌&&◌, ◌||◌, Option, none, some, List, [],
  ◌∷◌, ◌++◌, String, ◌==◌, eq_iff, leb, ltb, nat_eq, is_none, any, length, get_elem?, if◌then◌else◌,
}
use inst_video_downloader_tg.Base.Texts.{has_prefix, contains, contains_any}
use inst_video_downloader_tg.Base.Order.{drop_chars}
use inst_video_downloader_tg.Sql.{select, update, delete, row_count, order_by}
use inst_video_downloader_tg.Sql.Keys.{Key, at, has}

pub record Account : Type 0 where
  pub username : String
  pub password : String
  pub totp_secret : String
  pub proxy : Option String
  pub session_file : Option String
  pub is_banned : Bool
  pub ban_reason : Option String
  pub banned_at : Option ℕ
  pub last_used : Option ℕ
  pub consecutive_failures : ℕ
  pub last_failure_reason : Option String
  pub last_failure_at : Option ℕ

abbrev pub account_pk : Key Account String
account_pk = record { key = λ a. a.username; beq = ◌==◌; beq_iff = eq_iff }

-- The set of leased usernames is a list.
pub record AccountManager : Type 0 where
  pub accounts : List Account
  pub leased_accounts : List String
  pub last_low_pool_alert_at : Option ℕ

-- A text that is not empty is true.
abbrev pub is_filled : String → Bool
is_filled s = not (s == "")

abbrev pub member : String → List String → Bool
member s xs = any (λ x. x == s) xs

-- The accounts that get_available_accounts returns
abbrev pub is_available : Account → Bool
is_available a = not a.is_banned && (is_filled a.password && is_filled a.totp_secret)

pub get_available_accounts : AccountManager → List Account
get_available_accounts m = select is_available m.accounts

pub get_eligible_account_count : List String → AccountManager → ℕ
unfolding get_available_accounts
get_eligible_account_count excluded m =
    row_count (λ a. not (member a.username excluded)) (get_available_accounts m)

pub get_leasable_account_count : List String → AccountManager → ℕ
unfolding get_available_accounts
get_leasable_account_count excluded m =
    row_count (λ a. not (member a.username m.leased_accounts) && not (member a.username excluded))
      (get_available_accounts m)

-- acc.last_used or datetime.min, compared
abbrev pub used_before : Account → Account → Bool
used_before a b = elim a.last_used [
  | none ↦ not (is_none b.last_used)
  | some s ↦ elim b.last_used [ none ↦ false | some t ↦ ltb s t ]
]

-- top_account.last_used and now - top_account.last_used < timedelta(hours=1)
abbrev pub used_recently : ℕ → Account → Bool
used_recently now a = elim a.last_used [ none ↦ false | some t ↦ ltb now (t + 3600) ]

-- random.choice(candidates), which draws an index
abbrev pub choice : (ℕ → ℕ) → List Account → Option Account
choice draw candidates = get_elem? candidates (draw (length candidates))

abbrev pub first_three : List Account → List Account
first_three (a ∷ b ∷ c ∷ _) = a ∷ b ∷ c ∷ []
first_three xs = xs

-- The pick from the sorted list
abbrev pub pick : (ℕ → ℕ) → ℕ → List Account → Option Account
pick draw now [] = none
pick draw now (a ∷ []) = some a
pick draw now (a ∷ b ∷ xs) =
    if used_recently now a then choice draw (first_three (a ∷ b ∷ xs)) else some a

-- The accounts that get_next_account chooses from
abbrev pub leasable : List String → AccountManager → List Account
leasable excluded m =
    select
      (λ a.
        is_available a
        && (not (member a.username m.leased_accounts) && not (member a.username excluded)))
      m.accounts

pub get_next_account : (ℕ → ℕ) → ℕ → List String → AccountManager → Option Account
get_next_account draw now excluded m = pick draw now (order_by used_before (leasable excluded m))

-- `self._leased_accounts.discard`
abbrev pub discard : String → List String → List String
discard name names = delete (λ s. s == name) names

pub acquire_account : (ℕ → ℕ) → ℕ → List String → AccountManager → AccountManager × Option Account
unfolding get_next_account
acquire_account draw now excluded m = elim (get_next_account draw now excluded m) [
  | none ↦ (m, none)
  | some a ↦
      let used = record a { last_used = some now } in
      (
        record m {
          accounts =
              update (has account_pk a.username) (λ x. record x { last_used = some now })
                m.accounts;
          leased_accounts = a.username ∷ discard a.username m.leased_accounts;
        },
        some used,
      )
]

pub release_account : Option Account → AccountManager → AccountManager
release_account none m = m
release_account (some a) m = record m { leased_accounts = discard a.username m.leased_accounts }

abbrev pub cleared : Account → Account
cleared a = record a {
  consecutive_failures = 0;
  last_failure_reason = none;
  last_failure_at = none;
}

pub record_account_success : String → AccountManager → AccountManager
record_account_success name m = record m {
  accounts = update (has account_pk name) cleared m.accounts;
}
