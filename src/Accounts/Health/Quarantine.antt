-- ===== src/Accounts/Health/Quarantine.antt =====
-- Failures, quarantine and its end.
use Prim.Native.String.{◌++◌ as append}
use Prim.Native.Char.{Char, code}
use text.Mathlib.TextLemmas.{cons-append, cons≢nil}
use inst_video_downloader_tg.Base.Prefix.{has_prefix-append}
use inst_video_downloader_tg.Base.{
  ℕ, suc, ◌+◌, ◌*◌, ◌<◌, max, ◌≡◌, refl, ap, ◌∙◌, Bool, true, false, not, ◌&&◌, ◌||◌, some, List,
  [], ◌∷◌, String, arith, eq_iff, leb, ltb, nat_eq, any, if◌then◌else◌, inl, inr, Bool-cases,
}
use inst_video_downloader_tg.Base.Order.{ne→==_false, drop_chars-append}
use inst_video_downloader_tg.Base.Texts.{has_prefix}
use inst_video_downloader_tg.Sql.{update}
use inst_video_downloader_tg.Sql.Laws.{fetch_one-update, fetch_one_sound}
use inst_video_downloader_tg.Sql.Keys.{at, has}
use inst_video_downloader_tg.Accounts.{Account, account_pk, AccountManager, is_filled}
use inst_video_downloader_tg.Accounts.Health.{
  Config, is_hard_account_failure_reason, requires_replacement_for_failure_reason,
  replacement_required_reason, temporary_hard_failure_reason, is_replacement_required_ban_reason,
  threshold_of, reached, ban_reason_for, failed_account, record_account_failure,
  should_alert_low_pool, banned_long_ago, reset, reset_old_banned_accounts,
}

-- The account after failures with these reasons, in order, each with its time
abbrev pub fail_all : Config → List (ℕ × String) → Account → Account
fail_all config [] a = a
fail_all config ((now, reason) ∷ fs) a = fail_all config fs (failed_account config now reason a)

abbrev pub hard : Config → ℕ × String → Bool
hard config f = is_hard_account_failure_reason config f.1

abbrev pub count_of : List (ℕ × String) → ℕ
count_of [] = 0
count_of (f ∷ fs) = suc (count_of fs)

failed-banned :
    (config : Config) (now : ℕ) (reason : String) (a : Account)
    → (failed_account config now reason a).is_banned ≡ (
        a.is_banned
        || (is_hard_account_failure_reason config reason
            || (ltb a.consecutive_failures (max 1 config.account_failure_threshold)
                && leb (max 1 config.account_failure_threshold) (suc a.consecutive_failures))))
unfolding failed_account reached threshold_of
failed-banned config now reason a =
    elim (Bool-cases (is_hard_account_failure_reason config reason)) [
      | inl y ↦ ground (arith, y)
      | inr n ↦ ground (arith, n)
    ]

failed-count :
    (config : Config) (now : ℕ) (reason : String) (a : Account)
    → (failed_account config now reason a).consecutive_failures ≡ suc a.consecutive_failures
unfolding failed_account
failed-count config now reason a = ground arith

banned_stays :
    (config : Config) (fs : List (ℕ × String)) (a : Account)
    → a.is_banned ≡ true
    → (fail_all config fs a).is_banned ≡ true
banned_stays config [] a h = h
banned_stays config ((now, reason) ∷ fs) a h =
    banned_stays config fs (failed_account config now reason a)
      (failed-banned config now reason a ∙ rw h refl)

quarantined_from :
    (config : Config) (fs : List (ℕ × String)) (a : Account)
    → a.is_banned ≡ false
    → a.consecutive_failures < max 1 config.account_failure_threshold
    → (fail_all config fs a).is_banned ≡ (
        any (hard config) fs
        || leb (max 1 config.account_failure_threshold) (a.consecutive_failures + count_of fs))
quarantined_from config [] a h l = ground (arith, h, l)
quarantined_from config ((now, reason) ∷ fs) a h l =
    let first = failed-banned config now reason a in
    let count = failed-count config now reason a in
    elim (Bool-cases (failed_account config now reason a).is_banned) [
      | inl y ↦
          let stays = banned_stays config fs (failed_account config now reason a) y in
          ground (arith, stays, first, y, h, l)
      | inr n ↦
          let below : (failed_account config now reason a).consecutive_failures
              < max 1 config.account_failure_threshold =
            ground (arith, first, n, h, l, count) in
          let rest = quarantined_from config fs (failed_account config now reason a) n below in
          ground (arith, rest, first, n, h, l, count)
    ]

-- An account that is not banned and starts from no failures is quarantined after a sequence of failures
-- exactly when one of them has a hard reason or they are at least the configured threshold (at least 1).
pub quarantine_count :
    (config : Config) (fs : List (ℕ × String)) (a : Account)
    → a.is_banned ≡ false
    → a.consecutive_failures ≡ 0
    → (fail_all config fs a).is_banned
      ≡ (any (hard config) fs || leb (max 1 config.account_failure_threshold) (count_of fs))
quarantine_count config fs a h z =
    let from = quarantined_from config fs a h (ground (arith, z)) in ground (arith, from, z)

has_prefix-other :
    (c d : Char) (p l s : String)
    → nat_eq (code c) (code d) ≡ false
    → has_prefix (String.◌∷◌ c p) (append (String.◌∷◌ d l) s) ≡ false
unfolding has_prefix
has_prefix-other c d p l s h = rw (cons-append d l s) (rw h refl)

filled-append : (c : Char) (l s : String) → is_filled (append (String.◌∷◌ c l) s) ≡ true
filled-append c l s =
    let e = ne→==_false (append (String.◌∷◌ c l) s) "" (rw (cons-append c l s) cons≢nil) in
    rw e refl

replacement_tag :
    (config : Config) (reason : String)
    → is_replacement_required_ban_reason config (some (replacement_required_reason reason)) ≡ true
unfolding is_replacement_required_ban_reason replacement_required_reason
replacement_tag config reason = ground (
  arith,
  filled-append "r" "eplacement_required:" reason,
  has_prefix-append "replacement_required:" reason,
)

temporary_tag :
    (config : Config) (reason : String)
    → is_replacement_required_ban_reason config (some (temporary_hard_failure_reason reason))
      ≡ requires_replacement_for_failure_reason config reason
unfolding is_replacement_required_ban_reason temporary_hard_failure_reason
temporary_tag config reason =
    let full : is_filled (append "hard_failure:" reason) ≡ true =
      filled-append "h" "ard_failure:" reason in
    let other : has_prefix "replacement_required:" (append "hard_failure:" reason) ≡ false =
      has_prefix-other "r" "h" "eplacement_required:" "ard_failure:" reason refl in
    let own = has_prefix-append "hard_failure:" reason in
    rw (full, other, own)
      (ap (requires_replacement_for_failure_reason config)
        (drop_chars-append "hard_failure:" reason))

-- The tag that quarantine puts on a hard failure tells the later reset what to do: it is read as
-- needing a replacement exactly when the failure's reason needs one.
pub ban_reason_roundtrip :
    (config : Config) (reason : String)
    → is_hard_account_failure_reason config reason ≡ true
    → is_replacement_required_ban_reason config (some (ban_reason_for config reason))
      ≡ requires_replacement_for_failure_reason config reason
unfolding ban_reason_for
ban_reason_roundtrip config reason h =
    elim (Bool-cases (requires_replacement_for_failure_reason config reason)) [
      | inl y ↦ rw (h, y) (replacement_tag config reason)
      | inr n ↦ rw (h, n) (temporary_tag config reason ∙ n)
    ]

should_alert-accounts :
    (config : Config) (now : ℕ) (m : AccountManager)
    → (should_alert_low_pool config now m).0.accounts ≡ m.accounts
unfolding should_alert_low_pool
should_alert-accounts config now m = ground arith

failure-accounts :
    (config : Config) (now : ℕ) (name reason : String) (m : AccountManager) (a : Account)
    → at account_pk m.accounts name ≡ some a
    → (record_account_failure config now name reason m).0.accounts
      ≡ update (has account_pk name) (failed_account config now reason) m.accounts
unfolding record_account_failure
failure-accounts config now name reason m a e = elim (Bool-cases (reached config reason a)) [
  | inl y ↦ rw (e, record_account_failure) (rw y (should_alert-accounts config now _))
  | inr n ↦ rw (e, record_account_failure) (rw n refl)
]

failed-name :
    (config : Config) (now : ℕ) (name reason : String) (a : Account)
    → has account_pk name (failed_account config now reason a) ≡ has account_pk name a
unfolding failed_account
failed-name config now name reason a = ground arith

reached_hard :
    (config : Config) (reason : String) (a : Account)
    → a.is_banned ≡ false
    → is_hard_account_failure_reason config reason ≡ true
    → reached config reason a ≡ true
unfolding reached
reached_hard config reason a h hard_reason = rw (h, hard_reason) refl

failed_hard :
    (config : Config) (now : ℕ) (reason : String) (a : Account)
    → reached config reason a ≡ true
    → let f = failed_account config now reason a in
      (f.is_banned ≡ true)
      × (f.banned_at ≡ some now)
      × (f.ban_reason ≡ some (ban_reason_for config reason))
unfolding failed_account
failed_hard config now reason a r = rw r (refl, refl, refl)

-- From a hard failure to the periodic reset: an account of the pool that is not banned and fails with a
-- hard reason is banned after the next reset of old bans if its reason needs a replacement, whatever
-- the age, and otherwise exactly while the ban is not older than the given hours.
pub hard_failure_reset :
    (config : Config) (now later hours : ℕ) (name reason : String) (m : AccountManager)
    (a : Account)
    → at account_pk m.accounts name ≡ some a
    → a.is_banned ≡ false
    → is_hard_account_failure_reason config reason ≡ true
    → (b : Account) × (at account_pk
          (reset_old_banned_accounts config later hours
            (record_account_failure config now name reason m).0).accounts
          name
        ≡ some b)
      × (b.is_banned ≡ (
          requires_replacement_for_failure_reason config reason || leb later (now + hours * 3600)))
unfolding reset_old_banned_accounts
hard_failure_reset config now later hours name reason m a e h hard_reason =
    let f = failed_account config now reason a in
    let (banned, banned_at, tag) =
      failed_hard config now reason a (reached_hard config reason a h hard_reason) in
    let kept = ban_reason_roundtrip config reason hard_reason in
    let old : Account → Bool = λ x.
      banned_long_ago later hours x
      && not (is_replacement_required_ban_reason config x.ban_reason) in
    let after = failure-accounts config now name reason m a e in
    let row1 : at account_pk
          (update (has account_pk name) (failed_account config now reason) m.accounts) name
        ≡ some f =
      fetch_one-update (has account_pk name) (has account_pk name)
        (failed_account config now reason) m.accounts (failed-name config now name reason)
      ∙ rw
          (
            e,
            (eq_iff a.username name).1
                ((eq_iff a.username name).0 (fetch_one_sound (has account_pk name) m.accounts e)),
          )
          refl in
    let due : old f ≡ (
        ltb (now + hours * 3600) later
        && not (requires_replacement_for_failure_reason config reason)) =
      rw (banned, banned_at, tag, kept) refl in
    (
      (if old f then reset f else f),
      (rw after (fetch_one-update (has account_pk name) old reset _ (λ x. refl) ∙ rw row1 refl)),
      elim (Bool-cases (old f)) [
        | inl y ↦ rw y (ground (arith, due, y))
        | inr n ↦ rw n (ground (arith, due, n, banned))
      ],
    )
