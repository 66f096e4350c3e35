-- ===== src/Accounts/Pool.antt =====
-- Leases and quarantine of the account pool.
use mathlib.Core.Path.{subst}
use inst_video_downloader_tg.Base.{
  ℕ, zero, suc, ◌<◌, ◌≡◌, refl, sym, ◌∙◌, Bool, true, false, not, ◌&&◌, some, List, [], ◌∷◌, String,
  arith, ◌==◌, eq_iff, eq_refl, nat_eq, is_none, All, length, get_elem?, inl, inr, Bool-cases,
  Option-cases,
}
use inst_video_downloader_tg.Sql.{select, row_count, order_by}
use inst_video_downloader_tg.Sql.Sorting.{All-order_by, All-select, length-order_by, length-select}
use inst_video_downloader_tg.Accounts.{
  Account, AccountManager, member, is_available, leasable, pick, first_three, used_before,
  used_recently, get_next_account, get_available_accounts, get_leasable_account_count, discard,
  acquire_account,
}

module _ {ℓ κ} {A : Type ℓ} (P : A → Type κ) where
  All-get_elem? : (rs : List A) (i : ℕ) {a : A} → All P rs → get_elem? rs i ≡ some a → P a
  All-get_elem? [] i ps e = absurd (ground (arith, e))
  All-get_elem? (r ∷ rs) zero {a} ps e = let same : r ≡ a = ground (arith, e) in subst P same ps.0
  All-get_elem? (r ∷ rs) (suc i) ps e = All-get_elem? rs i ps.1 e

All-first_three {κ} : (P : Account → Type κ) (xs : List Account) → All P xs → All P (first_three xs)
All-first_three P [] ps = tt
All-first_three P (a ∷ []) ps = ps
All-first_three P (a ∷ b ∷ []) ps = ps
All-first_three P (a ∷ b ∷ c ∷ xs) ps = (ps.0, (ps.1.0, (ps.1.1.0, tt)))

All-pick {κ} :
    (P : Account → Type κ) (draw : ℕ → ℕ) (now : ℕ) (xs : List Account) {a : Account}
    → All P xs
    → pick draw now xs ≡ some a
    → P a
All-pick P draw now [] ps e = absurd (ground (arith, e))
All-pick P draw now (a ∷ []) {a = b} ps e =
    let same : a ≡ b = ground (arith, e) in subst P same ps.0
All-pick P draw now (a ∷ b ∷ xs) {a = c} ps e = elim (Bool-cases (used_recently now a)) [
  | inl y ↦
      All-get_elem? P (first_three (a ∷ b ∷ xs)) (draw (length (first_three (a ∷ b ∷ xs))))
        (All-first_three P (a ∷ b ∷ xs) ps) (ground (arith, e, y))
  | inr n ↦ let same : a ≡ c = ground (arith, e, n) in subst P same ps.0
]

-- What an account must be to be leased
abbrev pub can_lease : List String → AccountManager → Account → Bool
can_lease excluded m a =
    is_available a
    && (not (member a.username m.leased_accounts) && not (member a.username excluded))

next_can_lease :
    (draw : ℕ → ℕ) (now : ℕ) (excluded : List String) (m : AccountManager) {a : Account}
    → get_next_account draw now excluded m ≡ some a
    → can_lease excluded m a ≡ true
unfolding get_next_account
next_can_lease draw now excluded m e =
    All-pick (λ a. can_lease excluded m a ≡ true) draw now
      (order_by used_before (leasable excluded m))
      (All-order_by _ used_before (leasable excluded m)
        (All-select (can_lease excluded m) m.accounts))
      e

acquire_inv :
    (draw : ℕ → ℕ) (now : ℕ) (excluded : List String) (m : AccountManager) {a : Account}
    → (acquire_account draw now excluded m).1 ≡ some a
    → (can_lease excluded m a ≡ true)
      × ((acquire_account draw now excluded m).0.leased_accounts
          ≡ a.username ∷ discard a.username m.leased_accounts)
unfolding acquire_account
acquire_inv draw now excluded m {a} e = elim (Option-cases (get_next_account draw now excluded m)) [
  | inl n ↦ absurd (ground (arith, e, n))
  | inr (x, n) ↦
      let can : can_lease excluded m x ≡ true = next_can_lease draw now excluded m n in
      let same : record x { last_used = some now } ≡ a = ground (arith, e, n) in
      subst
        (λ y.
          (can_lease excluded m y ≡ true)
          × ((acquire_account draw now excluded m).0.leased_accounts
              ≡ y.username ∷ discard y.username m.leased_accounts))
        same (can, rw (n, acquire_account) refl)
]

-- A lease is exclusive: an acquired account was available, not leased and not excluded, whatever index the
-- random choice draws, and it is leased now, so a next acquisition gets none of that name.
pub acquire_exclusive :
    (draw draw' : ℕ → ℕ) (now now' : ℕ) (excluded excluded' : List String) (m : AccountManager)
    {a b : Account}
    → (acquire_account draw now excluded m).1 ≡ some a
    → (acquire_account draw' now' excluded' (acquire_account draw now excluded m).0).1 ≡ some b
    → (can_lease excluded m a ≡ true)
      × (member a.username (acquire_account draw now excluded m).0.leased_accounts ≡ true)
      × ((b.username == a.username) ≡ false)
acquire_exclusive draw draw' now now' excluded excluded' m {a} {b} e e' =
    let (can, leased) = acquire_inv draw now excluded m e in
    let (can', _) = acquire_inv draw' now' excluded' (acquire_account draw now excluded m).0 e' in
    let held : member a.username (acquire_account draw now excluded m).0.leased_accounts ≡ true =
      rw (leased, eq_refl a.username) refl in
    let free : member b.username (acquire_account draw now excluded m).0.leased_accounts ≡ false =
      ground (arith, can') in
    (
      can,
      held,
      elim (Bool-cases (b.username == a.username)) [
        | inl y ↦
            let same = (eq_iff b.username a.username).0 y in
            let free' : member a.username (acquire_account draw now excluded m).0.leased_accounts
                ≡ false =
              rw (← same) free in
            absurd (ground (arith, held, free'))
        | inr n ↦ n
      ],
    )

count_leasable :
    (excluded : List String) (m : AccountManager) (rows : List Account)
    → row_count
        (λ a. not (member a.username m.leased_accounts) && not (member a.username excluded))
        (select is_available rows)
      ≡ row_count (can_lease excluded m) rows
unfolding row_count select
count_leasable excluded m [] = refl
count_leasable excluded m (a ∷ rows) = elim (Bool-cases (is_available a)) [
  | inl y ↦ rw y (omega (arith, count_leasable excluded m rows))
  | inr n ↦ rw n (omega (arith, count_leasable excluded m rows))
]

get_elem?-inside :
    {A : Type 0} (xs : List A) (i : ℕ) → i < length xs → is_none (get_elem? xs i) ≡ false
get_elem?-inside [] i h = absurd (ground (arith, h))
get_elem?-inside (x ∷ xs) zero h = refl
get_elem?-inside (x ∷ xs) (suc i) h = get_elem?-inside xs i (omega (arith, h))

pick-none :
    (draw : ℕ → ℕ) (now : ℕ) (xs : List Account)
    → ((n : ℕ) → draw (suc n) < suc n)
    → is_none (pick draw now xs) ≡ nat_eq (length xs) 0
pick-none draw now [] inside = refl
pick-none draw now (a ∷ []) inside = refl
pick-none draw now (a ∷ b ∷ []) inside = elim (Bool-cases (used_recently now a)) [
  | inl y ↦ rw y (get_elem?-inside (a ∷ b ∷ []) (draw 2) (inside 1))
  | inr n ↦ rw n refl
]
pick-none draw now (a ∷ b ∷ c ∷ xs) inside = elim (Bool-cases (used_recently now a)) [
  | inl y ↦ rw y (get_elem?-inside (a ∷ b ∷ c ∷ []) (draw 3) (inside 2) ∙ ground arith)
  | inr n ↦ rw n (ground arith)
]

-- An acquisition finds an account exactly when the count of leasable accounts is not 0, whatever index in
-- range the random choice draws.
acquire_succeeds :
    (draw : ℕ → ℕ) (now : ℕ) (excluded : List String) (m : AccountManager)
    → ((n : ℕ) → draw (suc n) < suc n)
    → is_none (acquire_account draw now excluded m).1
      ≡ nat_eq (get_leasable_account_count excluded m) 0
unfolding acquire_account get_leasable_account_count get_available_accounts get_next_account
acquire_succeeds draw now excluded m inside =
    let found = pick-none draw now (order_by used_before (leasable excluded m)) inside in
    let count : length (order_by used_before (leasable excluded m))
        ≡ row_count
            (λ a. not (member a.username m.leased_accounts) && not (member a.username excluded))
            (select is_available m.accounts) =
      length-order_by used_before (leasable excluded m)
      ∙ length-select (can_lease excluded m) m.accounts
      ∙ sym (count_leasable excluded m m.accounts) in
    elim (Option-cases (pick draw now (order_by used_before (leasable excluded m)))) [
      | inl n ↦ ground (arith, found, count, n)
      | inr (a, n) ↦ ground (arith, found, count, n)
    ]
