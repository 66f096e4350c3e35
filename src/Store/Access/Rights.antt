-- ===== src/Store/Access/Rights.antt =====
-- What each write to the access tables does to every user's rights.
use inst_video_downloader_tg.Base.{
  ℕ, suc, ◌≡◌, refl, ◌∙◌, Bool, true, false, not, ◌&&◌, ◌||◌, Option, List, [], ◌∷◌, String, arith,
  any, leb, ltb, nat_eq, is_none, if◌then◌else◌, inl, inr, Bool-cases, Option-cases,
}
use inst_video_downloader_tg.Sql.{select, fetch_one, update, delete, place, order_by}
use inst_video_downloader_tg.Sql.Laws.{touched}
use inst_video_downloader_tg.Sql.Any.{any-upsert_out}
use inst_video_downloader_tg.Sql.Keys.{at, has, at-upsert}
use inst_video_downloader_tg.Store.Access.{
  WhitelistRow, whitelist_pk, add_inline_whitelist_user, remove_inline_whitelist_user,
  is_inline_whitelisted, Subscription, subscription_pk, is_active, record_inline_subscription,
  bought_row, mark_inline_subscription_refunded, mark_inline_subscription_auto_refunded,
  mark_inline_subscription_auto_refund_failed, mark_inline_subscription_refund_checked,
  list_expired_unchecked_inline_subscriptions, has_active_inline_subscription, PromoUsage, promo_pk,
  record_inline_promo_success, get_inline_promo_success_count,
}

-- A write to inline_subscriptions, with its clock and its user
pub data SubscriptionWrite : Type 0 where
  bought : ℕ → ℕ → ℕ → String → String → ℕ → ℕ → SubscriptionWrite
  refund : ℕ → ℕ → SubscriptionWrite
  auto_refund : ℕ → ℕ → String → SubscriptionWrite
  refund_failure : ℕ → ℕ → String → SubscriptionWrite
  refund_check : ℕ → ℕ → String → SubscriptionWrite

abbrev pub write : SubscriptionWrite → List Subscription → List Subscription
write (bought now user expires charge provider amount started) t =
    record_inline_subscription now user expires charge provider amount started t
write (refund now user) t = mark_inline_subscription_refunded now user t
write (auto_refund now user reason) t = mark_inline_subscription_auto_refunded now user reason t
write (refund_failure now user reason) t =
    mark_inline_subscription_auto_refund_failed now user reason t
write (refund_check now user reason) t = mark_inline_subscription_refund_checked now user reason t

abbrev pub user_of : SubscriptionWrite → ℕ
user_of (bought _ user _ _ _ _ _) = user
user_of (refund _ user) = user
user_of (auto_refund _ user _) = user
user_of (refund_failure _ user _) = user
user_of (refund_check _ user _) = user

-- When the write leaves its user with an active subscription
abbrev pub opens : ℕ → SubscriptionWrite → Bool
opens clock (bought _ _ expires _ _ _ _) = ltb clock expires
opens clock _ = false

at-update_all :
    (user j : ℕ) (f : Subscription → Subscription) (t : List Subscription)
    → ((s : Subscription) → (f s).user_id ≡ s.user_id)
    → at subscription_pk (update (has subscription_pk user) f t) j ≡ (
        if nat_eq user j
        then touched (λ _. true) f (at subscription_pk t j)
        else at subscription_pk t j)
unfolding fetch_one update
at-update_all user j f [] keep = ground arith
at-update_all user j f (s ∷ t) keep = ground (arith, at-update_all user j f t keep, keep s)

closed :
    (user j clock : ℕ) (f : Subscription → Subscription) (t : List Subscription)
    → ((s : Subscription) → (f s).user_id ≡ s.user_id)
    → ((s : Subscription) → is_active (f s).status ≡ false)
    → has_active_inline_subscription clock j (update (has subscription_pk user) f t)
      ≡ (if nat_eq user j then false else has_active_inline_subscription clock j t)
unfolding has_active_inline_subscription
closed user j clock f t keep over =
    let row = at-update_all user j f t keep in
    elim (Option-cases (at subscription_pk t j)) [
      | inl e ↦ ground (arith, row, e)
      | inr (s, e) ↦ ground (arith, row, e, over s)
    ]

bought_access :
    (now user expires : ℕ) (charge provider : String) (amount started clock j : ℕ)
    (t : List Subscription)
    → has_active_inline_subscription clock j
        (record_inline_subscription now user expires charge provider amount started t)
      ≡ (if nat_eq user j then ltb clock expires else has_active_inline_subscription clock j t)
unfolding record_inline_subscription has_active_inline_subscription
bought_access now user expires charge provider amount started clock j t =
    let new = bought_row now user expires charge provider amount started in
    let row =
      at-upsert subscription_pk user j new (λ s. record new { user_id = s.user_id }) t (λ s. refl)
        refl in
    elim (Option-cases (at subscription_pk t user)) [
      | inl e ↦ ground (arith, row, e)
      | inr (s, e) ↦ ground (arith, row, e)
    ]

-- Every write of a subscription settles its own user's right and no other: a purchase gives an active
-- subscription until it expires, whatever the row was before, and a refund, an automatic refund, its
-- failure and its check end it at every later time; the other users' rights are as before.
pub write_access :
    (w : SubscriptionWrite) (clock j : ℕ) (t : List Subscription)
    → has_active_inline_subscription clock j (write w t)
      ≡ (if nat_eq (user_of w) j then opens clock w else has_active_inline_subscription clock j t)
write_access (bought now user expires charge provider amount started) clock j t =
    bought_access now user expires charge provider amount started clock j t
write_access (refund now user) clock j t =
    unfold mark_inline_subscription_refunded in closed user j clock _ t (λ s. refl) (λ s. refl)
write_access (auto_refund now user reason) clock j t =
    unfold mark_inline_subscription_auto_refunded in closed user j clock _ t (λ s. refl) (λ s. refl)
write_access (refund_failure now user reason) clock j t =
    unfold mark_inline_subscription_auto_refund_failed in
    closed user j clock _ t (λ s. refl) (λ s. refl)
write_access (refund_check now user reason) clock j t =
    unfold mark_inline_subscription_refund_checked in
    closed user j clock _ t (λ s. refl) (λ s. refl)

any-place :
    {A : Type 0} (p : A → Bool) (b : A → A → Bool) (r : A) (rs : List A)
    → any p (place b r rs) ≡ (p r || any p rs)
unfolding place
any-place p b r [] = refl
any-place p b r (s ∷ rs) = elim (Bool-cases (b s r)) [
  | inl y ↦ rw y (ground (arith, any-place p b r rs))
  | inr n ↦ rw n refl
]

any-order_by :
    {A : Type 0} (p : A → Bool) (b : A → A → Bool) (rs : List A) → any p (order_by b rs) ≡ any p rs
unfolding order_by
any-order_by p b [] = refl
any-order_by p b (r ∷ rs) = ground (arith, any-place p b r (order_by b rs), any-order_by p b rs)

abbrev pub is_purchase : SubscriptionWrite → Bool
is_purchase (bought _ _ _ _ _ _ _) = true
is_purchase _ = false

-- An active row of a user that was not checked yet
abbrev unchecked : ℕ → Subscription → Bool
unchecked user s =
    has subscription_pk user s && (is_active s.status && is_none s.auto_refund_checked_at)

-- A write that ends a user's subscription leaves no unchecked row of that user, and makes none of another.
ended :
    (user j : ℕ) (f : Subscription → Subscription) (t : List Subscription)
    → ((s : Subscription) → (f s).user_id ≡ s.user_id)
    → ((s : Subscription) → is_active (f s).status ≡ false)
    → any (unchecked j) (update (has subscription_pk user) f t)
      ≡ (not (nat_eq user j) && any (unchecked j) t)
unfolding update
ended user j f [] keep over = ground arith
ended user j f (s ∷ t) keep over = ground (arith, ended user j f t keep over, over s, keep s)

unchecked-write :
    (w : SubscriptionWrite) (j : ℕ) (t : List Subscription)
    → (is_purchase w && nat_eq (user_of w) j) ≡ false
    → any (unchecked j) (write w t) ≡ (not (nat_eq (user_of w) j) && any (unchecked j) t)
unchecked-write (bought now user expires charge provider amount started) j t h =
    unfold record_inline_subscription in
    let new = bought_row now user expires charge provider amount started in
    any-upsert_out (unchecked j) (has subscription_pk user)
      (λ s. record new { user_id = s.user_id }) (λ s e. ground (arith, e, h)) new t
      (ground (arith, h))
    ∙ ground (arith, h)
unchecked-write (refund now user) j t h =
    unfold mark_inline_subscription_refunded in ended user j _ t (λ s. refl) (λ s. refl)
unchecked-write (auto_refund now user reason) j t h =
    unfold mark_inline_subscription_auto_refunded in ended user j _ t (λ s. refl) (λ s. refl)
unchecked-write (refund_failure now user reason) j t h =
    unfold mark_inline_subscription_auto_refund_failed in ended user j _ t (λ s. refl) (λ s. refl)
unchecked-write (refund_check now user reason) j t h =
    unfold mark_inline_subscription_refund_checked in ended user j _ t (λ s. refl) (λ s. refl)

abbrev pub write_all : List SubscriptionWrite → List Subscription → List Subscription
write_all [] t = t
write_all (w ∷ ws) t = write_all ws (write w t)

abbrev pub buys : ℕ → SubscriptionWrite → Bool
buys user w = is_purchase w && nat_eq (user_of w) user

stays_checked :
    (ws : List SubscriptionWrite) (j : ℕ) (t : List Subscription)
    → any (buys j) ws ≡ false
    → any (unchecked j) t ≡ false
    → any (unchecked j) (write_all ws t) ≡ false
stays_checked [] j t h e = e
stays_checked (w ∷ ws) j t h e =
    stays_checked ws j (write w t) (ground (arith, h))
      (unchecked-write w j t (ground (arith, h)) ∙ ground (arith, e))

listed_unchecked :
    (clock j : ℕ) (t : List Subscription)
    → any (unchecked j) t ≡ false
    → any (has subscription_pk j) (
        select
          (λ s. is_active s.status && (leb s.expires_at clock && is_none s.auto_refund_checked_at))
          t)
      ≡ false
unfolding select
listed_unchecked clock j [] h = refl
listed_unchecked clock j (s ∷ t) h =
    ground (arith, h, listed_unchecked clock j t (ground (arith, h)))

-- The refund sweep handles a subscription once: after a refund, a failed refund or a check of a user, and whatever
-- writes to the table follow, purchases of other users and refunds of this one among them, no list of expired
-- unchecked subscriptions holds a row of that user, as long as the user makes no new purchase.
pub swept_once :
    (w : SubscriptionWrite) (ws : List SubscriptionWrite) (clock : ℕ) (t : List Subscription)
    → is_purchase w ≡ false
    → any (buys (user_of w)) ws ≡ false
    → any
        (has subscription_pk (user_of w))
        (list_expired_unchecked_inline_subscriptions clock (write_all ws (write w t)))
      ≡ false
unfolding list_expired_unchecked_inline_subscriptions
swept_once w ws clock t h others =
    any-order_by (has subscription_pk (user_of w)) _ (
      select
        (λ s. is_active s.status && (leb s.expires_at clock && is_none s.auto_refund_checked_at))
        (write_all ws (write w t)))
    ∙ listed_unchecked clock (user_of w) (write_all ws (write w t)) (
        stays_checked ws (user_of w) (write w t) others
          (unchecked-write w (user_of w) t (ground (arith, h)) ∙ ground arith))

whitelisted-remove :
    (user j : ℕ) (t : List WhitelistRow)
    → not (is_none (at whitelist_pk (delete (has whitelist_pk user) t) j))
      ≡ (not (nat_eq user j) && not (is_none (at whitelist_pk t j)))
unfolding fetch_one delete
whitelisted-remove user j [] = ground arith
whitelisted-remove user j (r ∷ t) = ground (arith, whitelisted-remove user j t)

-- The whitelist is a set of users: adding one, again or anew, admits that user and no other, removing one
-- excludes that user and no other.
pub whitelist_set :
    (now user by : ℕ) (note : Option String) (j : ℕ) (t : List WhitelistRow)
    → (is_inline_whitelisted j (add_inline_whitelist_user now user by note t)
        ≡ (nat_eq user j || is_inline_whitelisted j t))
      × (is_inline_whitelisted j (remove_inline_whitelist_user user t)
          ≡ (not (nat_eq user j) && is_inline_whitelisted j t))
unfolding is_inline_whitelisted add_inline_whitelist_user remove_inline_whitelist_user
whitelist_set now user by note j t = (
  (let new : WhitelistRow = record {
    user_id = user;
    added_by_user_id = by;
    note = note;
    created_at = now;
  } in
      let row =
        at-upsert whitelist_pk user j new
          (λ r. record r { added_by_user_id = by; note = note; created_at = now }) t (λ r. refl)
          refl in
      elim (Option-cases (at whitelist_pk t user)) [
        | inl e ↦ ground (arith, row, e)
        | inr (s, e) ↦ ground (arith, row, e)
      ]),
  whitelisted-remove user j t,
)

-- A promo success adds one to its user's count, from 0 for a user with no row, and to no other's.
pub promo_count :
    (now user j : ℕ) (t : List PromoUsage)
    → get_inline_promo_success_count j (record_inline_promo_success now user t) ≡ (
        if nat_eq user j
        then suc (get_inline_promo_success_count j t)
        else get_inline_promo_success_count j t)
unfolding get_inline_promo_success_count record_inline_promo_success
promo_count now user j t =
    let new : PromoUsage = record { user_id = user; success_count = 1; updated_at = now } in
    let row =
      at-upsert promo_pk user j new
        (λ r. record r { success_count = suc r.success_count; updated_at = now }) t (λ r. refl)
        refl in
    elim (Option-cases (at promo_pk t j)) [
      | inl e ↦ ground (arith, row, e)
      | inr (s, e) ↦ ground (arith, row, e)
    ]
