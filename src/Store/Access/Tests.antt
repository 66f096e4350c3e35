-- ===== src/Store/Access/Tests.antt =====
-- The access tables on concrete rows.
use inst_video_downloader_tg.Base.{
  ◌≡◌, refl, false, none, List, [], ◌∷◌, any, nat_eq, if◌then◌else◌,
}
use inst_video_downloader_tg.Sql.Keys.{has}
use inst_video_downloader_tg.Store.Access.{
  Subscription, subscription_pk, bought_row, has_active_inline_subscription,
  list_expired_unchecked_inline_subscriptions, WhitelistRow, PromoUsage,
}
use inst_video_downloader_tg.Store.Access.Rights.{
  SubscriptionWrite, bought, refund, refund_check, write, write_all, user_of, opens, write_access,
  swept_once,
}

abbrev subscriptions : List Subscription
subscriptions = bought_row 1 7 50 "c1" "pc1" 100 1 ∷ bought_row 2 8 60 "c2" "pc2" 100 2 ∷ []

abbrev renewal : SubscriptionWrite
renewal = bought 55 7 150 "c3" "pc3" 100 55

write_access_example : has_active_inline_subscription 60 7 (write renewal subscriptions) ≡ (
    if nat_eq (user_of renewal) 7
    then opens 60 renewal
    else has_active_inline_subscription 60 7 subscriptions)
write_access_example = write_access renewal 60 7 subscriptions

abbrev later_writes : List SubscriptionWrite
later_writes = bought 56 8 60 "c8" "" 5 56 ∷ refund 57 7 ∷ []

swept_once_example :
    any (has subscription_pk (user_of (refund_check 55 7 "no failures"))) (
      list_expired_unchecked_inline_subscriptions 70
        (write_all later_writes (write (refund_check 55 7 "no failures") subscriptions)))
    ≡ false
swept_once_example =
    swept_once (refund_check 55 7 "no failures") later_writes 70 subscriptions refl refl

abbrev listed : List WhitelistRow
listed = record { user_id = 7; added_by_user_id = 1; note = none; created_at = 1 } ∷ []

abbrev used : List PromoUsage
used = record { user_id = 7; success_count = 2; updated_at = 1 } ∷ []
