-- ===== src/Store/Events.antt =====
-- The table inline_delivery_events of services/state_schema.py and its methods in
-- services/state_store.py. The failure rate is the pair of its numerator and denominator.
use inst_video_downloader_tg.Base.{
  ℕ, ◌+◌, Bool, ◌&&◌, List, [], ◌∷◌, ◌++◌, String, ◌==◌, leb, nat_eq,
}
use inst_video_downloader_tg.Sql.{row_count}

pub record DeliveryEvent : Type 0 where
  pub event_id : String
  pub user_id : ℕ
  pub session_token : String
  pub access_kind : String
  pub status : String
  pub occurred_at : ℕ

pub record DeliveryStats : Type 0 where
  pub success : ℕ
  pub failed : ℕ
  pub attempts : ℕ

-- `event_id` is a fresh uuid.
unfoldable pub record_inline_delivery_event :
    ℕ → String → ℕ → String → String → String → List DeliveryEvent → List DeliveryEvent
record_inline_delivery_event now event_id user token kind status t =
    t
    ++ record {
      event_id = event_id;
      user_id = user;
      session_token = token;
      access_kind = kind;
      status = status;
      occurred_at = now;
    }
      ∷ []

abbrev pub counted : ℕ → ℕ → ℕ → String → DeliveryEvent → Bool
counted user started expires status e =
    nat_eq e.user_id user
    && ((e.access_kind == "subscription")
        && (leb started e.occurred_at && (leb e.occurred_at expires && (e.status == status))))

-- failure_rate is failed / attempts, and 0 without attempts.
unfoldable pub get_subscription_delivery_stats : ℕ → ℕ → ℕ → List DeliveryEvent → DeliveryStats
get_subscription_delivery_stats user started expires t =
    let success = row_count (counted user started expires "success") t in
    let failed = row_count (counted user started expires "failed") t in
    record { success = success; failed = failed; attempts = success + failed }
