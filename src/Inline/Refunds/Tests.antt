-- ===== src/Inline/Refunds/Tests.antt =====
-- Refunds of concrete payments.
use inst_video_downloader_tg.Base.{◌≡◌, refl, none, some, String, [], ◌∷◌, inl, inr, if◌then◌else◌}
use inst_video_downloader_tg.Base.Split.{strip}
use inst_video_downloader_tg.Sql.{first_by, select}
use inst_video_downloader_tg.Store.Payments.{
  Payment, PaymentStatus, paid, delivered, refund_failed, get_inline_one_time_payment_by_charge_id,
}
use inst_video_downloader_tg.Inline.Bot.{Bot}
use inst_video_downloader_tg.Inline.Refunds.{
  owner_required, refund_usage, already_refunded, parse_positive_int_arg, RefundCall, one_time,
  refund_target, inline_refund_command, returned, refund_command_answered,
}
use inst_video_downloader_tg.Inline.Refunds.Again.{is_recorded, refund_again}

abbrev payment : String → PaymentStatus → Payment
payment id status = record {
  payment_id = id;
  user_id = 7;
  session_token = "aZ3";
  provider = some "twitter";
  normalized_url = some "https://x.com/u/status/1";
  telegram_payment_charge_id = id;
  total_amount = 5;
  status = status;
  request_id = some "inline:aZ3";
  refund_reason = none;
  created_at = 1;
  updated_at = 1;
}

abbrev bot : Bot
bot = record {
  sessions = [];
  payments = payment "c1" paid ∷ payment "c2" delivered ∷ payment "c3" refund_failed ∷ [];
  rates = [];
  whitelist = [];
  subscriptions = [];
  promos = [];
  events = [];
  media = [];
  runtime = [];
  delivery_tokens = [];
  delivery_tasks = [];
}

abbrev refund_of : String → RefundCall
refund_of id = record { charge_id = id; user_id = 7; payment_kind = one_time id }

not_owner : inline_refund_command (some 1) (some 2) ("c1" ∷ []) bot ≡ inl owner_required
unfolding inline_refund_command
not_owner = refl

zero_user : inline_refund_command (some 1) (some 1) ("c1" ∷ "0" ∷ []) bot ≡ inl refund_usage
unfolding inline_refund_command parse_positive_int_arg strip
zero_user = refl

delivered_due : refund_target "c2" none bot ≡ inr (refund_of "c2")
unfolding refund_target get_inline_one_time_payment_by_charge_id first_by select
delivered_due = refl

refund_again_example :
    refund_target "c2" none (refund_command_answered 9 (refund_of "c2") returned bot).0
    ≡ (if is_recorded "c2" bot then inl already_refunded else inr (refund_of "c2"))
refund_again_example = refund_again 9 "c2" none bot (refund_of "c2") delivered_due
