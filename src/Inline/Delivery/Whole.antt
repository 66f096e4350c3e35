-- ===== src/Inline/Delivery/Whole.antt =====
-- A delivery from its first step to its last with nothing else in between: _deliver_inline_session as
-- one function of what the download, the upload, the edit and the refund do.
pub mod Ends
use inst_video_downloader_tg.Base.{
  ℕ, Bool, true, false, Option, none, some, String, is_none, ◌⊎◌, inl, inr, if◌then◌else◌,
}
use inst_video_downloader_tg.Store.InlineSessions.{
  SessionStatus, delivered, failed, delivery_unknown,
}
use inst_video_downloader_tg.Store.Cache.{InlineItem, get_inline_cached_media}
use inst_video_downloader_tg.Inline.Bot.{Config, Bot, Tick, inline_media_cache_key}
use inst_video_downloader_tg.Inline.Failure.{
  DeliveryError, download, storage_upload, inline_edit, delivery_unknown_after,
}
use inst_video_downloader_tg.Inline.Delivery.{
  Task, Next, ended, waiting, downloading, uploading, editing, refunding, Refund, deliver_start,
  deliver_prepared, deliver_in_turn, deliver_downloaded, deliver_uploaded, deliver_edited,
  deliver_raised, refund_due, refund_answered,
}

-- What the awaits of a delivery do; no error is success.
pub record World : Type 0 where
  pub download : Option DeliveryError
  pub upload : DeliveryError ⊎ InlineItem
  pub edit : Option DeliveryError
  pub refund : Refund

-- _refund_one_time_payment, if the step before asks for it
abbrev pub settle : Tick → World → Bot × Next → Bot
settle k w (b, refunding id reason) =
    if is_none (refund_due id b) then b else refund_answered k id reason w.refund b
settle k w (b, _) = b

abbrev pub then_edit : Tick → World → Task → Bot × Next → Bot
then_edit k w task (b, editing) = elim w.edit [
  | none ↦ deliver_edited k task b
  | some e ↦ settle k w (deliver_raised k task e inline_edit b)
]
then_edit k w task (b, _) = b

abbrev pub then_upload : Tick → World → Task → Bot × Next → Bot
then_upload k w task (b, uploading) = elim w.upload [
  | inl e ↦ settle k w (deliver_raised k task e storage_upload b)
  | inr item ↦ then_edit k w task (deliver_uploaded k task item b)
]
then_upload k w task (b, _) = b

abbrev pub then_download : Tick → World → Task → Bot × Next → Bot
then_download k w task (b, downloading) = elim w.download [
  | some e ↦ settle k w (deliver_raised k task e download b)
  | none ↦ then_upload k w task (deliver_downloaded k task b)
]
then_download k w task (b, _) = b

abbrev pub then_deliver : Tick → World → Task → Bot × Next → Bot
then_deliver k w task (b, waiting) = then_download k w task (deliver_in_turn k task b)
then_deliver k w task (b, editing) = then_edit k w task (b, editing)
then_deliver k w task (b, next) = settle k w (b, next)

abbrev pub deliver_task : Config → Tick → World → Bot × Option Task → Bot
deliver_task c k w (b, none) = b
deliver_task c k w (b, some task) = then_deliver k w task (deliver_prepared c k task b)

pub deliver_inline_session : Config → Tick → World → String → Option String → Bot → Bot
deliver_inline_session c k w token payment b = deliver_task c k w (deliver_start k token payment b)
