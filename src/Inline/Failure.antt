-- ===== src/Inline/Failure.antt =====
-- How services/telegram_bot.py reads the error of an inline delivery: whether a download is tried
-- again (with is_transient_download_error of services/video_downloader.py), and how a failure is classified.
use inst_video_downloader_tg.Base.{Bool, true, false, ◌&&◌, ◌||◌, [], ◌∷◌, String, if◌then◌else◌}
use inst_video_downloader_tg.Base.Order.{drop_chars}
use inst_video_downloader_tg.Base.Split.{strip}
use inst_video_downloader_tg.Base.Texts.{has_prefix, contains_any}
use inst_video_downloader_tg.Telegram.Retry.{
  CallError, is_network_error, is_telegram_error, classify_telegram_delivery_error,
}

-- What a delivery may raise: a DownloadError, an InstagramProviderTimeoutError, which is one, or another
-- error. `text` is str(error).lower().
pub data DeliveryError : Type 0 where
  download_error : String → DeliveryError
  provider_timeout : String → DeliveryError
  call_error : CallError → DeliveryError

-- The stages of a delivery, as failure_stage names them
pub data Stage : Type 0 where
  preflight download storage_upload inline_edit : Stage

abbrev pub stage_name : Stage → String
stage_name preflight = "preflight"
stage_name download = "download"
stage_name storage_upload = "storage_upload"
stage_name inline_edit = "inline_edit"

-- error.__class__.__name__
abbrev pub class_name : DeliveryError → String
class_name (download_error _) = "DownloadError"
class_name (provider_timeout _) = "InstagramProviderTimeoutError"
class_name (call_error e) = e.name

abbrev pub is_network : DeliveryError → Bool
is_network (call_error e) = is_network_error e.class
is_network _ = false

abbrev pub is_download : DeliveryError → Bool
is_download (call_error _) = false
is_download _ = true

unfoldable pub is_transient_download_error : String → Bool
is_transient_download_error text =
    contains_any text
      ("timeout" ∷ "timed out" ∷ "temporary" ∷ "temporarily" ∷ "connection" ∷ "network" ∷ [])

-- text.split(needle, 1)[0]
unfoldable pub before_text : String → String → String
before_text needle String.[] = String.[]
before_text needle (String.◌∷◌ c s) =
    let rest = before_text needle s in
    if has_prefix needle (String.◌∷◌ c s) then String.[] else String.◌∷◌ c rest

-- _primary_inline_download_error_text, of a text in lower case
unfoldable pub primary_inline_download_error_text : String → String
primary_inline_download_error_text text =
    let stripped =
      if has_prefix "download failed:" text then strip (drop_chars 16 text) else text in
    strip (before_text "(fast_path_error=" stripped)

abbrev pub names_timeout : String → Bool
names_timeout text =
    has_prefix "instagram provider timed out" text
    || has_prefix "fast_path_error=instagram provider timed out" text

unfoldable pub should_retry_inline_download : DeliveryError → Bool
should_retry_inline_download (provider_timeout _) = false
should_retry_inline_download (call_error _) = false
should_retry_inline_download (download_error text) =
    let primary = primary_inline_download_error_text text in
    if names_timeout primary then false else is_transient_download_error primary

unfoldable pub classify_inline_delivery_failure : DeliveryError → Stage → String
classify_inline_delivery_failure e download = "download_failed"
classify_inline_delivery_failure e preflight = "inline_delivery_failed"
classify_inline_delivery_failure (call_error e) stage =
    if is_telegram_error e.class
    then classify_telegram_delivery_error e
    else "inline_delivery_failed"
classify_inline_delivery_failure _ stage = "inline_delivery_failed"

abbrev pub is_edit : Stage → Bool
is_edit inline_edit = true
is_edit _ = false

abbrev pub is_upload : Stage → Bool
is_upload storage_upload = true
is_upload _ = false

abbrev pub is_download_stage : Stage → Bool
is_download_stage download = true
is_download_stage _ = false

-- `delivery_unknown` and `retryable` of the except clause
unfoldable pub delivery_unknown_after : DeliveryError → Stage → Bool
delivery_unknown_after e stage = is_edit stage && is_network e

unfoldable pub retryable_after : DeliveryError → Stage → Bool
retryable_after e stage =
    (is_upload stage && is_network e)
    || (is_download_stage stage && (is_download e && should_retry_inline_download e))
