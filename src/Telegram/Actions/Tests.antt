-- ===== src/Telegram/Actions/Tests.antt =====
-- A button that cancels a request.
use inst_video_downloader_tg.Base.{◌≡◌, refl, ◌&&◌, none, some, leb, if◌then◌else◌}
use inst_video_downloader_tg.Base.Split.{no_colon}
use inst_video_downloader_tg.Telegram.Actions.{
  cancel, action_data, is_request_id, byte_length, build_action_data, parse_action_data,
}
use inst_video_downloader_tg.Telegram.Actions.RoundTrip.{action_roundtrip}

action_roundtrip_example :
    (build_action_data "job" cancel "a1-B_" ≡ (
      if is_request_id "a1-B_" && leb (byte_length (action_data "job" cancel "a1-B_")) 64
      then some (action_data "job" cancel "a1-B_")
      else none))
    × (parse_action_data "job" (action_data "job" cancel "a1-B_") ≡ (
        if is_request_id "a1-B_" && leb (byte_length (action_data "job" cancel "a1-B_")) 64
        then some (cancel, "a1-B_")
        else none))
unfolding no_colon
action_roundtrip_example = action_roundtrip "job" "a1-B_" cancel refl refl
