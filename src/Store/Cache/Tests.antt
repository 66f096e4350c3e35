-- ===== src/Store/Cache/Tests.antt =====
-- One cached result.
use inst_video_downloader_tg.Base.{
  ◌+◌, ◌≡◌, refl, Bool, false, not, ◌&&◌, none, some, [], ◌∷◌, String, any, leb, ltb, is_none,
  arith, if◌then◌else◌,
}
use inst_video_downloader_tg.Base.Int.{pos}
use inst_video_downloader_tg.Sql.{fetch_one}
use inst_video_downloader_tg.Store.Cache.{
  CachedItem, RecentResult, cache_key_eq, is_lost, get_cached_result, save_cached_result,
  update_cached_telegram_file_ids, purge_expired_results,
}
use inst_video_downloader_tg.Store.Cache.Answers.{
  cache_roundtrip, purge_invisible, ids_outlive_files,
}

abbrev item : CachedItem
item = record {
  file_path = "/cache/a.mp4";
  media_type = "video";
  caption = none;
  duration = none;
  width = none;
  height = none;
  telegram_file_id = none;
}

abbrev row : RecentResult
row = record {
  chat_id = pos 5;
  normalized_url = "u";
  provider = "twitter";
  title = "t";
  media_items = item ∷ [];
  created_at = 1;
  expires_at = 50;
}

abbrev gone : String → Bool
gone path = false

cache_roundtrip_example :
    get_cached_result 20 gone
      (pos 5)
      "u"
      (save_cached_result 10 (pos 5) "u" "twitter" "t" (item ∷ []) 30 (row ∷ []))
    ≡ (if cache_key_eq (pos 5, "u") (pos 5, "u")
        then (if ltb 20 (10 + 30) && not (any (is_lost gone) (item ∷ []))
            then some (record {
              title = "t";
              media_items = item ∷ [];
              created_at = 10;
              expires_at = 10 + 30;
            })
            else none)
        else get_cached_result 20 gone (pos 5) "u" (row ∷ []))
cache_roundtrip_example =
    cache_roundtrip 10 20 gone (pos 5) (pos 5) "u" "u" "twitter" "t" (item ∷ []) 30 (row ∷ [])
      (tt, tt)

purge_invisible_example :
    get_cached_result 70 gone (pos 5) "u" (purge_expired_results 60 (row ∷ [])).0
    ≡ get_cached_result 70 gone (pos 5) "u" (row ∷ [])
purge_invisible_example = purge_invisible 60 70 gone (pos 5) "u" (row ∷ []) (omega arith)

ids_outlive_files_example :
    is_none (
      get_cached_result 20 gone
        (pos 5)
        "u"
        (update_cached_telegram_file_ids (pos 5) "u" (some "f1" ∷ []) (row ∷ [])))
    ≡ leb 50 20
unfolding fetch_one
ids_outlive_files_example =
    ids_outlive_files 20 gone (pos 5) "u" (some "f1" ∷ []) (row ∷ []) {r = row} (tt, tt) refl refl
