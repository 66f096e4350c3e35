-- ===== src/Store/Groups/Tests.antt =====
-- Settings on concrete rows.
use inst_video_downloader_tg.Base.{true, some, List, [], ◌∷◌}
use inst_video_downloader_tg.Store.Groups.{
  Defaults, GroupUpdate, quiet_mode_to, chat_max_concurrent_jobs_to, unknown_key,
}

abbrev defaults : Defaults
defaults = record {
  duplicate_suppression_enabled = true;
  group_stats_enabled = true;
  chat_max_concurrent_jobs = 2;
  user_max_active_jobs = 1;
}

abbrev changes : List GroupUpdate
changes = quiet_mode_to true ∷ unknown_key "colour" ∷ chat_max_concurrent_jobs_to (some 4) ∷ []
