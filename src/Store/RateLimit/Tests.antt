-- ===== src/Store/RateLimit/Tests.antt =====
-- The rate limit on a concrete run.
use inst_video_downloader_tg.Base.{ℕ, ◌≤◌, refl, max, List, [], ◌∷◌}
use inst_video_downloader_tg.Base.Int.{pos}
use inst_video_downloader_tg.Sql.{row_count}
use inst_video_downloader_tg.Store.RateLimit.{RateEvent, in_window}
use inst_video_downloader_tg.Store.RateLimit.Window.{Check, check_all, rate_window}

abbrev try_at : ℕ → Check
try_at n = record { event_id = "e"; user_id = pos 7; now = n; source = "request" }

abbrev tries : List Check
tries = try_at 1000000 ∷ try_at 2000000 ∷ try_at 3000000 ∷ try_at 62000000 ∷ []

abbrev old : RateEvent
old = record { event_id = "e1"; user_id = pos 7; source = "request"; created_at = 1000000 }

rate_window_example :
    row_count (in_window 60 62000000 (pos 7)) (check_all 2 60 tries ([], [])).1 ≤ max 1 2
rate_window_example = rate_window 2 60 0 62000000 tries refl (pos 7)
