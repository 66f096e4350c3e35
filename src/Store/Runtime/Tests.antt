-- ===== src/Store/Runtime/Tests.antt =====
-- An update of an empty table, with numbers written in unary.
use inst_video_downloader_tg.Base.{ℕ, zero, suc, ◌≡◌, refl, true, false, none, some, [], String}
use inst_video_downloader_tg.Store.Runtime.{
  RuntimeSettings, Texts, or_else, get_inline_runtime_settings, update_inline_runtime_settings,
}
use inst_video_downloader_tg.Store.Runtime.Effects.{runtime_roundtrip}

abbrev tally : ℕ → String
tally zero = String.[]
tally (suc n) = String.◌∷◌ "1" (tally n)

abbrev count : String → ℕ
count String.[] = 0
count (String.◌∷◌ c s) = suc (count s)

abbrev unary : Texts
unary = record { str = tally; int = λ s. some (count s); strip_lower = λ s. s }

count-tally : (n : ℕ) → count (tally n) ≡ n
count-tally zero = refl
count-tally (suc n) = rw (count-tally n) refl

abbrev defaults : RuntimeSettings
defaults = record { subscription_stars = 50; one_time_enabled = false; one_time_stars = 5 }

runtime_roundtrip_example :
    let before = get_inline_runtime_settings unary defaults [] in
    get_inline_runtime_settings unary defaults
      (update_inline_runtime_settings unary 10 (some 7) (some true) none [])
    ≡ record {
      subscription_stars = or_else before.subscription_stars (some 7);
      one_time_enabled = or_else before.one_time_enabled (some true);
      one_time_stars = or_else before.one_time_stars none;
    }
runtime_roundtrip_example =
    runtime_roundtrip unary defaults 10 (some 7) (some true) none []
      (record { numbers = λ n. rw (count-tally n) refl; one = refl; nought = refl }) tt
