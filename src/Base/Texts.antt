-- ===== src/Base/Texts.antt =====
-- Python's `needle in text` on native texts.
use mathlib.Core.Bool.{Bool, true, false, ◌&&◌, ◌||◌}
use mathlib.Core.List.{List, [], ◌∷◌}
use Prim.Native.Char.{code}
use Prim.Native.String.{String}
use inst_video_downloader_tg.Base.Tests.{nat_eq}

-- text.startswith(prefix)
unfoldable pub has_prefix : String → String → Bool
has_prefix String.[] s = true
has_prefix (String.◌∷◌ p ps) String.[] = false
has_prefix (String.◌∷◌ p ps) (String.◌∷◌ c cs) = nat_eq (code p) (code c) && has_prefix ps cs

-- needle in text
unfoldable pub contains : String → String → Bool
unfolding has_prefix
contains needle String.[] = has_prefix needle String.[]
contains needle (String.◌∷◌ c cs) = has_prefix needle (String.◌∷◌ c cs) || contains needle cs

-- any(needle in text for needle in needles)
unfoldable pub contains_any : String → List String → Bool
unfolding contains
contains_any text [] = false
contains_any text (n ∷ ns) = contains n text || contains_any text ns
