-- ===== src/Base/Prefix.antt =====
-- Whether a text that is put together starts with a given prefix.
use Prim.Native.Char.{code}
use Prim.Native.String.{String, ◌++◌ as append}
use mathlib.Core.Path.{◌≡◌, refl}
use mathlib.Core.Bool.{Bool, true, false}
use mathlib.Core.Logic.{inl, inr}
use native.Mathlib.Omega.{arith}
use text.Mathlib.TextLemmas.{cons-append}
use inst_video_downloader_tg.Base.Tests.{nat_eq, if◌then◌else◌, Bool-cases}
use inst_video_downloader_tg.Base.Texts.{has_prefix}

pub has_prefix-append : (l s : String) → has_prefix l (append l s) ≡ true
unfolding has_prefix
has_prefix-append String.[] s = refl
has_prefix-append (String.◌∷◌ c l) s =
    rw (cons-append c l s) (ground (arith, has_prefix-append l s))

-- Whether two texts differ at a place that both have
abbrev pub clash : String → String → Bool
clash String.[] m = false
clash (String.◌∷◌ c p) String.[] = false
clash (String.◌∷◌ c p) (String.◌∷◌ d m) = if nat_eq (code c) (code d) then clash p m else true

pub has_prefix-clash : (p m s : String) → clash p m ≡ true → has_prefix p (append m s) ≡ false
unfolding has_prefix
has_prefix-clash String.[] m s h = absurd (ground (arith, h))
has_prefix-clash (String.◌∷◌ c p) String.[] s h = absurd (ground (arith, h))
has_prefix-clash (String.◌∷◌ c p) (String.◌∷◌ d m) s h =
    elim (Bool-cases (nat_eq (code c) (code d))) [
      | inl y ↦ rw (cons-append d m s, y, has_prefix-clash p m s (ground (arith, y, h))) refl
      | inr n ↦ rw (cons-append d m s, n) refl
    ]
