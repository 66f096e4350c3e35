-- ===== src/Base/Order.antt =====
-- Facts on `==` of texts that the components share.
use Prim.Native.Nat.{ℕ, zero, suc}
use Prim.Native.String.{String, ◌++◌ as append}
use mathlib.Core.Path.{◌≡◌}
use mathlib.Core.Bool.{false}
use mathlib.Core.Logic.{◌≢◌}
use native.Mathlib.Omega.{arith}
use text.Mathlib.TextLemmas.{nil-append, cons-append}
use text.Mathlib.Text.{◌==◌}
use text.Mathlib.TextEquality.{eq_iff}

pub ==_comm : (s t : String) → (s == t) ≡ (t == s)
==_comm s t = ground (arith, eq_iff s t, eq_iff t s)

pub ne→==_false : (s t : String) → s ≢ t → (s == t) ≡ false
ne→==_false s t h = ground (arith, eq_iff s t)

-- Python's s[n:], on characters
unfoldable pub drop_chars : ℕ → String → String
drop_chars zero s = s
drop_chars (suc n) String.[] = String.[]
drop_chars (suc n) (String.◌∷◌ c s) = drop_chars n s

abbrev pub chars : String → ℕ
chars String.[] = 0
chars (String.◌∷◌ c s) = suc (chars s)

-- `drop_chars` at the number of characters of a prefix gives the rest.
pub drop_chars-append : (l s : String) → drop_chars (chars l) (append l s) ≡ s
unfolding drop_chars
drop_chars-append String.[] s = nil-append s
drop_chars-append (String.◌∷◌ c l) s = rw (cons-append c l s) (drop_chars-append l s)

pub drop_chars-inline : (s : String) → drop_chars 7 (append "inline:" s) ≡ s
drop_chars-inline s = drop_chars-append "inline:" s
