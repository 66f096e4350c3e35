-- ===== src/Base/Split.antt =====
-- Python's str.strip() and str.split(":") on native texts, and how the latter undoes a join.
use Prim.Native.Char.{Char, code}
use Prim.Native.String.{String, ◌++◌ as append}
use mathlib.Core.Path.{◌≡◌, refl, sym, ap}
use mathlib.Core.Bool.{Bool, true, false, not, ◌&&◌, ◌||◌}
use mathlib.Core.List.{List, [], ◌∷◌}
use native.Mathlib.Omega.{arith}
use text.Mathlib.TextLemmas.{nil-append, cons-append, append-nil}
use mathlib.Core.Logic.{inl, inr}
use inst_video_downloader_tg.Base.Tests.{nat_eq, leb, if◌then◌else◌, Bool-cases}

-- The characters that str.isspace() accepts
abbrev pub is_space : Char → Bool
is_space c =
    let n = code c in
    (leb 9 n && leb n 13)
    || ((leb 28 n && leb n 32)
        || (nat_eq n 133
            || (nat_eq n 160
                || (nat_eq n 5760
                    || ((leb 8192 n && leb n 8202)
                        || (nat_eq n 8232
                            || (nat_eq n 8233
                                || (nat_eq n 8239 || (nat_eq n 8287 || nat_eq n 12288)))))))))

unfoldable pub lstrip : String → String
lstrip String.[] = String.[]
lstrip (String.◌∷◌ c s) = let rest = lstrip s in if is_space c then rest else String.◌∷◌ c s

abbrev pub is_blank : String → Bool
is_blank String.[] = true
is_blank (String.◌∷◌ c s) = false

unfoldable pub rstrip : String → String
rstrip String.[] = String.[]
rstrip (String.◌∷◌ c s) =
    let rest = rstrip s in if is_blank rest && is_space c then String.[] else String.◌∷◌ c rest

unfoldable pub strip : String → String
unfolding lstrip rstrip
strip s = rstrip (lstrip s)

abbrev pub is_colon : Char → Bool
is_colon c = nat_eq (code c) 58

unfoldable pub no_colon : String → Bool
no_colon String.[] = true
no_colon (String.◌∷◌ c s) = not (is_colon c) && no_colon s

abbrev pub cons_first : Char → List String → List String
cons_first c [] = []
cons_first c (p ∷ ps) = String.◌∷◌ c p ∷ ps

-- text.split(":")
unfoldable pub split_colon : String → List String
split_colon String.[] = String.[] ∷ []
split_colon (String.◌∷◌ c s) =
    let rest = split_colon s in if is_colon c then String.[] ∷ rest else cons_first c rest

-- The parts of two texts that are joined: the last of the one and the first of the other become one.
abbrev pub glue : List String → List String → List String
glue [] qs = qs
glue (p ∷ []) [] = p ∷ []
glue (p ∷ []) (q ∷ qs) = append p q ∷ qs
glue (p ∷ r ∷ rs) qs = p ∷ glue (r ∷ rs) qs

-- The parts are never none.
pub split_colon-parts : (s : String) → (p : String) × (ps : List String) × (split_colon s ≡ p ∷ ps)
unfolding split_colon
split_colon-parts String.[] = (String.[], [], refl)
split_colon-parts (String.◌∷◌ c s) =
    let (p, ps, e) = split_colon-parts s in
    elim (Bool-cases (is_colon c)) [
      | inl y ↦ (String.[], p ∷ ps, rw (y, e) refl)
      | inr n ↦ (String.◌∷◌ c p, ps, rw (n, e) refl)
    ]

cons_first-glue :
    (c : Char) (p : String) (ps : List String) (q : String) (qs : List String)
    → cons_first c (glue (p ∷ ps) (q ∷ qs)) ≡ glue (String.◌∷◌ c p ∷ ps) (q ∷ qs)
cons_first-glue c p [] q qs = ap (λ t. t ∷ qs) (sym (cons-append c p q))
cons_first-glue c p (r ∷ rs) q qs = refl

pub split_colon-append :
    (a b : String) → split_colon (append a b) ≡ glue (split_colon a) (split_colon b)
unfolding split_colon
split_colon-append String.[] b =
    let (q, qs, e) = split_colon-parts b in
    rw (nil-append b, e) (ap (λ t. t ∷ qs) (sym (nil-append q)))
split_colon-append (String.◌∷◌ c a) b =
    let (p, ps, e) = split_colon-parts a in
    let (q, qs, f) = split_colon-parts b in
    let ih = split_colon-append a b in
    elim (Bool-cases (is_colon c)) [
      | inl y ↦ rw (cons-append c a b, y, ih, e) refl
      | inr n ↦ rw (cons-append c a b, n, ih, e, f) (cons_first-glue c p ps q qs)
    ]

-- A text without a colon is one part.
pub split_colon-no_colon : (s : String) → no_colon s ≡ true → split_colon s ≡ s ∷ []
unfolding split_colon no_colon
split_colon-no_colon String.[] h = refl
split_colon-no_colon (String.◌∷◌ c s) h = elim (Bool-cases (is_colon c)) [
  | inl y ↦ absurd (ground (arith, y, h))
  | inr n ↦ rw (n, split_colon-no_colon s (ground (arith, n, h))) refl
]

-- A part without a colon comes off at the colon after it.
pub split_colon-cons :
    (a b : String) → no_colon a ≡ true → split_colon (append a (append ":" b)) ≡ a ∷ split_colon b
split_colon-cons a b h =
    let (q, qs, e) = split_colon-parts b in
    rw (split_colon-append a (append ":" b), split_colon-append ":" b, split_colon-no_colon a h, e)
      (unfold split_colon in rw (nil-append q, append-nil a) refl)

pub split_colon-colon : (b : String) → split_colon (append ":" b) ≡ String.[] ∷ split_colon b
split_colon-colon b =
    let (q, qs, e) = split_colon-parts b in
    rw (split_colon-append ":" b, e) (unfold split_colon in rw (nil-append q) refl)
