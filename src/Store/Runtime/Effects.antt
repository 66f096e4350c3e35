-- ===== src/Store/Runtime/Effects.antt =====
-- Reading back what an update of the runtime settings wrote.
use mathlib.Core.Path.{subst}
use inst_video_downloader_tg.Base.{
  ℕ, ◌≡◌, refl, ap, ◌∙◌, Bool, true, false, Option, none, some, List, [], ◌∷◌, String, ◌==◌, arith,
  eq_iff, All, if◌then◌else◌, inl, inr, Bool-cases, Option-cases,
}
use inst_video_downloader_tg.Sql.{fetch_one}
use inst_video_downloader_tg.Sql.Keys.{at, has, Unique, at-upsert, Unique-upsert}
use inst_video_downloader_tg.Store.Runtime.{
  RuntimeRow, runtime_pk, RuntimeSettings, Texts, parse_runtime_bool, or_else, read_row, read_rows,
  get_inline_runtime_settings, put_value, bool_text, number_text, update_inline_runtime_settings,
}

abbrev number_of : Texts → ℕ → Option RuntimeRow → ℕ
number_of x d none = d
number_of x d (some r) = or_else d (x.int r.value)

abbrev bool_of : Texts → Bool → Option RuntimeRow → Bool
bool_of x d none = d
bool_of x d (some r) = or_else d (parse_runtime_bool x r.value)

-- The settings as the rows of their three keys tell them
abbrev pub by_key : Texts → RuntimeSettings → (String → Option RuntimeRow) → RuntimeSettings
by_key x d row = record {
  subscription_stars = number_of x d.subscription_stars (row "subscription_stars");
  one_time_enabled = bool_of x d.one_time_enabled (row "one_time_enabled");
  one_time_stars = number_of x d.one_time_stars (row "one_time_stars");
}

absent-at :
    (k : String) (t : List RuntimeRow)
    → All (λ s. has runtime_pk k s ≡ false) t
    → at runtime_pk t k ≡ none
unfolding fetch_one
absent-at k [] h = refl
absent-at k (r ∷ t) h = rw h.0 (absent-at k t h.1)

own_key :
    (k : String) (r : RuntimeRow) (t : List RuntimeRow)
    → (r.key == k) ≡ true
    → All (λ s. has runtime_pk r.key s ≡ false) t
    → at runtime_pk t k ≡ none
own_key k r t y h =
    absent-at k t (subst (λ j. All (λ s. has runtime_pk j s ≡ false) t) ((eq_iff r.key k).0 y) h)

by_key-row :
    (x : Texts) (d : RuntimeSettings) (r : RuntimeRow) (t : List RuntimeRow)
    → All (λ s. has runtime_pk r.key s ≡ false) t
    → by_key x (read_row x d r) (at runtime_pk t) ≡ by_key x d (at runtime_pk (r ∷ t))
unfolding read_row fetch_one
by_key-row x d r t h = elim (Bool-cases (r.key == "subscription_stars")) [
  | inl y ↦
      let e = (eq_iff r.key "subscription_stars").0 y in
      let n : (r.key == "one_time_stars") ≡ false = rw e refl in
      let n' : (r.key == "one_time_enabled") ≡ false = rw e refl in
      let a = own_key "subscription_stars" r t y h in ground (arith, y, n, n', a)
  | inr n ↦ elim (Bool-cases (r.key == "one_time_stars")) [
    | inl y ↦
        let e = (eq_iff r.key "one_time_stars").0 y in
        let n' : (r.key == "one_time_enabled") ≡ false = rw e refl in
        let a = own_key "one_time_stars" r t y h in ground (arith, y, n, n', a)
    | inr n' ↦ elim (Bool-cases (r.key == "one_time_enabled")) [
      | inl y ↦ let a = own_key "one_time_enabled" r t y h in ground (arith, y, n, n', a)
      | inr z ↦ ground (arith, n, n', z)
    ]
  ]
]

read_rows-by_key :
    (x : Texts) (d : RuntimeSettings) (t : List RuntimeRow)
    → Unique runtime_pk t
    → read_rows x d t ≡ by_key x d (at runtime_pk t)
unfolding read_rows fetch_one
read_rows-by_key x d [] u = refl
read_rows-by_key x d (r ∷ t) u = read_rows-by_key x (read_row x d r) t u.1 ∙ by_key-row x d r t u.0

-- What int and strip().lower() give on the texts that the update writes
pub record ReadsBack (x : Texts) : Type 0 where
  pub numbers : (n : ℕ) → x.int (x.str n) ≡ some n
  pub one : x.strip_lower "1" ≡ "1"
  pub nought : x.strip_lower "0" ≡ "0"

abbrev put_row : ℕ → String → Option String → Option RuntimeRow → Option RuntimeRow
put_row now key none o = o
put_row now key (some value) none = some (record { key = key; value = value; updated_at = now })
put_row now key (some value) (some r) = some (record r { value = value; updated_at = now })

at-put_value :
    (now : ℕ) (key j : String) (v : Option String) (t : List RuntimeRow)
    → at runtime_pk (put_value now key v t) j
      ≡ (if key == j then put_row now key v (at runtime_pk t key) else at runtime_pk t j)
at-put_value now key j none t = elim (Bool-cases (key == j)) [
  | inl y ↦ let e = (eq_iff key j).0 y in rw y (rw e refl)
  | inr n ↦ rw n refl
]
at-put_value now key j (some value) t =
    let row =
      at-upsert runtime_pk key j (record { key = key; value = value; updated_at = now })
        (λ r. record r { value = value; updated_at = now }) t (λ r. refl) refl in
    elim (Option-cases (at runtime_pk t key)) [
      | inl e ↦ row ∙ rw e refl
      | inr (r, e) ↦ row ∙ rw e refl
    ]

Unique-put_value :
    (now : ℕ) (key : String) (v : Option String) (t : List RuntimeRow)
    → Unique runtime_pk t
    → Unique runtime_pk (put_value now key v t)
Unique-put_value now key none t u = u
Unique-put_value now key (some value) t u =
    Unique-upsert runtime_pk key (record { key = key; value = value; updated_at = now })
      (λ r. record r { value = value; updated_at = now }) t (λ r. refl) refl u

number-put :
    (x : Texts) (d now : ℕ) (key : String) (n : Option ℕ) (o : Option RuntimeRow)
    → ReadsBack x
    → number_of x d (put_row now key (number_text x n) o) ≡ or_else (number_of x d o) n
number-put x d now key none o h = refl
number-put x d now key (some n) none h = rw (h.numbers n) refl
number-put x d now key (some n) (some r) h = rw (h.numbers n) refl

bool-put :
    (x : Texts) (d : Bool) (now : ℕ) (key : String) (b : Option Bool) (o : Option RuntimeRow)
    → ReadsBack x
    → bool_of x d (put_row now key (bool_text b) o) ≡ or_else (bool_of x d o) b
unfolding parse_runtime_bool
bool-put x d now key none o h = refl
bool-put x d now key (some true) none h = rw h.one refl
bool-put x d now key (some true) (some r) h = rw h.one refl
bool-put x d now key (some false) none h = rw h.nought refl
bool-put x d now key (some false) (some r) h = rw h.nought refl

-- An update of the prices and the one-time switch is read back: each setting that is given has the value
-- given, and each that is left out has the value it had, stored or configured, if int reads back what str
-- writes and stripping leaves "1" and "0".
pub runtime_roundtrip :
    (x : Texts) (d : RuntimeSettings) (now : ℕ) (stars : Option ℕ) (enabled : Option Bool)
    (once : Option ℕ) (t : List RuntimeRow)
    → ReadsBack x
    → Unique runtime_pk t
    → let before = get_inline_runtime_settings x d t in
      get_inline_runtime_settings x d (update_inline_runtime_settings x now stars enabled once t)
      ≡ record {
        subscription_stars = or_else before.subscription_stars stars;
        one_time_enabled = or_else before.one_time_enabled enabled;
        one_time_stars = or_else before.one_time_stars once;
      }
unfolding get_inline_runtime_settings update_inline_runtime_settings
runtime_roundtrip x d now stars enabled once t h u =
    let t1 = put_value now "subscription_stars" (number_text x stars) t in
    let t2 = put_value now "one_time_enabled" (bool_text enabled) t1 in
    let t3 = put_value now "one_time_stars" (number_text x once) t2 in
    let u1 = Unique-put_value now "subscription_stars" (number_text x stars) t u in
    let u2 = Unique-put_value now "one_time_enabled" (bool_text enabled) t1 u1 in
    let u3 = Unique-put_value now "one_time_stars" (number_text x once) t2 u2 in
    let a1 : at runtime_pk t3 "subscription_stars"
        ≡ put_row now "subscription_stars" (number_text x stars)
            (at runtime_pk t "subscription_stars") =
      at-put_value now "one_time_stars" "subscription_stars" (number_text x once) t2
      ∙ at-put_value now "one_time_enabled" "subscription_stars" (bool_text enabled) t1
      ∙ at-put_value now "subscription_stars" "subscription_stars" (number_text x stars) t in
    let a2 : at runtime_pk t3 "one_time_enabled"
        ≡ put_row now "one_time_enabled" (bool_text enabled) (at runtime_pk t "one_time_enabled") =
      at-put_value now "one_time_stars" "one_time_enabled" (number_text x once) t2
      ∙ at-put_value now "one_time_enabled" "one_time_enabled" (bool_text enabled) t1
      ∙ ap (put_row now "one_time_enabled" (bool_text enabled))
          (at-put_value now "subscription_stars" "one_time_enabled" (number_text x stars) t) in
    let a3 : at runtime_pk t3 "one_time_stars"
        ≡ put_row now "one_time_stars" (number_text x once) (at runtime_pk t "one_time_stars") =
      at-put_value now "one_time_stars" "one_time_stars" (number_text x once) t2
      ∙ ap (put_row now "one_time_stars" (number_text x once)) (
          at-put_value now "one_time_enabled" "one_time_stars" (bool_text enabled) t1
          ∙ at-put_value now "subscription_stars" "one_time_stars" (number_text x stars) t) in
    read_rows-by_key x d t3 u3
    ∙ rw
        (
          a1,
          a2,
          a3,
          read_rows-by_key x d t u,
          number-put x d.subscription_stars now "subscription_stars" stars
              (at runtime_pk t "subscription_stars") h,
          bool-put x d.one_time_enabled now "one_time_enabled" enabled
              (at runtime_pk t "one_time_enabled") h,
          number-put x d.one_time_stars now "one_time_stars" once (at runtime_pk t "one_time_stars")
              h,
        )
        refl
