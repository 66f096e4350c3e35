-- ===== src/Sql/Laws.antt =====
-- Laws of the statements, and what a primary key adds to them.
use mathlib.Core.Path.{subst}
use inst_video_downloader_tg.Base.{
  ◌≡◌, refl, Bool, true, false, Option, none, some, List, [], ◌∷◌, ◌++◌, arith, any, All,
  if◌then◌else◌, inl, inr, Bool-cases,
}
use inst_video_downloader_tg.Sql.{fetch_one, update, row_count}

module _ {ℓ} {R : Type ℓ} where
  -- What UPDATE leaves of one row.
  abbrev pub touched : (R → Bool) → (R → R) → Option R → Option R
  touched p f none = none
  touched p f (some r) = some (if p r then f r else r)

  pub fetch_one-update :
      (q p : R → Bool) (f : R → R) (rs : List R)
      → ((r : R) → q (f r) ≡ q r)
      → fetch_one q (update p f rs) ≡ touched p f (fetch_one q rs)
  unfolding fetch_one update
  fetch_one-update q p f [] h = refl
  fetch_one-update q p f (r ∷ rs) h = ground (arith, h r, fetch_one-update q p f rs h)

  pub fetch_one-append :
      (q : R → Bool) (rs ss : List R)
      → fetch_one q (rs ++ ss) ≡ (elim (fetch_one q rs) [ none ↦ fetch_one q ss | some r ↦ some r ])
  unfolding fetch_one
  fetch_one-append q [] ss = refl
  fetch_one-append q (r ∷ rs) ss = ground (arith, fetch_one-append q rs ss)

  pub any-fetch_one :
      (q : R → Bool) (rs : List R)
      → any q rs ≡ (elim (fetch_one q rs) [ none ↦ false | some _ ↦ true ])
  unfolding fetch_one
  any-fetch_one q [] = refl
  any-fetch_one q (r ∷ rs) = ground (arith, any-fetch_one q rs)

  pub fetch_one_sound : (q : R → Bool) (rs : List R) {r : R} → fetch_one q rs ≡ some r → q r ≡ true
  unfolding fetch_one
  fetch_one_sound q [] h = ground arith
  fetch_one_sound q (x ∷ rs) h = elim (Bool-cases (q x)) [
    | inl e ↦ ground (arith, e)
    | inr e ↦ fetch_one_sound q rs (ground (arith, e))
  ]

  none≢some : {r : R} → none ≡ some r → ⊥
  none≢some h = cc

  pub All-fetch_one {κ} :
      (P : R → Type κ) (q : R → Bool) (rs : List R) {r : R}
      → All P rs
      → fetch_one q rs ≡ some r
      → P r
  unfolding fetch_one
  All-fetch_one P q [] h e = absurd (none≢some e)
  All-fetch_one P q (x ∷ rs) {r} h e = elim (Bool-cases (q x)) [
    | inl y ↦ subst P (ground (arith, e)) h.0
    | inr n ↦ All-fetch_one P q rs h.1 (ground (arith, e))
  ]

  pub All-update {κ} :
      (P : R → Type κ) (p : R → Bool) (f : R → R) (rs : List R)
      → ((r : R) → p r ≡ true → P r → P (f r))
      → All P rs
      → All P (update p f rs)
  unfolding update
  All-update P p f [] keep h = tt
  All-update P p f (r ∷ rs) keep h = elim (Bool-cases (p r)) [
    | inl e ↦ rw e (keep r e h.0, All-update P p f rs keep h.1)
    | inr e ↦ rw e (h.0, All-update P p f rs keep h.1)
  ]

  pub All-append {κ} : (P : R → Type κ) (rs ss : List R) → All P rs → All P ss → All P (rs ++ ss)
  All-append P [] ss h k = k
  All-append P (r ∷ rs) ss h k = (h.0, All-append P rs ss h.1 k)

  -- An UPDATE that makes its own condition false leaves no row of it.
  pub All-update_cleared :
      (p : R → Bool) (f : R → R) (rs : List R)
      → ((r : R) → p (f r) ≡ false)
      → All (λ r. p r ≡ false) (update p f rs)
  unfolding update
  All-update_cleared p f [] h = tt
  All-update_cleared p f (r ∷ rs) h = (ground (arith, h r), All-update_cleared p f rs h)

  -- An UPDATE of no row changes nothing and counts none.
  pub update_idle :
      (p : R → Bool) (f : R → R) (rs : List R)
      → All (λ r. p r ≡ false) rs
      → (update p f rs ≡ rs) × (row_count p rs ≡ 0)
  unfolding update row_count
  update_idle p f [] h = (refl, refl)
  update_idle p f (r ∷ rs) h =
      let (same, none_) = update_idle p f rs h.1 in
      (ground (arith, h.0, same), ground (arith, h.0, none_))
