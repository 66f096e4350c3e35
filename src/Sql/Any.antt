-- ===== src/Sql/Any.antt =====
-- Whether some row satisfies a predicate after an INSERT ... ON CONFLICT.
use inst_video_downloader_tg.Base.{
  ◌≡◌, refl, ◌∙◌, Bool, true, false, ◌&&◌, ◌||◌, List, [], ◌∷◌, ◌++◌, arith, any, inl, inr,
  Bool-cases,
}
use inst_video_downloader_tg.Sql.{update, upsert}

module _ {ℓ} {R : Type ℓ} (p q : R → Bool) where
  any-append : (r : R) (t : List R) → any p (t ++ r ∷ []) ≡ any p t || p r
  any-append r [] = ground arith
  any-append r (x ∷ t) = ground (arith, any-append r t)

  -- The written rows are the only ones that can satisfy p.
  module _ (within : (r : R) → p r ≡ true → q r ≡ true) (f : R → R) (v : Bool)
      (written : (r : R) → q r ≡ true → p (f r) ≡ v) where
    any-update_in : (t : List R) → any p (update q f t) ≡ any q t && v
    unfolding update
    any-update_in [] = refl
    any-update_in (r ∷ t) = elim (Bool-cases (q r)) [
      | inl y ↦ ground (arith, y, written r y, any-update_in t)
      | inr n ↦ elim (Bool-cases (p r)) [
        | inl a ↦ absurd (ground (arith, n, within r a))
        | inr b ↦ ground (arith, n, b, any-update_in t)
      ]
    ]

    absent : (t : List R) → any q t ≡ false → any p t ≡ false
    absent [] h = refl
    absent (r ∷ t) h = elim (Bool-cases (p r)) [
      | inl a ↦ absurd (ground (arith, h, within r a))
      | inr b ↦ ground (arith, b, absent t (ground (arith, h)))
    ]

    pub any-upsert_in : (new : R) (t : List R) → p new ≡ v → any p (upsert q new f t) ≡ v
    unfolding upsert
    any-upsert_in new t e = elim (Bool-cases (any q t)) [
      | inl y ↦ rw y (any-update_in t ∙ rw y refl)
      | inr n ↦ rw n (any-append new t ∙ rw (absent t n, e) refl)
    ]

  -- The written rows satisfy p no more and no less than they did.
  module _ (f : R → R) (kept : (r : R) → q r ≡ true → p (f r) ≡ p r) where
    any-update_out : (t : List R) → any p (update q f t) ≡ any p t
    unfolding update
    any-update_out [] = refl
    any-update_out (r ∷ t) = elim (Bool-cases (q r)) [
      | inl y ↦ ground (arith, y, kept r y, any-update_out t)
      | inr n ↦ ground (arith, n, any-update_out t)
    ]

    pub any-upsert_out : (new : R) (t : List R) → p new ≡ false → any p (upsert q new f t) ≡ any p t
    unfolding upsert
    any-upsert_out new t e = elim (Bool-cases (any q t)) [
      | inl y ↦ rw y (any-update_out t)
      | inr n ↦ rw n (any-append new t ∙ ground (arith, e))
    ]
