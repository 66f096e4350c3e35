-- ===== src/Sql/Sorting.antt =====
-- Sorted and selected rows keep their number and what holds of each.
use inst_video_downloader_tg.Base.{
  suc, ◌+◌, ◌≡◌, refl, Bool, true, List, [], ◌∷◌, ◌++◌, arith, length, All, inl, inr, Bool-cases,
}
use inst_video_downloader_tg.Sql.{select, row_count, place, order_by}

module _ {ℓ} {R : Type ℓ} where
  length-place : (b : R → R → Bool) (r : R) (rs : List R) → length (place b r rs) ≡ suc (length rs)
  unfolding place
  length-place b r [] = refl
  length-place b r (s ∷ rs) = elim (Bool-cases (b s r)) [
    | inl y ↦ rw y (omega (arith, length-place b r rs))
    | inr n ↦ rw n refl
  ]

  pub length-order_by : (b : R → R → Bool) (rs : List R) → length (order_by b rs) ≡ length rs
  unfolding order_by
  length-order_by b [] = refl
  length-order_by b (r ∷ rs) = omega (arith, length-place b r (order_by b rs), length-order_by b rs)

  pub length-select : (p : R → Bool) (rs : List R) → length (select p rs) ≡ row_count p rs
  unfolding select row_count
  length-select p [] = refl
  length-select p (r ∷ rs) = elim (Bool-cases (p r)) [
    | inl y ↦ rw y (omega (arith, length-select p rs))
    | inr n ↦ rw n (omega (arith, length-select p rs))
  ]

  pub row_count-append :
      (p : R → Bool) (rs ss : List R) → row_count p (rs ++ ss) ≡ row_count p rs + row_count p ss
  unfolding row_count
  row_count-append p [] ss = omega arith
  row_count-append p (r ∷ rs) ss = omega (arith, row_count-append p rs ss)

module _ {ℓ κ} {A : Type ℓ} (P : A → Type κ) where
  All-place : (b : A → A → Bool) (r : A) (rs : List A) → P r → All P rs → All P (place b r rs)
  unfolding place
  All-place b r [] p ps = (p, tt)
  All-place b r (s ∷ rs) p ps = elim (Bool-cases (b s r)) [
    | inl y ↦ rw y (ps.0, All-place b r rs p ps.1)
    | inr n ↦ rw n (p, ps)
  ]

  pub All-order_by : (b : A → A → Bool) (rs : List A) → All P rs → All P (order_by b rs)
  unfolding order_by
  All-order_by b [] ps = tt
  All-order_by b (r ∷ rs) ps = All-place b r (order_by b rs) ps.0 (All-order_by b rs ps.1)

pub All-select {ℓ} : {A : Type ℓ} (p : A → Bool) (rs : List A) → All (λ a. p a ≡ true) (select p rs)
unfolding select
All-select p [] = tt
All-select p (r ∷ rs) = elim (Bool-cases (p r)) [
  | inl y ↦ rw y (y, All-select p rs)
  | inr n ↦ rw n (All-select p rs)
]
