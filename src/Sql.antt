-- ===== src/Sql.antt =====
-- The SQL statements of services/state_store.py act on a table as a list of rows, in rowid order.
pub mod Laws
pub mod Any
pub mod Keys
pub mod Refinement
pub mod Order
pub mod Sorting
use inst_video_downloader_tg.Base.{
  ℕ, suc, ◌+◌, Bool, true, false, not, Option, none, some, List, [], ◌∷◌, ◌++◌, any, leb,
  if◌then◌else◌,
}

module _ {ℓ} {R : Type ℓ} where
  -- SELECT ... WHERE p
  unfoldable pub select : (R → Bool) → List R → List R
  select p [] = []
  select p (r ∷ rs) = let rest = select p rs in if p r then r ∷ rest else rest

  -- SELECT ... WHERE p, then fetchone()
  unfoldable pub fetch_one : (R → Bool) → List R → Option R
  fetch_one p [] = none
  fetch_one p (r ∷ rs) = if p r then some r else fetch_one p rs

  -- UPDATE ... SET f WHERE p
  unfoldable pub update : (R → Bool) → (R → R) → List R → List R
  update p f [] = []
  update p f (r ∷ rs) = (if p r then f r else r) ∷ update p f rs

  -- cursor.rowcount after UPDATE ... WHERE p; SELECT COUNT(*) ... WHERE p
  unfoldable pub row_count : (R → Bool) → List R → ℕ
  row_count p [] = 0
  row_count p (r ∷ rs) = (if p r then 1 else 0) + row_count p rs

  -- DELETE ... WHERE p
  unfoldable pub delete : (R → Bool) → List R → List R
  delete p [] = []
  delete p (r ∷ rs) = let rest = delete p rs in if p r then rest else r ∷ rest

  -- INSERT of a row, where `conflict` recognises rows with its primary key; `none` is an
  -- IntegrityError.
  unfoldable pub insert : (R → Bool) → R → List R → Option (List R)
  insert conflict r rs = if any conflict rs then none else some (rs ++ r ∷ [])

  -- INSERT ... ON CONFLICT (key) DO UPDATE SET f
  unfoldable pub upsert : (R → Bool) → R → (R → R) → List R → List R
  unfolding update
  upsert conflict r f rs = if any conflict rs then update conflict f rs else rs ++ r ∷ []

  -- ORDER BY f ASC, then fetchone(); rows with the same f come in rowid order.
  unfoldable pub first_by : (R → ℕ) → List R → Option R
  first_by f [] = none
  first_by f (r ∷ rs) = elim (first_by f rs) [
    | none ↦ some r
    | some s ↦ if leb (f r) (f s) then some r else some s
  ]

  -- ORDER BY f DESC, then fetchone()
  unfoldable pub last_by : (R → ℕ) → List R → Option R
  last_by f [] = none
  last_by f (r ∷ rs) = elim (last_by f rs) [
    | none ↦ some r
    | some s ↦ if leb (f s) (f r) then some r else some s
  ]

  -- Put a row before the first one that `before` does not place ahead of it.
  unfoldable pub place : (R → R → Bool) → R → List R → List R
  place before r [] = r ∷ []
  place before r (s ∷ rs) =
      let rest = place before r rs in if before s r then s ∷ rest else r ∷ s ∷ rs

  -- ORDER BY, where `before a b` tells that a comes strictly ahead of b
  unfoldable pub order_by : (R → R → Bool) → List R → List R
  unfolding place
  order_by before [] = []
  order_by before (r ∷ rs) = place before r (order_by before rs)
