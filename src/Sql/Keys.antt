-- ===== src/Sql/Keys.antt =====
-- A primary key: at most one row has a given key, so a table is a map from keys to rows.
use mathlib.Core.Path.{subst}
use inst_video_downloader_tg.Base.{
  ℕ, ◌≡◌, refl, ap, ◌↔◌, Bool, true, false, ◌&&◌, Option, none, some, List, [], ◌∷◌, ◌++◌, arith,
  any, All, if◌then◌else◌, inl, inr, Bool-cases, Option-cases,
}
use inst_video_downloader_tg.Sql.{fetch_one, update, row_count, upsert, insert}
use inst_video_downloader_tg.Sql.Laws.{
  touched, fetch_one-update, fetch_one-append, any-fetch_one, fetch_one_sound,
}

pub record Key {ℓ κ} (R : Type ℓ) (K : Type κ) : Type (ℓ ⊔ κ) where
  pub key : R → K
  pub beq : K → K → Bool
  pub beq_iff : (a b : K) → (beq a b ≡ true) ↔ (a ≡ b)

module _ {ℓ κ} {R : Type ℓ} {K : Type κ} (pk : Key R K) where
  -- WHERE key = k
  abbrev pub has : K → R → Bool
  has k r = pk.beq (pk.key r) k

  -- The row with a key, which is what a table means.
  abbrev pub at : List R → K → Option R
  at rs k = fetch_one (has k) rs

  abbrev pub Unique : List R → Type ℓ
  Unique [] = Unit
  Unique (r ∷ rs) = All (λ s. has (pk.key r) s ≡ false) rs × Unique rs

  abbrev pub Keeps : (R → R) → Type (ℓ ⊔ κ)
  Keeps f = (r : R) → pk.key (f r) ≡ pk.key r

  -- The rowcount of an UPDATE of one key.
  abbrev pub hits : (R → Bool) → Option R → ℕ
  hits c none = 0
  hits c (some r) = if c r then 1 else 0

  row_count-absent :
      (k : K) (c : R → Bool) (rs : List R)
      → All (λ s. has k s ≡ false) rs
      → row_count (λ r. has k r && c r) rs ≡ 0
  unfolding row_count
  row_count-absent k c [] h = refl
  row_count-absent k c (r ∷ rs) h = ground (arith, h.0, row_count-absent k c rs h.1)

  has_eq : (k : K) (r : R) → has k r ≡ true → pk.key r ≡ k
  has_eq k r h = (pk.beq_iff (pk.key r) k).0 h

  pub row_count-keyed :
      (k : K) (c : R → Bool) (rs : List R)
      → Unique rs
      → row_count (λ r. has k r && c r) rs ≡ hits c (at rs k)
  unfolding row_count fetch_one
  row_count-keyed k c [] u = refl
  row_count-keyed k c (r ∷ rs) u = elim (Bool-cases (has k r)) [
    | inl e ↦
        let absent : All (λ s. has k s ≡ false) rs =
          subst (λ j. All (λ s. has j s ≡ false) rs) (has_eq k r e) u.0 in
        ground (arith, e, row_count-absent k c rs absent)
    | inr e ↦ ground (arith, e, row_count-keyed k c rs u.1)
  ]

  -- SELECT ... WHERE key = k AND c, seen on the row of the key
  abbrev pub kept_if : (R → Bool) → Option R → Option R
  kept_if c none = none
  kept_if c (some r) = if c r then some r else none

  fetch_one-absent :
      (k : K) (c : R → Bool) (rs : List R)
      → All (λ s. has k s ≡ false) rs
      → fetch_one (λ r. has k r && c r) rs ≡ none
  unfolding fetch_one
  fetch_one-absent k c [] h = refl
  fetch_one-absent k c (r ∷ rs) h = rw h.0 (fetch_one-absent k c rs h.1)

  pub fetch_one-keyed :
      (k : K) (c : R → Bool) (rs : List R)
      → Unique rs
      → fetch_one (λ r. has k r && c r) rs ≡ kept_if c (at rs k)
  unfolding fetch_one
  fetch_one-keyed k c [] u = refl
  fetch_one-keyed k c (r ∷ rs) u = elim (Bool-cases (has k r)) [
    | inl e ↦
        let absent : All (λ s. has k s ≡ false) rs =
          subst (λ j. All (λ s. has j s ≡ false) rs) (has_eq k r e) u.0 in
        rw e (elim (Bool-cases (c r)) [
          | inl y ↦ rw y refl
          | inr n ↦ rw n (fetch_one-absent k c rs absent)
        ])
    | inr e ↦ rw e (fetch_one-keyed k c rs u.1)
  ]

  has-Keeps : (k : K) (f : R → R) → Keeps f → (r : R) → has k (f r) ≡ has k r
  has-Keeps k f keep r = ap (λ j. pk.beq j k) (keep r)

  -- An UPDATE that reads one key changes that row, if the rest of its condition holds, and no other.
  pub at-update :
      (k j : K) (c : R → Bool) (f : R → R) (rs : List R)
      → Keeps f
      → at (update (λ r. has k r && c r) f rs) j
        ≡ (if pk.beq k j then touched c f (at rs j) else at rs j)
  unfolding fetch_one update
  at-update k j c f [] keep = ground arith
  at-update k j c f (r ∷ rs) keep = ground (
    arith,
    at-update k j c f rs keep,
    keep r,
    pk.beq_iff k j,
    pk.beq_iff (pk.key r) k,
    pk.beq_iff (pk.key r) j,
  )

  at-upsert_self :
      (k : K) (new : R) (f : R → R) (rs : List R)
      → Keeps f
      → pk.key new ≡ k
      → at (upsert (has k) new f rs) k ≡ some (elim (at rs k) [ none ↦ new | some r ↦ f r ])
  unfolding upsert fetch_one
  at-upsert_self k new f rs keep e = elim (Option-cases (at rs k)) [
    | inl absent ↦ ground (
      arith,
      any-fetch_one (has k) rs,
      absent,
      fetch_one-append (has k) rs (new ∷ []),
      pk.beq_iff (pk.key new) k,
    )
    | inr (r, found) ↦ ground (
      arith,
      any-fetch_one (has k) rs,
      found,
      fetch_one_sound (has k) rs found,
      fetch_one-update (has k) (has k) f rs (has-Keeps k f keep),
    )
  ]

  at-upsert_other :
      (k j : K) (new : R) (f : R → R) (rs : List R)
      → Keeps f
      → pk.key new ≡ k
      → pk.beq k j ≡ false
      → at (upsert (has k) new f rs) j ≡ at rs j
  unfolding upsert fetch_one
  at-upsert_other k j new f rs keep e n = elim (Option-cases (at rs j)) [
    | inl absent ↦ ground (
      arith,
      absent,
      e,
      fetch_one-append (has j) rs (new ∷ []),
      fetch_one-update (has j) (has k) f rs (has-Keeps j f keep),
    )
    | inr (r, found) ↦ ground (
      arith,
      found,
      fetch_one_sound (has j) rs found,
      pk.beq_iff k j,
      pk.beq_iff (pk.key r) j,
      pk.beq_iff (pk.key r) k,
      fetch_one-append (has j) rs (new ∷ []),
      fetch_one-update (has j) (has k) f rs (has-Keeps j f keep),
    )
  ]

  pub at-upsert :
      (k j : K) (new : R) (f : R → R) (rs : List R)
      → Keeps f
      → pk.key new ≡ k
      → at (upsert (has k) new f rs) j
        ≡ (if pk.beq k j then some (elim (at rs k) [ none ↦ new | some r ↦ f r ]) else at rs j)
  unfolding upsert
  at-upsert k j new f rs keep e = elim (Bool-cases (pk.beq k j)) [
    | inl y ↦ rw y (
        subst
          (λ i.
            at (upsert (has k) new f rs) i ≡ some (elim (at rs k) [ none ↦ new | some r ↦ f r ]))
          ((pk.beq_iff k j).0 y) (at-upsert_self k new f rs keep e))
    | inr n ↦ rw n (at-upsert_other k j new f rs keep e n)
  ]

  All-absent-update :
      (k : K) (p : R → Bool) (f : R → R) (rs : List R)
      → Keeps f
      → All (λ s. has k s ≡ false) rs
      → All (λ s. has k s ≡ false) (update p f rs)
  unfolding update
  All-absent-update k p f [] keep h = tt
  All-absent-update k p f (r ∷ rs) keep h =
      (ground (arith, h.0, has-Keeps k f keep r), All-absent-update k p f rs keep h.1)

  pub Unique-update :
      (p : R → Bool) (f : R → R) (rs : List R) → Keeps f → Unique rs → Unique (update p f rs)
  unfolding update
  Unique-update p f [] keep u = tt
  Unique-update p f (r ∷ rs) keep u = elim (Bool-cases (p r)) [
    | inl e ↦
        rw (e, keep r) (All-absent-update (pk.key r) p f rs keep u.0, Unique-update p f rs keep u.1)
    | inr e ↦ rw e (All-absent-update (pk.key r) p f rs keep u.0, Unique-update p f rs keep u.1)
  ]

  All-absent-append :
      (k : K) (new : R) (rs : List R)
      → has k new ≡ false
      → All (λ s. has k s ≡ false) rs
      → All (λ s. has k s ≡ false) (rs ++ new ∷ [])
  All-absent-append k new [] e h = (e, tt)
  All-absent-append k new (r ∷ rs) e h = (h.0, All-absent-append k new rs e h.1)

  beq_false : (a b : K) → pk.beq a b ≡ false → pk.beq b a ≡ false
  beq_false a b h = ground (arith, pk.beq_iff a b, pk.beq_iff b a)

  -- A row of a new key may be added.
  pub Unique-append :
      (new : R) (rs : List R)
      → any (has (pk.key new)) rs ≡ false
      → Unique rs
      → Unique (rs ++ new ∷ [])
  Unique-append new [] e u = (tt, tt)
  Unique-append new (r ∷ rs) e u = elim (Bool-cases (has (pk.key new) r)) [
    | inl y ↦ ground (arith, y)
    | inr n ↦ (
      All-absent-append (pk.key r) new rs (beq_false (pk.key r) (pk.key new) n) u.0,
      Unique-append new rs (ground (arith, n)) u.1,
    )
  ]

  pub Unique-upsert :
      (k : K) (new : R) (f : R → R) (rs : List R)
      → Keeps f
      → pk.key new ≡ k
      → Unique rs
      → Unique (upsert (has k) new f rs)
  unfolding upsert
  Unique-upsert k new f rs keep e u = elim (Bool-cases (any (has k) rs)) [
    | inl y ↦ rw y (Unique-update (has k) f rs keep u)
    | inr n ↦ rw n (Unique-append new rs (rw e n) u)
  ]

  -- An INSERT that may fail; a failure leaves the table.
  abbrev pub inserted : List R → Option (List R) → List R
  inserted rs none = rs
  inserted rs (some ss) = ss

  -- The row of `j` after an INSERT of a row with key `k`: the old one, or the new one if it is its key.
  abbrev pub or_new : K → R → K → Option R → Option R
  or_new k new j (some r) = some r
  or_new k new j none = if pk.beq k j then some new else none

  pub at-insert :
      (k j : K) (new : R) (rs : List R)
      → pk.key new ≡ k
      → at (inserted rs (insert (has k) new rs)) j ≡ or_new k new j (at rs j)
  unfolding insert fetch_one
  at-insert k j new rs e = elim (Option-cases (at rs j)) [
    | inl absent ↦ ground (
      arith,
      absent,
      e,
      any-fetch_one (has k) rs,
      fetch_one-append (has j) rs (new ∷ []),
      pk.beq_iff k j,
      pk.beq_iff j k,
    )
    | inr (r, found) ↦
        ground (arith, found, e, any-fetch_one (has k) rs, fetch_one-append (has j) rs (new ∷ []))
  ]

  pub Unique-insert :
      (k : K) (new : R) (rs : List R)
      → pk.key new ≡ k
      → Unique rs
      → Unique (inserted rs (insert (has k) new rs))
  unfolding insert
  Unique-insert k new rs e u = elim (Bool-cases (any (has k) rs)) [
    | inl y ↦ rw y u
    | inr n ↦ rw n (Unique-append new rs (rw e n) u)
  ]
