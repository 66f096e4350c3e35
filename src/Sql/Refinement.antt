-- ===== src/Sql/Refinement.antt =====
-- A table as a map: what an operation on one key has to do, and the two ways in which it does it.
use mathlib.Core.Path.{subst}
use inst_video_downloader_tg.Base.{
  ◌≡◌, refl, Bool, true, false, ◌&&◌, Option, none, some, List, arith, nat_eq, if◌then◌else◌, inl,
  inr, Bool-cases,
}
use inst_video_downloader_tg.Sql.{update, row_count}
use inst_video_downloader_tg.Sql.Laws.{touched}
use inst_video_downloader_tg.Sql.Keys.{
  Key, at, has, Unique, Keeps, hits, row_count-keyed, at-update, Unique-update,
}

module _ {ℓ ι} {R : Type ℓ} {O : Type ι} where
  -- A conditional UPDATE that answers by its rowcount, seen on one row.
  abbrev pub guarded : (R → Bool) → (R → R) → O → O → Option R → Option R × O
  guarded c f done refused none = (none, refused)
  guarded c f done refused (some r) = if c r then (some (f r), done) else (some r, refused)

-- On the table `t`, an operation on the row of `k` gave `result`; the row alone should give `spec`.
pub record Implements {ℓ κ ι} {R : Type ℓ} {K : Type κ} {O : Type ι} (pk : Key R K) (t : List R)
    (k : K) (result : List R × O) (spec : Option R × O) : Type (ℓ ⊔ κ ⊔ ι) where
  pub outcome : result.1 ≡ spec.1
  pub rows : (j : K) → at pk result.0 j ≡ (if pk.beq k j then spec.0 else at pk t j)
  pub unique : Unique pk result.0

module _ {ℓ κ} {R : Type ℓ} {K : Type κ} (pk : Key R K) (t : List R) (k : K) where
  at_same : (j : K) → at pk t j ≡ (if pk.beq k j then at pk t k else at pk t j)
  at_same j = elim (Bool-cases (pk.beq k j)) [
    | inl y ↦ rw y (rw ((pk.beq_iff k j).0 y))
    | inr n ↦ rw n
  ]

module _ {ℓ κ ι} {R : Type ℓ} {K : Type κ} {O : Type ι} (pk : Key R K) (t : List R) (k : K) where
  -- An early return leaves the table.
  pub Implements-same : (o : O) → Unique pk t → Implements pk t k (t, o) (at pk t k, o)
  Implements-same o u = record { outcome = refl; rows = at_same pk t k; unique = u }

  touched-guarded :
      (c : R → Bool) (f : R → R) (done refused : O) (o : Option R)
      → touched c f o ≡ (guarded c f done refused o).0
  touched-guarded c f done refused none = refl
  touched-guarded c f done refused (some r) = ground arith

  hits-guarded :
      (c : R → Bool) (f : R → R) (done refused : O) (o : Option R)
      → (if nat_eq (hits pk c o) 1 then done else refused) ≡ (guarded c f done refused o).1
  hits-guarded c f done refused none = refl
  hits-guarded c f done refused (some r) = ground arith

  pub Implements-update :
      (c : R → Bool) (f : R → R) (done refused : O)
      → Keeps pk f
      → Unique pk t
      → Implements pk t k
          (
            update (λ r. has pk k r && c r) f t,
            (if nat_eq (row_count (λ r. has pk k r && c r) t) 1 then done else refused),
          )
          (guarded c f done refused (at pk t k))
  Implements-update c f done refused keep u = record {
    outcome = rw (row_count-keyed pk k c t u) (hits-guarded c f done refused (at pk t k));
    rows = λ j. elim (Bool-cases (pk.beq k j)) [
      | inl y ↦
          rw (at-update pk k j c f t keep, y)
            (rw ((pk.beq_iff k j).0 y) (touched-guarded c f done refused (at pk t j)))
      | inr n ↦ rw (at-update pk k j c f t keep, n)
    ];
    unique = Unique-update pk (λ r. has pk k r && c r) f t keep u;
  }

  -- The same two, at a row that is known.
  pub Implements-return :
      (o : O) {s : Option R} → at pk t k ≡ s → Unique pk t → Implements pk t k (t, o) (s, o)
  Implements-return o e u = rw (← e) (Implements-same o u)

  pub Implements-row :
      (c : R → Bool) (f : R → R) (done refused : O) {r : R}
      → Keeps pk f
      → Unique pk t
      → at pk t k ≡ some r
      → Implements pk t k
          (
            update (λ r. has pk k r && c r) f t,
            (if nat_eq (row_count (λ r. has pk k r && c r) t) 1 then done else refused),
          )
          (guarded c f done refused (some r))
  Implements-row c f done refused keep u e =
      subst
        (λ o.
          Implements pk t k
            (
              update (λ r. has pk k r && c r) f t,
              (if nat_eq (row_count (λ r. has pk k r && c r) t) 1 then done else refused),
            )
            (guarded c f done refused o))
        e (Implements-update c f done refused keep u)

  pub Implements-done :
      (c : R → Bool) (f : R → R) (done refused : O) {r : R}
      → Keeps pk f
      → Unique pk t
      → at pk t k ≡ some r
      → c r ≡ true
      → Implements pk t k
          (
            update (λ r. has pk k r && c r) f t,
            (if nat_eq (row_count (λ r. has pk k r && c r) t) 1 then done else refused),
          )
          (some (f r), done)
  Implements-done c f done refused keep u e y = rw y at (Implements-row c f done refused keep u e)

  pub Implements-refused :
      (c : R → Bool) (f : R → R) (done refused : O) {r : R}
      → Keeps pk f
      → Unique pk t
      → at pk t k ≡ some r
      → c r ≡ false
      → Implements pk t k
          (
            update (λ r. has pk k r && c r) f t,
            (if nat_eq (row_count (λ r. has pk k r && c r) t) 1 then done else refused),
          )
          (some r, refused)
  Implements-refused c f done refused keep u e n =
      rw n at (Implements-row c f done refused keep u e)
