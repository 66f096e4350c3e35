-- ===== src/Sql/Order.antt =====
-- ORDER BY ... LIMIT 1: the row that is taken is one of the table, and the first of its order.
use mathlib.Core.Path.{subst}
use inst_video_downloader_tg.Base.{
  ℕ, ◌≤◌, ◌≡◌, refl, Bool, true, false, none, some, List, [], ◌∷◌, arith, leb, All, inl, inr,
  Bool-cases, Option-cases,
}
use inst_video_downloader_tg.Sql.{select, fetch_one, first_by}
use inst_video_downloader_tg.Sql.Keys.{Key, at, has, Unique}

module _ {ℓ} {R : Type ℓ} where
  -- Every row of a table that is selected satisfies the condition and what the table's rows satisfy.
  pub All-select {κ} :
      (P : R → Type κ) (p : R → Bool) (rs : List R)
      → All P rs
      → All (λ r. P r × (p r ≡ true)) (select p rs)
  unfolding select
  All-select P p [] h = tt
  All-select P p (r ∷ rs) h = elim (Bool-cases (p r)) [
    | inl y ↦ rw y ((h.0, y), All-select P p rs h.1)
    | inr n ↦ rw n (All-select P p rs h.1)
  ]

  pub All-first_by {κ} :
      (P : R → Type κ) (f : R → ℕ) (rs : List R) {r : R} → All P rs → first_by f rs ≡ some r → P r
  unfolding first_by
  All-first_by P f [] h e = absurd (cc)
  All-first_by P f (x ∷ rs) {r} h e = elim (Option-cases (first_by f rs)) [
    | inl none_ ↦ subst P (ground (arith, none_, e)) h.0
    | inr (s, found) ↦ elim (Bool-cases (leb (f x) (f s))) [
      | inl y ↦ subst P (ground (arith, found, y, e)) h.0
      | inr n ↦ subst P (ground (arith, found, n, e)) (All-first_by P f rs h.1 found)
    ]
  ]

  weaken_le :
      (f : R → ℕ) (a b : R) (rs : List R)
      → f a ≤ f b
      → All (λ s. f b ≤ f s) rs
      → All (λ s. f a ≤ f s) rs
  weaken_le f a b [] h k = tt
  weaken_le f a b (r ∷ rs) h k = (omega (arith, k.0), weaken_le f a b rs h k.1)

  none_empty : (f : R → ℕ) (rs : List R) → first_by f rs ≡ none → rs ≡ []
  unfolding first_by
  none_empty f [] e = refl
  none_empty f (x ∷ rs) e = absurd (ground arith)

  pub first_by_least :
      (f : R → ℕ) (rs : List R) {r : R} → first_by f rs ≡ some r → All (λ s. f r ≤ f s) rs
  unfolding first_by
  first_by_least f [] e = tt
  first_by_least f (x ∷ rs) {r} e = elim (Option-cases (first_by f rs)) [
    | inl none_ ↦
        let same : x ≡ r = ground (arith, none_, e) in
        (rw same (omega arith), rw (none_empty f rs none_) tt)
    | inr (s, found) ↦ elim (Bool-cases (leb (f x) (f s))) [
      | inl y ↦
          let same : x ≡ r = ground (arith, found, y, e) in
          subst (λ a. All (λ s. f a ≤ f s) (x ∷ rs)) same
            (omega arith, weaken_le f x s rs (ground (arith, y)) (first_by_least f rs found))
      | inr n ↦
          let same : s ≡ r = ground (arith, found, n, e) in
          subst (λ a. All (λ s. f a ≤ f s) (x ∷ rs)) same
            (ground (arith, n), first_by_least f rs found)
    ]
  ]

  pub select-empty : (p : R → Bool) (rs : List R) → select p rs ≡ [] → All (λ r. p r ≡ false) rs
  unfolding select
  select-empty p [] e = tt
  select-empty p (r ∷ rs) e = elim (Bool-cases (p r)) [
    | inl y ↦ absurd (ground (arith, y, e))
    | inr n ↦ (n, select-empty p rs (ground (arith, n, e)))
  ]

  pub first_by-none :
      (f : R → ℕ) (p : R → Bool) (rs : List R)
      → first_by f (select p rs) ≡ none
      → All (λ r. p r ≡ false) rs
  first_by-none f p rs e = select-empty p rs (none_empty f (select p rs) e)

  select-least :
      (f : R → ℕ) (p : R → Bool) (a : R) (rs : List R)
      → All (λ s. f a ≤ f s) (select p rs)
      → All (λ s. p s ≡ true → f a ≤ f s) rs
  unfolding select
  select-least f p a [] h = tt
  select-least f p a (r ∷ rs) h = elim (Bool-cases (p r)) [
    | inl y ↦
        let k : All (λ s. f a ≤ f s) (r ∷ select p rs) = rw y at h in
        ((λ _. k.0), select-least f p a rs k.1)
    | inr n ↦
        let k : All (λ s. f a ≤ f s) (select p rs) = rw n at h in
        ((λ y. absurd (ground (arith, n, y))), select-least f p a rs k)
  ]

  pub first_by-select_least :
      (f : R → ℕ) (p : R → Bool) (rs : List R) {r : R}
      → first_by f (select p rs) ≡ some r
      → All (λ s. p s ≡ true → f r ≤ f s) rs
  first_by-select_least f p rs {r} e = select-least f p r rs (first_by_least f (select p rs) e)

module _ {ℓ κ} {R : Type ℓ} {K : Type κ} (pk : Key R K) where
  at_cons :
      (r s : R) (rs : List R)
      → has pk (pk.key r) s ≡ false
      → at pk rs (pk.key s) ≡ some s
      → at pk (r ∷ rs) (pk.key s) ≡ some s
  unfolding fetch_one
  at_cons r s rs n e =
      ground (arith, n, e, pk.beq_iff (pk.key r) (pk.key s), pk.beq_iff (pk.key s) (pk.key r))

  All-at_cons :
      (r : R) (rs ss : List R)
      → All (λ s. has pk (pk.key r) s ≡ false) ss
      → All (λ s. at pk rs (pk.key s) ≡ some s) ss
      → All (λ s. at pk (r ∷ rs) (pk.key s) ≡ some s) ss
  All-at_cons r rs [] h k = tt
  All-at_cons r rs (s ∷ ss) h k = (at_cons r s rs h.0 k.0, All-at_cons r rs ss h.1 k.1)

  -- In a table with a primary key each row is the row of its key.
  pub at_own : (rs : List R) → Unique pk rs → All (λ r. at pk rs (pk.key r) ≡ some r) rs
  unfolding fetch_one
  at_own [] u = tt
  at_own (r ∷ rs) u =
      (ground (arith, pk.beq_iff (pk.key r) (pk.key r)), All-at_cons r rs rs u.0 (at_own rs u.1))
