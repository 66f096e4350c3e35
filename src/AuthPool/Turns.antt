-- ===== src/AuthPool/Turns.antt =====
-- What one extraction attempt is given.
use Prim.Native.Nat.{◌%◌}
use native.Mathlib.Nat.{mod-lt, mod-add-mod, mod-eq_of_lt, mod_self}
use inst_video_downloader_tg.Base.{
  ℕ, zero, suc, ◌+◌, ◌<◌, min, ◌≡◌, refl, ap, false, not, some, List, [], ◌∷◌, ◌++◌, sym, ◌∙◌, ltb,
  if◌then◌else◌, arith, length, get_elem?, take, drop, ◌≤◌, ◌⊎◌, All, All-map, All-Mem, Mem, nat_eq,
  inl, inr, Bool-cases,
}
use inst_video_downloader_tg.Sql.{select}
use inst_video_downloader_tg.Sql.Order.{All-select}
use inst_video_downloader_tg.AuthPool.{
  InstagramAuthContext, InstagramAuthPool, drop_expired, cools_down, usable_contexts, take_round,
  get_contexts_for_attempt,
}

-- A list has an element below its length, with what holds of all.
get_elem?-lt {ℓ κ} :
    {A : Type ℓ} (P : A → Type κ) (xs : List A) (i : ℕ)
    → i < length xs
    → All P xs
    → (a : A) × (get_elem? xs i ≡ some a) × P a
get_elem?-lt P [] i l h = absurd (omega (arith, l))
get_elem?-lt P (x ∷ xs) zero l h = (x, refl, h.0)
get_elem?-lt P (x ∷ xs) (suc i) l h = get_elem?-lt P xs i (omega (arith, l)) h.1

drop-get_elem? {ℓ} :
    {A : Type ℓ} (xs : List A) (i : ℕ) {a : A}
    → get_elem? xs i ≡ some a
    → drop i xs ≡ a ∷ drop (suc i) xs
drop-get_elem? [] i h = absurd (ground (arith, h))
drop-get_elem? (x ∷ xs) zero h = ap (λ t. t ∷ xs) (ground (arith, h))
drop-get_elem? (x ∷ xs) (suc i) h = drop-get_elem? xs i h

drop-all {ℓ} : {A : Type ℓ} (xs : List A) → drop (length xs) xs ≡ []
drop-all [] = refl
drop-all (x ∷ xs) = drop-all xs

take-append {ℓ} :
    {A : Type ℓ} (n : ℕ) (xs ys : List A) → n ≤ length xs → take n (xs ++ ys) ≡ take n xs
take-append zero xs ys l = refl
take-append (suc n) [] ys l = absurd (omega (arith, l))
take-append (suc n) (x ∷ xs) ys l = ap (λ t. x ∷ t) (take-append n xs ys (omega (arith, l)))

next_position :
    (a n : ℕ)
    → 0 < n
    → ((suc (a % n) < n) × (suc a % n ≡ suc (a % n))) ⊎ ((suc (a % n) ≡ n) × (suc a % n ≡ 0))
next_position a n l =
    let step : suc a % n ≡ suc (a % n) % n =
      ap (λ t. t % n) (omega arith) ∙ sym (mod-add-mod a n 1) ∙ ap (λ t. t % n) (omega arith) in
    let below = mod-lt a l in
    elim (Bool-cases (ltb (suc (a % n)) n)) [
      | inl y ↦
          let here : suc (a % n) < n = ground (arith, y) in inl (here, step ∙ mod-eq_of_lt here)
      | inr m ↦
          let end_ : suc (a % n) ≡ n = ground (arith, m, below) in
          inr (end_, step ∙ ap (λ t. t % n) end_ ∙ mod_self n)
    ]

module _ (P : InstagramAuthContext → Type 0) (usable : List InstagramAuthContext) (cursor : ℕ)
    (some_ : 0 < length usable) (all : All P usable) where
  round :
      (left offset : ℕ)
      → left ≤ length usable
      → All P (take_round usable cursor left offset)
        × (length (take_round usable cursor left offset) ≡ left)
        × (take_round usable cursor left offset
            ≡ take left (drop ((cursor + offset) % length usable) usable ++ usable))
  unfolding take_round
  round zero offset h = (tt, refl, refl)
  round (suc left) offset h =
      let p = (cursor + offset) % length usable in
      let (c, e, held) = get_elem?-lt P usable p (mod-lt (cursor + offset) some_) all in
      let (rest, n, q) = round left (suc offset) (omega (arith, h)) in
      let from = λ (i : ℕ). take left (drop i usable ++ usable) in
      let forward : (cursor + suc offset) % length usable ≡ suc (cursor + offset) % length usable =
        ap (λ i. i % length usable) (omega arith) in
      let tail : take_round usable cursor left (suc offset)
          ≡ take left (drop (suc p) usable ++ usable) =
        elim (next_position (cursor + offset) (length usable) some_) [
          | inl (l, s) ↦ q ∙ ap from (forward ∙ s)
          | inr (l, s) ↦
              q
              ∙ ap from (forward ∙ s)
              ∙ take-append left usable usable (omega (arith, h))
              ∙ sym (ap from l ∙ ap (λ t. take left (t ++ usable)) (drop-all usable))
        ] in
      rw (take_round, e, drop-get_elem? usable p e) ((held, rest), ap suc n, ap (λ t. c ∷ t) tail)

-- An attempt is given as many contexts as it may use or as there are usable ones, whichever is less: the usable
-- contexts of the pool in their order, from the cursor on and then from the first again, so consecutive places of a
-- round and no place twice. The cursor moves on by their number. Each is a context of the pool and does not cool down at
-- that moment.
pub attempt_given :
    (now : ℕ) (pool : InstagramAuthPool)
    → let (after, given) = get_contexts_for_attempt now pool in
      let usable =
        select (λ c. not (cools_down (drop_expired now pool) c.context_id)) pool.contexts in
      let limit = min pool.max_contexts_per_attempt (length usable) in
      All
        (λ c. Mem c pool.contexts × (cools_down (drop_expired now pool) c.context_id ≡ false))
        given
      × (length given ≡ limit)
      × (given ≡ take limit (drop (pool.cursor % length usable) usable ++ usable))
      × (after.cursor ≡ (
          if nat_eq (length usable) 0 then pool.cursor else (pool.cursor + limit) % length usable))
unfolding get_contexts_for_attempt usable_contexts
attempt_given now pool =
    let free =
      λ (c : InstagramAuthContext). not (cools_down (drop_expired now pool) c.context_id) in
    let P = λ (c : InstagramAuthContext).
      Mem c pool.contexts × (cools_down (drop_expired now pool) c.context_id ≡ false) in
    let usable = select free pool.contexts in
    let limit = min pool.max_contexts_per_attempt (length usable) in
    let all : All P usable =
      All-map usable (λ c h. (h.0, ground (arith, h.1)))
        (All-select (λ c. Mem c pool.contexts) free pool.contexts (All-Mem pool.contexts)) in
    elim (Bool-cases (nat_eq (length usable) 0)) [
      | inl y ↦
          let nothing : 0 ≡ limit = ground (arith, y) in
          rw y (
            tt,
            ground (arith, y),
            ap (λ l. take l (drop (pool.cursor % length usable) usable ++ usable)) nothing,
            refl,
          )
      | inr n ↦
          let (held, count, places) =
            round P usable pool.cursor (ground (arith, n)) all limit 0 (omega arith) in
          rw n (
            held,
            count,
            places ∙ ap (λ i. take limit (drop (i % length usable) usable ++ usable)) (omega arith),
            refl,
          )
    ]
