-- ===== src/AuthPool/Cooling.antt =====
-- How long a context rests.
use inst_video_downloader_tg.Base.{
  ℕ, ◌+◌, ◌≡◌, refl, ◌∙◌, Bool, true, false, not, ◌&&◌, ◌||◌, List, [], ◌∷◌, ◌++◌, String, ◌==◌,
  eq_iff, arith, any, leb, ltb, if◌then◌else◌, inl, inr, Bool-cases,
}
use inst_video_downloader_tg.Sql.{update, delete, upsert}
use inst_video_downloader_tg.Sql.Keys.{has}
use inst_video_downloader_tg.AuthPool.{
  Cooldown, cooldown_pk, InstagramAuthPool, drop_expired, cools_down, is_configured, redact_reason,
  mark_cooldown,
}

any-delete {ℓ} :
    {R : Type ℓ} (p q : R → Bool) (t : List R) → any p (delete q t) ≡ any (λ r. p r && not (q r)) t
unfolding delete
any-delete p q [] = refl
any-delete p q (r ∷ t) = ground (arith, any-delete p q t)

any-append {ℓ} :
    {R : Type ℓ} (p : R → Bool) (r : R) (t : List R) → any p (t ++ r ∷ []) ≡ any p t || p r
any-append p r [] = ground arith
any-append p r (x ∷ t) = ground (arith, any-append p r t)

-- The entry of `j` is in force at `later`.
abbrev in_force : ℕ → String → Cooldown → Bool
in_force later j c = has cooldown_pk j c && not (leb c.expires_at later)

module _ (later : ℕ) (entry : Cooldown) (j : String) where
  replaced :
      (t : List Cooldown)
      → any (in_force later j) (update (has cooldown_pk entry.context_id) (λ c. entry) t) ≡ (
          if entry.context_id == j
          then any (has cooldown_pk entry.context_id) t && not (leb entry.expires_at later)
          else any (in_force later j) t)
  unfolding update
  replaced [] = ground arith
  replaced (r ∷ t) = ground (
    arith,
    replaced t,
    eq_iff entry.context_id j,
    eq_iff r.context_id entry.context_id,
    eq_iff r.context_id j,
  )

  none_in_force :
      (t : List Cooldown)
      → any (has cooldown_pk entry.context_id) t ≡ false
      → (entry.context_id == j) ≡ true
      → any (in_force later j) t ≡ false
  none_in_force [] h y = refl
  none_in_force (r ∷ t) h y =
      ground (arith, h, y, (eq_iff entry.context_id j).0 y, none_in_force t (ground (arith, h)) y)

  entered :
      (t : List Cooldown)
      → any (in_force later j) (upsert (has cooldown_pk entry.context_id) entry (λ c. entry) t) ≡ (
          if entry.context_id == j
          then not (leb entry.expires_at later)
          else any (in_force later j) t)
  unfolding upsert
  entered t = elim (Bool-cases (any (has cooldown_pk entry.context_id) t)) [
    | inl y ↦ rw y (replaced t ∙ rw y (ground arith))
    | inr n ↦ rw n (
        any-append (in_force later j) entry t ∙ elim (Bool-cases (entry.context_id == j)) [
          | inl y ↦ rw (y, none_in_force t n y) refl
          | inr m ↦ rw m (ground arith)
        ])
  ]

-- A context that is marked rests from then until the cooldown of the pool has passed, whatever rest it had
-- before, and is usable again after that; the rest of no other context changes.
pub rests_until :
    (now later : ℕ) (id j reason : String) (pool : InstagramAuthPool)
    → is_configured pool id ≡ true
    → cools_down (drop_expired later (mark_cooldown now id reason pool)) j ≡ (
        if id == j then ltb later (now + pool.cooldown) else cools_down (drop_expired later pool) j)
unfolding mark_cooldown
rests_until now later id j reason pool h =
    let entry : Cooldown = record {
      context_id = id;
      expires_at = now + pool.cooldown;
      reason = redact_reason reason;
    } in
    let expired = λ (c : Cooldown). leb c.expires_at later in
    rw
      (
        h,
        any-delete (has cooldown_pk j) expired
            (upsert (has cooldown_pk id) entry (λ c. entry) pool.cooldowns),
        any-delete (has cooldown_pk j) expired pool.cooldowns,
      )
      (entered later entry j pool.cooldowns ∙ ground arith)
