-- ===== src/Telegram/Retry/Attempts.antt =====
-- How the loop of call_telegram_with_retries ends, and what it did before.
use mathlib.Core.Path.{subst}
use inst_video_downloader_tg.Base.{
  ℕ, zero, suc, ◌+◌, ◌-◌, ◌≤◌, ◌<◌, ◌≡◌, refl, sym, ap, ◌∙◌, Bool, true, false, not, ◌||◌, Option,
  none, some, [], arith, length, get_elem?, nat_eq, ◌⊎◌, inl, inr, Bool-cases,
}
use inst_video_downloader_tg.Base.Int.{ℤ, pos, negsuc}
use inst_video_downloader_tg.Telegram.Retry.{
  CallError, RetryPolicy, Outcome, answered, raised, Retried, is_retriable_telegram_delivery_error,
  retry_sleep, at_least_one, after, try_from, call_telegram_with_retries,
}

at_least_one-suc : (z : ℤ) → (n : ℕ) × (at_least_one z ≡ suc n)
at_least_one-suc (pos zero) = (0, refl)
at_least_one-suc (pos (suc n)) = (n, ground arith)
at_least_one-suc (negsuc n) = (0, refl)

module _ {ℓ} {A : Type ℓ} (p : RetryPolicy) (operation : ℕ → Outcome A) where
  abbrev retriable : CallError → Bool
  retriable e = is_retriable_telegram_delivery_error e p.retry_network_errors

  -- The attempt `i` was the last one, and why: it answered, it raised an error that is not retriable,
  -- or it was the last allowed.
  abbrev pub LastAttempt : ℕ → Type ℓ
  LastAttempt i =
      ((a : A) × (operation i ≡ answered a))
      ⊎ ((e : CallError) × (operation i ≡ raised e)
          × ((retriable e ≡ false) ⊎ (suc i ≡ at_least_one p.attempts)))

  abbrev pub Ends : ℕ → ℕ → Retried A → Type ℓ
  Ends left attempt r =
      (i : ℕ) × (r.calls ≡ suc i)
      × (i < left)
      × (r.outcome ≡ some (operation (attempt + i)))
      × (length r.sleeps ≡ i)
      × LastAttempt (attempt + i)

  -- The attempt `k` failed with a retriable error, and the pause after it was that of the error.
  abbrev pub Retries : ℕ → ℕ → Retried A → Type ℓ
  Retries attempt k r =
      (e : CallError) × (operation (attempt + k) ≡ raised e)
      × (retriable e ≡ true)
      × (get_elem? r.sleeps k ≡ some (retry_sleep e p.backoff (attempt + k)))

  Ends-after :
      (pause left attempt : ℕ) (r : Retried A)
      → Ends left (suc attempt) r
      → Ends (suc left) attempt (after pause r)
  Ends-after pause left attempt r (i, n, l, o, s, w) =
      let e : suc attempt + i ≡ attempt + suc i = omega arith in
      (
        suc i,
        ap suc n,
        omega (arith, l),
        o ∙ ap (λ j. some (operation j)) e,
        ap suc s,
        subst LastAttempt e w,
      )

  Ends-last_answer :
      (left attempt : ℕ) (o : Outcome A)
      → operation attempt ≡ o
      → LastAttempt attempt
      → Ends (suc left) attempt (record { outcome = some o; calls = 1; sleeps = [] })
  Ends-last_answer left attempt o h w =
      let e : attempt ≡ attempt + 0 = omega arith in
      (0, refl, omega arith, ap some (sym h ∙ ap operation e), refl, subst LastAttempt e w)

  Outcome-cases :
      (o : Outcome A) → ((a : A) × (o ≡ answered a)) ⊎ ((e : CallError) × (o ≡ raised e))
  Outcome-cases (answered a) = inl (a, refl)
  Outcome-cases (raised e) = inr (e, refl)

  abbrev last_try : CallError → ℕ → Bool
  last_try e attempt = not (retriable e) || nat_eq attempt (at_least_one p.attempts - 1)

  why_last :
      (e : CallError) (attempt : ℕ)
      → operation attempt ≡ raised e
      → last_try e attempt ≡ true
      → 1 ≤ at_least_one p.attempts
      → LastAttempt attempt
  why_last e attempt q y n = inr (
    e,
    q,
    elim (Bool-cases (retriable e)) [
      | inr never ↦ inl never
      | inl again ↦ inr (ground (arith, again, y, n))
    ],
  )

  abbrev one_call : Outcome A → Retried A
  one_call o = record { outcome = some o; calls = 1; sleeps = [] }

  try_from-answered :
      (left attempt : ℕ) (last : Option CallError) (a : A)
      → operation attempt ≡ answered a
      → try_from p operation (suc left) attempt last ≡ one_call (answered a)
  unfolding try_from
  try_from-answered left attempt last a q = rw (q, try_from) refl

  try_from-last :
      (left attempt : ℕ) (last : Option CallError) (e : CallError)
      → operation attempt ≡ raised e
      → last_try e attempt ≡ true
      → try_from p operation (suc left) attempt last ≡ one_call (raised e)
  unfolding try_from
  try_from-last left attempt last e q y = rw (q, try_from) (rw y refl)

  try_from-again :
      (left attempt : ℕ) (last : Option CallError) (e : CallError)
      → operation attempt ≡ raised e
      → last_try e attempt ≡ false
      → try_from p operation (suc left) attempt last
        ≡ after (retry_sleep e p.backoff attempt) (try_from p operation left (suc attempt) (some e))
  unfolding try_from
  try_from-again left attempt last e q y = rw (q, try_from) (rw y refl)

  abbrev stops : ℕ → Outcome A → Bool
  stops attempt (answered a) = true
  stops attempt (raised e) = last_try e attempt

  -- What holds of the loop when it holds of a last attempt and is passed on by a repeated one.
  by_attempt {κ} :
      (P : Retried A → Type κ) (left attempt : ℕ) (last : Option CallError)
      → ((o : Outcome A) → operation attempt ≡ o → stops attempt o ≡ true → P (one_call o))
      → ((e : CallError)
          → operation attempt ≡ raised e
          → last_try e attempt ≡ false
          → P (
              after
                (retry_sleep e p.backoff attempt)
                (try_from p operation left (suc attempt) (some e))))
      → P (try_from p operation (suc left) attempt last)
  by_attempt P left attempt last stop more = elim (Outcome-cases (operation attempt)) [
    | inl (a, q) ↦ rw (try_from-answered left attempt last a q) (stop (answered a) q refl)
    | inr (e, q) ↦ elim (Bool-cases (last_try e attempt)) [
      | inl y ↦ rw (try_from-last left attempt last e q y) (stop (raised e) q y)
      | inr y ↦ rw (try_from-again left attempt last e q y) (more e q y)
    ]
  ]

  Ends-one_call :
      (left attempt : ℕ)
      → attempt + suc left ≡ at_least_one p.attempts
      → (o : Outcome A) → operation attempt ≡ o
      → stops attempt o ≡ true
      → Ends (suc left) attempt (one_call o)
  Ends-one_call left attempt h (answered a) q y =
      Ends-last_answer left attempt (answered a) q (inl (a, q))
  Ends-one_call left attempt h (raised e) q y =
      Ends-last_answer left attempt (raised e) q (why_last e attempt q y (omega (arith, h)))

  Ends-try_from :
      (left attempt : ℕ) (last : Option CallError)
      → attempt + suc left ≡ at_least_one p.attempts
      → Ends (suc left) attempt (try_from p operation (suc left) attempt last)
  Ends-try_from zero attempt last h =
      by_attempt (Ends 1 attempt) zero attempt last (Ends-one_call zero attempt h)
        (λ e q y. absurd (ground (arith, y, h)))
  Ends-try_from (suc left) attempt last h =
      by_attempt (Ends (suc (suc left)) attempt) (suc left) attempt last
        (Ends-one_call (suc left) attempt h)
        (λ e q y.
          Ends-after (retry_sleep e p.backoff attempt) (suc left) attempt
            (try_from p operation (suc left) (suc attempt) (some e))
            (Ends-try_from left (suc attempt) (some e) (omega (arith, h))))

  -- A call that is repeated always ends: it makes at least one attempt and no more than the larger of 1
  -- and the number configured, with one pause less than attempts; what it answers or raises is what the
  -- last attempt did, and that attempt answered, raised an error that is not retriable, or was the last one allowed.
  pub call_ends :
      let r = call_telegram_with_retries p operation in
      (i : ℕ) × (r.calls ≡ suc i)
      × (i < at_least_one p.attempts)
      × (r.outcome ≡ some (operation i))
      × (length r.sleeps ≡ i)
      × LastAttempt i
  unfolding call_telegram_with_retries
  call_ends =
      let (n, e) = at_least_one-suc p.attempts in
      let (i, c, l, o, pauses, w) =
        subst (λ m. Ends m 0 (try_from p operation m 0 none)) (sym e)
          (Ends-try_from n 0 none (omega (arith, e))) in
      let z : 0 + i ≡ i = omega arith in
      (i, c, l, o ∙ ap (λ j. some (operation j)) z, pauses, subst LastAttempt z w)

  Retries-after :
      (left attempt k : ℕ) (e : CallError)
      → operation attempt ≡ raised e
      → last_try e attempt ≡ false
      → ((k : ℕ)
          → suc k < (try_from p operation left (suc attempt) (some e)).calls
          → Retries (suc attempt) k (try_from p operation left (suc attempt) (some e)))
      → suc k < suc (try_from p operation left (suc attempt) (some e)).calls
      → Retries attempt k (
          after
            (retry_sleep e p.backoff attempt)
            (try_from p operation left (suc attempt) (some e)))
  Retries-after left attempt zero e q y rest m =
      let n : attempt ≡ attempt + 0 = omega arith in
      (e, ap operation (sym n) ∙ q, ground (arith, y), ap (λ j. some (retry_sleep e p.backoff j)) n)
  Retries-after left attempt (suc k) e q y rest m =
      let n : suc attempt + k ≡ attempt + suc k = omega arith in
      subst
        (λ j.
          (d : CallError) × (operation j ≡ raised d)
          × (retriable d ≡ true)
          × (get_elem? (try_from p operation left (suc attempt) (some e)).sleeps k
              ≡ some (retry_sleep d p.backoff j)))
        n (rest k (omega (arith, m)))

  Retries-try_from :
      (left attempt : ℕ) (last : Option CallError) (k : ℕ)
      → suc k < (try_from p operation left attempt last).calls
      → Retries attempt k (try_from p operation left attempt last)
  unfolding try_from
  Retries-try_from zero attempt last k l = absurd (omega (arith, l))
  Retries-try_from (suc left) attempt last k l =
      by_attempt (λ r. suc k < r.calls → Retries attempt k r) left attempt last
        (λ o q y m. absurd (omega (arith, m)))
        (λ e q y m.
          Retries-after left attempt k e q y (Retries-try_from left (suc attempt) (some e)) m)
        l

  pub earlier_attempts :
      (k : ℕ)
      → suc k < (call_telegram_with_retries p operation).calls
      → (e : CallError) × (operation k ≡ raised e)
        × (is_retriable_telegram_delivery_error e p.retry_network_errors ≡ true)
        × (get_elem? (call_telegram_with_retries p operation).sleeps k
            ≡ some (retry_sleep e p.backoff k))
  unfolding call_telegram_with_retries
  earlier_attempts k l =
      let z : 0 + k ≡ k = omega arith in
      let r = call_telegram_with_retries p operation in
      subst
        (λ j.
          (e : CallError) × (operation j ≡ raised e)
          × (retriable e ≡ true)
          × (get_elem? r.sleeps k ≡ some (retry_sleep e p.backoff j)))
        z (Retries-try_from (at_least_one p.attempts) 0 none k l)
