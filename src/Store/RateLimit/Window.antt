-- ===== src/Store/RateLimit/Window.antt =====
-- The rate limit over a sequence of checks.
use inst_video_downloader_tg.Base.{
  sym, ℕ, ◌+◌, ◌*◌, ◌≤◌, ◌<◌, max, ◌≡◌, refl, ◌∙◌, Bool, true, false, ◌&&◌, List, [], ◌∷◌, ◌++◌,
  String, arith, length, leb, ltb, nat_eq, if◌then◌else◌, inl, inr, Bool-cases, leb→le,
}
use inst_video_downloader_tg.Base.Int.{ℤ, int_eq_iff}
use inst_video_downloader_tg.Sql.{select, delete, row_count, order_by}
use inst_video_downloader_tg.Sql.Sorting.{length-order_by, length-select, row_count-append}
use inst_video_downloader_tg.Store.RateLimit.{
  RateEvent, second, left_window, in_window, created_before, retry_after, check_user_rate_limit,
}

-- One call of check_user_rate_limit
pub record Check : Type 0 where
  pub event_id : String
  pub user_id : ℤ
  pub now : ℕ
  pub source : String

abbrev event_of : Check → RateEvent
event_of c = record {
  event_id = c.event_id;
  user_id = c.user_id;
  source = c.source;
  created_at = c.now;
}

-- The calls in order, with one limit and one window, on a table; the log gets the events of the
-- calls that were allowed, and forgets none.
abbrev pub check_all :
    ℕ → ℕ → List Check → List RateEvent × List RateEvent → List RateEvent × List RateEvent
check_all limit w [] s = s
check_all limit w (c ∷ cs) (events, log) =
    let (events', verdict) =
      check_user_rate_limit c.event_id c.user_id limit w c.now c.source events in
    check_all limit w cs (events', if verdict.allowed then log ++ event_of c ∷ [] else log)

-- The calls come in order of time, from `from` on and up to `till`.
abbrev pub chronological : ℕ → ℕ → List Check → Bool
chronological from till [] = leb from till
chronological from till (c ∷ cs) = leb from c.now && chronological c.now till cs

-- Rows that left the window at `now` are outside it at any later time.
row_count-delete :
    (w now late : ℕ) (user : ℤ) (es : List RateEvent)
    → now ≤ late
    → row_count (in_window w late user) (delete (left_window w now) es)
      ≡ row_count (in_window w late user) es
unfolding row_count delete
row_count-delete w now late user [] h = refl
row_count-delete w now late user (e ∷ es) h =
    let rest = row_count-delete w now late user es h in
    elim (Bool-cases (left_window w now e)) [
      | inl y ↦
          let out : in_window w late user e ≡ false =
            ground (arith, leb→le (e.created_at + w * second) now y, h) in
          rw (y, out) (omega (arith, rest))
      | inr n ↦ rw n (omega (arith, rest))
    ]

row_count-late :
    (w now late : ℕ) (user : ℤ) (es : List RateEvent)
    → now ≤ late
    → row_count (in_window w late user) es ≤ row_count (in_window w now user) es
unfolding row_count
row_count-late w now late user [] h = omega arith
row_count-late w now late user (e ∷ es) h =
    let rest = row_count-late w now late user es h in
    elim (Bool-cases (in_window w now user e)) [
      | inl y ↦ elim (Bool-cases (in_window w late user e)) [
        | inl z ↦ rw (y, z) (omega (arith, rest))
        | inr z ↦ rw (y, z) (omega (arith, rest))
      ]
      | inr n ↦
          let out : in_window w late user e ≡ false = ground (arith, n, h) in
          rw (n, out) (omega (arith, rest))
    ]

-- What the table knows of the log from `now` on, and the bound
Within : ℕ → ℕ → ℕ → List RateEvent × List RateEvent → Type 0
Within limit w now (events, log) =
    (late : ℕ) (user : ℤ)
    → now ≤ late
    → (row_count (in_window w late user) events ≡ row_count (in_window w late user) log)
      × (row_count (in_window w late user) log ≤ max 1 limit)

rows_count :
    (w now : ℕ) (user : ℤ) (es : List RateEvent)
    → length
        (order_by created_before (select (in_window w now user) (delete (left_window w now) es)))
      ≡ row_count (in_window w now user) es
rows_count w now user es =
    rw
      (
        length-order_by created_before
            (select (in_window w now user) (delete (left_window w now) es)),
        length-select (in_window w now user) (delete (left_window w now) es),
      )
      (row_count-delete w now now user es (omega arith))

row_count-one :
    (w late : ℕ) (user : ℤ) (e : RateEvent)
    → row_count (in_window w late user) (e ∷ []) ≡ (if in_window w late user e then 1 else 0)
unfolding row_count
row_count-one w late user e = elim (Bool-cases (in_window w late user e)) [
  | inl y ↦ rw y refl
  | inr n ↦ rw n refl
]

-- An allowed event of a user below the limit keeps every later window within it.
below_limit :
    (limit w now late : ℕ) (user : ℤ) (e : RateEvent) (log : List RateEvent)
    → now ≤ late
    → row_count (in_window w now e.user_id) log < max 1 limit
    → row_count (in_window w late user) log ≤ max 1 limit
    → row_count (in_window w late user) log + (if in_window w late user e then 1 else 0)
      ≤ max 1 limit
below_limit limit w now late user e log l room bound = elim (Bool-cases (in_window w late user e)) [
  | inl y ↦
      let same : user ≡ e.user_id = sym ((int_eq_iff e.user_id user).0 (ground (arith, y))) in
      let mono : row_count (in_window w late user) log ≤ row_count (in_window w now e.user_id) log =
        rw (← same) (row_count-late w now late user log l) in
      rw y (omega (arith, mono, room))
  | inr n ↦ rw n (omega (arith, bound))
]

waits : (w now : ℕ) (rows : List RateEvent) → nat_eq (retry_after w now rows) 0 ≡ false
waits w now [] = refl
waits w now (e ∷ rows) = ground arith

check_step :
    (limit w now : ℕ) (c : Check) (events log : List RateEvent)
    → now ≤ c.now
    → Within limit w now (events, log)
    → Within limit w c.now (check_all limit w (c ∷ []) (events, log))
unfolding check_user_rate_limit Within
check_step limit w now c events log h inv =
    elim (Bool-cases (leb (max 1 limit) (row_count (in_window w c.now c.user_id) events))) [
      | inl y ↦
          rw (rows_count w c.now c.user_id events, y)
            (λ late user l.
              let (same, bound) = inv late user (omega (arith, h, l)) in
              (row_count-delete w c.now late user events l ∙ same, bound))
      | inr n ↦
          rw (rows_count w c.now c.user_id events, n)
            (λ late user l.
              let (same, bound) = inv late user (omega (arith, h, l)) in
              let (now_same, _) = inv c.now c.user_id h in
              let one = row_count-one w late user (event_of c) in
              let room : row_count (in_window w c.now c.user_id) log < max 1 limit =
                ground (arith, n, now_same) in
              let kept = row_count-delete w c.now late user events l in
              (
                rw
                    (
                      row_count-append (in_window w late user) (delete (left_window w c.now) events)
                          (event_of c ∷ []),
                      row_count-append (in_window w late user) log (event_of c ∷ []),
                      kept,
                      same,
                    )
                    refl,
                rw (row_count-append (in_window w late user) log (event_of c ∷ []), one)
                    (below_limit limit w c.now late user (event_of c) log l room bound),
              ))
    ]

Within-check_all :
    (limit w from till : ℕ) (cs : List Check) (s : List RateEvent × List RateEvent)
    → chronological from till cs ≡ true
    → Within limit w from s
    → Within limit w till (check_all limit w cs s)
unfolding Within
Within-check_all limit w from till [] s o inv =
    λ late user l. inv late user (ground (arith, leb→le from till o, l))
Within-check_all limit w from till (c ∷ cs) s o inv =
    Within-check_all limit w c.now till cs (check_all limit w (c ∷ []) s) (ground (arith, o))
      (check_step limit w from c s.0 s.1 (leb→le from c.now (ground (arith, o))) inv)

-- The sliding window holds: in checks made in order of time with one limit and one window, up to any
-- time, a user has at most the limit (and at most 1 for a limit of 0) of allowed events whose age at
-- that time is below the window, though the table itself is pruned on every check.
pub rate_window :
    (limit w from till : ℕ) (cs : List Check)
    → chronological from till cs ≡ true
    → (user : ℤ) → row_count (in_window w till user) (check_all limit w cs ([], [])).1 ≤ max 1 limit
unfolding row_count Within
rate_window limit w from till cs o user =
    (Within-check_all limit w from till cs ([], []) o (λ late u l. (refl, omega arith)) till user
      (omega arith)).1

-- Only a full window refuses: a check is allowed exactly when fewer events of the user than the limit
-- lie in the window, and the wait it names is 0 exactly then.
pub rate_verdict :
    (id : String) (user : ℤ) (limit w now : ℕ) (source : String) (events : List RateEvent)
    → let verdict = (check_user_rate_limit id user limit w now source events).1 in
      (verdict.allowed ≡ ltb (row_count (in_window w now user) events) (max 1 limit))
      × (nat_eq verdict.retry_after_seconds 0 ≡ verdict.allowed)
unfolding check_user_rate_limit
rate_verdict id user limit w now source events =
    elim (Bool-cases (leb (max 1 limit) (row_count (in_window w now user) events))) [
      | inl y ↦ rw (rows_count w now user events, y) (ground (arith, y), waits w now _)
      | inr n ↦ rw (rows_count w now user events, n) (ground (arith, n), refl)
    ]
