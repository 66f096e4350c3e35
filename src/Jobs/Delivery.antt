-- ===== src/Jobs/Delivery.antt =====
-- The hand-over of a delivery: who delivers next, and that a pending delivery always has an owner.
use inst_video_downloader_tg.Base.{
  ◌≤◌, ◌≡◌, ◌⊎◌, refl, ◌∙◌, Bool, true, false, not, ◌&&◌, ◌||◌, Option, none, some, List, [], ◌∷◌,
  String, arith, All, All-map, All-Mem, Mem, or_leb, leb, inl, inr, Bool-cases, Option-cases, ◌==◌,
  eq_iff,
}
use inst_video_downloader_tg.Sql.{select, first_by}
use inst_video_downloader_tg.Sql.Order.{
  All-select, All-first_by, first_by-none, first_by-select_least,
}
use inst_video_downloader_tg.Store.InlineSessions.{is_text}
use inst_video_downloader_tg.Jobs.States.{Error}
use inst_video_downloader_tg.Jobs.{
  Future, pending, RequestRecord, DeliveryError, request_cancelled, SharedJob, is_pending, renew,
  has_active, any_active, deactivate, is_candidate, next_delivery_request_id,
  promote_delivery_request, handoff_delivery, give_up_request, cancel_job, close_if_idle, is_over,
  is_pending_or_none, deactivate_request_in, mark_delivery_completed, mark_delivery_unknown,
  mark_delivery_failed,
}

-- The delivery has an owner, and it is an active requester.
abbrev pub owner_active : Option String → List RequestRecord → Bool
owner_active none rs = false
owner_active (some id) rs = has_active id rs

-- A delivery that is waited for has an owner.
abbrev pub IsOwned : {A : Type 0} → SharedJob A → Type 0
IsOwned j =
    is_pending j.delivery_future ≡ true → owner_active j.delivery_request_id j.requesters ≡ true

All-has_active :
    (rs : List RequestRecord) → All (λ r. r.active ≡ true → has_active r.request_id rs ≡ true) rs
unfolding has_active
All-has_active [] = tt
All-has_active (r ∷ rs) = (
  λ e. ground (arith, e, eq_iff r.request_id r.request_id),
  All-map rs (λ x h e. ground (arith, h e)) (All-has_active rs),
)

-- The next owner is the active request that was made first, the excluded one left out; there is none
-- exactly if no other request is active.
pub next_lem :
    (exclude : Option String) (rs : List RequestRecord)
    → ((r : RequestRecord) × (next_delivery_request_id exclude rs ≡ some r.request_id)
        × (is_candidate exclude r ≡ true)
        × (has_active r.request_id rs ≡ true)
        × Mem r rs
        × All (λ q. is_candidate exclude q ≡ true → r.created_monotonic ≤ q.created_monotonic) rs)
      ⊎ ((next_delivery_request_id exclude rs ≡ none)
          × All (λ q. is_candidate exclude q ≡ false) rs)
unfolding next_delivery_request_id
next_lem exclude rs =
    let age = λ (r : RequestRecord). r.created_monotonic in
    let c = is_candidate exclude in
    elim (Option-cases (first_by age (select c rs))) [
      | inl e ↦ inr (rw e refl, first_by-none age c rs e)
      | inr (r, e) ↦
          let own =
            All-first_by (λ q. (q.active ≡ true → has_active q.request_id rs ≡ true) × (c q ≡ true))
              age (select c rs)
              (All-select (λ q. q.active ≡ true → has_active q.request_id rs ≡ true) c rs
                (All-has_active rs))
              e in
          let here =
            All-first_by (λ q. Mem q rs × (c q ≡ true)) age (select c rs)
              (All-select (λ q. Mem q rs) c rs (All-Mem rs)) e in
          inl (
            r,
            rw e refl,
            own.1,
            own.0 (ground (arith, own.1)),
            here.0,
            first_by-select_least age c rs e,
          )
    ]

-- With a next owner the delivery is owned, and with none it is over.
renew_owned :
    (exclude : Option String) (rs : List RequestRecord) (f : Option (Future Bool))
    → let next = next_delivery_request_id exclude rs in
      is_pending (renew next f) ≡ true → owner_active next rs ≡ true
renew_owned exclude rs f = elim (next_lem exclude rs) [
  | inl (r, e, c, a, _, _) ↦ rw e (λ _. a)
  | inr (e, _) ↦ rw e (λ h. absurd (ground (arith, h)))
]

has_active-deactivate :
    (id other : String) (rs : List RequestRecord)
    → (other == id) ≡ false
    → has_active other (deactivate id rs) ≡ has_active other rs
unfolding has_active deactivate
has_active-deactivate id other [] n = refl
has_active-deactivate id other (r ∷ rs) n = ground (
  arith,
  n,
  eq_iff r.request_id id,
  eq_iff r.request_id other,
  eq_iff other id,
  has_active-deactivate id other rs n,
)

owner-deactivate :
    (id : String) (owner : Option String) (rs : List RequestRecord)
    → is_text owner id ≡ false
    → owner_active owner (deactivate id rs) ≡ owner_active owner rs
owner-deactivate id none rs n = refl
owner-deactivate id (some other) rs n = has_active-deactivate id other rs n

module _ {A : Type 0} where
  promote-IsOwned : (j : SharedJob A) → IsOwned (promote_delivery_request j)
  unfolding promote_delivery_request
  promote-IsOwned j = renew_owned none j.requesters j.delivery_future

  pub handoff-IsOwned :
      (id : String) (error : DeliveryError) (j : SharedJob A)
      → IsOwned (handoff_delivery id error j).0
  unfolding handoff_delivery
  handoff-IsOwned id error j = renew_owned (some id) j.requesters j.delivery_future

  -- Another request than the owner's may be deactivated.
  deactivate-IsOwned :
      (id : String) (j : SharedJob A)
      → is_text j.delivery_request_id id ≡ false
      → IsOwned j
      → IsOwned (record j { requesters = deactivate id j.requesters })
  deactivate-IsOwned id j n h p = owner-deactivate id j.delivery_request_id j.requesters n ∙ h p

  pub give_up-IsOwned : (id : String) (j : SharedJob A) → IsOwned j → IsOwned (give_up_request id j)
  unfolding give_up_request
  give_up-IsOwned id j h = elim (Bool-cases (is_text j.delivery_request_id id)) [
    | inr n ↦ rw n (deactivate-IsOwned id j n h)
    | inl y ↦ rw y (elim (Bool-cases (is_pending j.delivery_future)) [
      | inl p ↦ rw p (
          handoff-IsOwned id request_cancelled
            (record j { requesters = deactivate id j.requesters }))
      | inr n ↦ rw n (promote-IsOwned (record j { requesters = deactivate id j.requesters }))
    ])
  ]

  pub cancel_job-IsOwned : (j : SharedJob A) → IsOwned (cancel_job j)
  unfolding cancel_job
  cancel_job-IsOwned j p = absurd (ground (arith, p))

  close_if_idle-IsOwned : (j : SharedJob A) → IsOwned j → IsOwned (close_if_idle j)
  unfolding close_if_idle
  close_if_idle-IsOwned j h = elim (Bool-cases (any_active j.requesters)) [
    | inl y ↦ rw y h
    | inr n ↦ rw n (elim (Bool-cases (is_over j.state)) [ inl y ↦ rw y h | inr m ↦ rw m h ])
  ]

  pub deactivate_request_in-IsOwned :
      (id : String) (j : SharedJob A) → IsOwned j → IsOwned (deactivate_request_in id j)
  unfolding deactivate_request_in
  deactivate_request_in-IsOwned id j h =
      elim (Bool-cases (is_text j.delivery_request_id id && is_pending_or_none j.delivery_future)) [
        | inl y ↦ rw y (
            close_if_idle-IsOwned _
              (promote-IsOwned (record j { requesters = deactivate id j.requesters })))
        | inr n ↦ rw n (
            close_if_idle-IsOwned (record j { requesters = deactivate id j.requesters })
              (elim (Bool-cases (is_text j.delivery_request_id id)) [
                | inl own ↦ λ p. absurd (ground (arith, n, own, p))
                | inr other ↦ deactivate-IsOwned id j other h
              ]))
      ]

  pub mark_delivery_completed-IsOwned : (j : SharedJob A) → IsOwned (mark_delivery_completed j)
  unfolding mark_delivery_completed
  mark_delivery_completed-IsOwned j p = absurd (ground (arith, p))

  pub mark_delivery_unknown-IsOwned :
      (e : Error) (j : SharedJob A) → IsOwned (mark_delivery_unknown e j)
  unfolding mark_delivery_unknown
  mark_delivery_unknown-IsOwned e j p = absurd (ground (arith, p))

  -- A failed delivery passes to the active requester that came first, if another than the failed one
  -- is active: the answer is True, a new delivery is waited for and that request owns it. If none is,
  -- the answer is False, nobody owns the delivery, and nobody waits for it. The requests stay.
  pub mark_delivery_failed_lem :
      (id : String) (error : Error) (j : SharedJob A)
      → let (k, passed_on) = mark_delivery_failed id error j in
        (k.requesters ≡ j.requesters)
        × (((r : RequestRecord) × Mem r j.requesters
              × (passed_on ≡ true)
              × (k.delivery_request_id ≡ some r.request_id)
              × (k.delivery_future ≡ some pending)
              × (r.active ≡ true)
              × ((r.request_id == id) ≡ false)
              × All
                  (λ q.
                    (not (is_candidate (some id) q) || leb r.created_monotonic q.created_monotonic)
                    ≡ true)
                  j.requesters)
            ⊎ ((passed_on ≡ false)
                × (k.delivery_request_id ≡ none)
                × (is_pending k.delivery_future ≡ false)
                × All (λ q. is_candidate (some id) q ≡ false) j.requesters))
  unfolding mark_delivery_failed
  mark_delivery_failed_lem id error j = elim (next_lem (some id) j.requesters) [
    | inl (r, e, c, a, here, least) ↦ (
      refl,
      inl (
        r,
        here,
        rw e refl,
        e,
        rw e refl,
        ground (arith, c),
        ground (arith, c, eq_iff r.request_id id, eq_iff id r.request_id),
        All-map j.requesters
            (λ q. or_leb (is_candidate (some id) q) r.created_monotonic q.created_monotonic) least,
      ),
    )
    | inr (e, none_) ↦ (refl, inr (rw e refl, e, rw e (ground arith), none_))
  ]
