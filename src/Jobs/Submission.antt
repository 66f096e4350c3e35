-- ===== src/Jobs/Submission.antt =====
-- Duplicate suppression: which job a request joins, and when it starts one.
use mathlib.Core.Path.{subst}
use inst_video_downloader_tg.Base.{
  ℕ, ◌≡◌, refl, sym, ap, ◌∙◌, true, false, none, some, List, [], ◌∷◌, ◌++◌, String, arith, inl, inr,
  Bool-cases, Option-cases, ◌==◌, eq_iff, eq_refl,
}
use inst_video_downloader_tg.Base.Int.{int_eq_iff}
use inst_video_downloader_tg.Sql.{update, fetch_one}
use inst_video_downloader_tg.Sql.Laws.{fetch_one-append, fetch_one-update, fetch_one_sound}
use inst_video_downloader_tg.Sql.Keys.{at, has}
use inst_video_downloader_tg.Jobs.{RequestRecord, SharedJob, is_over}
use inst_video_downloader_tg.Jobs.Manager.{
  ActiveKey, key_eq, get_active, pop_active, put_active, JobManager, Request, new_requester,
  object_pk, key_of, submit, join_job, start_job, joinable,
}
use inst_video_downloader_tg.Jobs.Running.{run_finally}

key_eq_refl : (a : ActiveKey) → key_eq a a ≡ true
key_eq_refl a = ground (arith, int_eq_iff a.0 a.0, eq_iff a.1 a.1)

-- A key that was popped is not active.
pub get_active-pop :
    (k : ActiveKey) (es : List (ActiveKey × String)) → get_active k (pop_active k es) ≡ none
unfolding get_active pop_active
get_active-pop k [] = refl
get_active-pop k (e ∷ es) = elim (Bool-cases (key_eq e.0 k)) [
  | inl y ↦ rw y (get_active-pop k es)
  | inr n ↦ rw (n, n) (get_active-pop k es)
]

get_active-put :
    (k : ActiveKey) (id : String) (es : List (ActiveKey × String))
    → get_active k (put_active k id es) ≡ some id
unfolding get_active put_active
get_active-put k id es = rw (key_eq_refl k) refl

module _ {A : Type 0} where
  joinable_found :
      (q : Request) (m : JobManager A) (id : String) {j : SharedJob A}
      → q.duplicate_suppression ≡ true
      → get_active (q.chat_id, q.normalized_url) m.active_jobs ≡ some id
      → at object_pk m.objects id ≡ some j
      → is_over j.state ≡ false
      → joinable q m ≡ some j
  unfolding joinable
  joinable_found q m id s g a o = rw (s, g, a, o) refl

  joinable_inv :
      (q : Request) (m : JobManager A) {j : SharedJob A}
      → joinable q m ≡ some j
      → (get_active (q.chat_id, q.normalized_url) m.active_jobs ≡ some j.job_id)
        × (at object_pk m.objects j.job_id ≡ some j)
        × (is_over j.state ≡ false)
  unfolding joinable
  joinable_inv q m {j} h =
      elim (Option-cases (get_active (q.chat_id, q.normalized_url) m.active_jobs)) [
        | inl e ↦ absurd (ground (arith, h, e))
        | inr (id, e) ↦ elim (Option-cases (at object_pk m.objects id)) [
          | inl a ↦ absurd (ground (arith, h, e, a))
          | inr (k, a) ↦
              let same : k ≡ j = ground (arith, h, e, a) in
              let name : k.job_id ≡ id =
                (eq_iff k.job_id id).0 (fetch_one_sound (has object_pk id) m.objects a) in
              (
                e ∙ ap some (sym name ∙ ap (λ (x : SharedJob A). x.job_id) same),
                subst (λ (x : SharedJob A). at object_pk m.objects x.job_id ≡ some x) same
                    (simp name a),
                ground (arith, h, e, a),
              )
        ]
      ]

  joined_row :
      (j : SharedJob A) (r : RequestRecord) (js : List (SharedJob A))
      → at object_pk js j.job_id ≡ some j
      → at object_pk
          (update
            (has object_pk j.job_id)
            (λ k. record k { requesters = k.requesters ++ r ∷ [] })
            js)
          j.job_id
        ≡ some (record j { requesters = j.requesters ++ r ∷ [] })
  joined_row j r js a =
      fetch_one-update (has object_pk j.job_id) (has object_pk j.job_id) _ js (λ k. refl)
      ∙ rw (a, eq_refl j.job_id) refl

  -- A request that joins: the job is the active one of its chat and URL and is not over, it gets the
  -- requester as its last one and is otherwise as it was, and its own earlier queue position is answered.
  pub submit_joins :
      (tick now : ℕ) (request_id job_id : String) (q : Request) (m : JobManager A) {j : SharedJob A}
      → joinable q m ≡ some j
      → let (m', s) = submit tick now request_id job_id q m in
        (s.is_new_job ≡ false)
        × (s.job_id ≡ j.job_id)
        × (s.queue_position ≡ j.queue_position_at_submit)
        × (m'.active_jobs ≡ m.active_jobs)
        × (at object_pk m'.objects j.job_id
            ≡ some (record j { requesters = j.requesters ++ new_requester tick request_id q ∷ [] }))
  unfolding submit
  submit_joins tick now request_id job_id q m {j} e =
      rw (e, submit)
        (unfold join_job in
          (
            refl,
            refl,
            refl,
            refl,
            joined_row j (new_requester tick request_id q) m.objects (joinable_inv q m e).1,
          ))

  new_row :
      (id : String) (new : SharedJob A) (js : List (SharedJob A))
      → new.job_id ≡ id
      → at object_pk js id ≡ none
      → at object_pk (js ++ new ∷ []) id ≡ some new
  unfolding fetch_one
  new_row id new js e a =
      ground (arith, fetch_one-append (has object_pk id) js (new ∷ []), a, e, eq_refl id)

  active_after :
      (tick now : ℕ) (request_id job_id : String) (q : Request) (m : JobManager A)
      → at object_pk m.objects job_id ≡ none
      → let (m', s) = submit tick now request_id job_id q m in
        (j : SharedJob A) × (get_active (q.chat_id, q.normalized_url) m'.active_jobs
          ≡ some s.job_id)
        × (at object_pk m'.objects s.job_id ≡ some j)
        × (is_over j.state ≡ false)
  unfolding submit
  active_after tick now request_id job_id q m fresh = elim (Option-cases (joinable q m)) [
    | inl e ↦
        rw (e, submit)
          (unfold start_job in
            (
              _,
              get_active-put (q.chat_id, q.normalized_url) job_id m.active_jobs,
              new_row job_id _ m.objects refl fresh,
              refl,
            ))
    | inr (j, e) ↦
        let (g, a, o) = joinable_inv q m e in
        rw (e, submit)
          (unfold join_job in (_, g, joined_row j (new_requester tick request_id q) m.objects a, o))
  ]

  -- Duplicate suppression: right after a request for a chat and a URL, whether it made a job or joined
  -- one, a second request for the same chat and URL that asks for suppression joins the same job.
  pub submit_twice :
      (tick now tick' now' : ℕ) (r job r' job' : String) (q q' : Request) (m : JobManager A)
      → at object_pk m.objects job ≡ none
      → q'.duplicate_suppression ≡ true
      → q'.chat_id ≡ q.chat_id
      → q'.normalized_url ≡ q.normalized_url
      → let (m', s) = submit tick now r job q m in
        let s' = (submit tick' now' r' job' q' m').1 in
        (s'.is_new_job ≡ false) × (s'.job_id ≡ s.job_id)
  submit_twice tick now tick' now' r job r' job' q q' m fresh suppressed chat url =
      let m' = (submit tick now r job q m).0 in
      let id = (submit tick now r job q m).1.job_id in
      let (j, g, a, o) = active_after tick now r job q m fresh in
      let g' : get_active (q'.chat_id, q'.normalized_url) m'.active_jobs ≡ some id =
        rw (chat, url) g in
      let joins = joinable_found q' m' id suppressed g' a o in
      let found = submit_joins tick' now' r' job' q' m' joins in
      let name : j.job_id ≡ id =
        (eq_iff j.job_id id).0 (fetch_one_sound (has object_pk id) m'.objects a) in
      (found.0, found.1 ∙ name)

  joinable-finally :
      (q : Request) (j : SharedJob A) (m : JobManager A)
      → ◌≡◌ {A = ActiveKey} (q.chat_id, q.normalized_url) (key_of j)
      → joinable q (run_finally j m) ≡ none
  unfolding joinable run_finally
  joinable-finally q j m same =
      let gone : get_active (q.chat_id, q.normalized_url) (pop_active (key_of j) m.active_jobs)
          ≡ none =
        subst (λ (k : ActiveKey). get_active k (pop_active (key_of j) m.active_jobs) ≡ none)
          (sym same) (get_active-pop (key_of j) m.active_jobs) in
      rw gone (elim (Bool-cases q.duplicate_suppression) [ inl y ↦ rw y refl | inr n ↦ rw n refl ])

  -- A job that ends late unhooks a newer one. Let a newer job, not over, be the active one of a chat and
  -- URL, so that a request for them joins it. When the task of another job of the same chat and URL then
  -- ends (one that was cancelled before), the same request starts a new job instead, though the newer
  -- job is still there and not over.
  pub finally_forgets :
      (tick now : ℕ) (request_id job_id : String) (q : Request) (old new : SharedJob A)
      (m : JobManager A)
      → q.duplicate_suppression ≡ true
      → ◌≡◌ {A = ActiveKey} (q.chat_id, q.normalized_url) (key_of old)
      → (new.job_id == old.job_id) ≡ false
      → get_active (q.chat_id, q.normalized_url) m.active_jobs ≡ some new.job_id
      → at object_pk m.objects new.job_id ≡ some new
      → is_over new.state ≡ false
      → ((submit tick now request_id job_id q m).1.is_new_job ≡ false)
        × ((submit tick now request_id job_id q (run_finally old m)).1.is_new_job ≡ true)
        × (at object_pk (run_finally old m).objects new.job_id ≡ some new)
  finally_forgets tick now request_id job_id q old new m suppressed same other g a o = (
    (submit_joins tick now request_id job_id q m
        (joinable_found q m new.job_id suppressed g a o)).0,
    (unfold submit start_job in rw (joinable-finally q old m same, submit) refl),
    (unfold run_finally in
        fetch_one-update (has object_pk new.job_id) (has object_pk old.job_id) _ m.objects
          (λ k. refl)
        ∙ rw (a, other) refl),
  )
