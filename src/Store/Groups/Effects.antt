-- ===== src/Store/Groups/Effects.antt =====
-- What the writes of settings and notifications do to the later reads.
use inst_video_downloader_tg.Base.{
  ℕ, ◌≡◌, refl, sym, ap, ◌∙◌, true, false, not, ◌&&◌, ◌||◌, none, some, List, [], ◌∷◌, String,
  arith, any, ◌==◌, nat_eq, is_none, if◌then◌else◌, inl, inr, Bool-cases, Option-cases, eq_iff,
}
use inst_video_downloader_tg.Base.Int.{ℤ, int_eq, int_eq_iff}
use inst_video_downloader_tg.Sql.{fetch_one, update}
use inst_video_downloader_tg.Sql.Laws.{touched}
use inst_video_downloader_tg.Sql.Keys.{at, has, at-upsert, inserted}
use inst_video_downloader_tg.Store.Groups.{
  Defaults, GroupRow, group_pk, default_row, effective, ensured, ensure_group_settings, GroupUpdate,
  assign, assign_all, allowed, update_group_settings, UserSettings, user_pk, get_user_language,
  set_user_language, filled, quiet_mode_to, duplicate_suppression_to, stats_enabled_to,
  chaos_mode_enabled_to, chat_max_concurrent_jobs_to, user_max_active_jobs_to, unknown_key,
}

-- The row of a chat, or the row it would get
abbrev pub settings_of : Defaults → List GroupRow → ℤ → GroupRow
settings_of d t chat = elim (at group_pk t chat) [ none ↦ default_row d chat | some r ↦ r ]

at-ensured :
    (d : Defaults) (chat j : ℤ) (t : List GroupRow)
    → at group_pk (ensured d chat t) j
      ≡ (if int_eq chat j then some (settings_of d t chat) else at group_pk t j)
at-ensured d chat j t =
    let row = at-upsert group_pk chat j (default_row d chat) (λ r. r) t (λ r. refl) refl in
    elim (Option-cases (at group_pk t chat)) [
      | inl e ↦ ground (arith, row, e)
      | inr (r, e) ↦ ground (arith, row, e)
    ]

settings_of-ensured :
    (d : Defaults) (chat j : ℤ) (t : List GroupRow)
    → settings_of d (ensured d chat t) j ≡ settings_of d t j
settings_of-ensured d chat j t =
    let row = at-ensured d chat j t in
    elim (Bool-cases (int_eq chat j)) [
      | inl y ↦
          let same : chat ≡ j = (int_eq_iff chat j).0 y in
          elim (Option-cases (at group_pk t j)) [
            | inl e ↦ ground (arith, row, y, same, e)
            | inr (r, e) ↦ ground (arith, row, y, same, e)
          ]
      | inr n ↦ ground (arith, row, n)
    ]

-- Reading a chat's settings never fails, gives what its row says with the configured limits for those
-- it leaves open, and changes no chat's settings, though it inserts the row when there is none.
pub ensure_settings :
    (d : Defaults) (chat j : ℤ) (t : List GroupRow)
    → ((ensure_group_settings d chat t).1 ≡ some (effective d (settings_of d t chat)))
      × (settings_of d (ensure_group_settings d chat t).0 j ≡ settings_of d t j)
unfolding ensure_group_settings
ensure_settings d chat j t =
    let row = at-ensured d chat chat t in
    let own = (int_eq_iff chat chat).1 refl in
    (ground (arith, row, own), settings_of-ensured d chat j t)

assign_all-none_allowed :
    (us : List GroupUpdate) (r : GroupRow) → any allowed us ≡ false → assign_all us r ≡ r
assign_all-none_allowed [] r h = refl
assign_all-none_allowed (unknown_key k ∷ us) r h = assign_all-none_allowed us r h
assign_all-none_allowed (u ∷ us) r h = absurd (ground (arith, h))

assign-keeps : (u : GroupUpdate) (r : GroupRow) → (assign u r).chat_id ≡ r.chat_id
assign-keeps (quiet_mode_to b) r = refl
assign-keeps (duplicate_suppression_to b) r = refl
assign-keeps (stats_enabled_to b) r = refl
assign-keeps (chaos_mode_enabled_to b) r = refl
assign-keeps (chat_max_concurrent_jobs_to n) r = refl
assign-keeps (user_max_active_jobs_to n) r = refl
assign-keeps (unknown_key k) r = refl

assign_all-keeps : (us : List GroupUpdate) (r : GroupRow) → (assign_all us r).chat_id ≡ r.chat_id
assign_all-keeps [] r = refl
assign_all-keeps (u ∷ us) r = assign_all-keeps us (assign u r) ∙ assign-keeps u r

at-assigned :
    (chat j : ℤ) (us : List GroupUpdate) (t : List GroupRow)
    → at group_pk (update (has group_pk chat) (assign_all us) t) j ≡ (
        if int_eq chat j
        then touched (λ _. true) (assign_all us) (at group_pk t j)
        else at group_pk t j)
unfolding fetch_one update
at-assigned chat j us [] = ground arith
at-assigned chat j us (r ∷ t) = ground (
  arith,
  at-assigned chat j us t,
  assign_all-keeps us r,
  int_eq_iff r.chat_id chat,
  int_eq_iff chat j,
  int_eq_iff r.chat_id j,
)

written :
    (d : Defaults) (chat j : ℤ) (us : List GroupUpdate) (t : List GroupRow)
    → settings_of d (update (has group_pk chat) (assign_all us) (ensured d chat t)) j
      ≡ (if int_eq chat j then assign_all us (settings_of d t chat) else settings_of d t j)
written d chat j us t =
    let put = at-assigned chat j us (ensured d chat t) in
    let row = at-ensured d chat j t in
    elim (Bool-cases (int_eq chat j)) [
      | inl y ↦ ground (arith, put, row, y)
      | inr n ↦ ground (arith, put, row, n)
    ]

rewritten :
    (d : Defaults) (chat j : ℤ) (us : List GroupUpdate) (t : List GroupRow)
    → let (t', result) =
        ensure_group_settings d chat
          (update (has group_pk chat) (assign_all us) (ensure_group_settings d chat t).0) in
      (settings_of d t' j
        ≡ (if int_eq chat j then assign_all us (settings_of d t chat) else settings_of d t j))
      × (result ≡ some (effective d (assign_all us (settings_of d t chat))))
unfolding ensure_group_settings
rewritten d chat j us t =
    let t2 = update (has group_pk chat) (assign_all us) (ensured d chat t) in
    let own : settings_of d t2 chat ≡ assign_all us (settings_of d t chat) =
      written d chat chat us t ∙ rw ((int_eq_iff chat chat).1 refl) refl in
    let (result, _) = ensure_settings d chat chat t2 in
    (
      settings_of-ensured d chat j t2 ∙ written d chat j us t,
      result ∙ ap (λ r. some (effective d r)) own,
    )

unassigned :
    (d : Defaults) (chat j : ℤ) (us : List GroupUpdate) (t : List GroupRow)
    → any allowed us ≡ false
    → settings_of d t j
      ≡ (if int_eq chat j then assign_all us (settings_of d t chat) else settings_of d t j)
unassigned d chat j us t n = elim (Bool-cases (int_eq chat j)) [
  | inl y ↦
      let same : j ≡ chat = sym ((int_eq_iff chat j).0 y) in
      rw y (ap (settings_of d t) same ∙ sym (assign_all-none_allowed us (settings_of d t chat) n))
  | inr z ↦ rw z refl
]

filled_language :
    (code : String) → (code == "en" || code == "ru") ≡ true → filled (some code) ≡ some code
filled_language code h = elim (Bool-cases (code == "en")) [
  | inl y ↦ let e = (eq_iff code "en").0 y in rw e refl
  | inr n ↦ let e : code ≡ "ru" = (eq_iff code "ru").0 (ground (arith, h, n)) in rw e refl
]

-- A chat's settings after an update are those before it with the given keys assigned in order, unknown
-- keys ignored, also when no key is known or the chat had no row; what is returned are these settings, the
-- configured limits standing for those left open; the other chats' settings are as before.
update_settings :
    (d : Defaults) (chat j : ℤ) (us : List GroupUpdate) (t : List GroupRow)
    → let (t', result) = update_group_settings d chat us t in
      (settings_of d t' j
        ≡ (if int_eq chat j then assign_all us (settings_of d t chat) else settings_of d t j))
      × (result ≡ some (effective d (assign_all us (settings_of d t chat))))
unfolding update_group_settings
update_settings d chat j us t =
    let own = (int_eq_iff chat chat).1 refl in
    elim (Bool-cases (any allowed us)) [
      | inl y ↦ rw y (rewritten d chat j us t)
      | inr n ↦
          let (result, kept) = ensure_settings d chat j t in
          let same = assign_all-none_allowed us (settings_of d t chat) n in
          rw n
            (kept ∙ unassigned d chat j us t n, result ∙ ap (λ r. some (effective d r)) (sym same))
    ]

-- A language set is read back, for its user and no other, and any other language but en and ru is
-- refused and changes nothing.
pub language_roundtrip :
    (now user j : ℕ) (code : String) (t : List UserSettings)
    → let ok = code == "en" || code == "ru" in
      let stored = set_user_language now user code t in
      (is_none stored ≡ not ok)
      × (get_user_language j (inserted user_pk t stored)
          ≡ (if ok && nat_eq user j then some code else get_user_language j t))
unfolding set_user_language get_user_language
language_roundtrip now user j code t =
    let row =
      at-upsert user_pk user j
        (record { user_id = user; language_code = some code; updated_at = now })
        (λ r. record r { language_code = some code; updated_at = now }) t (λ r. refl) refl in
    let full = filled_language code in
    elim (Option-cases (at user_pk t user)) [
      | inl e ↦ ground (arith, row, e, full)
      | inr (s, e) ↦ ground (arith, row, e, full)
    ]
