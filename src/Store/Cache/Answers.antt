-- ===== src/Store/Cache/Answers.antt =====
-- What the cache answers after each of its writes.
use inst_video_downloader_tg.Base.{
  ℕ, ◌+◌, ◌≤◌, ◌≡◌, refl, ◌∙◌, Bool, true, false, not, ◌&&◌, Option, none, some, List, [], ◌∷◌,
  String, arith, leb, ltb, any, is_none, if◌then◌else◌, inl, inr, Bool-cases, Option-cases,
}
use inst_video_downloader_tg.Base.Int.{ℤ}
use inst_video_downloader_tg.Sql.{fetch_one, update, delete, upsert}
use inst_video_downloader_tg.Sql.Keys.{
  at, has, Unique, at-upsert, Unique-upsert, Unique-update, fetch_one-keyed,
}
use inst_video_downloader_tg.Sql.Laws.{fetch_one-update, fetch_one_sound}
use inst_video_downloader_tg.Store.Cache.{
  CachedItem, CacheKey, cache_key_eq, RecentResult, result_pk, CachedMediaEntry, is_set, is_lost,
  get_cached_result, saved_row, save_cached_result, with_file_ids, update_cached_telegram_file_ids,
  is_stale, purge_expired_results,
}

-- What a row of a key gives a reader
abbrev pub answer : ℕ → (String → Bool) → Option RecentResult → Option CachedMediaEntry
answer now exists_ none = none
answer now exists_ (some r) =
    if ltb now r.expires_at && not (any (is_lost exists_) r.media_items)
    then some (record {
      title = r.title;
      media_items = r.media_items;
      created_at = r.created_at;
      expires_at = r.expires_at;
    })
    else none

get-answer :
    (now : ℕ) (exists_ : String → Bool) (chat : ℤ) (url : String) (t : List RecentResult)
    → Unique result_pk t
    → get_cached_result now exists_ chat url t ≡ answer now exists_ (at result_pk t (chat, url))
unfolding get_cached_result
get-answer now exists_ chat url t u =
    let row = fetch_one-keyed result_pk (chat, url) (λ r. ltb now r.expires_at) t u in
    elim (Option-cases (at result_pk t (chat, url))) [
      | inl e ↦ ground (arith, row, e)
      | inr (r, e) ↦ ground (arith, row, e)
    ]

-- What is saved is answered to its chat and URL until its time to live has passed, if each file is still
-- there or has a Telegram file id; the answers for all other chats and URLs are as before.
pub cache_roundtrip :
    (now later : ℕ) (exists_ : String → Bool) (chat other : ℤ) (url url' provider title : String)
    (items : List CachedItem) (ttl : ℕ) (t : List RecentResult)
    → Unique result_pk t
    → get_cached_result later exists_ other url'
        (save_cached_result now chat url provider title items ttl t)
      ≡ (if cache_key_eq (chat, url) (other, url')
          then (if ltb later (now + ttl) && not (any (is_lost exists_) items)
              then some (record {
                title = title;
                media_items = items;
                created_at = now;
                expires_at = now + ttl;
              })
              else none)
          else get_cached_result later exists_ other url' t)
unfolding save_cached_result
cache_roundtrip now later exists_ chat other url url' provider title items ttl t u =
    let new = saved_row now chat url provider title items ttl in
    let again : RecentResult → RecentResult =
      λ r. record new { chat_id = r.chat_id; normalized_url = r.normalized_url } in
    let row = at-upsert result_pk (chat, url) (other, url') new again t (λ r. refl) refl in
    let after =
      get-answer later exists_ other url' (upsert (has result_pk (chat, url)) new again t)
        (Unique-upsert result_pk (chat, url) new again t (λ r. refl) refl u) in
    let before = get-answer later exists_ other url' t u in
    elim (Option-cases (at result_pk t (chat, url))) [
      | inl e ↦ ground (arith, after, before, row, e)
      | inr (r, e) ↦ ground (arith, after, before, row, e)
    ]

fetch-purged :
    (now later : ℕ) (k : CacheKey) (t : List RecentResult)
    → now ≤ later
    → fetch_one (λ r. has result_pk k r && ltb later r.expires_at) (delete (is_stale now) t)
      ≡ fetch_one (λ r. has result_pk k r && ltb later r.expires_at) t
unfolding fetch_one delete
fetch-purged now later k [] h = refl
fetch-purged now later k (r ∷ t) h =
    let rest = fetch-purged now later k t h in
    elim (Bool-cases (is_stale now r)) [
      | inl y ↦
          let gone : ltb later r.expires_at ≡ false = ground (arith, y, h) in
          ground (arith, rest, y, gone)
      | inr n ↦ ground (arith, rest, n)
    ]

-- Purging takes away no answer: at the time of the purge or later, every chat and URL is answered as it
-- would be without it.
pub purge_invisible :
    (now later : ℕ) (exists_ : String → Bool) (chat : ℤ) (url : String) (t : List RecentResult)
    → now ≤ later
    → get_cached_result later exists_ chat url (purge_expired_results now t).0
      ≡ get_cached_result later exists_ chat url t
unfolding get_cached_result purge_expired_results
purge_invisible now later exists_ chat url t h =
    rw (fetch-purged now later (chat, url) t h, get_cached_result) refl

-- At least as many ids as items, and none empty
abbrev pub covers : List (Option String) → List CachedItem → Bool
covers fs [] = true
covers [] (i ∷ is) = false
covers (f ∷ fs) (i ∷ is) = is_set f && covers fs is

with_file_ids-kept :
    (exists_ : String → Bool) (is : List CachedItem) (fs : List (Option String))
    → covers fs is ≡ true
    → any (is_lost exists_) (with_file_ids is fs) ≡ false
unfolding with_file_ids
with_file_ids-kept exists_ [] fs h = refl
with_file_ids-kept exists_ (i ∷ is) [] h = absurd (ground (arith, h))
with_file_ids-kept exists_ (i ∷ is) (f ∷ fs) h =
    let rest = with_file_ids-kept exists_ is fs (ground (arith, h)) in ground (arith, rest, h)

-- Once every item of a cached result has a Telegram file id, the result is answered until it expires
-- though all its files are deleted.
pub ids_outlive_files :
    (now : ℕ) (exists_ : String → Bool) (chat : ℤ) (url : String) (fs : List (Option String))
    (t : List RecentResult) {r : RecentResult}
    → Unique result_pk t
    → at result_pk t (chat, url) ≡ some r
    → covers fs r.media_items ≡ true
    → is_none
        (get_cached_result now exists_ chat url (update_cached_telegram_file_ids chat url fs t))
      ≡ leb r.expires_at now
unfolding update_cached_telegram_file_ids
ids_outlive_files now exists_ chat url fs t {r} u e h =
    let put : RecentResult → RecentResult =
      λ x. record x { media_items = with_file_ids r.media_items fs } in
    let t' = update (has result_pk (chat, url)) put t in
    let row : at result_pk t' (chat, url) ≡ some (put r) =
      fetch_one-update (has result_pk (chat, url)) (has result_pk (chat, url)) put t (λ x. refl)
      ∙ rw (e, fetch_one_sound (has result_pk (chat, url)) t e) refl in
    let after =
      get-answer now exists_ chat url t'
        (Unique-update result_pk (has result_pk (chat, url)) put t (λ x. refl) u) in
    let kept = with_file_ids-kept exists_ r.media_items fs h in
    rw (e, update_cached_telegram_file_ids) (rw after (rw (row, kept) (ground arith)))
