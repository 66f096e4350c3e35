-- ===== src/Store/Cache.antt =====
-- The tables recent_results and inline_cached_media of services/state_schema.py and their methods in
-- services/state_store.py. The cache key f"{chat_id}:{normalized_url}" is the pair that it spells, as a
-- chat id has no colon; a JSON column holds the value that is dumped and loaded. Whether a file exists is
-- a parameter.
pub mod Answers
pub mod Tests
use inst_video_downloader_tg.Base.{
  ℕ, ◌+◌, ◌≡◌, ◌↔◌, Bool, true, false, not, ◌&&◌, ◌||◌, Option, none, some, List, [], ◌∷◌, ◌++◌,
  map, String, ◌==◌, eq_iff, leb, ltb, any, is_none, arith, if◌then◌else◌,
}
use inst_video_downloader_tg.Base.Int.{ℤ, int_eq, int_eq_iff}
use inst_video_downloader_tg.Sql.{select, fetch_one, update, delete, upsert}
use inst_video_downloader_tg.Sql.Keys.{Key, at, has}

-- An item of media_items in recent_results
pub record CachedItem : Type 0 where
  pub file_path : String
  pub media_type : String
  pub caption : Option String
  pub duration : Option ℕ
  pub width : Option ℕ
  pub height : Option ℕ
  pub telegram_file_id : Option String

abbrev pub CacheKey : Type 0
CacheKey = ℤ × String

abbrev pub cache_key_eq : CacheKey → CacheKey → Bool
cache_key_eq a b = int_eq a.0 b.0 && (a.1 == b.1)

pub cache_key_eq_iff : (a b : CacheKey) → (cache_key_eq a b ≡ true) ↔ (a ≡ b)
cache_key_eq_iff a b = ground (arith, int_eq_iff a.0 b.0, eq_iff a.1 b.1)

pub record RecentResult : Type 0 where
  pub chat_id : ℤ
  pub normalized_url : String
  pub provider : String
  pub title : String
  pub media_items : List CachedItem
  pub created_at : ℕ
  pub expires_at : ℕ

-- _cache_key
abbrev pub cache_key : RecentResult → CacheKey
cache_key r = (r.chat_id, r.normalized_url)

abbrev pub result_pk : Key RecentResult CacheKey
result_pk = record { key = cache_key; beq = cache_key_eq; beq_iff = cache_key_eq_iff }

pub record CachedMediaEntry : Type 0 where
  pub title : String
  pub media_items : List CachedItem
  pub created_at : ℕ
  pub expires_at : ℕ

-- A text that is there and not empty
abbrev pub is_set : Option String → Bool
is_set none = false
is_set (some s) = not (s == "")

-- not Path(file_path).exists() and not media_item.get("telegram_file_id")
abbrev pub is_lost : (String → Bool) → CachedItem → Bool
is_lost exists_ i = not (exists_ i.file_path) && not (is_set i.telegram_file_id)

pub get_cached_result :
    ℕ → (String → Bool) → ℤ → String → List RecentResult → Option CachedMediaEntry
get_cached_result now exists_ chat url t =
    elim (fetch_one (λ r. has result_pk (chat, url) r && ltb now r.expires_at) t) [
      | none ↦ none
      | some r ↦
          if any (is_lost exists_) r.media_items
          then none
          else some (record {
            title = r.title;
            media_items = r.media_items;
            created_at = r.created_at;
            expires_at = r.expires_at;
          })
    ]

abbrev pub saved_row : ℕ → ℤ → String → String → String → List CachedItem → ℕ → RecentResult
saved_row now chat url provider title items ttl = record {
  chat_id = chat;
  normalized_url = url;
  provider = provider;
  title = title;
  media_items = items;
  created_at = now;
  expires_at = now + ttl;
}

pub save_cached_result :
    ℕ → ℤ → String → String → String → List CachedItem → ℕ → List RecentResult → List RecentResult
save_cached_result now chat url provider title items ttl t =
    let new = saved_row now chat url provider title items ttl in
    upsert (has result_pk (chat, url)) new
      (λ r. record new { chat_id = r.chat_id; normalized_url = r.normalized_url }) t

-- The loop over zip(media_items, telegram_file_ids)
abbrev pub with_file_id : CachedItem → Option String → CachedItem
with_file_id i f = if is_set f then record i { telegram_file_id = f } else i

pub with_file_ids : List CachedItem → List (Option String) → List CachedItem
with_file_ids [] fs = []
with_file_ids (i ∷ is) [] = i ∷ is
with_file_ids (i ∷ is) (f ∷ fs) = with_file_id i f ∷ with_file_ids is fs

pub update_cached_telegram_file_ids :
    ℤ → String → List (Option String) → List RecentResult → List RecentResult
unfolding with_file_ids
update_cached_telegram_file_ids chat url fs t = elim (at result_pk t (chat, url)) [
  | none ↦ t
  | some r ↦
      update (has result_pk (chat, url))
        (λ x. record x { media_items = with_file_ids r.media_items fs }) t
]

abbrev pub is_stale : ℕ → RecentResult → Bool
is_stale now r = leb r.expires_at now

pub paths_of : List RecentResult → List String
paths_of [] = []
paths_of (r ∷ rs) = map (λ i. i.file_path) r.media_items ++ paths_of rs

pub purge_expired_results : ℕ → List RecentResult → List RecentResult × List String
unfolding paths_of
purge_expired_results now t = (delete (is_stale now) t, paths_of (select (is_stale now) t))

-- The media_items of inline_cached_media
pub record InlineItem : Type 0 where
  pub media_type : String
  pub file_id : String
  pub caption : Option String
  pub duration : Option ℕ
  pub width : Option ℕ
  pub height : Option ℕ

pub record InlineMedia : Type 0 where
  pub cache_key : String
  pub provider : String
  pub normalized_url : String
  pub media_items : List InlineItem
  pub created_at : ℕ

abbrev pub media_pk : Key InlineMedia String
media_pk = record { key = λ r. r.cache_key; beq = ◌==◌; beq_iff = eq_iff }

unfoldable pub save_inline_cached_media :
    ℕ → String → String → String → List InlineItem → List InlineMedia → List InlineMedia
save_inline_cached_media now key provider url items t =
    upsert (has media_pk key)
      (record {
        cache_key = key;
        provider = provider;
        normalized_url = url;
        media_items = items;
        created_at = now;
      })
      (λ r. record r {
        provider = provider;
        normalized_url = url;
        media_items = items;
        created_at = now;
      })
      t

pub get_inline_cached_media : String → List InlineMedia → Option InlineMedia
get_inline_cached_media key t = at media_pk t key
