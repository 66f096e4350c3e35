-- ===== src/AuthPool/Headers.antt =====
-- The values that go into HTTP headers.
use inst_video_downloader_tg.Base.{
  ℕ, suc, ◌≡◌, Bool, true, not, ◌&&◌, Option, none, some, List, [], ◌∷◌, String, arith, All, inl,
  inr, Option-cases,
}
use inst_video_downloader_tg.Base.Split.{is_blank}
use inst_video_downloader_tg.Sql.Laws.{All-append}
use inst_video_downloader_tg.AuthPool.{
  AuthContextKind, cookie, bearer, InstagramAuthContext, is_clean, clean_header_value,
  without_scheme, normalize_bearer_token, cons_context, parse_each, join, parse_contexts,
}

-- A value that is not empty and has no control character, so that it ends no header
abbrev pub is_safe : String → Bool
is_safe value = not (is_blank value) && is_clean value

cleaned :
    (raw : String) {value : String} → clean_header_value raw ≡ some value → is_safe value ≡ true
unfolding clean_header_value
cleaned raw {value} h = ground (arith, h)

normalized :
    (lower : String → String) (raw : String) {value : String}
    → normalize_bearer_token lower raw ≡ some value
    → is_safe value ≡ true
unfolding normalize_bearer_token
normalized lower raw {value} h = elim (Option-cases (clean_header_value raw)) [
  | inl e ↦ absurd (ground (arith, e, h))
  | inr (v, e) ↦ cleaned (without_scheme lower v) (ground (arith, e, h))
]

abbrev pub AllSafe : Option (List InstagramAuthContext) → Type 0
AllSafe none = Unit
AllSafe (some cs) = All (λ c. is_safe c.value ≡ true) cs

cons-AllSafe :
    (str : ℕ → String) (name : String) (kind : AuthContextKind) (index : ℕ) (v : String)
    → is_safe v ≡ true
    → (o : Option (List InstagramAuthContext)) → AllSafe o
    → AllSafe (cons_context str name kind index v o)
cons-AllSafe str name kind index v s none a = tt
cons-AllSafe str name kind index v s (some cs) a = (s, a)

parse_each-AllSafe :
    (str : ℕ → String) (name : String) (kind : AuthContextKind) (clean : String → Option String)
    (index : ℕ) (raws : List String)
    → ((raw value : String) → clean raw ≡ some value → is_safe value ≡ true)
    → AllSafe (parse_each str name kind clean index raws)
unfolding parse_each
parse_each-AllSafe str name kind clean index [] h = tt
parse_each-AllSafe str name kind clean index (raw ∷ rest) h = elim (Option-cases (clean raw)) [
  | inl e ↦ rw (parse_each, e) tt
  | inr (v, e) ↦
      rw (parse_each, e)
        (cons-AllSafe str name kind index v (h raw v e)
          (parse_each str name kind clean (suc index) rest)
          (parse_each-AllSafe str name kind clean (suc index) rest h))
]

join-AllSafe :
    (o p : Option (List InstagramAuthContext)) → AllSafe o → AllSafe p → AllSafe (join o p)
join-AllSafe none p a b = tt
join-AllSafe (some xs) none a b = tt
join-AllSafe (some xs) (some ys) a b = All-append (λ c. is_safe c.value ≡ true) xs ys a b

-- No credential file can smuggle a line into a request: when the lists of the file are accepted, every context has a
-- value that is not empty and has no control character, also after the scheme of a bearer token was cut off.
pub parsed_safe :
    (str : ℕ → String) (lower : String → String) (cookies bearers : List String)
    → AllSafe (parse_contexts str lower cookies bearers)
unfolding parse_contexts
parsed_safe str lower cookies bearers =
    join-AllSafe (parse_each str "cookie:" cookie clean_header_value 0 cookies)
      (parse_each str "bearer:" bearer (normalize_bearer_token lower) 0 bearers)
      (parse_each-AllSafe str "cookie:" cookie clean_header_value 0 cookies
        (λ raw v h. cleaned raw h))
      (parse_each-AllSafe str "bearer:" bearer (normalize_bearer_token lower) 0 bearers
        (λ raw v h. normalized lower raw h))
