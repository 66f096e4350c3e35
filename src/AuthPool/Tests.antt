-- ===== src/AuthPool/Tests.antt =====
-- A pool of two contexts, one of which rests.
use Prim.Native.Nat.{◌%◌}
use inst_video_downloader_tg.Base.{
  ◌+◌, min, ◌≡◌, refl, false, not, [], ◌∷◌, ◌==◌, ◌++◌, length, take, drop, nat_eq, ltb, All, Mem,
  if◌then◌else◌,
}
use inst_video_downloader_tg.Sql.{select}
use inst_video_downloader_tg.AuthPool.{
  InstagramAuthContext, cookie, bearer, InstagramAuthPool, drop_expired, cools_down,
  get_contexts_for_attempt, mark_cooldown, parse_contexts,
}
use inst_video_downloader_tg.AuthPool.Cooling.{rests_until}
use inst_video_downloader_tg.AuthPool.Headers.{AllSafe, parsed_safe}
use inst_video_downloader_tg.AuthPool.Turns.{attempt_given}

abbrev first : InstagramAuthContext
first = record { context_id = "cookie:0"; kind = cookie; value = "sessionid=a" }

abbrev second : InstagramAuthContext
second = record { context_id = "bearer:0"; kind = bearer; value = "t0k3n" }

abbrev pool : InstagramAuthPool
pool = record {
  contexts = first ∷ second ∷ [];
  max_contexts_per_attempt = 2;
  cooldown = 900;
  cursor = 1;
  cooldowns = record { context_id = "bearer:0"; expires_at = 400; reason = "http_429" } ∷ [];
}

rests_until_example :
    cools_down (drop_expired 500 (mark_cooldown 100 "cookie:0" "checkpoint" pool)) "cookie:0" ≡ (
      if "cookie:0" == "cookie:0"
      then ltb 500 (100 + 900)
      else cools_down (drop_expired 500 pool) "cookie:0")
rests_until_example = rests_until 100 500 "cookie:0" "cookie:0" "checkpoint" pool refl

attempt_given_example :
    let (after, given) = get_contexts_for_attempt 300 pool in
    let usable =
      select (λ c. not (cools_down (drop_expired 300 pool) c.context_id)) pool.contexts in
    let limit = min pool.max_contexts_per_attempt (length usable) in
    All (λ c. Mem c pool.contexts × (cools_down (drop_expired 300 pool) c.context_id ≡ false)) given
    × (length given ≡ limit)
    × (given ≡ take limit (drop (pool.cursor % length usable) usable ++ usable))
    × (after.cursor
        ≡ (if nat_eq (length usable) 0 then pool.cursor else (pool.cursor + limit) % length usable))
attempt_given_example = attempt_given 300 pool

parsed_safe_example :
    AllSafe (parse_contexts (λ n. "0") (λ s. s) ("sessionid=a" ∷ []) ("token=t0k3n" ∷ []))
parsed_safe_example = parsed_safe (λ n. "0") (λ s. s) ("sessionid=a" ∷ []) ("token=t0k3n" ∷ [])
