-- ===== src/Inline/Access/Tests.antt =====
-- The payload and the result ids of one token.
use inst_video_downloader_tg.Base.{ℕ, zero, suc, ◌≡◌, refl, true, some, String}
use inst_video_downloader_tg.Base.Int.{pos}
use inst_video_downloader_tg.Base.Split.{strip, lstrip, rstrip, no_colon}
use inst_video_downloader_tg.Inline.Access.{
  Numbers, subscription, one_time, build_subscription_payload, build_one_time_payload,
  parse_inline_payment_payload,
}
use inst_video_downloader_tg.Inline.Access.Payloads.{ReadsBack, IsToken, payload_roundtrip}

-- Numbers in unary, which str and int of this shape read back
abbrev pub tally : ℕ → String
tally zero = String.[]
tally (suc n) = String.◌∷◌ "1" (tally n)

abbrev pub count : String → ℕ
count String.[] = 0
count (String.◌∷◌ c s) = suc (count s)

abbrev pub unary : Numbers
unary = record { str = tally; int = λ s. some (pos (count s)) }

count-tally : (n : ℕ) → count (tally n) ≡ n
count-tally zero = refl
count-tally (suc n) = rw (count-tally n) refl

tally-no_colon : (n : ℕ) → no_colon (tally n) ≡ true
unfolding no_colon
tally-no_colon zero = refl
tally-no_colon (suc n) = tally-no_colon n

unary-ReadsBack : ReadsBack unary
unary-ReadsBack = record { number = λ n. rw (count-tally n) refl; digits = tally-no_colon }

sample-IsToken : IsToken "aZ3_-x"
unfolding strip lstrip rstrip no_colon
sample-IsToken = record { colon_free = refl; stripped = refl; filled = refl }

payload_roundtrip_example :
    (parse_inline_payment_payload unary (build_subscription_payload unary 7 "aZ3_-x")
      ≡ some (record { kind = subscription; user_id = pos 7; session_token = "aZ3_-x" }))
    × (parse_inline_payment_payload unary (build_one_time_payload unary 7 "aZ3_-x")
        ≡ some (record { kind = one_time; user_id = pos 7; session_token = "aZ3_-x" }))
payload_roundtrip_example = payload_roundtrip unary 7 "aZ3_-x" unary-ReadsBack sample-IsToken
