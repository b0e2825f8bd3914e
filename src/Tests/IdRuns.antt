-- ===== src/Tests/IdRuns.antt =====
-- Identifiers and short codes.
use hld_lld_interview_handbo.Prelude.{
  ℕ, ◌+◌, ◌*◌, ◌^◌, ◌<◌, ◌≡◌, inl, refl, arith, String, string_dec, List, [], ◌∷◌, Bool, true,
  false,
}
use hld_lld_interview_handbo.Prelude.Int.{ℤ, pos, negsuc, ◌+ℤ◌, ◌-ℤ◌}
use hld_lld_interview_handbo.Dict.{string_key, get, put}
use hld_lld_interview_handbo.Common.Error.{ok, ◌>>=◌}
use hld_lld_interview_handbo.Common.Clock.{FakeClock}
use hld_lld_interview_handbo.Snowflake.{
  Layout, SnowflakeGenerator, new_generator, compose, next_id, wall_ms, advance, mint_at,
}
use hld_lld_interview_handbo.Snowflake.Minting.{
  mint_all, IsAscending, IsIn, mint_all-IsAscending, machines_disjoint, next_id-bound,
}
use hld_lld_interview_handbo.Shortener.Codec.{
  encode, decode, text_length, code_space, char_at, spell, pad,
}
use hld_lld_interview_handbo.Shortener.RoundTrip.{decode-encode}
use hld_lld_interview_handbo.Shortener.Feistel.{unscramble}
use hld_lld_interview_handbo.Shortener.Links.{
  ShortLink, ShortCodeStrategy, new_strategy, counter_candidate, hash_candidate, hash_seed, decimal,
  decimal_from, shorten, attempt_from, claim_proposed, claim,
}
use hld_lld_interview_handbo.Shortener.Claims.{IsServed, shorten-IsServed}
use hld_lld_interview_handbo.Shortener.Counters.{decode-counter_candidate}
use hld_lld_interview_handbo.Shortener.Again.{shorten-again}

abbrev layout : Layout
layout = record { timestamp_bits = 41; machine_bits = 10; sequence_bits = 12 }

abbrev start : FakeClock
start = record { now = pos 1000 }

abbrev machine : ℕ → SnowflakeGenerator
machine m = record {
  layout = layout;
  machine_id = m;
  clock = start;
  epoch_ms = pos 0;
  max_drift_ms = 10;
  last_ms = negsuc 0;
  sequence = 0;
  borrowed_ms = 0;
}

new_machine :
    (m : ℕ) → m < 1024 → new_generator (pos m) start layout (pos 0) (pos 10) ≡ ok (machine m)
unfolding new_generator
new_machine m h = ground (arith, h)

-- The clock steps back and forth.
abbrev readings : List ℤ
readings = pos 1000 ∷ pos 1000 ∷ pos 995 ∷ pos 1002 ∷ pos 900 ∷ []

mint_all-IsAscending_example : IsAscending 0 (mint_all readings (machine 7))
mint_all-IsAscending_example =
    mint_all-IsAscending (pos 7) (pos 0) (pos 10) start layout (machine 7) readings
      (new_machine 7 (omega arith))

abbrev first_id : ℕ
first_id = compose layout 1000 7 0

machines_disjoint_example : ¬ IsIn first_id (mint_all readings (machine 8))
machines_disjoint_example =
    machines_disjoint (pos 7) (pos 8) (pos 0) (pos 0) (pos 10) (pos 10) start start layout
      (machine 7) (machine 8) readings readings first_id (λ e. ground (arith, e))
      (new_machine 7 (omega arith)) (new_machine 8 (omega arith))
      (unfold mint_all next_id wall_ms advance mint_at ◌-ℤ◌ in inl refl)

next_id-bound_example : first_id < 2 ^ (41 + 10 + 12)
next_id-bound_example =
    next_id-bound (machine 7) 1000 first_id
      (record { machine = omega arith; sequence = omega arith }) (unfold wall_ms ◌-ℤ◌ in refl)
      (omega arith) (unfold next_id wall_ms advance mint_at ◌-ℤ◌ in refl)

decode-encode_example : (text : String) × (encode (pos 3843) 7 ≡ ok text) × (decode text ≡ ok 3843)
decode-encode_example = decode-encode 3843 7

-- Any function may stand for the hash.
abbrev mixing : ℕ → ℕ → ℕ → ℕ
mixing value round_no key = value * value + 31 * round_no + key

decode-counter_candidate_example :
    (code : String) × (counter_candidate mixing "https://a.test" 0
        (record { next = pos 1; key = 24301 })
      ≡ (ok code, record { next = pos 1 +ℤ pos 1; key = 24301 }))
    × (text_length code ≡ 7)
    × ((decode code >>= λ n. unscramble mixing (pos n) 24301) ≡ ok 1)
decode-counter_candidate_example =
    decode-counter_candidate mixing "https://a.test" 0 1 24301 (omega arith)

abbrev is_blank : String → Bool
is_blank String.[] = true
is_blank (String.◌∷◌ c text) = false

-- Codes of one digit, so that they collide.
abbrev digest : String → ℕ
digest seed = text_length seed

abbrev strategy : ShortCodeStrategy ℤ
strategy = new_strategy (record { rows = ("5", "other") ∷ [] }) (pos 1)

shorten-IsServed_example :
    IsServed 8 0 "a.com" strategy (shorten is_blank (hash_candidate digest) "a.com" strategy)
shorten-IsServed_example = shorten-IsServed is_blank (hash_candidate digest) "a.com" strategy

abbrev shortened : ShortCodeStrategy ℤ
shortened = record {
  store = record { rows = ("5", "other") ∷ ("7", "a.com") ∷ [] };
  collisions = 1;
  source = pos 1;
}

abbrev short_link : ShortLink
short_link = record { code = "7"; long_url = "a.com"; attempts = 2 }

short_run : shorten is_blank (hash_candidate digest) "a.com" strategy ≡ (ok short_link, shortened)
unfolding shorten attempt_from claim_proposed claim hash_candidate hash_seed decimal decimal_from
    encode code_space char_at spell pad get put string_dec
short_run = refl

shorten-again_example :
    ((shorten is_blank (hash_candidate digest) "a.com" shortened).0 ≡ ok short_link)
    × ((shorten is_blank (hash_candidate digest) "a.com" shortened).1.store ≡ shortened.store)
shorten-again_example =
    shorten-again is_blank digest "a.com" strategy shortened shortened short_link refl
      (record { bound = λ _ _ e. e }) short_run
