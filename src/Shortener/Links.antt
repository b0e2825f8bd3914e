-- ===== src/Shortener/Links.antt =====
-- The store of codes and the strategies that claim one, of code/hld/base62.py. A strategy's own
-- state and its candidates are parameters of `shorten`, and so are the hashes. The locks are left
-- out.
use Prim.Native.String.{◌++◌}
use hld_lld_interview_handbo.Prelude.{
  ltb, ◌/◌, ℕ, zero, suc, ◌+◌, ◌%◌, Bool, String, Option, none, some, if◌then◌else◌, string_dec,
  ite, length, true, false,
}
use hld_lld_interview_handbo.Prelude.Int.{ℤ, pos, pos_part, ◌+ℤ◌}
use hld_lld_interview_handbo.Dict.{Dict, string_key, get, put, empty}
use hld_lld_interview_handbo.Common.Error.{Result, ok, err, validation, conflict, ◌>>=◌}
use hld_lld_interview_handbo.Snowflake.{SnowflakeGenerator, next_id}
use hld_lld_interview_handbo.Shortener.Codec.{alphabet, char_at, encode, code_space, code_length}
use hld_lld_interview_handbo.Shortener.Feistel.{scramble}

pub record InMemoryCodeStore : Type 0 where
  pub rows : Dict String String

abbrev pub new_store : InMemoryCodeStore
new_store = record { rows = empty }

-- The URL that the code is bound to already, if there is one.
unfoldable pub claim : String → String → InMemoryCodeStore → Option String × InMemoryCodeStore
claim code long_url s = elim (get s.rows code) [
  | none ↦ (none, record s { rows = put s.rows code long_url })
  | some existing ↦ (some existing, s)
]

unfoldable pub resolve : InMemoryCodeStore → String → Option String
resolve s code = get s.rows code

unfoldable pub size : InMemoryCodeStore → ℕ
size s = length s.rows

pub record ShortLink : Type 0 where
  pub code : String
  pub long_url : String
  pub attempts : ℕ

-- `G` is the state that a subclass keeps for its candidates.
pub record ShortCodeStrategy (G : Type 0) : Type 0 where
  pub store : InMemoryCodeStore
  pub collisions : ℕ
  pub source : G

abbrev pub max_attempts : ℕ
max_attempts = 8

abbrev pub new_strategy : {G : Type 0} → InMemoryCodeStore → G → ShortCodeStrategy G
new_strategy s g = record { store = s; collisions = 0; source = g }

-- `owner is None or owner == long_url`
abbrev pub is_ours : Option String → String → Bool
is_ours none long_url = true
is_ours (some owner) long_url = ite (string_dec owner long_url) true false

-- `is_blank url` is `not url.strip()`; `candidate url attempt source` is the subclass's method.
module _ {G : Type 0} (is_blank : String → Bool)
    (candidate : String → ℕ → G → Result String × G) where
  -- One attempt, with the code proposed: its result, or none when the code is someone else's.
  unfoldable pub claim_proposed :
      ℕ
      → String
      → Result String
      → ShortCodeStrategy G
      → Option (Result ShortLink) × ShortCodeStrategy G
  claim_proposed attempt long_url (err e) s = (some (err e), s)
  claim_proposed attempt long_url (ok code) s =
      let bound = claim code long_url s.store in
      if is_ours bound.0 long_url
      then (
        some (ok (record { code = code; long_url = long_url; attempts = attempt + 1 })),
        record s { store = bound.1 },
      )
      else (none, record s { store = bound.1; collisions = s.collisions + 1 })

  abbrev pub try_once :
      ℕ → String → ShortCodeStrategy G → Option (Result ShortLink) × ShortCodeStrategy G
  try_once attempt long_url s =
      let proposed = candidate long_url attempt s.source in
      claim_proposed attempt long_url proposed.0 (record s { source = proposed.1 })

  -- The loop of `shorten`, `left` attempts before its end.
  unfoldable pub attempt_from :
      ℕ → ℕ → String → ShortCodeStrategy G → Result ShortLink × ShortCodeStrategy G
  attempt_from zero attempt long_url s = (err conflict, s)
  attempt_from (suc left) attempt long_url s =
      let tried = try_once attempt long_url s in
      let rest = attempt_from left (attempt + 1) long_url tried.1 in
      elim tried.0 [ none ↦ rest | some r ↦ (r, tried.1) ]

  unfoldable pub shorten : String → ShortCodeStrategy G → Result ShortLink × ShortCodeStrategy G
  shorten long_url s =
      if is_blank long_url then (err validation, s) else attempt_from max_attempts 0 long_url s

-- `CounterCodes`, without the fields of its base class.
pub record CounterCodes : Type 0 where
  pub next : ℤ
  pub key : ℕ

module _ (hash : ℕ → ℕ → ℕ → ℕ) where
  unfoldable pub counter_candidate : String → ℕ → CounterCodes → Result String × CounterCodes
  counter_candidate long_url attempt g = (
    scramble hash g.next g.key >>= λ n. encode (pos n) code_length,
    record g { next = g.next +ℤ pos 1 },
  )

-- `SnowflakeCodes.candidate`; the subclass keeps only its generator.
unfoldable pub snowflake_candidate :
    String → ℕ → SnowflakeGenerator → Result String × SnowflakeGenerator
snowflake_candidate long_url attempt g =
    let minted = next_id g in (minted.0 >>= λ n. encode (pos n) 0, minted.1)

-- `str(n)` in an f-string, with `n + 1` rounds, which are enough.
unfoldable pub decimal_from : ℕ → ℕ → String → String
unfolding char_at
decimal_from zero n digits = digits
decimal_from (suc rounds) n digits =
    let spelt = String.◌∷◌ (char_at alphabet (n % 10)) digits in
    let more = decimal_from rounds (n / 10) spelt in if ltb n 10 then spelt else more

unfoldable pub decimal : ℕ → String
unfolding decimal_from
decimal n = decimal_from (suc n) n String.[]

-- The text that is hashed: the URL, salted when the attempt is not 0.
unfoldable pub hash_seed : String → ℕ → String
unfolding decimal
hash_seed long_url zero = long_url
hash_seed long_url (suc attempt) = long_url ++ ("#" ++ decimal (suc attempt))

-- `HashCodes.candidate`: `digest seed` is the number of the SHA-256 of the seed. The subclass keeps
-- only the length.
module _ (digest : String → ℕ) where
  unfoldable pub hash_candidate : String → ℕ → ℤ → Result String × ℤ
  hash_candidate long_url attempt width = (
    code_space width >>= λ space.
        encode (pos (digest (hash_seed long_url attempt) % space)) (pos_part width),
    width,
  )
