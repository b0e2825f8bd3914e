-- ===== src/Shortener/Counters.antt =====
-- The codes of `CounterCodes`: seven characters from which the counter can be read back.
use hld_lld_interview_handbo.Prelude.{ℕ, ◌*◌, ◌^◌, ◌<◌, ◌≡◌, refl, sym, ap, ◌∙◌, arith, String}
use hld_lld_interview_handbo.Prelude.Int.{pos, ◌+ℤ◌}
use hld_lld_interview_handbo.Common.Error.{Result, ok, ◌>>=◌}
use hld_lld_interview_handbo.Shortener.Codec.{text_length, decode, base, code_length}
use hld_lld_interview_handbo.Shortener.RoundTrip.{decode-encode, length-encode}
use hld_lld_interview_handbo.Shortener.Feistel.{half_bits, unscramble}
use hld_lld_interview_handbo.Shortener.Permute.{unscramble-scramble}
use hld_lld_interview_handbo.Shortener.Links.{counter_candidate}

-- Every number of 40 bits fits in seven digits.
fits_code : (n : ℕ) → n < 2 ^ (2 * half_bits) → n < base ^ code_length
fits_code n h = omega arith

ok_eq : {A : Type 0} (a b : A) → Result.ok a ≡ ok b → a ≡ b
ok_eq a b e = ground (arith, e)

-- A counter of 40 bits gives a code of exactly seven characters, from which decoding and
-- unscrambling give the counter again, so two counters never share a code; the next candidate uses
-- the next counter. It holds for every hash under the permutation.
pub decode-counter_candidate :
    (hash : ℕ → ℕ → ℕ → ℕ) (url : String) (attempt counter key : ℕ)
    → counter < 2 ^ (2 * half_bits)
    → (code : String) × (counter_candidate hash url attempt
          (record { next = pos counter; key = key })
        ≡ (ok code, record { next = pos counter +ℤ pos 1; key = key }))
      × (text_length code ≡ code_length)
      × ((decode code >>= λ n. unscramble hash (pos n) key) ≡ ok counter)
unfolding counter_candidate
decode-counter_candidate hash url attempt counter key h =
    let (n, scrambled, small, back) = unscramble-scramble hash key counter h in
    let (code, encoded, decoded) = decode-encode n code_length in
    let (code', encoded', exact) = length-encode n code_length (omega arith) (fits_code n small) in
    let same : code' ≡ code = ok_eq code' code (sym encoded' ∙ encoded) in
    (code, rw (scrambled, encoded) refl, ap text_length (sym same) ∙ exact, rw (decoded, back) refl)
