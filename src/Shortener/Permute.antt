-- ===== src/Shortener/Permute.antt =====
-- Scrambling a counter loses nothing, whatever the hash: the rounds can be undone.
use Prim.Native.Nat.{bit_and}
use hld_lld_interview_handbo.Prelude.{ℕ, zero, suc, ◌+◌, ◌*◌, ◌^◌, ◌<◌, ◌≡◌, refl, ap, ◌∙◌, arith}
use hld_lld_interview_handbo.Prelude.Int.{pos}
use hld_lld_interview_handbo.Prelude.Bits.{◌>>>◌, or-shifted, and-ones, xor-cancel, xor-bound}
use hld_lld_interview_handbo.Common.Error.{ok}
use hld_lld_interview_handbo.Shortener.Feistel.{
  half_bits, half_mask, rounds, Halves, halves, joined, round_function, round, undone, run_rounds,
  undo_rounds, scramble, unscramble,
}

abbrev half_space : ℕ
half_space = 2 ^ half_bits

abbrev AreHalves : Halves → Type 0
AreHalves s = (s.0 < half_space) × (s.1 < half_space)

joined-sum : (s : Halves) → AreHalves s → joined s ≡ s.0 * half_space + s.1
joined-sum s h = or-shifted half_bits s.0 s.1 h.1

halves-AreHalves : (c : ℕ) → c < half_space * half_space → AreHalves (halves c)
halves-AreHalves c h = (omega arith, omega (arith, and-ones half_bits c))

joined-halves : (c : ℕ) → c < half_space * half_space → joined (halves c) ≡ c
joined-halves c h =
    omega (arith, joined-sum (halves c) (halves-AreHalves c h), and-ones half_bits c)

joined-bound : (s : Halves) → AreHalves s → joined s < half_space * half_space
joined-bound s h = omega (arith, joined-sum s h, h.0, h.1)

pair_of : (a b c d : ℕ) → a ≡ c → b ≡ d → ◌≡◌ {A = Halves} (a, b) (c, d)
pair_of a b c d e f = rw (e, f) refl

halves-joined : (s : Halves) → AreHalves s → halves (joined s) ≡ s
halves-joined s h =
    pair_of (joined s >>> half_bits) (bit_and (joined s) half_mask) s.0 s.1
      (omega (arith, joined-sum s h, h.0, h.1))
      (omega (arith, joined-sum s h, h.0, h.1, and-ones half_bits (joined s)))

module _ (hash : ℕ → ℕ → ℕ → ℕ) where
  round_function-bound : (value i key : ℕ) → round_function hash value i key < half_space
  unfolding round_function
  round_function-bound value i key = omega (arith, and-ones half_bits (hash value i key))

  round-AreHalves : (key i : ℕ) (s : Halves) → AreHalves s → AreHalves (round hash key i s)
  round-AreHalves key i s h = (
    h.1,
    xor-bound half_bits s.0 (round_function hash s.1 i key) h.0 (round_function-bound s.1 i key),
  )

  run_rounds-AreHalves :
      (key n : ℕ) (s : Halves) → AreHalves s → AreHalves (run_rounds hash key n s)
  unfolding run_rounds
  run_rounds-AreHalves key zero s h = h
  run_rounds-AreHalves key (suc n) s h =
      round-AreHalves key n (run_rounds hash key n s) (run_rounds-AreHalves key n s h)

  undone-round : (key i : ℕ) (s : Halves) → undone hash key i (round hash key i s) ≡ s
  undone-round key i s = rw (xor-cancel s.0 (round_function hash s.1 i key)) refl

  undo_rounds-run_rounds :
      (key n : ℕ) (s : Halves) → undo_rounds hash key n (run_rounds hash key n s) ≡ s
  unfolding undo_rounds run_rounds
  undo_rounds-run_rounds key zero s = refl
  undo_rounds-run_rounds key (suc n) s =
      ap (undo_rounds hash key n) (undone-round key n (run_rounds hash key n s))
      ∙ undo_rounds-run_rounds key n s

  -- A counter of 40 bits is scrambled to a number of 40 bits, and unscrambling that gives the
  -- counter again, whatever the hash and the key.
  pub unscramble-scramble :
      (key counter : ℕ)
      → counter < 2 ^ (2 * half_bits)
      → (n : ℕ) × (scramble hash (pos counter) key ≡ ok n)
        × (n < 2 ^ (2 * half_bits))
        × (unscramble hash (pos n) key ≡ ok counter)
  unfolding scramble unscramble
  unscramble-scramble key counter h =
      let s : Halves = run_rounds hash key rounds (halves counter) in
      let fits : AreHalves s =
        run_rounds-AreHalves key rounds (halves counter) (halves-AreHalves counter h) in
      let small : joined s < half_space * half_space = joined-bound s fits in
      (
        joined s,
        ground arith,
        small,
        ground (
          arith,
          halves-joined s fits,
          undo_rounds-run_rounds key rounds (halves counter),
          joined-halves counter h,
        ),
      )
