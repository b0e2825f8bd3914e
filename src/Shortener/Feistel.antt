-- ===== src/Shortener/Feistel.antt =====
-- The permutation of counters of code/hld/base62.py, a Feistel network. The hash under its round
-- function is a parameter.
use Prim.Native.Nat.{bit_and, bit_or, bit_xor}
use hld_lld_interview_handbo.Prelude.{ℕ, zero, suc, ◌*◌, ltb, if◌then◌else◌}
use hld_lld_interview_handbo.Prelude.Int.{ℤ, pos, negsuc}
use hld_lld_interview_handbo.Prelude.Bits.{◌<<◌, ◌>>>◌, ones}
use hld_lld_interview_handbo.Common.Error.{Result, ok, err, validation}

abbrev pub half_bits : ℕ
half_bits = 20

abbrev pub rounds : ℕ
rounds = 4

-- `_HALF_MASK`
abbrev pub half_mask : ℕ
half_mask = ones half_bits

abbrev pub Halves : Type 0
Halves = ℕ × ℕ

abbrev pub halves : ℕ → Halves
halves c = (c >>> half_bits, bit_and c half_mask)

abbrev pub joined : Halves → ℕ
joined s = bit_or (s.0 << half_bits) s.1

-- `hash value round_no key` is the digest's number.
module _ (hash : ℕ → ℕ → ℕ → ℕ) where
  -- `_round_function`
  unfoldable pub round_function : ℕ → ℕ → ℕ → ℕ
  round_function value round_no key = bit_and (hash value round_no key) half_mask

  abbrev pub round : ℕ → ℕ → Halves → Halves
  round key i s = (s.1, bit_xor s.0 (round_function s.1 i key))

  abbrev pub undone : ℕ → ℕ → Halves → Halves
  undone key i s = (bit_xor s.1 (round_function s.0 i key), s.0)

  -- The loop over `range(n)`.
  unfoldable pub run_rounds : ℕ → ℕ → Halves → Halves
  run_rounds key zero s = s
  run_rounds key (suc n) s = round key n (run_rounds key n s)

  -- The loop over `reversed(range(n))`.
  unfoldable pub undo_rounds : ℕ → ℕ → Halves → Halves
  undo_rounds key zero s = s
  undo_rounds key (suc n) s = undo_rounds key n (undone key n s)

  unfoldable pub scramble : ℤ → ℕ → Result ℕ
  scramble (negsuc n) key = err validation
  scramble (pos counter) key =
      if ltb counter (1 << (2 * half_bits))
      then ok (joined (run_rounds key rounds (halves counter)))
      else err validation

  unfoldable pub unscramble : ℤ → ℕ → Result ℕ
  unscramble (negsuc n) key = err validation
  unscramble (pos scrambled) key =
      if ltb scrambled (1 << (2 * half_bits))
      then ok (joined (undo_rounds key rounds (halves scrambled)))
      else err validation
