-- ===== src/Common/Allocate.antt =====
-- `allocate` of code/common/money.py.
use hld_lld_interview_handbo.Prelude.{
  ℕ, zero, suc, ◌+◌, ◌-◌, ◌*◌, ◌/◌, ◌%◌, ◌==◌, List, [], ◌∷◌, map, if◌then◌else◌, length,
}
use hld_lld_interview_handbo.Prelude.Int.{ℤ, pos, negsuc, neg, ◌+ℤ◌, ◌-ℤ◌, sum_ℤ}
use hld_lld_interview_handbo.Common.Error.{Result, ok, err, value_error}
use hld_lld_interview_handbo.Common.Money.{Money}

-- The ratios as natural numbers, unless one is negative.
unfoldable pub naturals : List ℤ → Result (List ℕ)
naturals [] = ok []
naturals (negsuc n ∷ ratios) = err value_error
naturals (pos n ∷ ratios) = elim (naturals ratios) [ err e ↦ err e | ok rest ↦ ok (n ∷ rest) ]

abbrev pub sum_of : List ℕ → ℕ
sum_of [] = 0
sum_of (n ∷ ns) = n + sum_of ns

-- `cents * ratio // total`, rounded down.
unfoldable pub share : ℤ → ℕ → ℕ → ℤ
share (pos n) total ratio = pos (n * ratio / total)
share (negsuc n) total ratio = neg (pos (((n + 1) * ratio + (total - 1)) / total))

unfoldable pub add_at : ℕ → ℤ → List ℤ → List ℤ
add_at i step [] = []
add_at zero step (x ∷ xs) = (x +ℤ step) ∷ xs
add_at (suc i) step (x ∷ xs) = x ∷ add_at i step xs

-- The loop over the remainder, `n` rounds from `i`.
unfoldable pub spread : ℕ → ℕ → ℤ → List ℤ → List ℤ
spread zero i step shares = shares
spread (suc n) i step shares = spread n (i + 1) step (add_at (i % length shares) step shares)

abbrev pub spread_all : ℤ → List ℤ → List ℤ
spread_all (pos n) shares = spread n 0 (pos 1) shares
spread_all (negsuc n) shares = spread (n + 1) 0 (negsuc 0) shares

unfoldable pub allocate : List ℤ → Money → Result (List Money)
allocate ratios m = elim (naturals ratios) [
  | err e ↦ err e
  | ok rs ↦
      if sum_of rs == 0
      then err value_error
      else let shares = map (share m.cents (sum_of rs)) rs in
        ok (map (λ s. record m { cents = s }) (spread_all (m.cents -ℤ sum_ℤ shares) shares))
]
