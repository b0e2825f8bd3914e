-- ===== src/Tests/MoneyRuns.antt =====
-- A debt in three shares.
use hld_lld_interview_handbo.Prelude.{◌≡◌, refl, List, [], ◌∷◌, map, length}
use hld_lld_interview_handbo.Prelude.Int.{ℤ, pos, negsuc, sum_ℤ, ◌+ℤ◌, ◌-ℤ◌, neg}
use hld_lld_interview_handbo.Common.Error.{ok}
use hld_lld_interview_handbo.Common.Money.{Money}
use hld_lld_interview_handbo.Common.Allocate.{naturals, share, add_at, spread, allocate}
use hld_lld_interview_handbo.Common.Shares.{allocate-sum_ℤ}

abbrev usd : ℤ → Money
usd cents = record { cents = cents; currency = "USD" }

abbrev thirds : List ℤ
thirds = pos 1 ∷ pos 1 ∷ pos 1 ∷ []

abbrev debts : List Money
debts = usd (negsuc 32) ∷ usd (negsuc 32) ∷ usd (negsuc 33) ∷ []

split : allocate thirds (usd (negsuc 99)) ≡ ok debts
unfolding allocate naturals share add_at spread ◌+ℤ◌ ◌-ℤ◌ neg
split = refl

allocate-sum_ℤ_example : (length debts ≡ 3) × (sum_ℤ (map (λ s. s.cents) debts) ≡ negsuc 99)
allocate-sum_ℤ_example = allocate-sum_ℤ thirds (usd (negsuc 99)) debts split
