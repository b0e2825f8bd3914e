-- ===== src/Common/Money.antt =====
-- `Money` of code/common/money.py: cents with a currency.
use hld_lld_interview_handbo.Prelude.{String, string_dec, ite, Bool}
use hld_lld_interview_handbo.Common.Error.{Result, ok, err, value_error, ◌>>=◌}
use hld_lld_interview_handbo.Prelude.Int.{ℤ, pos, neg, eqb_ℤ, ◌+ℤ◌, ◌-ℤ◌}

pub record Money : Type 0 where
  pub cents : ℤ
  pub currency : String

-- `__neg__`
unfoldable pub negate : Money → Money
negate m = record m { cents = neg m.cents }

-- `_check`, `__add__`, `__sub__` and `is_zero`
unfoldable pub check_currency : Money → Money → Result Unit
check_currency a b = ite (string_dec a.currency b.currency) (ok tt) (err value_error)

unfoldable pub add : Money → Money → Result Money
add a b = check_currency a b >>= λ _. ok (record a { cents = a.cents +ℤ b.cents })

unfoldable pub sub : Money → Money → Result Money
sub a b = check_currency a b >>= λ _. ok (record a { cents = a.cents -ℤ b.cents })

abbrev pub is_zero : Money → Bool
is_zero m = eqb_ℤ m.cents (pos 0)
