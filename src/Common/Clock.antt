-- ===== src/Common/Clock.antt =====
-- `FakeClock` of code/common/clock.py, in ticks. Its lock is not modelled: each method is one step.
use hld_lld_interview_handbo.Prelude.Int.{ℤ, pos, ◌+ℤ◌, ltb_ℤ}
use hld_lld_interview_handbo.Common.Error.{value_error}
use hld_lld_interview_handbo.Common.Action.{Action, raise_if, modify, ◌>>◌}

pub record FakeClock : Type 0 where
  pub now : ℤ

unfoldable pub advance : ℤ → Action FakeClock Unit
advance seconds = do
  raise_if (ltb_ℤ seconds (pos 0)) value_error
  modify (λ c. record c { now = c.now +ℤ seconds })

unfoldable pub set : ℤ → FakeClock → FakeClock
set timestamp c = record c { now = timestamp }

abbrev pub now : FakeClock → ℤ
now c = c.now
