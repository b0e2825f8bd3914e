-- ===== src/Clocks/Lamport.antt =====
-- `LamportClock` of code/hld/logical_clocks.py.
use hld_lld_interview_handbo.Prelude.{ℕ, ◌+◌, max, String, if◌then◌else◌}
use hld_lld_interview_handbo.Prelude.Int.{ℤ, pos, negsuc}
use hld_lld_interview_handbo.Common.Error.{Result, ok, err, validation}
use hld_lld_interview_handbo.Common.Action.{Action}
use hld_lld_interview_handbo.Common.Text.{is_empty}

pub record LamportClock : Type 0 where
  pub node_id : String
  pub time : ℕ

unfoldable pub new_clock : String → ℤ → Result LamportClock
new_clock node_id (negsuc n) = err validation
new_clock node_id (pos start) =
    if is_empty node_id then err validation else ok (record { node_id = node_id; time = start })

unfoldable pub tick : Action LamportClock ℕ
tick c = (ok (c.time + 1), record c { time = c.time + 1 })

abbrev pub send : Action LamportClock ℕ
send = tick

unfoldable pub receive : ℤ → Action LamportClock ℕ
receive (negsuc n) c = (err validation, c)
receive (pos stamp) c = (ok (max c.time stamp + 1), record c { time = max c.time stamp + 1 })

abbrev pub stamp : LamportClock → ℕ × String
stamp c = (c.time, c.node_id)

-- The property `time`.
abbrev pub current_time : LamportClock → ℕ
current_time c = c.time
