-- ===== src/Clocks/Hybrid.antt =====
-- `HybridLogicalClock` of code/hld/logical_clocks.py. A tick of the clock is a millisecond, so the
-- rounding of seconds to milliseconds is not modelled.
use hld_lld_interview_handbo.Prelude.{ℕ, ◌+◌, max, ◌&&◌, if◌then◌else◌}
use hld_lld_interview_handbo.Prelude.Int.{ℤ, pos, ◌-ℤ◌, leb_ℤ, ltb_ℤ, eqb_ℤ}
use hld_lld_interview_handbo.Common.Error.{Result, ok, err, validation}
use hld_lld_interview_handbo.Common.Action.{Action}
use hld_lld_interview_handbo.Common.Clock.{FakeClock}

pub record HybridTimestamp : Type 0 where
  pub physical_ms : ℤ
  pub logical : ℕ

pub record HybridLogicalClock : Type 0 where
  pub clock : FakeClock
  pub max_drift_ms : ℤ
  pub last : HybridTimestamp

unfoldable pub new_clock : FakeClock → ℤ → Result HybridLogicalClock
new_clock clock max_drift_ms =
    if leb_ℤ max_drift_ms (pos 0)
    then err validation
    else ok (record {
      clock = clock;
      max_drift_ms = max_drift_ms;
      last = record { physical_ms = pos 0; logical = 0 };
    })

-- The stamp of a local event.
abbrev pub next_stamp : HybridLogicalClock → HybridTimestamp
next_stamp c =
    if ltb_ℤ c.last.physical_ms c.clock.now
    then record { physical_ms = c.clock.now; logical = 0 }
    else record { physical_ms = c.last.physical_ms; logical = c.last.logical + 1 }

unfoldable pub now : Action HybridLogicalClock HybridTimestamp
now c = (ok (next_stamp c), record c { last = next_stamp c })

abbrev pub max_ℤ : ℤ → ℤ → ℤ
max_ℤ a b = if leb_ℤ b a then a else b

abbrev pub newest : HybridTimestamp → HybridLogicalClock → ℤ
newest remote c = max_ℤ (max_ℤ c.last.physical_ms remote.physical_ms) c.clock.now

-- The logical part of the stamp of a receipt.
abbrev pub next_logical : HybridTimestamp → HybridLogicalClock → ℕ
next_logical remote c =
    let ours = eqb_ℤ (newest remote c) c.last.physical_ms in
    if ours && eqb_ℤ c.last.physical_ms remote.physical_ms
    then max c.last.logical remote.logical + 1
    else if ours
    then c.last.logical + 1
    else if eqb_ℤ (newest remote c) remote.physical_ms
    then remote.logical + 1
    else 0

abbrev pub received : HybridTimestamp → HybridLogicalClock → HybridTimestamp
received remote c = record { physical_ms = newest remote c; logical = next_logical remote c }

unfoldable pub update : HybridTimestamp → Action HybridLogicalClock HybridTimestamp
update remote c =
    if ltb_ℤ c.max_drift_ms (remote.physical_ms -ℤ c.clock.now)
    then (err validation, c)
    else (ok (received remote c), record c { last = received remote c })
