-- ===== src/Snowflake.antt =====
-- code/hld/snowflake.py: the layout of an identifier and the generator. A tick of the clock is a
-- millisecond, so the rounding of seconds is not modelled; the lock neither, each call being one step.
pub mod Layouts
pub mod Minting
pub mod Registry
use Prim.Native.Nat.{bit_and, bit_or}
use hld_lld_interview_handbo.Prelude.{
  ℕ, zero, suc, ◌+◌, ◌-◌, ◌^◌, ltb, ◌==◌, Option, none, some, List, [], ◌∷◌, Bool, ◌||◌, not,
  if◌then◌else◌,
}
use hld_lld_interview_handbo.Prelude.Bits.{◌<<◌, ◌>>>◌, ones}
use hld_lld_interview_handbo.Prelude.Int.{ℤ, pos, negsuc, ◌+ℤ◌, ◌-ℤ◌, leb_ℤ, ltb_ℤ}
use hld_lld_interview_handbo.Common.Error.{Result, ok, err, validation, invalid_state, clock_drift}
use hld_lld_interview_handbo.Common.Action.{Action}
use hld_lld_interview_handbo.Common.Clock.{FakeClock}

pub record SnowflakeParts : Type 0 where
  pub timestamp_ms : ℤ
  pub machine_id : ℕ
  pub sequence : ℕ

pub record Layout : Type 0 where
  pub timestamp_bits : ℕ
  pub machine_bits : ℕ
  pub sequence_bits : ℕ

-- `__post_init__`
unfoldable pub new_layout : ℤ → ℤ → ℤ → Result Layout
new_layout (pos (suc t)) (pos (suc m)) (pos (suc s)) =
    if suc t + suc m + suc s == 63
    then ok (record { timestamp_bits = suc t; machine_bits = suc m; sequence_bits = suc s })
    else err validation
new_layout _ _ _ = err validation

abbrev pub max_machine_id : Layout → ℕ
max_machine_id l = ones l.machine_bits

abbrev pub max_sequence : Layout → ℕ
max_sequence l = ones l.sequence_bits

abbrev pub lifetime_ms : Layout → ℕ
lifetime_ms l = 2 ^ l.timestamp_bits

abbrev pub machine_shift : Layout → ℕ
machine_shift l = l.sequence_bits

abbrev pub timestamp_shift : Layout → ℕ
timestamp_shift l = l.sequence_bits + l.machine_bits

unfoldable pub compose : Layout → ℕ → ℕ → ℕ → ℕ
compose l elapsed_ms machine_id sequence =
    bit_or (bit_or (elapsed_ms << timestamp_shift l) (machine_id << machine_shift l)) sequence

unfoldable pub decompose : Layout → ℤ → ℤ → Result SnowflakeParts
decompose l (negsuc n) epoch_ms = err validation
decompose l (pos id) epoch_ms = ok (record {
  timestamp_ms = pos (id >>> timestamp_shift l) +ℤ epoch_ms;
  machine_id = bit_and (id >>> machine_shift l) (max_machine_id l);
  sequence = bit_and id (max_sequence l);
})

pub record SnowflakeGenerator : Type 0 where
  pub layout : Layout
  pub machine_id : ℕ
  pub clock : FakeClock
  pub epoch_ms : ℤ
  pub max_drift_ms : ℕ
  pub last_ms : ℤ
  pub sequence : ℕ
  pub borrowed_ms : ℕ

unfoldable pub new_generator : ℤ → FakeClock → Layout → ℤ → ℤ → Result SnowflakeGenerator
new_generator (pos machine_id) clock layout epoch_ms (pos max_drift_ms) =
    if ltb (max_machine_id layout) machine_id
    then err validation
    else ok (record {
      layout = layout;
      machine_id = machine_id;
      clock = clock;
      epoch_ms = epoch_ms;
      max_drift_ms = max_drift_ms;
      last_ms = negsuc 0;
      sequence = 0;
      borrowed_ms = 0;
    })
new_generator _ clock layout epoch_ms _ = err validation

-- `_wall_ms`
abbrev pub in_lifetime : Layout → ℤ → Result ℕ
in_lifetime l (negsuc n) = err invalid_state
in_lifetime l (pos elapsed) = if ltb elapsed (lifetime_ms l) then ok elapsed else err invalid_state

unfoldable pub wall_ms : SnowflakeGenerator → Result ℕ
wall_ms g = in_lifetime g.layout (g.clock.now -ℤ g.epoch_ms)

-- The logical clock that the next identifier takes.
pub record Tick : Type 0 where
  pub last : ℕ
  pub next : ℕ
  pub borrowed : ℕ

abbrev pub checked : SnowflakeGenerator → ℕ → Tick → Result Tick
checked g wall t = if ltb g.max_drift_ms (t.last - wall) then err clock_drift else ok t

-- The same millisecond, or a wall clock that stepped back: a full sequence borrows the next one.
unfoldable pub advance : SnowflakeGenerator → ℕ → ℤ → Result Tick
advance g wall (negsuc n) = ok (record { last = wall; next = 0; borrowed = 0 })
advance g wall (pos last) =
    if ltb last wall
    then ok (record { last = wall; next = 0; borrowed = 0 })
    else if ltb (max_sequence g.layout) (g.sequence + 1)
    then checked g wall (record { last = last + 1; next = 0; borrowed = 1 })
    else checked g wall (record { last = last; next = g.sequence + 1; borrowed = 0 })

abbrev pub ticked : SnowflakeGenerator → Tick → SnowflakeGenerator
ticked g t = record g {
  last_ms = pos t.last;
  sequence = t.next;
  borrowed_ms = g.borrowed_ms + t.borrowed;
}

unfoldable pub mint_at : ℕ → Action SnowflakeGenerator ℕ
mint_at wall g = elim (advance g wall g.last_ms) [
  | err e ↦ (err e, g)
  | ok t ↦ (ok (compose g.layout t.last g.machine_id t.next), ticked g t)
]

unfoldable pub next_id : Action SnowflakeGenerator ℕ
next_id g = elim (wall_ms g) [ err e ↦ (err e, g) | ok wall ↦ mint_at wall g ]

abbrev pub decompose_own : ℤ → SnowflakeGenerator → Result SnowflakeParts
decompose_own id g = decompose g.layout id g.epoch_ms
