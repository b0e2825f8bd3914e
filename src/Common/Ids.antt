-- ===== src/Common/Ids.antt =====
-- `SequentialIdGenerator` of code/common/ids.py. The text `f"{prefix}-{n}"` is kept as its parts.
use hld_lld_interview_handbo.Prelude.{ℕ, ◌+◌, String}

pub record Identifier : Type 0 where
  pub prefix : String
  pub number : ℕ

pub record SequentialIdGenerator : Type 0 where
  pub prefix : String
  pub counter : ℕ

-- The identifier that the next call returns, and the generator after the call.
unfoldable pub next_id : SequentialIdGenerator → Identifier × SequentialIdGenerator
next_id g = (record { prefix = g.prefix; number = g.counter }, record g { counter = g.counter + 1 })
