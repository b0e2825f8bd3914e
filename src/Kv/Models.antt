-- ===== src/Kv/Models.antt =====
-- code/lld/kv_store_transactions/models.py: values, cells and log records.
use hld_lld_interview_handbo.Prelude.{String, Option, none, some, Bool, false, if◌then◌else◌}
use hld_lld_interview_handbo.Prelude.Int.{ℤ, leb_ℤ}

-- `int | str`
pub data Value : Type 0 where
  int : ℤ → Value
  str : String → Value

pub record Entry : Type 0 where
  pub value : Value
  pub expires_at : Option ℤ

unfoldable pub is_expired : Entry → ℤ → Bool
is_expired e now = elim e.expires_at [ none ↦ false | some deadline ↦ leb_ℤ deadline now ]

-- `None if entry is None or entry.is_expired(now) else entry`
abbrev pub unless_expired : ℤ → Option Entry → Option Entry
unless_expired now none = none
unless_expired now (some e) = if is_expired e now then none else some e

-- A `SET` record carries a value and a deadline, a `DELETE` record neither.
pub data LogEntry : Type 0 where
  set : String → Value → Option ℤ → LogEntry
  delete : String → LogEntry

-- `LogEntry.of`; `none` is a tombstone.
unfoldable pub log_entry : String → Option Entry → LogEntry
log_entry key none = LogEntry.delete key
log_entry key (some e) = LogEntry.set key e.value e.expires_at
