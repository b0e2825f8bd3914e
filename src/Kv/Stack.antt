-- ===== src/Kv/Stack.antt =====
-- `TransactionStack` of transactions.py on its own: the open savepoints, the innermost first, and the
-- small reads of the store and of its log.
use hld_lld_interview_handbo.Prelude.{ℕ, String, Option, none, some, List, [], ◌∷◌, reverse, length}
use hld_lld_interview_handbo.Dict.{Dict, string_key, put}
use hld_lld_interview_handbo.Common.Error.{ok, err, no_transaction}
use hld_lld_interview_handbo.Common.Action.{Action}
use hld_lld_interview_handbo.Kv.{KvStore, stack}
use hld_lld_interview_handbo.Kv.Models.{Value, Entry}
use hld_lld_interview_handbo.Kv.Scan.{scan}
use hld_lld_interview_handbo.Kv.Transactions.{Transaction}
use hld_lld_interview_handbo.Kv.Durable.{Storage, AppendOnlyLog, null_log, in_memory}

abbrev pub TransactionStack : Type 0
TransactionStack = List Transaction

abbrev pub push : Transaction → TransactionStack → TransactionStack
push t levels = t ∷ levels

unfoldable pub pop : Action TransactionStack Transaction
pop [] = (err no_transaction, [])
pop (t ∷ outer) = (ok t, outer)

abbrev pub top : TransactionStack → Option Transaction
top [] = none
top (t ∷ outer) = some t

-- Outermost first.
abbrev pub levels : TransactionStack → List Transaction
levels = reverse

abbrev pub clear : TransactionStack → TransactionStack
clear levels = []

-- The set of the keys, as a dict without values.
unfoldable pub add_keys : Dict String (Option Entry) → Dict String Unit → Dict String Unit
add_keys [] found = found
add_keys ((key, entry) ∷ writes) found = add_keys writes (put found key tt)

unfoldable pub staged_keys : TransactionStack → Dict String Unit
staged_keys [] = []
staged_keys (t ∷ outer) = add_keys t.writes (staged_keys outer)

abbrev pub depth : ℕ → KvStore → ℕ
depth session s = length (stack session s)

abbrev pub iterate : ℕ → KvStore → List (String × Value)
iterate session = scan session ""

abbrev pub storage_size : Storage → ℕ
storage_size s = length s.entries

abbrev pub batches : AppendOnlyLog → ℕ
batches null_log = 0
batches (in_memory records count) = count
