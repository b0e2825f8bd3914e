-- ===== src/Kv/Transactions.antt =====
-- code/lld/kv_store_transactions/transactions.py: savepoints, their stack and the isolation
-- policies. A stack lists the innermost savepoint first, the source's list read from its end.
use hld_lld_interview_handbo.Prelude.{
  ℕ, String, Option, none, some, List, [], ◌∷◌, Bool, true, false, ◌==◌, if◌then◌else◌,
}
use hld_lld_interview_handbo.Dict.{Dict, string_key, empty, get, put, set_default, update}
use hld_lld_interview_handbo.Common.Ids.{Identifier}
use hld_lld_interview_handbo.Common.Error.{Result, ok, err, transaction_conflict}
use hld_lld_interview_handbo.Kv.Models.{Entry}

pub record Transaction : Type 0 where
  pub id : Identifier
  pub writes : Dict String (Option Entry)
  pub reads : Dict String ℕ

abbrev pub new_transaction : Identifier → Transaction
new_transaction i = record { id = i; writes = empty; reads = empty }

unfoldable pub stage : String → Option Entry → Transaction → Transaction
stage key entry t = record t { writes = put t.writes key entry }

-- `none` is `MISSING`, `some none` a tombstone.
unfoldable pub lookup : Transaction → String → Option (Option Entry)
lookup t key = get t.writes key

unfoldable pub observe : String → ℕ → Transaction → Transaction
observe key version t = record t { reads = set_default t.reads key version }

unfoldable pub observe_all : Dict String ℕ → Transaction → Transaction
observe_all [] t = t
observe_all ((key, version) ∷ reads) t = observe_all reads (observe key version t)

unfoldable pub merge_into : Transaction → Transaction → Transaction
unfolding observe_all
merge_into t parent = observe_all t.reads (record parent { writes = update parent.writes t.writes })

-- `TransactionStack.lookup`: the nearest write wins.
unfoldable pub stack_lookup : List Transaction → String → Option (Option Entry)
unfolding lookup
stack_lookup [] key = none
stack_lookup (t ∷ outer) key = elim (lookup t key) [
  | none ↦ stack_lookup outer key
  | some entry ↦ some entry
]

pub data IsolationPolicy : Type 0 where
  last_write_wins optimistic : IsolationPolicy

-- The loop of `OptimisticIsolation.validate` over the observed versions.
unfoldable pub unchanged : (String → ℕ) → Dict String ℕ → Bool
unchanged version [] = true
unchanged version ((key, seen) ∷ reads) =
    if version key == seen then unchanged version reads else false

unfoldable pub validate : IsolationPolicy → (String → ℕ) → Transaction → Result Unit
validate last_write_wins version t = ok tt
validate optimistic version t =
    if unchanged version t.reads then ok tt else err transaction_conflict
