-- ===== src/Kv/Commits.antt =====
-- A commit that succeeds keeps what its session sees.
use hld_lld_interview_handbo.Prelude.{
  ℕ, String, ◌≡◌, refl, Option, none, some, List, [], ◌∷◌, arith, All,
}
use hld_lld_interview_handbo.Prelude.Int.{ℤ}
use hld_lld_interview_handbo.Dict.{Dict, string_key}
use hld_lld_interview_handbo.Dict as D
use hld_lld_interview_handbo.Dict.Laws.{IsDict, get-update}
use hld_lld_interview_handbo.Common.Error.{ok}
use hld_lld_interview_handbo.Common.Ids.{Identifier}
use hld_lld_interview_handbo.Kv.{
  commit_from, KvStore, now, stack, set_stack, commit, commit_outermost, apply_writes, make_durable,
}
use hld_lld_interview_handbo.Kv.Durable.{Storage, storage_get, storage_set, storage_delete}
use hld_lld_interview_handbo.Kv.Models.{Entry, unless_expired}
use hld_lld_interview_handbo.Kv.Transactions.{
  Transaction, observe, observe_all, merge_into, stack_lookup, lookup,
}
use hld_lld_interview_handbo.Kv.Visible.{peek, storage_get-set, storage_get-delete}

pub writes-observe_all :
    (reads : Dict String ℕ) (t : Transaction) → (observe_all reads t).writes ≡ t.writes
unfolding observe_all observe
writes-observe_all [] t = refl
writes-observe_all ((k, n) ∷ reads) t = writes-observe_all reads _

pub id-observe_all : (reads : Dict String ℕ) (t : Transaction) → (observe_all reads t).id ≡ t.id
unfolding observe_all observe
id-observe_all [] t = refl
id-observe_all ((k, n) ∷ reads) t = id-observe_all reads _

-- Two savepoints and their merge answer alike.
stack_lookup-merge_into :
    (t parent : Transaction) (outer : List Transaction) (j : String)
    → IsDict t.writes
    → stack_lookup (merge_into t parent ∷ outer) j ≡ stack_lookup (t ∷ parent ∷ outer) j
unfolding stack_lookup merge_into
stack_lookup-merge_into t parent outer j h = ground (
  arith,
  writes-observe_all t.reads (record parent { writes = D.update parent.writes t.writes }),
  get-update parent.writes t.writes j h,
)

-- The answer of a staged write over the committed one.
abbrev pub staged_or : ℤ → Option (Option Entry) → Option Entry → Option Entry
staged_or t none below = below
staged_or t (some e) below = unless_expired t e

pub storage_get-apply_writes :
    (writes : Dict String (Option Entry)) (s : Storage) (j : String) (t : ℤ)
    → IsDict writes
    → storage_get (apply_writes writes s) j t ≡ staged_or t (D.get writes j) (storage_get s j t)
unfolding apply_writes D.get
storage_get-apply_writes [] s j t h = refl
storage_get-apply_writes ((k, none) ∷ writes) s j t h = ground (
  arith,
  storage_get-apply_writes writes (storage_delete k s) j t h.1,
  storage_get-delete s k j t,
)
storage_get-apply_writes ((k, some e) ∷ writes) s j t h =
    ground (
      arith,
      storage_get-apply_writes writes (storage_set k e s) j t h.1,
      storage_get-set s k e j t,
    )

module _ (session : ℕ) where
  -- With the stack named, so that its cases are clauses.
  peek-commit_from :
      (levels : List Transaction) (s : KvStore) (i : Identifier) (j : String)
      → stack session s ≡ levels
      → All (λ t. IsDict t.writes) levels
      → (commit_from session levels s).0 ≡ ok i
      → peek session (commit_from session levels s).1 j ≡ peek session s j
  unfolding commit_from commit_outermost make_durable set_stack peek stack_lookup lookup
  peek-commit_from [] s i j e h r = cc
  peek-commit_from (t ∷ []) s i j e h r =
      ground (arith, storage_get-apply_writes t.writes s.storage j (now s) h.0)
  peek-commit_from (t ∷ parent ∷ outer) s i j e h r =
      ground (arith, stack_lookup-merge_into t parent outer j h.0)

  -- A commit that succeeds, inner or outermost, leaves every key reading as it did before.
  pub peek-commit :
      (s : KvStore) (i : Identifier) (j : String)
      → All (λ t. IsDict t.writes) (stack session s)
      → (commit session s).0 ≡ ok i
      → peek session (commit session s).1 j ≡ peek session s j
  unfolding commit
  peek-commit s i j h r = peek-commit_from (stack session s) s i j refl h r
