-- ===== src/Kv.antt =====
-- `KVStore` of code/lld/kv_store_transactions/services.py. A session is a thread: `sessions` is
-- the store's `threading.local`. Each method is one step; the clock stands still within a step.
pub mod Scan
pub mod Stack
pub mod Models
pub mod Transactions
pub mod Durable
pub mod Visible
pub mod Answers
pub mod Commands
pub mod Keeps
pub mod Induction
pub mod Savepoints
pub mod Rollback
pub mod Commits
pub mod Outcomes
pub mod WellFormed
pub mod Recovery
use hld_lld_interview_handbo.Prelude.{
  ℕ, String, Option, none, some, List, [], ◌∷◌, ite, ◌==◌, ℕ_discrete, Bool, is_some, length, map,
  reverse, if◌then◌else◌,
}
use hld_lld_interview_handbo.Prelude.Int.{ℤ, pos, ◌+ℤ◌, neg, leb_ℤ}
use hld_lld_interview_handbo.Dict.{Dict, empty}
use hld_lld_interview_handbo.Common.Error.{
  Result, ok, err, validation, no_transaction, key_missing, value_type,
}
use hld_lld_interview_handbo.Common.Action.{
  Action, pure, raise, gets, lift, raise_if, modify, or_raise, ◌>>=◌, ◌>>◌,
}
use hld_lld_interview_handbo.Common.Clock.{FakeClock}
use hld_lld_interview_handbo.Common.Ids.{Identifier, SequentialIdGenerator, next_id}
use Models.{Value, int, str, Entry, LogEntry, is_expired, unless_expired, log_entry}
use Transactions.{
  Transaction, new_transaction, stage, observe, merge_into, stack_lookup, IsolationPolicy, validate,
}
use Durable.{
  Storage, new_storage, storage_get, version, storage_set, storage_delete, storage_purge,
  AppendOnlyLog, append, replay,
}

pub record KvStore : Type 0 where
  pub clock : FakeClock
  pub ids : SequentialIdGenerator
  pub isolation : IsolationPolicy
  pub log : AppendOnlyLog
  pub storage : Storage
  pub sessions : ℕ → List Transaction

abbrev pub new_store : FakeClock → SequentialIdGenerator → IsolationPolicy → AppendOnlyLog → KvStore
new_store clock ids isolation log = record {
  clock = clock;
  ids = ids;
  isolation = isolation;
  log = log;
  storage = new_storage;
  sessions = λ _. [];
}

abbrev pub now : KvStore → ℤ
now s = s.clock.now

-- `_apply`: tombstones delete, everything else overwrites.
unfoldable pub apply_writes : Dict String (Option Entry) → Storage → Storage
apply_writes [] s = s
apply_writes ((key, none) ∷ writes) s = apply_writes writes (storage_delete key s)
apply_writes ((key, some entry) ∷ writes) s = apply_writes writes (storage_set key entry s)

abbrev pub log_entries : Dict String (Option Entry) → List LogEntry
log_entries = map (λ w. log_entry w.0 w.1)

-- `_apply` and the one `append` of a commit.
unfoldable pub make_durable : Dict String (Option Entry) → KvStore → KvStore
make_durable writes s = record s {
  storage = apply_writes writes s.storage;
  log = append (log_entries writes) s.log;
}

-- `_as_int`
unfoldable pub as_int : Option Entry → Result ℤ
as_int none = ok (pos 0)
as_int (some e) = elim e.value [ int n ↦ ok n | str _ ↦ err value_type ]

abbrev pub deadline_of : Option Entry → Option ℤ
deadline_of none = none
deadline_of (some e) = e.expires_at

unfoldable pub is_empty : String → Bool
is_empty key = elim key [ String.[] ↦ Bool.true | String.◌∷◌ _ _ ↦ Bool.false ]

-- The outermost commit, after the pop: validate, apply and log.
unfoldable pub commit_outermost : Transaction → Action KvStore Identifier
commit_outermost t = do
  lift (← gets (λ s. validate s.isolation (version s.storage) t))
  modify (make_durable t.writes)
  pure t.id

module _ (session : ℕ) where
  abbrev pub stack : KvStore → List Transaction
  stack s = s.sessions session

  unfoldable pub set_stack : List Transaction → KvStore → KvStore
  set_stack levels s = record s {
    sessions = λ other. ite (ℕ_discrete session other) levels (s.sessions other);
  }

  unfoldable pub begin : Action KvStore Identifier
  unfolding set_stack next_id
  begin s =
      let (id, ids) = next_id s.ids in
      (ok id, set_stack (new_transaction id ∷ stack s) (record s { ids = ids }))

  rollback_from : List Transaction → Action KvStore Identifier
  rollback_from [] s = raise no_transaction s
  rollback_from (t ∷ outer) s = (ok t.id, set_stack outer s)

  unfoldable pub rollback : Action KvStore Identifier
  unfolding rollback_from set_stack
  rollback s = rollback_from (stack s) s

  commit_from : List Transaction → Action KvStore Identifier
  commit_from [] s = raise no_transaction s
  commit_from (t ∷ []) s = commit_outermost t (set_stack [] s)
  commit_from (t ∷ parent ∷ outer) s = (ok t.id, set_stack (merge_into t parent ∷ outer) s)

  unfoldable pub commit : Action KvStore Identifier
  unfolding commit_from set_stack
  commit s = commit_from (stack s) s

  observe_top : String → ℕ → List Transaction → KvStore → KvStore
  observe_top key seen [] s = s
  observe_top key seen (t ∷ outer) s = set_stack (observe key seen t ∷ outer) s

  -- `_read`
  unfoldable pub read : String → Action KvStore (Option Entry)
  unfolding observe_top set_stack
  read key s = elim (stack_lookup (stack s) key) [
    | some staged ↦ (ok (unless_expired (now s) staged), s)
    | none ↦ (
      ok (storage_get s.storage key (now s)),
      observe_top key (version s.storage key) (stack s) s,
    )
  ]

  unfoldable pub write_from : List Transaction → String → Option Entry → KvStore → KvStore
  write_from [] key entry s = make_durable ((key, entry) ∷ []) s
  write_from (t ∷ outer) key entry s = set_stack (stage key entry t ∷ outer) s

  -- `_write`: stage on the innermost savepoint, or commit at once.
  unfoldable pub write : String → Option Entry → Action KvStore Unit
  unfolding write_from set_stack
  write key entry s = (ok tt, write_from (stack s) key entry s)

  unfoldable pub get : String → Option Value → Action KvStore (Option Value)
  get key default = do
    entry ← read key
    pure (elim entry [ none ↦ default | some e ↦ some e.value ])

  -- `__getitem__`
  unfoldable pub get_item : String → Action KvStore Value
  get_item key = do entry ← or_raise (← read key) key_missing; pure entry.value

  unfoldable pub exists : String → Action KvStore Bool
  exists key = do entry ← read key; pure (is_some entry)

  abbrev not_positive : Option ℤ → Bool
  not_positive none = Bool.false
  not_positive (some ttl) = leb_ℤ ttl (pos 0)

  abbrev pub deadline : Option ℤ → ℤ → Option ℤ
  deadline none t = none
  deadline (some ttl) t = some (t +ℤ ttl)

  unfoldable pub set : String → Value → Option ℤ → Action KvStore Unit
  unfolding is_empty
  set key value ttl = do
    raise_if (is_empty key) validation
    raise_if (not_positive ttl) validation
    t ← gets now
    write key (some (record { value = value; expires_at = deadline ttl t }))

  unfoldable pub delete : String → Action KvStore Bool
  delete key = do entry ← read key; write key none; pure (is_some entry)

  -- Outside a transaction the read goes straight to the storage, under the lock.
  unfoldable pub read_for_incr : String → Action KvStore (Option Entry)
  read_for_incr key s = elim (stack s) [
    | [] ↦ (ok (storage_get s.storage key (now s)), s)
    | _ ∷ _ ↦ read key s
  ]

  unfoldable pub incr : String → ℤ → Action KvStore ℤ
  unfolding read_for_incr as_int
  incr key by = do
    entry ← read_for_incr key
    current ← lift (as_int entry)
    write key (some (record { value = int (current +ℤ by); expires_at = deadline_of entry }))
    pure (current +ℤ by)

  unfoldable pub decr : String → ℤ → Action KvStore ℤ
  decr key by = incr key (neg by)

unfoldable pub purge_expired : Action KvStore ℕ
unfolding storage_purge
purge_expired s =
    let (count, storage) = storage_purge (now s) s.storage in
    (ok count, record s { storage = storage })

-- `restore`: the storage that a log replays to. The store then keeps writing to the same log.
unfoldable pub replay_record : LogEntry → Storage → Storage
replay_record (LogEntry.delete key) s = storage_delete key s
replay_record (LogEntry.set key value expires_at) s =
    storage_set key (record { value = value; expires_at = expires_at }) s

unfoldable pub replay_records : List LogEntry → Storage → Storage
replay_records [] s = s
replay_records (r ∷ records) s = replay_records records (replay_record r s)

unfoldable pub restore :
    FakeClock → SequentialIdGenerator → IsolationPolicy → AppendOnlyLog → KvStore
unfolding replay_records replay
restore clock ids isolation log = record (new_store clock ids isolation log) {
  storage = replay_records (replay log) new_storage;
}
