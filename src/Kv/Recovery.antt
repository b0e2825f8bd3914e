-- ===== src/Kv/Recovery.antt =====
-- The log replays to the storage: after any interleaving of the sessions, a store that is restored
-- from the log has the entries and the versions of the store that wrote it.
use hld_lld_interview_handbo.Prelude.{
  ℕ, String, ◌≡◌, ◌∙◌, refl, Option, none, some, List, [], ◌∷◌, ◌++◌, append-nil, ◌+◌, All,
}
use hld_lld_interview_handbo.Dict.{Dict}
use hld_lld_interview_handbo.Kv.{
  KvStore, stack, set_stack, apply_writes, make_durable, log_entries, replay_records, replay_record,
  restore,
}
use hld_lld_interview_handbo.Kv.Commands.{Event, happen_all}
use hld_lld_interview_handbo.Kv.Durable.{Storage, new_storage, in_memory, append, replay}
use hld_lld_interview_handbo.Kv.Models.{Entry, LogEntry, log_entry}
use hld_lld_interview_handbo.Kv.Transactions.{Transaction, IsolationPolicy}
use hld_lld_interview_handbo.Kv.Induction.{IsClosed, IsStable, happen_all-keeps}
use hld_lld_interview_handbo.Common.Clock.{FakeClock}
use hld_lld_interview_handbo.Common.Ids.{SequentialIdGenerator}

replay_records-append :
    (xs ys : List LogEntry) (s : Storage)
    → replay_records (xs ++ ys) s ≡ replay_records ys (replay_records xs s)
unfolding replay_records
replay_records-append [] ys s = refl
replay_records-append (r ∷ xs) ys s = replay_records-append xs ys (replay_record r s)

-- A write-set and its log records have one effect.
replay_records-log_entries :
    (writes : Dict String (Option Entry)) (s : Storage)
    → replay_records (log_entries writes) s ≡ apply_writes writes s
unfolding replay_records replay_record log_entry apply_writes
replay_records-log_entries [] s = refl
replay_records-log_entries ((k, none) ∷ writes) s = replay_records-log_entries writes _
replay_records-log_entries ((k, some e) ∷ writes) s = replay_records-log_entries writes _

-- The store writes to a log in memory, which replays to its storage.
pub record IsDurable (s : KvStore) : Type 0 where
  pub held : List LogEntry
  pub batches : ℕ
  pub log : s.log ≡ in_memory held batches
  pub replayed : replay_records held new_storage ≡ s.storage

append-in_memory :
    (records held : List LogEntry) (n : ℕ)
    → (m : ℕ) × (append records (in_memory held n) ≡ in_memory (held ++ records) m)
unfolding append
append-in_memory [] held n = (n, rw append-nil)
append-in_memory (r ∷ records) held n = (n + 1, refl)

make_durable-IsDurable :
    (writes : Dict String (Option Entry)) (s : KvStore)
    → IsDurable s
    → IsDurable (make_durable writes s)
unfolding make_durable
make_durable-IsDurable writes s h =
    let (n, appended) = append-in_memory (log_entries writes) h.held h.batches in
    record {
      held = h.held ++ log_entries writes;
      batches = n;
      log = rw h.log appended;
      replayed =
          replay_records-append h.held (log_entries writes) new_storage
          ∙ rw h.replayed (replay_records-log_entries writes s.storage);
    }

-- Every write-set will do.
abbrev AnyWrites : Dict String (Option Entry) → Type 0
AnyWrites _ = Unit

AnyWrites-IsClosed : IsClosed AnyWrites
AnyWrites-IsClosed = record { none_yet = tt; put_one = λ d k e h. tt; put_all = λ d more h k. tt }

AnyWrites-All : (levels : List Transaction) → All (λ t. AnyWrites t.writes) levels
AnyWrites-All [] = tt
AnyWrites-All (t ∷ levels) = (tt, AnyWrites-All levels)

IsDurable-IsStable : IsStable AnyWrites IsDurable
unfolding set_stack
IsDurable-IsStable = record {
  staged = λ session s h. AnyWrites-All (stack session s);
  restack = λ session levels s w h. record {
    held = h.held;
    batches = h.batches;
    log = h.log;
    replayed = h.replayed;
  };
  durable = λ writes s w h. make_durable-IsDurable writes s h;
  new_id =
      λ ids s h. record { held = h.held; batches = h.batches; log = h.log; replayed = h.replayed };
  new_time =
      λ t s h. record { held = h.held; batches = h.batches; log = h.log; replayed = h.replayed };
}

-- From a store whose log replays to its storage, whatever the sessions do and however their calls
-- interleave, a store restored from the log has the entries and the versions of the store itself.
pub restore_recovers :
    (events : List Event) (s : KvStore) (clock : FakeClock) (ids : SequentialIdGenerator)
    (isolation : IsolationPolicy)
    → IsDurable s
    → (restore clock ids isolation (happen_all events s).log).storage
      ≡ (happen_all events s).storage
unfolding restore replay
restore_recovers events s clock ids isolation h =
    let final =
      happen_all-keeps AnyWrites IsDurable AnyWrites-IsClosed IsDurable-IsStable events s h in
    rw final.log final.replayed
