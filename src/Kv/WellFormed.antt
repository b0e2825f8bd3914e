-- ===== src/Kv/WellFormed.antt =====
-- No dict of a reachable store lists a key twice, and versions only grow.
use hld_lld_interview_handbo.Prelude.{
  ℕ, String, ◌≡◌, ◌≤◌, ◌+◌, Option, none, some, List, [], ◌∷◌, arith, All, ℕ_discrete, if_pos,
  if_neg,
}
use hld_lld_interview_handbo.Dict.{Dict, string_key}
use hld_lld_interview_handbo.Dict.Laws.{IsDict, put-IsDict, remove-IsDict, update-IsDict, get-put}
use hld_lld_interview_handbo.Common.Clock.{FakeClock}
use hld_lld_interview_handbo.Common.Error.{ok}
use hld_lld_interview_handbo.Common.Ids.{Identifier, SequentialIdGenerator}
use hld_lld_interview_handbo.Kv.{
  KvStore, new_store, stack, set_stack, commit, apply_writes, make_durable,
}
use hld_lld_interview_handbo.Kv.Commands.{Event, happen_all}
use hld_lld_interview_handbo.Kv.Commits.{peek-commit}
use hld_lld_interview_handbo.Kv.Durable.{
  Storage, AppendOnlyLog, version, storage_set, storage_delete,
}
use hld_lld_interview_handbo.Kv.Induction.{IsClosed, IsStable, happen_all-keeps}
use hld_lld_interview_handbo.Kv.Models.{Entry}
use hld_lld_interview_handbo.Kv.Transactions.{IsolationPolicy, Transaction}
use hld_lld_interview_handbo.Kv.Visible.{peek}

pub record IsWellFormed (s : KvStore) : Type 0 where
  pub entries : IsDict s.storage.entries
  pub writes : (session : ℕ) → All (λ t. IsDict t.writes) (s.sessions session)

apply_writes-IsDict :
    (writes : Dict String (Option Entry)) (s : Storage)
    → IsDict s.entries
    → IsDict (apply_writes writes s).entries
unfolding apply_writes storage_set storage_delete
apply_writes-IsDict [] s h = h
apply_writes-IsDict ((k, none) ∷ writes) s h =
    apply_writes-IsDict writes (storage_delete k s) (ground (arith, remove-IsDict s.entries k h))
apply_writes-IsDict ((k, some e) ∷ writes) s h =
    apply_writes-IsDict writes (storage_set k e s) (put-IsDict s.entries k e h)

abbrev IsWriteSet : Dict String (Option Entry) → Type 0
IsWriteSet d = IsDict d

IsWriteSet-IsClosed : IsClosed IsWriteSet
IsWriteSet-IsClosed = record {
  none_yet = tt;
  put_one = λ d k e h. put-IsDict d k e h;
  put_all = λ d more h k. update-IsDict d more h;
}

restacked :
    (session : ℕ) (levels : List Transaction) (s : KvStore)
    → All (λ t. IsDict t.writes) levels
    → ((i : ℕ) → All (λ t. IsDict t.writes) (s.sessions i))
    → (i : ℕ) → All (λ t. IsDict t.writes) ((set_stack session levels s).sessions i)
unfolding set_stack
restacked session levels s w h i = elim (ℕ_discrete session i) [
  | yes p ↦ rw (if_pos _ p) w
  | no p ↦ rw (if_neg _ p) (h i)
]

IsWellFormed-IsStable : IsStable IsWriteSet IsWellFormed
unfolding set_stack make_durable
IsWellFormed-IsStable = record {
  staged = λ session s h. h.writes session;
  restack = λ session levels s w h. record {
    entries = h.entries;
    writes = restacked session levels s w h.writes;
  };
  durable = λ writes s w h. record {
    entries = apply_writes-IsDict writes s.storage h.entries;
    writes = h.writes;
  };
  new_id = λ ids s h. record { entries = h.entries; writes = h.writes };
  new_time = λ t s h. record { entries = h.entries; writes = h.writes };
}

module _ (clock : FakeClock) (ids : SequentialIdGenerator) (isolation : IsolationPolicy)
    (log : AppendOnlyLog) where
  -- After any events of a new store, no dict of the store lists a key twice.
  pub happen_all-IsWellFormed :
      (events : List Event) → IsWellFormed (happen_all events (new_store clock ids isolation log))
  happen_all-IsWellFormed events =
      happen_all-keeps IsWriteSet IsWellFormed IsWriteSet-IsClosed IsWellFormed-IsStable events
        (new_store clock ids isolation log) (record { entries = tt; writes = λ session. tt })

  -- In every reachable store a commit that succeeds, inner or outermost, leaves each key reading to
  -- its session as it did before the commit.
  pub commit_keeps_view :
      (events : List Event) (session : ℕ) (i : Identifier) (key : String)
      → let s = happen_all events (new_store clock ids isolation log) in
        (commit session s).0 ≡ ok i → peek session (commit session s).1 key ≡ peek session s key
  commit_keeps_view events session i key r =
      peek-commit session _ i key ((happen_all-IsWellFormed events).writes session) r

-- Writes never lower a version.
version-apply_writes :
    (writes : Dict String (Option Entry)) (s : Storage) (k : String)
    → version s k ≤ version (apply_writes writes s) k
unfolding apply_writes storage_set storage_delete version
version-apply_writes [] s k = omega arith
version-apply_writes ((j, none) ∷ writes) s k = ground (
  arith,
  version-apply_writes writes (storage_delete j s) k,
  get-put s.versions j (version s j + 1) k,
)
version-apply_writes ((j, some e) ∷ writes) s k = ground (
  arith,
  version-apply_writes writes (storage_set j e s) k,
  get-put s.versions j (version s j + 1) k,
)

abbrev AnyWrites : Dict String (Option Entry) → Type 0
AnyWrites _ = Unit

AnyWrites-All : (levels : List Transaction) → All (λ t. AnyWrites t.writes) levels
AnyWrites-All [] = tt
AnyWrites-All (t ∷ levels) = (tt, AnyWrites-All levels)

abbrev AtLeast : String → ℕ → KvStore → Type 0
AtLeast key n s = n ≤ version s.storage key

AtLeast-IsStable : (key : String) (n : ℕ) → IsStable AnyWrites (AtLeast key n)
unfolding set_stack make_durable
AtLeast-IsStable key n = record {
  staged = λ session s h. AnyWrites-All (stack session s);
  restack = λ session levels s w h. h;
  durable = λ writes s w h. omega (arith, version-apply_writes writes s.storage key);
  new_id = λ ids s h. h;
  new_time = λ t s h. h;
}

-- Whatever the sessions do, the committed version of a key never falls.
pub versions_grow :
    (events : List Event) (s : KvStore) (key : String)
    → version s.storage key ≤ version (happen_all events s).storage key
versions_grow events s key =
    happen_all-keeps AnyWrites (AtLeast key (version s.storage key))
      (record { none_yet = tt; put_one = λ d k e h. tt; put_all = λ d more h k. tt })
      (AtLeast-IsStable key (version s.storage key)) events s (omega arith)
