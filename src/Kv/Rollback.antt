-- ===== src/Kv/Rollback.antt =====
-- A rollback undoes everything since its `begin`, and open work shows in no other session.
use hld_lld_interview_handbo.Prelude.{ℕ, String, ◌≡◌, ◌≢◌, ◌∙◌, refl, ap, Option, none, some, List}
use hld_lld_interview_handbo.Common.Error.{ok}
use hld_lld_interview_handbo.Common.Ids.{Identifier, next_id}
use hld_lld_interview_handbo.Common.Clock.{FakeClock}
use hld_lld_interview_handbo.Kv.{KvStore, stack, begin, commit, rollback}
use hld_lld_interview_handbo.Kv.Commands.{
  Script, finished, then_do, then_commit, then_rollback, step, run,
}
use hld_lld_interview_handbo.Kv.Durable.{storage_get, Storage}
use hld_lld_interview_handbo.Kv.Models.{Entry, unless_expired}
use hld_lld_interview_handbo.Kv.Visible.{peek}
use hld_lld_interview_handbo.Kv.Transactions.{
  Transaction, new_transaction, stack_lookup, merge_into,
}
use hld_lld_interview_handbo.Kv.Savepoints.{
  SameElsewhere, IsOpen, SameElsewhere-trans, set_stack-SameElsewhere, sessions-set_stack,
  set_top-IsOpen, id-merge_into, renamed, step-IsOpen,
}

SameElsewhere-refl : (session : ℕ) (s : KvStore) → SameElsewhere session s s
SameElsewhere-refl session s = record {
  storage = refl;
  log = refl;
  clock = refl;
  isolation = refl;
  others = λ other ne. refl;
}

-- `peek` as a function of what it reads.
abbrev visible : List Transaction → Storage → FakeClock → String → Option Entry
visible levels storage clock key = elim (stack_lookup levels key) [
  | some staged ↦ unless_expired clock.now staged
  | none ↦ storage_get storage key clock.now
]

module _ (session : ℕ) where
  -- A new transaction opens above the stack as it is.
  begin-IsOpen :
      (s : KvStore) → IsOpen session s (stack session s) (next_id s.ids).0 (begin session s).1
  unfolding begin
  begin-IsOpen s =
      let (id, ids) = next_id s.ids in
      let counted = SameElsewhere-refl session s in
      set_top-IsOpen session s (stack session s) (new_transaction id) (record s { ids = ids })
        (record {
          storage = counted.storage;
          log = counted.log;
          clock = counted.clock;
          isolation = counted.isolation;
          others = counted.others;
        })

  module _ (base : KvStore) (outer : List Transaction) (id inner_id : Identifier)
      (s s' : KvStore) where
    -- An inner commit or rollback closes the savepoint on top.
    commit-IsOpen :
        IsOpen session base outer id s
        → IsOpen session s (stack session s) inner_id s'
        → IsOpen session base outer id (commit session s').1
    unfolding commit
    commit-IsOpen h inner =
        rw (inner.levels, h.levels, commit)
          (renamed session base outer (merge_into inner.top h.top) id s'
            (id-merge_into inner.top h.top ∙ h.name)
            (SameElsewhere-trans h.elsewhere inner.elsewhere))

    rollback-IsOpen :
        IsOpen session base outer id s
        → IsOpen session s (stack session s) inner_id s'
        → IsOpen session base outer id (rollback session s').1
    unfolding rollback
    rollback-IsOpen h inner =
        rw (inner.levels, h.levels, rollback)
          (renamed session base outer h.top id s' h.name
            (SameElsewhere-trans h.elsewhere inner.elsewhere))

  pub run-IsOpen :
      (script : Script) (base : KvStore) (outer : List Transaction) (id : Identifier) (s : KvStore)
      → IsOpen session base outer id s
      → IsOpen session base outer id (run session script s)
  unfolding run
  run-IsOpen finished base outer id s h = h
  run-IsOpen (then_do c rest) base outer id s h =
      run-IsOpen rest base outer id (step session c s) (step-IsOpen session base outer id c s h)
  run-IsOpen (then_commit body rest) base outer id s h =
      let inner = run-IsOpen body s (stack session s) _ (begin session s).1 (begin-IsOpen s) in
      run-IsOpen rest base outer id _ (commit-IsOpen base outer id _ s _ h inner)
  run-IsOpen (then_rollback body rest) base outer id s h =
      let inner = run-IsOpen body s (stack session s) _ (begin session s).1 (begin-IsOpen s) in
      run-IsOpen rest base outer id _ (rollback-IsOpen base outer id _ s _ h inner)

  rollback_restores :
      (id : Identifier) (s s' : KvStore)
      → IsOpen session s (stack session s) id s'
      → ((rollback session s').0 ≡ ok id)
        × SameElsewhere session s (rollback session s').1
        × (stack session (rollback session s').1 ≡ stack session s)
  unfolding rollback
  rollback_restores id s s' h =
      rw (h.levels, rollback)
        (
          ap ok h.name,
          set_stack-SameElsewhere session s (stack session s) s' h.elsewhere,
          sessions-set_stack session (stack session s) s',
        )

  begin-id : (s : KvStore) → (begin session s).0 ≡ ok (next_id s.ids).0
  unfolding begin
  begin-id s = refl

  -- Whatever a session does between a `begin` and its rollback, inner transactions included, the
  -- rollback does not raise: it returns the identifier that the `begin` returned. It leaves the
  -- storage, the log, the clock and every session's savepoints as they were before the `begin`.
  pub rollback_undoes :
      (script : Script) (s : KvStore)
      → (id : Identifier) × ((begin session s).0 ≡ ok id)
        × ((rollback session (run session script (begin session s).1)).0 ≡ ok id)
        × SameElsewhere session s (rollback session (run session script (begin session s).1)).1
        × (stack session (rollback session (run session script (begin session s).1)).1
            ≡ stack session s)
  rollback_undoes script s =
      let (returned, elsewhere, levels) =
        rollback_restores _ s _ (run-IsOpen script s (stack session s) _ _ (begin-IsOpen s)) in
      ((next_id s.ids).0, begin-id s, returned, elsewhere, levels)

  -- While a session's transaction is open, whatever it does in it, every other session reads every
  -- key as it did before the transaction began.
  pub no_dirty_reads :
      (script : Script) (s : KvStore) (other : ℕ) (key : String)
      → session ≢ other
      → peek other (run session script (begin session s).1) key ≡ peek other s key
  unfolding peek
  no_dirty_reads script s other key ne =
      let same = (run-IsOpen script s (stack session s) _ _ (begin-IsOpen s)).elsewhere in
      λ i. visible (same.others other ne i) (same.storage i) (same.clock i) key
