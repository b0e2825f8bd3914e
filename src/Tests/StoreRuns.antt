-- ===== src/Tests/StoreRuns.antt =====
-- A store with two sessions.
use mathlib.Core.Path.{subst}
use hld_lld_interview_handbo.Dict.Laws.{IsDict}
use hld_lld_interview_handbo.Prelude.{
  ◌≡◌, sym, All, ◌≢◌, refl, ℕ, none, some, List, [], ◌∷◌, ite, string_dec, arith, ℕ_discrete,
}
use hld_lld_interview_handbo.Prelude.Int.{pos, ◌+ℤ◌, neg}
use hld_lld_interview_handbo.Dict
use hld_lld_interview_handbo.Dict.{string_key, put, update}
use hld_lld_interview_handbo.Common.Error.{ok}
use hld_lld_interview_handbo.Common.Clock.{FakeClock}
use hld_lld_interview_handbo.Common.Ids.{Identifier, SequentialIdGenerator, next_id}
use hld_lld_interview_handbo.Kv
use hld_lld_interview_handbo.Kv.{
  KvStore, new_store, stack, set_stack, restore, make_durable, as_int,
}
use hld_lld_interview_handbo.Kv.Models.{int, str, is_expired, log_entry}
use hld_lld_interview_handbo.Kv.Transactions.{
  Transaction, optimistic, stack_lookup, stage, lookup, merge_into, observe, observe_all, unchanged,
  validate,
}
use hld_lld_interview_handbo.Kv.Durable.{
  in_memory, version, append, storage_get, storage_set, storage_delete,
}
use hld_lld_interview_handbo.Kv.Visible.{peek}
use hld_lld_interview_handbo.Kv.Commands.{
  Command, set, incr, delete, get, Script, finished, then_do, then_commit, then_rollback, run,
  Event, call, happen_all,
}
use hld_lld_interview_handbo.Kv.Commands
use hld_lld_interview_handbo.Kv.Rollback.{rollback_undoes, no_dirty_reads}
use hld_lld_interview_handbo.Kv.Savepoints.{SameElsewhere}
use hld_lld_interview_handbo.Kv.Recovery.{restore_recovers}
use hld_lld_interview_handbo.Kv.WellFormed.{commit_keeps_view}
use hld_lld_interview_handbo.Kv.Outcomes.{IsCommitted, commit-IsCommitted}
use hld_lld_interview_handbo.Kv.Answers.{get-set, value_of}

abbrev clock : FakeClock
clock = record { now = pos 100 }

abbrev ids : SequentialIdGenerator
ids = record { prefix = "txn"; counter = 1 }

abbrev store : KvStore
store = new_store clock ids optimistic (in_memory [] 0)

-- Session 0 counts up in a transaction with an inner one; session 1 writes the same key meanwhile.
abbrev events : List Event
events =
    call 1 (set "hits" (int (pos 4)) none)
    ∷ Commands.begin 0
    ∷ call 0 (incr "hits" (pos 1))
    ∷ Commands.begin 0
    ∷ call 0 (set "name" (str "a") (some (pos 60)))
    ∷ []

abbrev conflicting : List Event
conflicting = call 1 (set "hits" (int (pos 9)) none) ∷ Commands.commit 0 ∷ Commands.commit 0 ∷ []

abbrev script : Script
script = then_do (set "hits" (int (pos 7)) none) (
    then_commit (then_do (incr "hits" (pos 1)) finished)
      (then_rollback (then_do (delete "hits") finished) finished))

abbrev reached : KvStore
reached = happen_all events store

rollback_undoes_example :
    (id : Identifier) × ((Kv.begin 0 reached).0 ≡ ok id)
    × ((Kv.rollback 0 (run 0 script (Kv.begin 0 reached).1)).0 ≡ ok id)
    × SameElsewhere 0 reached (Kv.rollback 0 (run 0 script (Kv.begin 0 reached).1)).1
    × (stack 0 (Kv.rollback 0 (run 0 script (Kv.begin 0 reached).1)).1 ≡ stack 0 reached)
rollback_undoes_example = rollback_undoes 0 script reached

one_two : (x y : ℕ) → x ≡ 0 → y ≡ 1 → x ≢ y
one_two x y p q e = absurd (omega (arith, e, p, q))

no_dirty_reads_example : peek 1 (run 0 script (Kv.begin 0 reached).1) "hits" ≡ peek 1 reached "hits"
no_dirty_reads_example = no_dirty_reads 0 script reached 1 "hits" (one_two 0 1 refl refl)

restore_recovers_example :
    (restore clock ids optimistic (happen_all events store).log).storage
    ≡ (happen_all events store).storage
restore_recovers_example =
    restore_recovers events store clock ids optimistic
      (record { held = []; batches = 0; log = refl; replayed = unfold Kv.replay_records in refl })

get-set_example :
    ((Kv.set 0 "hits" (int (pos 8)) (some (pos 60)) reached).0 ≡ ok tt)
    × ((Kv.get 0 "hits"
          (some (str "none"))
          (Kv.set 0 "hits" (int (pos 8)) (some (pos 60)) reached).1).0
        ≡ ite
            (string_dec "hits" "hits")
            (ok (some (int (pos 8))))
            (Kv.get 0 "hits" (some (str "none")) reached).0)
get-set_example =
    get-set 0 "hits" (int (pos 8)) (some (pos 60)) reached "hits" (some (str "none"))
      (unfold Kv.is_empty in refl) (omega arith)

-- Session 0 has counted to 5 in its open transaction.
counted : as_int (peek 0 reached "hits") ≡ ok (pos 5)
unfolding happen_all as_int peek stack_lookup Commands.happen Commands.step Kv.set Kv.write Kv.begin
    ℕ_discrete Dict.get stage put string_dec Kv.incr Kv.read make_durable storage_get next_id
    Dict.remove update append storage_delete storage_set version is_expired log_entry lookup
    merge_into observe observe_all unchanged validate Kv.apply_writes Kv.commit Kv.commit_outermost
    Kv.is_empty Kv.read_for_incr set_stack Kv.write_from neg ◌+ℤ◌
counted = refl

named : value_of (peek 0 reached "name") ≡ some (str "a")
unfolding happen_all as_int peek stack_lookup Commands.happen Commands.step Kv.set Kv.write Kv.begin
    ℕ_discrete Dict.get stage put string_dec Kv.incr Kv.read make_durable storage_get next_id
    Dict.remove update append storage_delete storage_set version is_expired log_entry lookup
    merge_into observe observe_all unchanged validate Kv.apply_writes Kv.commit Kv.commit_outermost
    Kv.is_empty Kv.read_for_incr set_stack Kv.write_from neg ◌+ℤ◌
named = refl

committed : (Kv.commit 0 reached).0 ≡ ok (record { prefix = "txn"; number = 2 })
unfolding happen_all as_int peek stack_lookup Commands.happen Commands.step Kv.set Kv.write Kv.begin
    ℕ_discrete Dict.get stage put string_dec Kv.incr Kv.read make_durable storage_get next_id
    Dict.remove update append storage_delete storage_set version is_expired log_entry lookup
    merge_into observe observe_all unchanged validate Kv.apply_writes Kv.commit Kv.commit_outermost
    Kv.is_empty Kv.read_for_incr set_stack Kv.write_from neg ◌+ℤ◌
committed = refl

commit_keeps_view_example : peek 0 (Kv.commit 0 reached).1 "name" ≡ peek 0 reached "name"
commit_keeps_view_example =
    commit_keeps_view clock ids optimistic (in_memory [] 0) events 0
      (record { prefix = "txn"; number = 2 }) "name" committed

-- Session 0 has read the key and session 1 has written it since.
abbrev late : KvStore
late =
    happen_all
      (Commands.begin 0
        ∷ call 0 (incr "hits" (pos 1))
        ∷ call 1 (set "hits" (int (pos 9)) none)
        ∷ [])
      store

abbrev stale : Transaction
stale = record {
  id = record { prefix = "txn"; number = 1 };
  writes = ("hits", some (record { value = int (pos 1); expires_at = none })) ∷ [];
  reads = ("hits", 0) ∷ [];
}

late-stack : stack 0 late ≡ stale ∷ []
unfolding happen_all as_int peek stack_lookup Commands.happen Commands.step Kv.set Kv.write Kv.begin
    ℕ_discrete Dict.get stage put string_dec Kv.incr Kv.read make_durable storage_get next_id
    Dict.remove update append storage_delete storage_set version is_expired log_entry lookup
    merge_into observe observe_all unchanged validate Kv.apply_writes Kv.commit Kv.commit_outermost
    Kv.is_empty Kv.read_for_incr set_stack Kv.write_from neg ◌+ℤ◌
late-stack = refl

stale-IsDict : All (λ t. IsDict t.writes) (stale ∷ [])
unfolding Dict.get
stale-IsDict = ((refl, tt), tt)

late-IsDict : All (λ t. IsDict t.writes) (stack 0 late)
late-IsDict =
    subst (λ (levels : List Transaction). All (λ t. IsDict t.writes) levels) (sym late-stack)
      stale-IsDict

commit-IsCommitted_example : IsCommitted 0 (stack 0 late) late (Kv.commit 0 late)
commit-IsCommitted_example = commit-IsCommitted 0 late late-IsDict
