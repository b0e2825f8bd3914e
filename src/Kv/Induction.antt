-- ===== src/Kv/Induction.antt =====
-- Induction over the events of a store: what holds through a change of one session's savepoints and
-- through a durable write-set holds through every call, whether it returns or raises.
use hld_lld_interview_handbo.Prelude.{ℕ, String, Option, List, [], ◌∷◌, Option-cases, inl, inr, All}
use hld_lld_interview_handbo.Prelude.Int.{ℤ}
use hld_lld_interview_handbo.Dict.{Dict, string_key, put, update}
use hld_lld_interview_handbo.Common.Ids.{SequentialIdGenerator, next_id}
use hld_lld_interview_handbo.Kv
use hld_lld_interview_handbo.Kv.{
  KvStore, stack, rollback_from, make_durable, write_from, write, read, commit_from,
  commit_outermost, observe_top, set_stack,
}
use hld_lld_interview_handbo.Kv.Commands.{
  Event, happen, happen_all, call, begin, commit, rollback, set_clock,
}
use hld_lld_interview_handbo.Kv.Durable.{version}
use hld_lld_interview_handbo.Common.Error.{Result-cases}
use hld_lld_interview_handbo.Kv.Keeps.{step-Keeps}
use hld_lld_interview_handbo.Kv.Models.{Entry}
use hld_lld_interview_handbo.Kv.Transactions.{
  Transaction, new_transaction, stack_lookup, observe, observe_all, stage, merge_into, validate,
}

-- `W` holds of every write-set that the store builds.
pub record IsClosed (W : Dict String (Option Entry) → Type 0) : Type 0 where
  pub none_yet : W []
  pub put_one :
      (d : Dict String (Option Entry)) (k : String) (e : Option Entry) → W d → W (put d k e)
  pub put_all : (d more : Dict String (Option Entry)) → W d → W more → W (update d more)

-- What a predicate on stores has to survive.
pub record IsStable (W : Dict String (Option Entry) → Type 0) (P : KvStore → Type 0) : Type 0 where
  pub staged : (session : ℕ) (s : KvStore) → P s → All (λ t. W t.writes) (stack session s)
  pub restack :
      (session : ℕ) (levels : List Transaction) (s : KvStore)
      → All (λ t. W t.writes) levels
      → P s
      → P (set_stack session levels s)
  pub durable :
      (writes : Dict String (Option Entry)) (s : KvStore)
      → W writes
      → P s
      → P (make_durable writes s)
  pub new_id : (ids : SequentialIdGenerator) (s : KvStore) → P s → P (record s { ids = ids })
  pub new_time : (t : ℤ) (s : KvStore) → P s → P (record s { clock = record { now = t } })

module _ (W : Dict String (Option Entry) → Type 0) (P : KvStore → Type 0) (closed : IsClosed W)
    (stable : IsStable W P) where
  observe_all-W :
      (reads : Dict String ℕ) (t : Transaction) → W t.writes → W (observe_all reads t).writes
  unfolding observe_all observe
  observe_all-W [] t h = h
  observe_all-W ((k, n) ∷ reads) t h = observe_all-W reads (observe k n t) (unfold observe in h)

  module _ (session : ℕ) where
    observe_top-keeps :
        (key : String) (n : ℕ) (levels : List Transaction) (s : KvStore)
        → All (λ t. W t.writes) levels
        → P s
        → P (observe_top session key n levels s)
    unfolding observe_top observe
    observe_top-keeps key n [] s w h = h
    observe_top-keeps key n (t ∷ o) s w h = stable.restack session (observe key n t ∷ o) s w h

    read-keeps : (key : String) (s : KvStore) → P s → P (read session key s).1
    unfolding read
    read-keeps key s h = elim (Option-cases (stack_lookup (stack session s) key)) [
      | inl e ↦
          rw (e, read) (observe_top-keeps key _ (stack session s) s (stable.staged session s h) h)
      | inr (x, e) ↦ rw (e, read) h
    ]

    write_from-keeps :
        (key : String) (e : Option Entry) (levels : List Transaction) (s : KvStore)
        → All (λ t. W t.writes) levels
        → P s
        → P (write_from session levels key e s)
    unfolding write_from stage
    write_from-keeps key e [] s w h =
        stable.durable ((key, e) ∷ []) s (unfold put in closed.put_one [] key e closed.none_yet) h
    write_from-keeps key e (t ∷ o) s w h =
        stable.restack session (stage key e t ∷ o) s (closed.put_one t.writes key e w.0, w.1) h

    write-keeps :
        (key : String) (e : Option Entry) (s : KvStore) → P s → P (write session key e s).1
    unfolding write
    write-keeps key e s h = write_from-keeps key e (stack session s) s (stable.staged session s h) h

    commit_outermost-keeps :
        (t : Transaction) (s : KvStore) → W t.writes → P s → P (commit_outermost t s).1
    unfolding commit_outermost
    commit_outermost-keeps t s w h =
        elim (Result-cases (validate s.isolation (version s.storage) t)) [
          | inl (_, e) ↦ rw (e, commit_outermost) (stable.durable t.writes s w h)
          | inr (_, e) ↦ rw (e, commit_outermost) h
        ]

    commit_from-keeps :
        (levels : List Transaction) (s : KvStore)
        → All (λ t. W t.writes) levels
        → P s
        → P (commit_from session levels s).1
    unfolding commit_from merge_into
    commit_from-keeps [] s w h = h
    commit_from-keeps (t ∷ []) s w h =
        commit_outermost-keeps t (set_stack session [] s) w.0 (stable.restack session [] s tt h)
    commit_from-keeps (t ∷ parent ∷ outer) s (wt, (wp, wo)) h =
        stable.restack session (merge_into t parent ∷ outer) s
          (observe_all-W t.reads _ (closed.put_all parent.writes t.writes wp wt), wo) h

    rollback_from-keeps :
        (levels : List Transaction) (s : KvStore)
        → All (λ t. W t.writes) levels
        → P s
        → P (rollback_from session levels s).1
    unfolding rollback_from
    rollback_from-keeps [] s w h = h
    rollback_from-keeps (t ∷ outer) s w h = stable.restack session outer s w.1 h

  happen-keeps : (e : Event) (s : KvStore) → P s → P (happen e s)
  unfolding happen Kv.commit Kv.rollback Kv.begin
  happen-keeps (call session c) s h =
      step-Keeps session P (read-keeps session) (write-keeps session) c s h
  happen-keeps (begin session) s h =
      let (id, ids) = next_id s.ids in
      stable.restack session (new_transaction id ∷ stack session s) (record s { ids = ids })
        (closed.none_yet, stable.staged session s h) (stable.new_id ids s h)
  happen-keeps (commit session) s h =
      commit_from-keeps session (stack session s) s (stable.staged session s h) h
  happen-keeps (rollback session) s h =
      rollback_from-keeps session (stack session s) s (stable.staged session s h) h
  happen-keeps (set_clock t) s h = stable.new_time t s h

  pub happen_all-keeps : (events : List Event) (s : KvStore) → P s → P (happen_all events s)
  unfolding happen_all
  happen_all-keeps [] s h = h
  happen_all-keeps (e ∷ events) s h = happen_all-keeps events (happen e s) (happen-keeps e s h)
